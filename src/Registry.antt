-- ===== src/Registry.antt =====
-- llprofcommon/call_tree.cpp, the record types that a language binding registers and the ones that
-- LLPROF_RECORDS makes active.
pub mod Slots
pub mod Selection
pub mod Examples
use llprof.Base.{
  ℕ, suc, ◌+◌, ◌-◌, Bool, true, false, Option, none, some, List, [], ◌∷◌, ◌++◌, Text, text_eq,
  split, length, get_elem?, if◌then◌else◌,
}

-- `pvtype_t`. A counter has a function that reads it; an event has none. `record_index` is `none`
-- for -1.
pub record PvType : Type 0 where
  pub record_type_id : Text
  pub record_type_name : Text
  pub is_counter : Bool
  pub record_index : Option ℕ

-- `g_records` and `g_active_records`
pub record Registry : Type 0 where
  pub records : List PvType
  pub active : List ℕ

abbrev pub no_records : Registry
no_records = record { records = []; active = [] }

pub add_counter_pv : Text → Text → Registry → ℕ × Registry
add_counter_pv id name g = (
  length g.records,
  record g {
    records =
        g.records
        ++ record {
          record_type_id = id;
          record_type_name = name;
          is_counter = true;
          record_index = none;
        }
          ∷ [];
  },
)

pub add_event_pv : Text → Text → Registry → ℕ × Registry
add_event_pv id name g = (
  length g.records,
  record g {
    records =
        g.records
        ++ record {
          record_type_id = id;
          record_type_name = name;
          is_counter = false;
          record_index = none;
        }
          ∷ [];
  },
)

-- The search from index `i` on; `none` is -1.
index_from : List PvType → ℕ → Text → Option ℕ
index_from [] i id = none
index_from (r ∷ rs) i id = elim (text_eq r.record_type_id id) [
  | true ↦ some i
  | false ↦ index_from rs (i + 1) id
]

unfoldable pub get_pvt_index_from_name : Text → Registry → Option ℕ
unfolding index_from
get_pvt_index_from_name id g = index_from g.records 0 id

abbrev is_set : Option ℕ → Bool
is_set none = false
is_set (some i) = true

-- `none` is an access out of bounds.
unfoldable pub is_pvt_enabled : ℕ → Registry → Option Bool
is_pvt_enabled pvt g = elim (get_elem? g.records pvt) [
  | none ↦ none
  | some r ↦ some (is_set r.record_index)
]

-- The result beside the registry is the slot, `none` for -1.
activate : ℕ → PvType → Registry → Option ℕ × Registry
activate i r g =
    if is_set r.record_index
    then (none, g)
    else if r.is_counter
    then (some (length g.active), record g { active = g.active ++ i ∷ i ∷ [] })
    else (some (length g.active), record g { active = g.active ++ i ∷ [] })

unfoldable pub add_active_record : Text → Registry → Option ℕ × Registry
unfolding activate get_pvt_index_from_name
add_active_record id g = elim (get_pvt_index_from_name id g) [
  | none ↦ (none, g)
  | some i ↦ elim (get_elem? g.records i) [ none ↦ (none, g) | some r ↦ activate i r g ]
]

add_all : List Text → Registry → Registry
add_all [] g = g
add_all (id ∷ ids) g = add_all ids (add_active_record id g).1

-- The argument is a C string or NULL.
unfoldable pub set_record_string : Option Text → Registry → Registry
unfolding add_all
set_record_string none g = g
set_record_string (some s) g = add_all (split b' ' s) g
