-- ===== src/NameTable.antt =====
-- llprofcommon/class_table.cpp, the table from name ids to names. The mutex calls are comments there.
use llprof.Base.{
  ℕ, Option, none, some, Map, find, insert, find-insert, Text, codes, ◌≡◌, refl, arith, ◌==◌,
  if◌then◌else◌,
}

abbrev pub null_str : Text
null_str = codes "(ERR)"

-- A C string is copied; NULL gives a constant.
unfoldable pub new_str : Option Text → Text
new_str none = codes "(null)"
new_str (some s) = s

-- `name` is what `llprof_call_name_func` returns for the key.
unfoldable pub add_cb : ℕ → Option Text → Map Text → Map Text
unfolding new_str
add_cb key name table = elim (find key table) [
  | none ↦ insert key (new_str name) table
  | some _ ↦ table
]

unfoldable pub get : ℕ → Map Text → Text
get entry table = elim (find entry table) [ none ↦ null_str | some s ↦ s ]

-- The name of a key, as the table's entries are.
abbrev pub named : ℕ → Map Text → Text
named id table = elim (find id table) [ none ↦ codes "(ERR)" | some s ↦ s ]

pub get-named : (id : ℕ) (table : Map Text) → get id table ≡ named id table
unfolding get
get-named id table = refl

-- The first name that is given to a key stays: after `add_cb`, the key has its old name if it had
-- one, and if not the text of the new one, (null) for NULL; every other key has the name it had,
-- (ERR) if it has none.
pub get-add_cb :
    (k j : ℕ) (name : Option Text) (table : Map Text)
    → get j (add_cb k name table) ≡ (
        if k == j
        then elim (find k table) [
          | none ↦ elim name [ none ↦ codes "(null)" | some s ↦ s ]
          | some s ↦ s
        ]
        else named j table)
unfolding get add_cb new_str
get-add_cb k j none table = ground (arith, find-insert k j (codes "(null)") table)
get-add_cb k j (some s) table = ground (arith, find-insert k j s table)
