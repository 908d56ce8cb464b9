-- ===== src/Registry/Selection.antt =====
-- llprofcommon/call_tree.cpp: the selection by LLPROF_RECORDS, and the marks of enabled record types.
use llprof.Base.{
  ℕ, zero, suc, ◌+◌, ◌<◌, ◌≡◌, refl, ap, ◌∙◌, sym, Bool, true, false, text_eq, Bool-cases, subst,
  Option, none, some, List, [], ◌∷◌, ◌++◌, Text, split, length, get_elem?, get_elem?-of_lt,
  if◌then◌else◌, arith, inl, inr,
}
use mathlib.Core.List.{append-nil, append_assoc}
use llprof.Registry.{
  PvType, Registry, no_records, add_counter_pv, add_event_pv, index_from, is_pvt_enabled,
  add_active_record, add_all, set_record_string,
}

-- Every record type has the index -1.
abbrev pub Unset : List PvType → Type 0
Unset [] = Unit {0}
Unset (r ∷ rs) = (r.record_index ≡ none) × Unset rs

Unset-append : (rs qs : List PvType) → Unset rs → Unset qs → Unset (rs ++ qs)
Unset-append [] qs h k = k
Unset-append (r ∷ rs) qs h k = (h.0, Unset-append rs qs h.1 k)

record_index-Unset :
    (rs : List PvType) (i : ℕ) {r : PvType}
    → Unset rs
    → get_elem? rs i ≡ some r
    → r.record_index ≡ none
record_index-Unset [] i h e = absurd (cc)
record_index-Unset (q ∷ rs) zero h e = ground arith
record_index-Unset (q ∷ rs) (suc i) h e = record_index-Unset rs i h.1 e

records-add_active_record :
    (id : Text) (g : Registry) → (add_active_record id g).1.records ≡ g.records
unfolding add_active_record
records-add_active_record id g = ground arith

records-add_all : (ids : List Text) (g : Registry) → (add_all ids g).records ≡ g.records
unfolding add_all
records-add_all [] g = refl
records-add_all (id ∷ ids) g =
    records-add_all ids (add_active_record id g).1 ∙ records-add_active_record id g

-- How a program may change the registry.
pub data Setup : Type 0 where
  counter : Text → Text → Setup
  event : Text → Text → Setup
  select : Option Text → Setup

unfoldable pub set_up : List Setup → Registry → Registry
set_up [] g = g
set_up (counter id name ∷ ss) g = set_up ss (add_counter_pv id name g).1
set_up (event id name ∷ ss) g = set_up ss (add_event_pv id name g).1
set_up (select s ∷ ss) g = set_up ss (set_record_string s g)

records-set_record_string :
    (s : Option Text) (g : Registry) → (set_record_string s g).records ≡ g.records
unfolding set_record_string
records-set_record_string none g = refl
records-set_record_string (some s) g = records-add_all (split b' ' s) g

pub set_up-Unset : (ss : List Setup) (g : Registry) → Unset g.records → Unset (set_up ss g).records
unfolding set_up add_counter_pv add_event_pv
set_up-Unset [] g h = h
set_up-Unset (counter id name ∷ ss) g h = set_up-Unset ss _ (Unset-append g.records _ h (refl, tt))
set_up-Unset (event id name ∷ ss) g h = set_up-Unset ss _ (Unset-append g.records _ h (refl, tt))
set_up-Unset (select s ∷ ss) g h = set_up-Unset ss _ (rw (records-set_record_string s g) h)

-- Whatever record types are registered and selected, in whatever order, no record type is reported
-- as enabled: of each index in range the answer is false.
pub is_pvt_enabled-set_up :
    (ss : List Setup) (pvt : ℕ)
    → pvt < length (set_up ss no_records).records
    → is_pvt_enabled pvt (set_up ss no_records) ≡ some false
unfolding is_pvt_enabled
is_pvt_enabled-set_up ss pvt h =
    let (r, e) = get_elem?-of_lt (set_up ss no_records).records pvt h in
    ground (arith, e, record_index-Unset _ pvt (set_up-Unset ss no_records tt) e)

-- What a program registers, in order: the id, and true for a counter, false for an event.
unfoldable pub kinds : List Setup → List (Text × Bool)
kinds [] = []
kinds (counter id name ∷ ss) = (id, true) ∷ kinds ss
kinds (event id name ∷ ss) = (id, false) ∷ kinds ss
kinds (select s ∷ ss) = kinds ss

-- The slots of the first kind with an id, which is the `i`-th or one behind it: two for a counter,
-- one for an event, none where there is none.
unfoldable pub slots_of : ℕ → List (Text × Bool) → Text → List ℕ
slots_of i [] id = []
slots_of i ((id', is_counter) ∷ ks) id = elim (text_eq id' id) [
  | true ↦ if is_counter then i ∷ i ∷ [] else i ∷ []
  | false ↦ slots_of (i + 1) ks id
]

-- The slots that the words of LLPROF_RECORDS stand for.
unfoldable pub slots : List (Text × Bool) → List Text → List ℕ
slots ks [] = []
slots ks (id ∷ ids) = slots_of 0 ks id ++ slots ks ids

pub kinds_of : List PvType → List (Text × Bool)
kinds_of [] = []
kinds_of (r ∷ rs) = (r.record_type_id, r.is_counter) ∷ kinds_of rs

kinds_of-append :
    (rs : List PvType) (r : PvType)
    → kinds_of (rs ++ r ∷ []) ≡ kinds_of rs ++ (r.record_type_id, r.is_counter) ∷ []
unfolding kinds_of
kinds_of-append [] r = refl
kinds_of-append (q ∷ rs) r = ap (◌∷◌ (q.record_type_id, q.is_counter)) (kinds_of-append rs r)

-- The records of the registry are what was registered.
kinds_of-set_up :
    (ss : List Setup) (g : Registry)
    → kinds_of (set_up ss g).records ≡ kinds_of g.records ++ kinds ss
unfolding kinds set_up add_counter_pv add_event_pv
kinds_of-set_up [] g = sym (append-nil (kinds_of g.records))
kinds_of-set_up (counter id name ∷ ss) g =
    kinds_of-set_up ss (add_counter_pv id name g).1
    ∙ ap (λ ks. ks ++ kinds ss) (kinds_of-append g.records _)
    ∙ append_assoc (kinds_of g.records) ((id, true) ∷ []) (kinds ss)
kinds_of-set_up (event id name ∷ ss) g =
    kinds_of-set_up ss (add_event_pv id name g).1
    ∙ ap (λ ks. ks ++ kinds ss) (kinds_of-append g.records _)
    ∙ append_assoc (kinds_of g.records) ((id, false) ∷ []) (kinds ss)
kinds_of-set_up (select s ∷ ss) g =
    kinds_of-set_up ss (set_record_string s g)
    ∙ ap (λ rs. kinds_of rs ++ kinds ss) (records-set_record_string s g)

-- The search finds nothing, or the record type with the slots of the first kind.
data Found (rs : List PvType) (k : ℕ) (id : Text) : Type 0 where
  missing : index_from rs k id ≡ none → slots_of k (kinds_of rs) id ≡ [] → Found rs k id
  found :
      (i j : ℕ) (r : PvType)
      → j ≡ k + i
      → index_from rs k id ≡ some j
      → get_elem? rs i ≡ some r
      → slots_of k (kinds_of rs) id ≡ (if r.is_counter then j ∷ j ∷ [] else j ∷ [])
      → Found rs k id

index_from-Found : (rs : List PvType) (k : ℕ) (id : Text) → Found rs k id
unfolding index_from slots_of kinds_of
index_from-Found [] k id = missing refl refl
index_from-Found (q ∷ rs) k id = elim (Bool-cases (text_eq q.record_type_id id)) [
  | inl e ↦ found 0 k q (omega arith) (rw (e, index_from) refl) refl (rw (e, slots_of) refl)
  | inr e ↦ elim (index_from-Found rs (k + 1) id) [
    | missing away nothing ↦ missing (rw (e, index_from) away) (rw (e, slots_of) nothing)
    | found i j r far at here two ↦
        found (suc i) j r (omega (arith, far)) (rw (e, index_from) at) here (rw (e, slots_of) two)
  ]
]

active-add_active_record :
    (id : Text) (g : Registry)
    → Unset g.records
    → (add_active_record id g).1.active ≡ g.active ++ slots_of 0 (kinds_of g.records) id
unfolding add_active_record
active-add_active_record id g h = elim (index_from-Found g.records 0 id) [
  | missing e s ↦ rw s (ground (arith, e, append-nil g.active))
  | found i j r far e f s ↦
      let same : i ≡ j = omega (arith, far) in
      let at : get_elem? g.records j ≡ some r =
        subst (λ n. get_elem? g.records n ≡ some r) same f in
      rw s (ground (arith, e, at, record_index-Unset g.records j h at))
]

active-add_all :
    (ids : List Text) (g : Registry)
    → Unset g.records
    → (add_all ids g).active ≡ g.active ++ slots (kinds_of g.records) ids
unfolding add_all slots
active-add_all [] g h = sym (append-nil g.active)
active-add_all (id ∷ ids) g h =
    let q = (add_active_record id g).1 in
    let e = records-add_active_record id g in
    let h' : Unset q.records = rw e h in
    active-add_all ids q h'
    ∙ (rw (active-add_active_record id g h, e)
        (append_assoc g.active (slots_of 0 (kinds_of g.records) id)
          (slots (kinds_of g.records) ids)))

-- However the record types were registered and selected before, LLPROF_RECORDS appends the slots of
-- its words in order: two for each word that names a counter, one for each that names an event, none
-- for one that names nothing, with the number of the first record type that was registered under the
-- name. A name that stands twice, or that is active already, is given slots again.
pub active-set_record_string :
    (ss : List Setup) (s : Text)
    → let g = set_up ss no_records in
      (set_record_string (some s) g).active ≡ g.active ++ slots (kinds ss) (split b' ' s)
unfolding set_record_string kinds kinds_of
active-set_record_string ss s =
    active-add_all (split b' ' s) (set_up ss no_records) (set_up-Unset ss no_records tt)
    ∙ ap (λ ks. (set_up ss no_records).active ++ slots ks (split b' ' s))
        (kinds_of-set_up ss no_records)
