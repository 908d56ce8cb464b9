-- ===== src/Webmon/SliceLookup.antt =====
-- What `GetTimeSlice` leaves of the nodes in the slices of a thread.
use llprof.Base.{
  ℕ, zero, suc, ◌-◌, ◌<◌, ◌≡◌, refl, sym, ap, ◌∙◌, true, false, Option, none, some, List, [], ◌∷◌,
  ◌++◌, Map, length, get_elem?, modify, replicate, length-append, length-replicate, get_elem?-of_lt,
  get_elem?-modify_self, ltb_cases, ltb, if◌then◌else◌, inl, inr, arith,
}
use llprof.Webmon.Slices.{
  Node, TimeSlice, Slices, empty_slice, started, grown, started_slice, get_time_slice,
}

abbrev pub tree_or : Option TimeSlice → Map Node
tree_or none = []
tree_or (some tss) = tss.tree

-- The nodes of the time `t`: those of its slice, none when it has no slice.
abbrev pub tree_at : ℕ → Slices → Map Node
tree_at t s =
    if ltb t s.start_time_number
    then []
    else tree_or (get_elem? s.time_slice (t - s.start_time_number))

tree_replicate : (k i : ℕ) → tree_or (get_elem? (replicate k empty_slice) i) ≡ []
tree_replicate zero i = refl
tree_replicate (suc k) zero = refl
tree_replicate (suc k) (suc i) = tree_replicate k i

tree_append :
    (xs : List TimeSlice) (k i : ℕ)
    → tree_or (get_elem? (xs ++ replicate k empty_slice) i) ≡ tree_or (get_elem? xs i)
tree_append [] k i = tree_replicate k i
tree_append (x ∷ xs) k zero = refl
tree_append (x ∷ xs) k (suc i) = tree_append xs k i

tree_grown :
    (n i : ℕ) (xs : List TimeSlice) → tree_or (get_elem? (grown n xs) i) ≡ tree_or (get_elem? xs i)
tree_grown n i xs = ground (arith, tree_append xs (suc n - length xs) i)

tree_modify :
    (xs : List TimeSlice) (ts j i : ℕ)
    → tree_or (get_elem? (modify xs j (λ tss. record tss { time_number = ts })) i)
      ≡ tree_or (get_elem? xs i)
tree_modify [] ts j i = refl
tree_modify (x ∷ xs) ts zero zero = refl
tree_modify (x ∷ xs) ts zero (suc i) = refl
tree_modify (x ∷ xs) ts (suc j) zero = refl
tree_modify (x ∷ xs) ts (suc j) (suc i) = tree_modify xs ts j i

tree_started :
    (xs : List TimeSlice) (ts t : ℕ) (s : Slices)
    → s.time_slice ≡ xs
    → tree_at t (started ts s) ≡ tree_at t s
tree_started [] ts t s e = ground (arith, e)
tree_started (x ∷ xs) ts t s e = rw e refl

tree_started_slice : (ts t : ℕ) (s : Slices) → tree_at t (started_slice ts s).0 ≡ tree_at t s
unfolding started_slice
tree_started_slice ts t s =
    let i = ts - s.start_time_number in
    let at = t - s.start_time_number in
    ground (arith, tree_modify (grown i s.time_slice) ts i at, tree_grown i at s.time_slice)

-- `GetTimeSlice` may make slices, but the nodes of every time stay what they were.
pub tree_at-get_time_slice :
    (ts t : ℕ) (s : Slices) → tree_at t (get_time_slice ts s).0 ≡ tree_at t s
unfolding get_time_slice
tree_at-get_time_slice ts t s =
    tree_started_slice ts t (started ts s) ∙ tree_started s.time_slice ts t s refl

length-grown : (i : ℕ) (xs : List TimeSlice) → i < length (grown i xs)
length-grown i xs = ground (
  arith,
  length-append xs (replicate (suc i - length xs) empty_slice),
  length-replicate (suc i - length xs) empty_slice,
)

-- The two results of `GetTimeSlice`: NULL, with no nodes at that time, or a slice with the nodes of
-- that time.
abbrev pub Found : ℕ → Slices → Slices × Option ℕ → Type 0
Found t s (s', none) = tree_at t s ≡ []
Found t s (s', some i) =
    (tss : TimeSlice) × (get_elem? s'.time_slice i ≡ some tss) × (tss.tree ≡ tree_at t s)

before_start :
    (t : ℕ) (s : Slices) → ltb t s.start_time_number ≡ true → started_slice t s ≡ (s, none)
unfolding started_slice
before_start t s e = rw e refl

pub after_start :
    (t : ℕ) (s : Slices)
    → ltb t s.start_time_number ≡ false
    → started_slice t s ≡ (
      record s {
        time_slice =
            modify
              (grown (t - s.start_time_number) s.time_slice)
              (t - s.start_time_number)
              (λ tss. record tss { time_number = t });
      },
      some (t - s.start_time_number),
    )
unfolding started_slice
after_start t s e = rw e refl

tree_late :
    (t : ℕ) (s : Slices)
    → ltb t s.start_time_number ≡ false
    → tree_at t s ≡ tree_or (get_elem? s.time_slice (t - s.start_time_number))
tree_late t s e = rw e refl

Found-same :
    (t : ℕ) (s s' : Slices) (r : Slices × Option ℕ)
    → tree_at t s' ≡ tree_at t s
    → Found t s' r
    → Found t s r
Found-same t s s' (_, none) e h = sym e ∙ h
Found-same t s s' (_, some i) e (tss, at, tree) = (tss, at, tree ∙ e)

Found-started : (t : ℕ) (s : Slices) → Found t s (started_slice t s)
Found-started t s = elim (ltb_cases t s.start_time_number) [
  | inl early ↦ rw (before_start t s early, early) refl
  | inr late ↦
      let i = t - s.start_time_number in
      let (tss, at) = get_elem?-of_lt (grown i s.time_slice) i (length-grown i s.time_slice) in
      let here =
        get_elem?-modify_self (grown i s.time_slice) i (λ tss. record tss { time_number = t }) at in
      rw (after_start t s late)
        (_, here, sym (ap tree_or at) ∙ tree_grown i i s.time_slice ∙ sym (tree_late t s late))
]

pub found : (t : ℕ) (s : Slices) → Found t s (get_time_slice t s)
unfolding get_time_slice
found t s =
    Found-same t s (started t s) (started_slice t (started t s))
      (tree_started s.time_slice t t s refl) (Found-started t (started t s))
