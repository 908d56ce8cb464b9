-- ===== src/Webmon/Polls/Placing.antt =====
-- Webmon/Store: the slice that `Store` fills.
use llprof.Base.{
  ℕ, ◌-◌, ◌≡◌, ◌≢◌, refl, sym, ap, subst, ◌∙◌, inl, inr, false, Option, some, List, [], ◌∷◌,
  get_elem?, modify, get_elem?-modify_self, get_elem?-modify_ne, ltb, ltb_cases, arith,
}
use llprof.Webmon.Slices.{TimeSlice, Slices, started, get_time_slice}
use llprof.Webmon.SliceLookup.{tree_or, tree_at, after_start, Found, found, tree_at-get_time_slice}
use llprof.Webmon.Polls.{OnTime}

-- A position in the slices, and the time that it stands for.
abbrev pub IsAt : ℕ → Slices → ℕ → Type 0
IsAt t s i = (ltb t s.start_time_number ≡ false) × (i ≡ t - s.start_time_number)

OnTime-started :
    (t : ℕ) (s : Slices) (xs : List TimeSlice)
    → s.time_slice ≡ xs
    → OnTime t s
    → ltb t (started t s).start_time_number ≡ false
OnTime-started t s [] e on = ground (arith, e)
OnTime-started t s (x ∷ xs) e (inl nil) = absurd (ground (arith, e, nil))
OnTime-started t s (x ∷ xs) e (inr le) = ground (arith, e, le)

placed :
    (t : ℕ) (s : Slices)
    → OnTime t s
    → (s' : Slices) × (i : ℕ) × (get_time_slice t s ≡ (s', some i)) × IsAt t s' i
unfolding get_time_slice
placed t s on =
    let late = OnTime-started t s s.time_slice refl on in
    (_, _, after_start t (started t s) late, (late, refl))

Found-same : (t : ℕ) (s : Slices) (r r' : Slices × Option ℕ) → r ≡ r' → Found t s r → Found t s r'
Found-same t s r r' e h = subst (Found t s) e h

-- On time, `GetTimeSlice` returns the slice of the time, with the nodes of that time.
pub get_time_slice-OnTime :
    (t : ℕ) (s : Slices)
    → OnTime t s
    → (s' : Slices) × (i : ℕ) × (tss : TimeSlice) × (get_time_slice t s ≡ (s', some i))
      × IsAt t s' i
      × (get_elem? s'.time_slice i ≡ some tss)
      × (tss.tree ≡ tree_at t s)
      × ((u : ℕ) → tree_at u s' ≡ tree_at u s)
get_time_slice-OnTime t s on =
    let (s', i, e, at) = placed t s on in
    let has : Found t s (s', some i) =
      Found-same t s (get_time_slice t s) (s', some i) e (found t s) in
    (
      s',
      i,
      has.0,
      e,
      at,
      has.1,
      has.2,
      λ u. ap (λ r. tree_at u r.0) (sym e) ∙ tree_at-get_time_slice t u s,
    )

-- The write to the slice at a position.
abbrev pub with_slice : (TimeSlice → TimeSlice) → ℕ → Slices → Slices
with_slice f i s = record s { time_slice = modify s.time_slice i f }

pub tree_at-with_slice :
    (f : TimeSlice → TimeSlice) (t i : ℕ) (s : Slices) (tss : TimeSlice)
    → IsAt t s i
    → get_elem? s.time_slice i ≡ some tss
    → tree_at t (with_slice f i s) ≡ (f tss).tree
tree_at-with_slice f t i s tss (late, pos) at =
    rw (late, ← pos, get_elem?-modify_self s.time_slice i f at) refl

tree_at_late :
    (f : TimeSlice → TimeSlice) (t u i : ℕ) (s : Slices)
    → IsAt t s i
    → u ≢ t
    → ltb u s.start_time_number ≡ false
    → tree_at u (with_slice f i s) ≡ tree_at u s
tree_at_late f t u i s (late, pos) ne after =
    let apart : i ≢ u - s.start_time_number = ground (arith, late, pos, ne, after) in
    rw after (ap tree_or (get_elem?-modify_ne s.time_slice i (u - s.start_time_number) f apart))

pub tree_at-with_slice_ne :
    (f : TimeSlice → TimeSlice) (t u i : ℕ) (s : Slices)
    → IsAt t s i
    → u ≢ t
    → tree_at u (with_slice f i s) ≡ tree_at u s
tree_at-with_slice_ne f t u i s at ne = elim (ltb_cases u s.start_time_number) [
  | inl before ↦ rw before refl
  | inr after ↦ tree_at_late f t u i s at ne after
]
