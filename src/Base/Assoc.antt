-- ===== src/Base/Assoc.antt =====
-- `std::map` with numeric keys: an association list in the order of its keys, which is the order of
-- iteration.
use Prim.Native.Nat.{ℕ, ◌<◌, ◌≤◌}
use mathlib.Core.Path.{◌≡◌, refl}
use mathlib.Core.Option.{Option, none, some}
use mathlib.Core.List.{List, [], ◌∷◌}
use native.Mathlib.Omega.{arith}
use mathlib.Core.Logic.{inl, inr}
use llprof.Base.Tests.{ltb, ◌==◌, if◌then◌else◌, Bool-cases}

abbrev pub Map {ℓ} : Type ℓ → Type ℓ
Map V = List (ℕ × V)

module _ {ℓ} {V : Type ℓ} where
  -- m.find(k)
  unfoldable pub find : ℕ → Map V → Option V
  find k [] = none
  find k ((j, v) ∷ m) = if j == k then some v else find k m

  -- m[k] = v
  unfoldable pub put : ℕ → V → Map V → Map V
  put k v [] = (k, v) ∷ []
  put k v ((j, w) ∷ m) =
      if j == k then (k, v) ∷ m else if ltb k j then (k, v) ∷ (j, w) ∷ m else (j, w) ∷ put k v m

  -- m.insert(make_pair(k, v)): a key that is there keeps its value.
  unfoldable pub insert : ℕ → V → Map V → Map V
  insert k v m = elim (find k m) [ none ↦ put k v m | some _ ↦ m ]

  pub find-put :
      (k j : ℕ) (v : V) (m : Map V) → find j (put k v m) ≡ (if k == j then some v else find j m)
  unfolding find put
  find-put k j v [] = refl
  find-put k j v ((i, w) ∷ m) = ground (arith, find-put k j v m)

  pub find-insert :
      (k j : ℕ) (v : V) (m : Map V)
      → find k m ≡ none
      → find j (insert k v m) ≡ (if k == j then some v else find j m)
  unfolding insert
  find-insert k j v m e = ground (arith, find-put k j v m)

-- The keys ascend.
module _ {ℓ} {V : Type ℓ} where
  abbrev pub Above : ℕ → Map V → Type 0
  Above k [] = Unit {0}
  Above k ((j, v) ∷ m) = (k < j) × Above k m

  abbrev pub Sorted : Map V → Type 0
  Sorted [] = Unit {0}
  Sorted ((k, v) ∷ m) = Above k m × Sorted m

  pub Above-le : (j k : ℕ) (m : Map V) → j ≤ k → Above k m → Above j m
  Above-le j k [] le above = tt
  Above-le j k ((i, v) ∷ m) le (lt, above) = (omega (arith, le, lt), Above-le j k m le above)

  Above-put : (j k : ℕ) (v : V) (m : Map V) → j < k → Above j m → Above j (put k v m)
  unfolding put
  Above-put j k v [] lt above = (lt, tt)
  Above-put j k v ((i, w) ∷ m) lt (lt', above) =
      ground (arith, lt, lt', above, Above-put j k v m lt above)

  pub Sorted-put : (k : ℕ) (v : V) (m : Map V) → Sorted m → Sorted (put k v m)
  unfolding put
  Sorted-put k v [] sorted = (tt, tt)
  Sorted-put k v ((j, w) ∷ m) (above, sorted) = elim (Bool-cases (j == k)) [
    | inl same ↦ rw same (ground (arith, same, above), sorted)
    | inr other ↦ elim (Bool-cases (ltb k j)) [
      | inl lt ↦
          rw (other, lt)
            ((ground (arith, lt), Above-le k j m (ground (arith, lt)) above), (above, sorted))
      | inr ge ↦
          rw (other, ge)
            (Above-put j k v m (ground (arith, other, ge)) above, Sorted-put k v m sorted)
    ]
  ]
