-- ===== src/CallTree/Counts.antt =====
-- How many calls of some nodes a buffer of records accounts for, modulo 2 ^ 64.
use llprof.Base.{
  ℕ, Bool, zero, suc, ◌^◌, ◌<◌, ◌≡◌, refl, some, List, [], ◌∷◌, ◌++◌, get_elem?, modify, arith,
  if◌then◌else◌, add64,
}
use llprof.CallTree.{SerializedInfo, count_call, set_values}

-- The call counts of the records whose node is meant by the test, added up.
unfoldable pub calls_at : (ℕ → Bool) → List SerializedInfo → ℕ
calls_at p [] = 0
calls_at p (s ∷ records) = add64 (if p s.call_node_id then s.call_count else 0) (calls_at p records)

pub calls_at-lt : (p : ℕ → Bool) (records : List SerializedInfo) → calls_at p records < 2 ^ 64
unfolding calls_at
calls_at-lt p [] = omega arith
calls_at-lt p (s ∷ records) = omega arith

pub calls_at-append :
    (p : ℕ → Bool) (xs ys : List SerializedInfo)
    → calls_at p (xs ++ ys) ≡ add64 (calls_at p xs) (calls_at p ys)
unfolding calls_at
calls_at-append p [] ys = omega (arith, calls_at-lt p ys)
calls_at-append p (x ∷ xs) ys = ground (arith, calls_at-append p xs ys)

-- A record without calls adds nothing.
pub calls_at-append_fresh :
    (p : ℕ → Bool) (xs : List SerializedInfo) (s : SerializedInfo)
    → s.call_count ≡ 0
    → calls_at p (xs ++ s ∷ []) ≡ calls_at p xs
unfolding calls_at
calls_at-append_fresh p xs s e = ground (arith, calls_at-append p xs (s ∷ []), calls_at-lt p xs)

pub calls_at-count_call :
    (p : ℕ → Bool) (k : ℕ) (v : List ℕ) (xs : List SerializedInfo) {s : SerializedInfo}
    → get_elem? xs k ≡ some s
    → calls_at p (modify xs k (count_call v))
      ≡ add64 (calls_at p xs) (if p s.call_node_id then 1 else 0)
unfolding calls_at
calls_at-count_call p k v [] e = absurd (cc)
calls_at-count_call p zero v (x ∷ xs) e = ground arith
calls_at-count_call p (suc k) v (x ∷ xs) {s} e =
    ground (arith, calls_at-count_call p k v xs {s = s} e)

pub calls_at-set_values :
    (p : ℕ → Bool) (k : ℕ) (v : List ℕ) (xs : List SerializedInfo)
    → calls_at p (modify xs k (set_values v)) ≡ calls_at p xs
unfolding calls_at
calls_at-set_values p k v [] = refl
calls_at-set_values p zero v (x ∷ xs) = refl
calls_at-set_values p (suc k) v (x ∷ xs) = ground (arith, calls_at-set_values p k v xs)
