-- ===== src/Base/Memory.antt =====
-- Integers in memory and on the wire, little-endian. A read out of bounds is `none`.
use Prim.Native.Nat.{ℕ, ◌+◌, ◌*◌, ◌/◌, ◌%◌, ◌^◌, ◌<◌, ◌≤◌}
use mathlib.Core.Path.{◌≡◌, refl, ap}
use mathlib.Core.List.{[], ◌∷◌, ◌++◌}
use mathlib.Core.Option.{Option, none, some}
use native.Mathlib.Omega.{arith}
use llprof.Base.Bytes.{Text}
use llprof.Base.Lists.{drop, length}

abbrev pub le32 : ℕ → Text
le32 n = n % 256 ∷ n / 2 ^ 8 % 256 ∷ n / 2 ^ 16 % 256 ∷ n / 2 ^ 24 % 256 ∷ []

abbrev pub le64 : ℕ → Text
le64 n =
    n % 256
    ∷ n / 2 ^ 8 % 256
    ∷ n / 2 ^ 16 % 256
    ∷ n / 2 ^ 24 % 256
    ∷ n / 2 ^ 32 % 256
    ∷ n / 2 ^ 40 % 256
    ∷ n / 2 ^ 48 % 256
    ∷ n / 2 ^ 56 % 256
    ∷ []

-- *(unsigned int *)p and *(unsigned long long *)p
abbrev pub word32 : Text → Option ℕ
word32 (a ∷ b ∷ c ∷ d ∷ _) = some (a + 2 ^ 8 * b + 2 ^ 16 * c + 2 ^ 24 * d)
word32 _ = none

abbrev pub word64 : Text → Option ℕ
word64 (a ∷ b ∷ c ∷ d ∷ e ∷ f ∷ g ∷ h ∷ _) =
    some
      (a + 2 ^ 8 * b + 2 ^ 16 * c + 2 ^ 24 * d + 2 ^ 32 * e + 2 ^ 40 * f + 2 ^ 48 * g + 2 ^ 56 * h)
word64 _ = none

abbrev pub read32 : Text → ℕ → Option ℕ
read32 buf offset = word32 (drop offset buf)

abbrev pub read64 : Text → ℕ → Option ℕ
read64 buf offset = word64 (drop offset buf)

pub word32-le32 : (n : ℕ) (rest : Text) → n < 2 ^ 32 → word32 (le32 n ++ rest) ≡ some n
word32-le32 n rest h = ap some (omega arith)

pub word64-le64 : (n : ℕ) (rest : Text) → n < 2 ^ 64 → word64 (le64 n ++ rest) ≡ some n
word64-le64 n rest h = ap some (omega arith)

pub word32-total : (t : Text) → 4 ≤ length t → (v : ℕ) × (word32 t ≡ some v)
word32-total [] h = absurd (omega (arith, h))
word32-total (a ∷ []) h = absurd (omega (arith, h))
word32-total (a ∷ b ∷ []) h = absurd (omega (arith, h))
word32-total (a ∷ b ∷ c ∷ []) h = absurd (omega (arith, h))
word32-total (a ∷ b ∷ c ∷ d ∷ t) h = (_, refl)

pub word64-total : (t : Text) → 8 ≤ length t → (v : ℕ) × (word64 t ≡ some v)
word64-total (a ∷ b ∷ c ∷ d ∷ e ∷ f ∷ g ∷ i ∷ t) h = (_, refl)
word64-total [] h = absurd (omega (arith, h))
word64-total (a ∷ []) h = absurd (omega (arith, h))
word64-total (a ∷ b ∷ []) h = absurd (omega (arith, h))
word64-total (a ∷ b ∷ c ∷ []) h = absurd (omega (arith, h))
word64-total (a ∷ b ∷ c ∷ d ∷ []) h = absurd (omega (arith, h))
word64-total (a ∷ b ∷ c ∷ d ∷ e ∷ []) h = absurd (omega (arith, h))
word64-total (a ∷ b ∷ c ∷ d ∷ e ∷ f ∷ []) h = absurd (omega (arith, h))
word64-total (a ∷ b ∷ c ∷ d ∷ e ∷ f ∷ g ∷ []) h = absurd (omega (arith, h))
