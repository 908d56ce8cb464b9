-- ===== src/Base/Effects.antt =====
-- Steps that may fail: `none` is a failed assertion or an access out of bounds.
use mathlib.Core.Path.{◌≡◌, refl, ap}
use mathlib.Core.Bool.{Bool, true, false}
use mathlib.Core.Option.{Option, none, some}

infixl 5 ◌>>=◌ ◌>>◌
abbrev pub ◌>>=◌ {ℓ κ} : {A : Type ℓ} {B : Type κ} → Option A → (A → Option B) → Option B
none >>= f = none
some a >>= f = f a

abbrev pub ◌>>◌ {ℓ} : {B : Type ℓ} → Option (Unit {0}) → Option B → Option B
m >> k = m >>= λ _. k

-- assert(b)
abbrev pub assert : Bool → Option (Unit {0})
assert true = some tt
assert false = none

pub bind_some {ℓ κ} :
    {A : Type ℓ} {B : Type κ} (m : Option A) (f : A → Option B) (a : A)
    → m ≡ some a
    → (m >>= f) ≡ f a
bind_some m f a e = ap (λ o. o >>= f) e

pub bind_inv {ℓ κ} :
    {A : Type ℓ} {B : Type κ} (m : Option A) (f : A → Option B) (b : B)
    → (m >>= f) ≡ some b
    → (a : A) × (m ≡ some a) × (f a ≡ some b)
bind_inv none f b e = absurd (cc)
bind_inv (some a) f b e = (a, refl, e)

-- The result satisfies `P`, when there is one.
abbrev pub Every {ℓ κ} : {B : Type ℓ} → (B → Type κ) → Option B → Type κ
Every P none = Unit
Every P (some b) = P b

pub Every-bind {ℓ κ μ} :
    {A : Type ℓ} {B : Type κ} (P : B → Type μ) (m : Option A) (f : A → Option B)
    → ((a : A) → m ≡ some a → Every P (f a))
    → Every P (m >>= f)
Every-bind P none f all = tt
Every-bind P (some a) f all = all a refl
