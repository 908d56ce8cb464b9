-- ===== src/Base/Lists.antt =====
-- Lists measured and indexed by native numbers, under the library's names.
use Prim.Native.Nat.{ℕ, zero, suc, ◌+◌, ◌-◌, ◌<◌, ◌≤◌}
use mathlib.Core.Path.{◌≡◌, refl, ap}
use mathlib.Core.Logic.{◌≢◌, ◌⊎◌, inl, inr}
use mathlib.Core.List.{List, [], ◌∷◌, ◌++◌, map}
use mathlib.Core.Option.{Option, none, some}
use native.Mathlib.Omega.{arith}

module _ {ℓ} {A : Type ℓ} where
  abbrev pub length : List A → ℕ
  length [] = 0
  length (x ∷ xs) = suc (length xs)

  abbrev pub get_elem? : List A → ℕ → Option A
  get_elem? [] i = none
  get_elem? (x ∷ xs) zero = some x
  get_elem? (x ∷ xs) (suc i) = get_elem? xs i

  abbrev pub get_or : List A → ℕ → A → A
  get_or [] i d = d
  get_or (x ∷ xs) zero d = x
  get_or (x ∷ xs) (suc i) d = get_or xs i d

  -- A write through an element's address; out of bounds it changes nothing.
  abbrev pub modify : List A → ℕ → (A → A) → List A
  modify [] i f = []
  modify (x ∷ xs) zero f = f x ∷ xs
  modify (x ∷ xs) (suc i) f = x ∷ modify xs i f

  abbrev pub take : ℕ → List A → List A
  take zero xs = []
  take (suc n) [] = []
  take (suc n) (x ∷ xs) = x ∷ take n xs

  abbrev pub drop : ℕ → List A → List A
  drop zero xs = xs
  drop (suc n) [] = []
  drop (suc n) (x ∷ xs) = drop n xs

  abbrev pub replicate : ℕ → A → List A
  replicate zero a = []
  replicate (suc n) a = a ∷ replicate n a

  pub length-append : (xs ys : List A) → length (xs ++ ys) ≡ length xs + length ys
  length-append [] ys = omega arith
  length-append (x ∷ xs) ys = omega (arith, length-append xs ys)

  pub length-replicate : (n : ℕ) (a : A) → length (replicate n a) ≡ n
  length-replicate zero a = refl
  length-replicate (suc n) a = ap suc (length-replicate n a)

  pub length-modify : (xs : List A) (i : ℕ) (f : A → A) → length (modify xs i f) ≡ length xs
  length-modify [] i f = refl
  length-modify (x ∷ xs) zero f = refl
  length-modify (x ∷ xs) (suc i) f = ap suc (length-modify xs i f)

  pub get_elem?-modify_self :
      (xs : List A) (i : ℕ) (f : A → A) {x : A}
      → get_elem? xs i ≡ some x
      → get_elem? (modify xs i f) i ≡ some (f x)
  get_elem?-modify_self [] i f e = cc
  get_elem?-modify_self (x ∷ xs) zero f e = ground arith
  get_elem?-modify_self (x ∷ xs) (suc i) f e = get_elem?-modify_self xs i f e

  pub get_elem?-modify_ne :
      (xs : List A) (i j : ℕ) (f : A → A) → i ≢ j → get_elem? (modify xs i f) j ≡ get_elem? xs j
  get_elem?-modify_ne [] i j f h = refl
  get_elem?-modify_ne (x ∷ xs) zero zero f h = absurd (h refl)
  get_elem?-modify_ne (x ∷ xs) zero (suc j) f h = refl
  get_elem?-modify_ne (x ∷ xs) (suc i) zero f h = refl
  get_elem?-modify_ne (x ∷ xs) (suc i) (suc j) f h =
      get_elem?-modify_ne xs i j f (λ e. h (ap suc e))

  pub get_elem?-of_lt : (xs : List A) (i : ℕ) → i < length xs → (x : A) × (get_elem? xs i ≡ some x)
  get_elem?-of_lt [] i h = absurd (omega arith)
  get_elem?-of_lt (x ∷ xs) zero h = (x, refl)
  get_elem?-of_lt (x ∷ xs) (suc i) h = get_elem?-of_lt xs i (omega arith)

  pub lt_of_get_elem? : (xs : List A) (i : ℕ) {x : A} → get_elem? xs i ≡ some x → i < length xs
  lt_of_get_elem? [] i e = absurd (cc)
  lt_of_get_elem? (x ∷ xs) zero e = omega arith
  lt_of_get_elem? (x ∷ xs) (suc i) e = omega (arith, lt_of_get_elem? xs i e)

  pub get_elem?-append_left :
      (xs ys : List A) (i : ℕ) → i < length xs → get_elem? (xs ++ ys) i ≡ get_elem? xs i
  get_elem?-append_left [] ys i h = absurd (omega arith)
  get_elem?-append_left (x ∷ xs) ys zero h = refl
  get_elem?-append_left (x ∷ xs) ys (suc i) h = get_elem?-append_left xs ys i (omega arith)

  pub get_elem?-append_last : (xs : List A) (y : A) → get_elem? (xs ++ y ∷ []) (length xs) ≡ some y
  get_elem?-append_last [] y = refl
  get_elem?-append_last (x ∷ xs) y = get_elem?-append_last xs y

  pub take-append-drop : (n : ℕ) (xs : List A) → take n xs ++ drop n xs ≡ xs
  take-append-drop zero xs = refl
  take-append-drop (suc n) [] = refl
  take-append-drop (suc n) (x ∷ xs) = ap (◌∷◌ x) (take-append-drop n xs)

  pub take_all : (n : ℕ) (xs : List A) → n ≡ length xs → take n xs ≡ xs
  take_all zero [] e = refl
  take_all zero (x ∷ xs) e = absurd (omega arith)
  take_all (suc n) [] e = refl
  take_all (suc n) (x ∷ xs) e = ap (◌∷◌ x) (take_all n xs (omega arith))

  pub drop_all : (n : ℕ) (xs : List A) → n ≡ length xs → drop n xs ≡ []
  drop_all zero [] e = refl
  drop_all zero (x ∷ xs) e = absurd (omega arith)
  drop_all (suc n) [] e = refl
  drop_all (suc n) (x ∷ xs) e = drop_all n xs (omega arith)

  pub length-drop : (n : ℕ) (xs : List A) → length (drop n xs) ≡ length xs - n
  length-drop zero xs = omega arith
  length-drop (suc n) [] = omega arith
  length-drop (suc n) (x ∷ xs) = omega (arith, length-drop n xs)

  pub take-append : (xs ys : List A) → take (length xs) (xs ++ ys) ≡ xs
  take-append [] ys = refl
  take-append (x ∷ xs) ys = ap (◌∷◌ x) (take-append xs ys)

  pub drop-append : (xs ys : List A) → drop (length xs) (xs ++ ys) ≡ ys
  drop-append [] ys = refl
  drop-append (x ∷ xs) ys = drop-append xs ys

  pub get_elem?-middle : (xs ys : List A) (y : A) → get_elem? (xs ++ y ∷ ys) (length xs) ≡ some y
  get_elem?-middle [] ys y = refl
  get_elem?-middle (x ∷ xs) ys y = get_elem?-middle xs ys y

  pub modify-middle :
      (xs ys : List A) (y : A) (f : A → A) → modify (xs ++ y ∷ ys) (length xs) f ≡ xs ++ f y ∷ ys
  modify-middle [] ys y f = refl
  modify-middle (x ∷ xs) ys y f = ap (◌∷◌ x) (modify-middle xs ys y f)

  -- Two ways to cut one list.
  pub cut_left :
      (bs rs xs ys : List A)
      → xs ++ ys ≡ bs ++ rs
      → length bs ≤ length xs
      → (take (length bs) xs ≡ bs) × (drop (length bs) xs ++ ys ≡ rs)
  cut_left [] rs xs ys e h = (refl, e)
  cut_left (b ∷ bs) rs [] ys e h = absurd (omega arith)
  cut_left (b ∷ bs) rs (x ∷ xs) ys e h =
      let (t, d) = cut_left bs rs xs ys (cc) (omega arith) in (cc, d)

  pub cut_right :
      (bs rs xs ys : List A)
      → xs ++ ys ≡ bs ++ rs
      → length xs ≤ length bs
      → (bs ≡ xs ++ drop (length xs) bs) × (ys ≡ drop (length xs) bs ++ rs)
  cut_right bs rs [] ys e h = (refl, e)
  cut_right [] rs (x ∷ xs) ys e h = absurd (omega arith)
  cut_right (b ∷ bs) rs (x ∷ xs) ys e h =
      let (t, d) = cut_right bs rs xs ys (cc) (omega arith) in (cc, d)

  pub length_pos : (xs : List A) → xs ≢ [] → 0 < length xs
  length_pos [] h = absurd (h refl)
  length_pos (x ∷ xs) h = omega arith

  pub eq_nil_of_length : (xs : List A) → length xs ≡ 0 → xs ≡ []
  eq_nil_of_length [] e = refl
  eq_nil_of_length (x ∷ xs) e = absurd (omega arith)

-- What an element of a changed list was before.
module _ {ℓ} {A : Type ℓ} where
  pub get_elem?-modify_inv :
      (xs : List A) (i j : ℕ) (f : A → A) {y : A}
      → get_elem? (modify xs i f) j ≡ some y
      → (x : A) × (get_elem? xs j ≡ some x) × (((i ≡ j) × (y ≡ f x)) ⊎ ((i ≢ j) × (y ≡ x)))
  get_elem?-modify_inv [] i j f e = absurd (cc)
  get_elem?-modify_inv (x ∷ xs) zero zero f e = (x, refl, inl (refl, cc))
  get_elem?-modify_inv (x ∷ xs) zero (suc j) f e = (_, e, inr (omega arith, refl))
  get_elem?-modify_inv (x ∷ xs) (suc i) zero f e = (_, e, inr (omega arith, refl))
  get_elem?-modify_inv (x ∷ xs) (suc i) (suc j) f e =
      let (z, at, was) = get_elem?-modify_inv xs i j f e in
      (z, at, elim was [ inl p ↦ inl (ap suc p.0, p.1) | inr p ↦ inr (omega arith, p.1) ])

  pub get_elem?-modify-some :
      (xs : List A) (i j : ℕ) (f : A → A) {x : A}
      → get_elem? xs j ≡ some x
      → (y : A) × (get_elem? (modify xs i f) j ≡ some y)
        × (((i ≡ j) × (y ≡ f x)) ⊎ ((i ≢ j) × (y ≡ x)))
  get_elem?-modify-some [] i j f e = absurd (cc)
  get_elem?-modify-some (x ∷ xs) zero zero f e = (f x, refl, inl (refl, ap f (cc)))
  get_elem?-modify-some (x ∷ xs) zero (suc j) f e = (_, e, inr (omega arith, refl))
  get_elem?-modify-some (x ∷ xs) (suc i) zero f e = (_, e, inr (omega arith, refl))
  get_elem?-modify-some (x ∷ xs) (suc i) (suc j) f e =
      let (z, at, is) = get_elem?-modify-some xs i j f e in
      (z, at, elim is [ inl p ↦ inl (ap suc p.0, p.1) | inr p ↦ inr (omega arith, p.1) ])

  pub get_elem?-append_inv :
      (xs : List A) (x : A) (j : ℕ) {y : A}
      → get_elem? (xs ++ x ∷ []) j ≡ some y
      → (get_elem? xs j ≡ some y) ⊎ ((j ≡ length xs) × (y ≡ x))
  get_elem?-append_inv [] x zero e = inr (refl, cc)
  get_elem?-append_inv [] x (suc j) e = absurd (cc)
  get_elem?-append_inv (z ∷ xs) x zero e = inl e
  get_elem?-append_inv (z ∷ xs) x (suc j) e = elim (get_elem?-append_inv xs x j e) [
    | inl p ↦ inl p
    | inr p ↦ inr (ap suc p.0, p.1)
  ]

  pub get_elem?-append_some :
      (xs ys : List A) (i : ℕ) {x : A} → get_elem? xs i ≡ some x → get_elem? (xs ++ ys) i ≡ some x
  get_elem?-append_some [] ys i e = absurd (cc)
  get_elem?-append_some (z ∷ xs) ys zero e = e
  get_elem?-append_some (z ∷ xs) ys (suc i) e = get_elem?-append_some xs ys i e

module _ {ℓ κ} {A : Type ℓ} {B : Type κ} (g : A → B) where
  pub map-append_one : (xs : List A) (x : A) → map g (xs ++ x ∷ []) ≡ map g xs ++ g x ∷ []
  map-append_one [] x = refl
  map-append_one (y ∷ xs) x = ap (◌∷◌ (g y)) (map-append_one xs x)

  pub map-modify :
      (f : A → A) (xs : List A) (i : ℕ)
      → ((x : A) → g (f x) ≡ g x)
      → map g (modify xs i f) ≡ map g xs
  map-modify f [] i h = refl
  map-modify f (x ∷ xs) zero h = ap (λ y. y ∷ map g xs) (h x)
  map-modify f (x ∷ xs) (suc i) h = ap (◌∷◌ (g x)) (map-modify f xs i h)

  pub get_elem?-map :
      (xs : List A) (i : ℕ) {x : A} → get_elem? xs i ≡ some x → get_elem? (map g xs) i ≡ some (g x)
  get_elem?-map [] i e = cc
  get_elem?-map (x ∷ xs) zero e = ground arith
  get_elem?-map (x ∷ xs) (suc i) e = get_elem?-map xs i e

  pub length-map : (xs : List A) → length (map g xs) ≡ length xs
  length-map [] = refl
  length-map (x ∷ xs) = ap suc (length-map xs)

  pub get_elem?-map_inv :
      (xs : List A) (i : ℕ) {y : B}
      → get_elem? (map g xs) i ≡ some y
      → (x : A) × (get_elem? xs i ≡ some x) × (y ≡ g x)
  get_elem?-map_inv [] i e = absurd (cc)
  get_elem?-map_inv (x ∷ xs) zero e = (x, refl, cc)
  get_elem?-map_inv (x ∷ xs) (suc i) e = get_elem?-map_inv xs i e
