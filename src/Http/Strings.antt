-- ===== src/Http/Strings.antt =====
-- `std::string::find`, `substr` and `std::map<string, string>`, as webmon/http.cpp uses them.
use llprof.Base.{
  ℕ, ◌≡◌, ◌≢◌, refl, Bool, true, false, Option, none, some, List, [], ◌∷◌, ◌++◌, Text, text_eq, ltb,
  ◌==◌, if◌then◌else◌, arith,
}

-- find(c): the text before the first `c` and the text behind it.
unfoldable pub cut_char : ℕ → Text → Option (Text × Text)
cut_char c [] = none
cut_char c (x ∷ s) = elim (x == c) [
  | true ↦ some ([], s)
  | false ↦ elim (cut_char c s) [ none ↦ none | some (before, after) ↦ some (x ∷ before, after) ]
]

-- What follows a prefix.
unfoldable pub strip : Text → Text → Option Text
strip [] s = some s
strip (p ∷ pat) [] = none
strip (p ∷ pat) (c ∷ s) = elim (p == c) [ true ↦ strip pat s | false ↦ none ]

-- find(pat), for a pattern that is not empty
unfoldable pub cut_text : Text → Text → Option (Text × Text)
unfolding strip
cut_text pat [] = none
cut_text pat (c ∷ s) = elim (strip pat (c ∷ s)) [
  | some after ↦ some ([], after)
  | none ↦ elim (cut_text pat s) [ none ↦ none | some (before, after) ↦ some (c ∷ before, after) ]
]

abbrev pub StringMap : Type 0
StringMap = List (Text × Text)

-- The order of strings, byte by byte.
unfoldable pub text_lt : Text → Text → Bool
text_lt [] [] = false
text_lt [] (y ∷ t) = true
text_lt (x ∷ s) [] = false
text_lt (x ∷ s) (y ∷ t) = if x == y then text_lt s t else ltb x y

-- m[key] = value
unfoldable pub set : Text → Text → StringMap → StringMap
unfolding text_lt text_eq
set key value [] = (key, value) ∷ []
set key value ((k, v) ∷ m) =
    if text_eq k key
    then (key, value) ∷ m
    else if text_lt key k
    then (key, value) ∷ (k, v) ∷ m
    else (k, v) ∷ set key value m

-- `getm`
unfoldable pub getm : StringMap → Text → Text → Text
unfolding text_eq
getm [] key default_value = default_value
getm ((k, v) ∷ m) key default_value = if text_eq k key then v else getm m key default_value

-- The character does not stand in the text.
abbrev pub Free : ℕ → Text → Type 0
Free c [] = Unit {0}
Free c (x ∷ s) = (x ≢ c) × Free c s

pub cut_char-Free : (c : ℕ) (s : Text) → Free c s → cut_char c s ≡ none
unfolding cut_char
cut_char-Free c [] h = refl
cut_char-Free c (x ∷ s) (ne, h) = ground (arith, cut_char-Free c s h)

pub cut_char-append : (c : ℕ) (s t : Text) → Free c s → cut_char c (s ++ c ∷ t) ≡ some (s, t)
unfolding cut_char
cut_char-append c [] t h = ground arith
cut_char-append c (x ∷ s) t (ne, h) = ground (arith, cut_char-append c s t h)

pub Free-append : (c : ℕ) (s t : Text) → Free c s → Free c t → Free c (s ++ t)
Free-append c [] t h k = k
Free-append c (x ∷ s) t (ne, h) k = (ne, Free-append c s t h k)
