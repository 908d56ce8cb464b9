-- ===== src/Webmon/Dump/Spelling.antt =====
-- Webmon/Dump: how the values and the names are spelled, beside write_value, printable and the
-- `write_json` of a string.
use llprof.Base.{
  ℕ, ◌≡◌, refl, ap, ◌∙◌, none, some, List, [], ◌∷◌, ◌++◌, Map, find, map, Text, codes, decimal, ◌^◌,
  ◌-◌, ◌||◌, ◌==◌, ltb, leb, if◌then◌else◌, arith,
}
use mathlib.Core.Path.{ap₂}
use mathlib.Core.List.{append_assoc}
use llprof.Http.Json.{write_char, write_chars, write_string}
use llprof.Webmon.Nodes.{get_name_from_id}
use llprof.Webmon.Dump.{write_value, is_print, texts, printable}

-- A 64-bit word as a signed number: the words from 2^63 on are negative.
abbrev pub signed : ℕ → Text
signed v = if leb (2 ^ 63) v then b'-' ∷ decimal (2 ^ 64 - v) else decimal v

pub write_value-signed : (v : ℕ) → write_value v ≡ signed v
unfolding write_value
write_value-signed v = ground arith

pub texts_same :
    {A : Type 0} → (f h : A → Text) (xs : List A) → ((x : A) → f x ≡ h x) → texts f xs ≡ texts h xs
texts_same f h [] same = refl
texts_same f h (x ∷ xs) same = ap₂ (◌∷◌) (same x) (texts_same f h xs same)

-- A name as it is shown: what is below the blank or above the tilde becomes an X.
abbrev pub shown : Text → Text
shown name = map (λ c. if ltb c 32 || ltb 126 c then b'X' else c) name

printable_char :
    (c : ℕ) → (if is_print c then c else b'X') ≡ (if ltb c 32 || ltb 126 c then b'X' else c)
printable_char c = ground arith

printable-shown : (name : Text) → printable name ≡ shown name
unfolding printable
printable-shown [] = refl
printable-shown (c ∷ name) = ap₂ (◌∷◌) (printable_char c) (printable-shown name)

-- What a string has for a character: an escape for a tab, a return, a newline and a quote.
abbrev pub escape : ℕ → Text
escape c =
    if c == 34
    then 92 ∷ 34 ∷ []
    else if c == 10
    then 92 ∷ b'n' ∷ []
    else if c == 13
    then 92 ∷ b'r' ∷ []
    else if c == 9
    then 92 ∷ b't' ∷ []
    else c ∷ []

abbrev pub quoted_rest : Text → Text
quoted_rest [] = 34 ∷ []
quoted_rest (c ∷ s) = escape c ++ quoted_rest s

-- A string in quotes, with the escapes.
abbrev pub quoted : Text → Text
quoted s = 34 ∷ quoted_rest s

write_char-escape : (c : ℕ) → write_char c ≡ escape c
unfolding write_char
write_char-escape c = ground arith

write_chars-quoted_rest : (s : Text) → write_chars s ++ 34 ∷ [] ≡ quoted_rest s
unfolding write_chars
write_chars-quoted_rest [] = refl
write_chars-quoted_rest (c ∷ s) =
    append_assoc (write_char c) (write_chars s) (34 ∷ [])
    ∙ ap₂ (◌++◌) (write_char-escape c) (write_chars-quoted_rest s)

pub write_string-quoted : (s : Text) → write_string s ≡ quoted s
unfolding write_string
write_string-quoted s = ap (◌∷◌ 34) (write_chars-quoted_rest s)

-- The name that a table has for an id.
abbrev pub name_of : Map Text → ℕ → Text
name_of names id = elim (find id names) [ none ↦ codes "<Unknown>" | some name ↦ name ]

get_name-name_of : (names : Map Text) (id : ℕ) → get_name_from_id names id ≡ name_of names id
unfolding get_name_from_id
get_name-name_of names id = refl

pub name_text :
    (names : Map Text) (id : ℕ)
    → write_string (printable (get_name_from_id names id)) ≡ quoted (shown (name_of names id))
name_text names id =
    ap write_string (printable-shown (get_name_from_id names id))
    ∙ write_string-quoted (shown (get_name_from_id names id))
    ∙ ap (λ name. quoted (shown name)) (get_name-name_of names id)
