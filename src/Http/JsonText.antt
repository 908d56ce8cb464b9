-- ===== src/Http/JsonText.antt =====
-- JSON texts as a reader takes them.
use llprof.Base.{
  ℕ, ◌≡◌, ◌≢◌, refl, ap, ◌∙◌, true, false, Option, none, some, List, [], ◌∷◌, ◌++◌, Text, codes,
  Bool, ◌||◌, ◌≤◌, ltb, leb, ◌==◌, if◌then◌else◌, ◌>>=◌, arith,
}
use mathlib.Core.List.{append_assoc, append-nil}
use llprof.Http.Strings.{Free}
use llprof.Http.Json.{
  backslash, quote, write_char, write_chars, write_string, JsonWriter, new_writer, write, list_add,
  add_values, close, write_list,
}

-- The character that an escape stands for.
abbrev pub escaped : ℕ → Option ℕ
escaped c =
    if c == b't'
    then some 9
    else if c == b'r'
    then some 13
    else if c == b'n'
    then some 10
    else if c == quote
    then some quote
    else if c == backslash
    then some backslash
    else none

-- A reader of the characters of a string up to its quote, as JSON has them: a control character below
-- 32 only as an escape. The result is the string and the rest.
unfoldable pub read_chars : Text → Option (Text × Text)
read_chars [] = none
read_chars (c ∷ []) = if c == quote then some ([], []) else none
read_chars (c ∷ d ∷ s) = elim (c == quote) [
  | true ↦ some ([], d ∷ s)
  | false ↦ elim (c == backslash) [
    | true ↦ do e ← escaped d; (r, rest) ← read_chars s; some (e ∷ r, rest)
    | false ↦ elim (ltb c 32) [
      | true ↦ none
      | false ↦ do (r, rest) ← read_chars (d ∷ s); some (c ∷ r, rest)
    ]
  ]
]

unfoldable pub read_string : Text → Option (Text × Text)
unfolding read_chars
read_string [] = none
read_string (c ∷ s) = if c == quote then read_chars s else none

read_chars-escape :
    (d e : ℕ) (s r rest : Text)
    → escaped d ≡ some e
    → read_chars s ≡ some (r, rest)
    → read_chars (backslash ∷ d ∷ s) ≡ some (e ∷ r, rest)
unfolding read_chars
read_chars-escape d e s r rest one more = rw (one, more, read_chars) refl

read_chars-plain :
    (c : ℕ) (s r rest : Text)
    → c ≢ quote
    → c ≢ backslash
    → 32 ≤ c
    → read_chars s ≡ some (r, rest)
    → read_chars (c ∷ s) ≡ some (c ∷ r, rest)
unfolding read_chars
read_chars-plain c [] r rest ne ne' visible more = absurd (cc)
read_chars-plain c (d ∷ s) r rest ne ne' visible more = ground (arith, more)

read_chars-quote : (rest : Text) → read_chars (quote ∷ rest) ≡ some ([], rest)
unfolding read_chars
read_chars-quote [] = refl
read_chars-quote (c ∷ rest) = refl

-- A tab, a newline or a return, or no control character.
abbrev pub is_writable : ℕ → Bool
is_writable c = leb 32 c || c == 9 || c == 10 || c == 13

unfoldable pub Writable : Text → Type 0
Writable [] = Unit {0}
Writable (c ∷ s) = (is_writable c ≡ true) × Writable s

read_char :
    (c : ℕ) (s r rest : Text)
    → c ≢ backslash
    → is_writable c ≡ true
    → read_chars s ≡ some (r, rest)
    → read_chars (write_char c ++ s) ≡ some (c ∷ r, rest)
unfolding write_char
read_char c s r rest ne writable more = ground (
  arith,
  read_chars-escape b't' 9 s r rest refl more,
  read_chars-escape b'r' 13 s r rest refl more,
  read_chars-escape b'n' 10 s r rest refl more,
  read_chars-escape quote quote s r rest refl more,
  read_chars-plain c s r rest,
)

read_chars-write_chars :
    (s rest : Text)
    → Free backslash s
    → Writable s
    → read_chars (write_chars s ++ quote ∷ rest) ≡ some (s, rest)
unfolding write_chars Writable
read_chars-write_chars [] rest free writable = read_chars-quote rest
read_chars-write_chars (c ∷ s) rest (ne, free) (this, writable) =
    rw (append_assoc (write_char c) (write_chars s) (quote ∷ rest)) (
      read_char c (write_chars s ++ quote ∷ rest) s rest ne this
        (read_chars-write_chars s rest free writable))

-- A string without a backslash, and without control characters other than tabs, newlines and returns,
-- is read back, by a reader of JSON that takes these only as escapes, from what `write_json` writes
-- for it, whatever follows.
pub read_string-write_string :
    (s rest : Text)
    → Free backslash s
    → Writable s
    → read_string (write_string s ++ rest) ≡ some (s, rest)
unfolding read_string write_string
read_string-write_string s rest free writable =
    rw (append_assoc (write_chars s) (quote ∷ []) rest)
      (read_chars-write_chars s rest free writable)

-- The values with a comma and a space between them.
abbrev pub commas : List Text → Text
commas [] = []
commas (v ∷ []) = v
commas (v ∷ (next ∷ vs)) = v ++ codes ", " ++ commas (next ∷ vs)

list_add_next :
    (v : Text) (w : JsonWriter)
    → w.closed ≡ false
    → w.first ≡ false
    → list_add v w ≡ some (record w { strm = (w.strm ++ codes ", ") ++ v; first = false })
unfolding list_add write
list_add_next v w e f = rw (e, f, list_add, write) refl

regroup : (x v c d : Text) → ((x ++ v) ++ c) ++ d ≡ x ++ ((v ++ c) ++ d)
regroup x v c d = ap (λ l. l ++ d) (append_assoc x v c) ∙ append_assoc x (v ++ c) d

-- More values behind a first one.
add_values-next :
    (v : Text) (vs : List Text) (w : JsonWriter)
    → w.closed ≡ false
    → w.first ≡ false
    → add_values (v ∷ vs) w
      ≡ some (record w { strm = w.strm ++ codes ", " ++ commas (v ∷ vs); first = false })
unfolding add_values
add_values-next v [] w e f = rw (list_add_next v w e f, add_values) refl
add_values-next v (next ∷ vs) w e f =
    let w' : JsonWriter = record w { strm = (w.strm ++ codes ", ") ++ v; first = false } in
    rw (list_add_next v w e f, add_values)
      (add_values-next next vs w' e refl
        ∙ ap (λ strm. some (record w { strm = strm; first = false }))
            (regroup (w.strm ++ codes ", ") v (codes ", ") (commas (next ∷ vs))))

write_list_end :
    (values : List Text) (strm s : Text)
    → add_values values (new_writer strm)
      ≡ some (record { strm = s; closed = false; first = false })
    → write_list values strm
      ≡ some (record { strm = (s ++ []) ++ codes "]"; closed = true; first = false })
unfolding write_list close write
write_list_end values strm s e = rw (e, write_list) refl

add_values-first :
    (v : Text) (vs : List Text) (strm : Text)
    → add_values (v ∷ vs) (new_writer strm)
      ≡ add_values vs (record { strm = (strm ++ codes "[") ++ v; closed = false; first = false })
unfolding add_values list_add write
add_values-first v vs strm = refl

regroup_list : (x o v d : Text) → (((x ++ o) ++ v) ++ []) ++ d ≡ x ++ (o ++ (v ++ d))
regroup_list x o v d =
    ap (λ l. l ++ d) (append-nil ((x ++ o) ++ v))
    ∙ append_assoc (x ++ o) v d
    ∙ append_assoc x o (v ++ d)

no_values :
    (strm : Text)
    → write_list [] strm
      ≡ some (record { strm = (strm ++ codes "[") ++ codes "]"; closed = true; first = true })
unfolding write_list add_values close write
no_values strm = refl

one_value :
    (v strm : Text)
    → add_values (v ∷ []) (new_writer strm)
      ≡ some (record { strm = (strm ++ codes "[") ++ v; closed = false; first = false })
unfolding add_values
one_value v strm = add_values-first v [] strm

-- A list of values is written as JSON: in brackets, with a comma and a space between the values,
-- behind what the stream has already.
pub write_list-commas :
    (values : List Text) (strm : Text)
    → (w : JsonWriter) × (write_list values strm ≡ some w)
      × (w.strm ≡ strm ++ (codes "[" ++ (commas values ++ codes "]")))
      × (w.closed ≡ true)
write_list-commas [] strm = (_, no_values strm, append_assoc strm (codes "[") (codes "]"), refl)
write_list-commas (v ∷ []) strm = (
  _,
  write_list_end (v ∷ []) strm ((strm ++ codes "[") ++ v) (one_value v strm),
  regroup_list strm (codes "[") v (codes "]"),
  refl,
)
write_list-commas (v ∷ (next ∷ vs)) strm =
    let s = (strm ++ codes "[") ++ v in
    let rest = commas (next ∷ vs) in
    let all = (s ++ codes ", ") ++ rest in
    (
      _,
      write_list_end (v ∷ (next ∷ vs)) strm all (
          add_values-first v (next ∷ vs) strm
          ∙ add_values-next next vs (record { strm = s; closed = false; first = false }) refl refl),
      ap (λ l. (l ++ []) ++ codes "]") (regroup (strm ++ codes "[") v (codes ", ") rest)
          ∙ regroup_list strm (codes "[") ((v ++ codes ", ") ++ rest) (codes "]"),
      refl,
    )
