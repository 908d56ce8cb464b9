-- ===== src/Http/Json.antt =====
-- webmon/http.h: `write_json` for strings, and the writers of JSON objects and lists. A value is the
-- text that `write_json` writes for it. `none` is a failed assertion.
use llprof.Base.{
  ℕ, Bool, true, false, not, Option, some, List, [], ◌∷◌, ◌++◌, Text, codes, ◌==◌, if◌then◌else◌,
  ◌>>=◌, ◌>>◌, assert,
}

abbrev pub backslash : ℕ
backslash = 92

abbrev pub quote : ℕ
quote = 34

unfoldable pub write_char : ℕ → Text
write_char c =
    if c == 9
    then backslash ∷ b't' ∷ []
    else if c == 13
    then backslash ∷ b'r' ∷ []
    else if c == 10
    then backslash ∷ b'n' ∷ []
    else if c == quote
    then backslash ∷ quote ∷ []
    else c ∷ []

unfoldable pub write_chars : Text → Text
unfolding write_char
write_chars [] = []
write_chars (c ∷ s) = write_char c ++ write_chars s

unfoldable pub write_string : Text → Text
unfolding write_chars
write_string s = quote ∷ write_chars s ++ quote ∷ []

-- `JsonWriter`
pub record JsonWriter : Type 0 where
  pub strm : Text
  pub closed : Bool
  pub first : Bool

-- A writer on a stream that may have text already.
abbrev pub new_writer : Text → JsonWriter
new_writer strm = record { strm = strm; closed = false; first = true }

-- Writing through `writer()`.
unfoldable pub write : Text → JsonWriter → Option JsonWriter
write s w = do assert (not w.closed); some (record w { strm = w.strm ++ s })

abbrev pub opening : Text → JsonWriter → Text
opening bracket w = if w.first then bracket else codes ", "

-- `JsonDict::add`
unfoldable pub dict_add : Text → Text → JsonWriter → Option JsonWriter
unfolding write write_string
dict_add name value w = do
  w1 ← write (opening (codes "{") w) w
  w2 ← write (write_string name) (record w1 { first = false })
  w3 ← write (codes ": ") w2
  write value w3

-- `JsonList::add`
unfoldable pub list_add : Text → JsonWriter → Option JsonWriter
unfolding write
list_add value w = do
  w1 ← write (opening (codes "[") w) w
  write value (record w1 { first = false })

-- `close`, with the brackets of a dict or of a list; a second call does nothing.
unfoldable pub close : Text → Text → JsonWriter → Option JsonWriter
unfolding write
close open_bracket close_bracket w = elim w.closed [
  | true ↦ some w
  | false ↦ do
    w1 ← write (if w.first then open_bracket else []) w
    w2 ← write close_bracket w1
    some (record w2 { closed = true })
]

-- A list of values as `ProfileValuesToStream` and the lists of nodes are written.
unfoldable pub add_values : List Text → JsonWriter → Option JsonWriter
unfolding list_add
add_values [] w = some w
add_values (v ∷ vs) w = do w' ← list_add v w; add_values vs w'

unfoldable pub write_list : List Text → Text → Option JsonWriter
unfolding add_values close
write_list values strm = do w ← add_values values (new_writer strm); close (codes "[") (codes "]") w
