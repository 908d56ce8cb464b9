-- ===== src/Http/Requests.antt =====
-- webmon/http.cpp: `url_decode`, `parse_query_string` and `parse_http_request_header`.
use llprof.Base.{
  ℕ, zero, suc, Bool, true, false, ◌&&◌, ◌||◌, Option, none, some, List, [], ◌∷◌, ◌++◌, Text, codes,
  length, ltb, ◌==◌, if◌then◌else◌, split, ◌>>=◌,
}
use llprof.Http.Strings.{StringMap, cut_char, cut_text, set}

-- At a `%`, `scanf` is called with the two digits as its format, and does not set the byte that is
-- then appended: that read of memory which was not initialised is `none`.
unfoldable pub url_decode : Text → Option Text
unfolding cut_char
url_decode src = elim (cut_char b'%' src) [ none ↦ some src | some _ ↦ none ]

-- What the next round of `parse_query_string` looks at, and the rest.
abbrev pub next_target : Text → Text × Text
next_target query_string = elim (cut_char b'&' query_string) [
  | none ↦ (query_string, [])
  | some (target, rest) ↦ (target, rest)
]

-- One `key=value`; the flag is false when there is no `=`.
unfoldable pub parse_target : Text → StringMap → Option (Bool × StringMap)
unfolding url_decode
parse_target target result = elim (cut_char b'=' target) [
  | none ↦ some (false, result)
  | some (k, v) ↦ do key ← url_decode k; value ← url_decode v; some (true, set key value result)
]

-- The loop. Each round takes one byte at least.
unfoldable pub parse_loop : ℕ → Text → StringMap → Option (Bool × StringMap)
unfolding parse_target
parse_loop zero q result = none
parse_loop (suc f) [] result = some (true, result)
parse_loop (suc f) (c ∷ q) result = do
  (ok, result') ← parse_target (next_target (c ∷ q)).0 result
  elim ok [ false ↦ some (false, result') | true ↦ parse_loop f (next_target (c ∷ q)).1 result' ]

unfoldable pub parse_query_string : StringMap → Text → Option (Bool × StringMap)
unfolding parse_loop
parse_query_string result query_string = parse_loop (suc (length query_string)) query_string result

-- `getline` until it fails: a last line that is empty is none.
drop_empty : List Text → List Text
drop_empty [] = []
drop_empty (line ∷ []) = elim line [ [] ↦ [] | c ∷ s ↦ (c ∷ s) ∷ [] ]
drop_empty (line ∷ next ∷ lines) = line ∷ drop_empty (next ∷ lines)

abbrev is_space : ℕ → Bool
is_space c = c == b' ' || (ltb 8 c && ltb c 14)

-- algorithm::split at every white space
unfoldable pub split_spaces : Text → Text → List Text
split_spaces piece [] = piece ∷ []
split_spaces piece (c ∷ s) = elim (is_space c) [
  | true ↦ piece ∷ split_spaces [] s
  | false ↦ split_spaces (piece ++ c ∷ []) s
]

-- The line without a `\r` at its end.
unfoldable pub chomp : Text → Text
chomp [] = []
chomp (c ∷ []) = if c == 13 then [] else c ∷ []
chomp (c ∷ d ∷ s) = c ∷ chomp (d ∷ s)

unfoldable pub header_lines : List Text → StringMap → Bool × StringMap
unfolding chomp
header_lines [] result = (true, result)
header_lines ([] ∷ lines) result = header_lines lines result
header_lines ((c ∷ s) ∷ lines) result = elim (cut_text (codes ": ") (chomp (c ∷ s))) [
  | none ↦ (false, result)
  | some (key, value) ↦ header_lines lines (set key value result)
]

abbrev pub set_target : Text → StringMap → StringMap
set_target target result = elim (cut_char b'?' target) [
  | none ↦ set (codes "!qs") [] (set (codes "!path") target result)
  | some (path, qs) ↦ set (codes "!qs") qs (set (codes "!path") path result)
]

request_line : List Text → List Text → StringMap → Bool × StringMap
unfolding header_lines
request_line (method ∷ target ∷ version ∷ _) lines result =
    header_lines lines
      (set (codes "!version") version (set_target target (set (codes "!method") method result)))
request_line _ lines result = (false, result)

unfoldable pub parse_http_request_header : StringMap → Text → Bool × StringMap
unfolding request_line drop_empty
parse_http_request_header result header = elim (drop_empty (split b'\n' header)) [
  | [] ↦ (false, result)
  | line ∷ lines ↦ request_line (split_spaces [] line) lines result
]
