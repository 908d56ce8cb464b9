-- ===== src/Http/Examples.antt =====
-- Short requests and values, and the theorems of Http at them.
use llprof.Base.{
  ℕ, ◌≡◌, ◌≢◌, refl, Bool, true, false, none, some, [], ◌∷◌, ◌++◌, Text, codes, text_eq, split_from,
  ◌==◌, if◌then◌else◌, arith,
}
use llprof.Network.{send_full}
use llprof.Http.Strings.{Free, cut_text}
use llprof.Http.Requests.{parse_query_string}
use llprof.Http.QueryStrings.{Plain, set_all, parse_query_string-render}
use llprof.Http.Responses.{send_string, send_string-send_full}
use llprof.Http.Json.{JsonWriter, write_string, write_list}
use llprof.Http.JsonText.{Writable, read_string, read_string-write_string, write_list-commas}
use llprof.Http.Routes.{files, join, route_parts, route, route-file}

-- The test for `Free`, which a literal text passes by computation.
abbrev is_free : ℕ → Text → Bool
is_free c [] = true
is_free c (x ∷ s) = if x == c then false else is_free c s

Free-of_test : (c : ℕ) (s : Text) → is_free c s ≡ true → Free c s
Free-of_test c [] e = tt
Free-of_test c (x ∷ s) e = (ground arith, Free-of_test c s (ground arith))

Plain-of_test :
    (s : Text) → is_free b'&' s ≡ true → is_free b'=' s ≡ true → is_free b'%' s ≡ true → Plain s
Plain-of_test s a b c = (Free-of_test b'&' s a, Free-of_test b'=' s b, Free-of_test b'%' s c)

parse_query_string-render_example :
    parse_query_string [] (codes "p1=3&id=7")
    ≡ some (true, set_all ((codes "p1", codes "3") ∷ (codes "id", codes "7") ∷ []) [])
parse_query_string-render_example =
    parse_query_string-render ((codes "p1", codes "3") ∷ (codes "id", codes "7") ∷ []) [] (
      Plain-of_test (codes "p1") refl refl refl,
      Plain-of_test (codes "3") refl refl refl,
      (Plain-of_test (codes "id") refl refl refl, Plain-of_test (codes "7") refl refl refl, tt),
    )

send_string-send_full_example :
    (codes "OK" ≢ []
      → send_string true (codes "OK") (record { ready = 1 ∷ 0 ∷ []; delivered = [] }) ≡ none)
    × (send_string true [] (record { ready = 1 ∷ 0 ∷ []; delivered = [] })
        ≡ some (true, record { ready = 1 ∷ 0 ∷ []; delivered = [] }))
unfolding send_full llprof.Network.send_loop
send_string-send_full_example =
    send_string-send_full true (codes "OK") (record { ready = 1 ∷ 0 ∷ []; delivered = [] })

read_string-write_string_example :
    read_string (write_string (codes "a\tb") ++ codes ", ") ≡ some (codes "a\tb", codes ", ")
unfolding Writable
read_string-write_string_example =
    read_string-write_string (codes "a\tb") (codes ", ") (Free-of_test 92 (codes "a\tb") refl)
      (refl, (refl, (refl, tt)))

write_list-commas_example :
    (w : JsonWriter) × (write_list (codes "1" ∷ codes "22" ∷ []) (codes "x") ≡ some w)
    × (w.strm ≡ codes "x" ++ (codes "[" ++ (codes "1, 22" ++ codes "]")))
    × (w.closed ≡ true)
write_list-commas_example = write_list-commas (codes "1" ∷ codes "22" ∷ []) (codes "x")

route-file_example :
    (below : Text) × (codes "./files/a.js" ≡ files ++ below) × (cut_text (codes "..") below ≡ none)
unfolding route route_parts split_from text_eq cut_text join
route-file_example = route-file (codes "/files/a.js") (codes "./files/a.js") refl
