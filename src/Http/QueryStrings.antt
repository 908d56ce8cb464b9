-- ===== src/Http/QueryStrings.antt =====
-- webmon/http.cpp: `parse_query_string` on what a form sends.
use llprof.Base.{
  ℕ, zero, suc, ◌<◌, ◌≤◌, ◌≡◌, ◌≢◌, refl, ap, ◌∙◌, true, none, some, [], ◌∷◌, ◌++◌, Text, length,
  length-append, arith,
}
use llprof.Http.Strings.{
  StringMap, cut_char, set, Free, Free-append, cut_char-Free, cut_char-append,
}
use llprof.Http.Requests.{url_decode, next_target, parse_target, parse_loop, parse_query_string}

-- A key or a value without `&`, `=` and `%`.
abbrev pub Plain : Text → Type 0
Plain s = Free b'&' s × Free b'=' s × Free b'%' s

abbrev pub AllPlain : StringMap → Type 0
AllPlain [] = Unit {0}
AllPlain ((k, v) ∷ pairs) = Plain k × Plain v × AllPlain pairs

abbrev pub pair_text : Text → Text → Text
pair_text k v = k ++ b'=' ∷ v

-- The pairs as a query string.
abbrev pub render : StringMap → Text
render [] = []
render ((k, v) ∷ []) = pair_text k v
render ((k, v) ∷ (next ∷ pairs)) = pair_text k v ++ b'&' ∷ render (next ∷ pairs)

abbrev pub set_all : StringMap → StringMap → StringMap
set_all [] result = result
set_all ((k, v) ∷ pairs) result = set_all pairs (set k v result)

parse_target-pair_text :
    (k v : Text) (result : StringMap)
    → Plain k
    → Plain v
    → parse_target (pair_text k v) result ≡ some (true, set k v result)
unfolding parse_target url_decode
parse_target-pair_text k v result (_, free_eq, free_pc) (_, _, free_pc') =
    rw
      (
        cut_char-append b'=' k v free_eq,
        cut_char-Free b'%' k free_pc,
        cut_char-Free b'%' v free_pc',
        parse_target,
        url_decode,
      )
      refl

parse_loop_step :
    (f : ℕ) (q target rest : Text) (result result' : StringMap)
    → q ≢ []
    → next_target q ≡ (target, rest)
    → parse_target target result ≡ some (true, result')
    → parse_loop (suc f) q result ≡ parse_loop f rest result'
unfolding parse_loop
parse_loop_step f [] target rest result result' ne e one = absurd (ne refl)
parse_loop_step f (c ∷ q) target rest result result' ne e one =
    rw (ap (λ p. p.0) e, one, ap (λ p. p.1) e, parse_loop) refl

next_target_last : (q : Text) → cut_char b'&' q ≡ none → next_target q ≡ (q, [])
next_target_last q e = rw (e, next_target) refl

next_target_more :
    (q target rest : Text) → cut_char b'&' q ≡ some (target, rest) → next_target q ≡ (target, rest)
next_target_more q target rest e = rw (e, next_target) refl

pair_text-Free : (c : ℕ) (k v : Text) → b'=' ≢ c → Free c k → Free c v → Free c (pair_text k v)
pair_text-Free c k v ne h h' = Free-append c k (b'=' ∷ v) h (ne, h')

not_empty : (k v : Text) → pair_text k v ≢ []
not_empty [] v e = cc
not_empty (c ∷ k) v e = cc

not_empty_more : (s t : Text) (c : ℕ) → s ++ c ∷ t ≢ []
not_empty_more [] t c e = cc
not_empty_more (x ∷ s) t c e = cc

parse_loop_end : (f : ℕ) (result : StringMap) → 0 < f → parse_loop f [] result ≡ some (true, result)
unfolding parse_loop
parse_loop_end zero result h = absurd (omega arith)
parse_loop_end (suc f) result h = refl

parse_last :
    (f : ℕ) (k v : Text) (result : StringMap)
    → 0 < f
    → Plain k
    → Plain v
    → parse_loop (suc f) (pair_text k v) result ≡ some (true, set k v result)
parse_last f k v result h pk pv =
    let free = pair_text-Free b'&' k v (λ e. cc) pk.0 pv.0 in
    parse_loop_step f (pair_text k v) (pair_text k v) [] result (set k v result) (not_empty k v)
      (next_target_last (pair_text k v) (cut_char-Free b'&' (pair_text k v) free))
      (parse_target-pair_text k v result pk pv)
    ∙ parse_loop_end f (set k v result) h

parse_more :
    (f : ℕ) (k v rest : Text) (result : StringMap)
    → Plain k
    → Plain v
    → parse_loop (suc f) (pair_text k v ++ b'&' ∷ rest) result ≡ parse_loop f rest (set k v result)
parse_more f k v rest result pk pv =
    let free = pair_text-Free b'&' k v (λ e. cc) pk.0 pv.0 in
    parse_loop_step f (pair_text k v ++ b'&' ∷ rest) (pair_text k v) rest result (set k v result)
      (not_empty_more (pair_text k v) rest b'&')
      (next_target_more (pair_text k v ++ b'&' ∷ rest) (pair_text k v) rest
        (cut_char-append b'&' (pair_text k v) rest free))
      (parse_target-pair_text k v result pk pv)

parse_loop-render :
    (pairs : StringMap) (f : ℕ) (result : StringMap)
    → AllPlain pairs
    → length pairs < f
    → parse_loop f (render pairs) result ≡ some (true, set_all pairs result)
parse_loop-render [] f result plain fuel = parse_loop_end f result fuel
parse_loop-render ((k, v) ∷ pairs) zero result plain fuel = absurd (omega arith)
parse_loop-render ((k, v) ∷ []) (suc f) result (pk, pv, _) fuel =
    parse_last f k v result (omega arith) pk pv
parse_loop-render ((k, v) ∷ (next ∷ pairs)) (suc f) result (pk, pv, more) fuel =
    parse_more f k v (render (next ∷ pairs)) result pk pv
    ∙ parse_loop-render (next ∷ pairs) f (set k v result) more (omega arith)

length-render : (pairs : StringMap) → length pairs ≤ length (render pairs)
length-render [] = omega arith
length-render ((k, v) ∷ []) = omega (arith, length-append k (b'=' ∷ v))
length-render ((k, v) ∷ (next ∷ pairs)) = omega (
  arith,
  length-render (next ∷ pairs),
  length-append (pair_text k v) (b'&' ∷ render (next ∷ pairs)),
)

-- From any pairs of keys and values without `&`, `=` and `%`, written as `k=v` with `&` between them,
-- `parse_query_string` sets each key to its value, in order, and reports success.
pub parse_query_string-render :
    (pairs result : StringMap)
    → AllPlain pairs
    → parse_query_string result (render pairs) ≡ some (true, set_all pairs result)
unfolding parse_query_string
parse_query_string-render pairs result plain =
    parse_loop-render pairs (suc (length (render pairs))) result plain
      (omega (arith, length-render pairs))
