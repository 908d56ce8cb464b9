-- ===== src/Http/Client.antt =====
-- webmon/http.cpp, `client_handler`: one request. The pieces are what `recv` returns, at most 1024
-- bytes each while the header is read; an empty one is an error or the end.
use llprof.Base.{
  ℕ, ◌-◌, true, false, Option, none, some, List, [], ◌∷◌, ◌++◌, Text, codes, text_eq, length, take,
  ◌==◌, if◌then◌else◌, ◌>>=◌,
}
use llprof.Http.Strings.{StringMap, cut_text, getm}
use llprof.Http.Requests.{parse_http_request_header}
use llprof.Http.Routes.{DataStoreRequest, route, respond}

-- The end of the header in one piece: the text before it and behind it.
unfoldable pub find_end : Text → Option (Text × Text)
unfolding cut_text
find_end buf = elim (cut_text (10 ∷ 10 ∷ []) buf) [
  | some parts ↦ some parts
  | none ↦ cut_text (13 ∷ 10 ∷ 13 ∷ 10 ∷ []) buf
]

-- The first loop: the header, the beginning of the body, and the pieces that follow. `none` is the
-- return of -1.
unfoldable pub recv_header : List Text → Text → Option (Text × Text × List Text)
unfolding find_end
recv_header [] header = none
recv_header ([] ∷ pieces) header = none
recv_header ((c ∷ buf) ∷ pieces) header = elim (find_end (c ∷ buf)) [
  | some (before, after) ↦ some (header ++ before, after, pieces)
  | none ↦ recv_header pieces (header ++ (c ∷ buf))
]

-- The second loop, with `len_rem` bytes to go. A piece is not longer than that.
unfoldable pub recv_body : List Text → ℕ → Text → Option Text
recv_body [] len_rem body = if len_rem == 0 then some body else none
recv_body (piece ∷ pieces) len_rem body =
    let buf = take len_rem piece in
    elim (len_rem == 0) [
      | true ↦ some body
      | false ↦ elim (length buf == 0) [
        | true ↦ none
        | false ↦ recv_body pieces (len_rem - length buf) (body ++ buf)
      ]
    ]

-- How a call of `client_handler` ends: with -1, with an exception or a read of memory that was not
-- initialised, or with a response.
pub data Result : Type 0 where
  refused failed : Result
  answered : Text → Result

abbrev answer : Option Text → Result
answer none = failed
answer (some response) = answered response

-- `to_length` is `lexical_cast<int>`: it throws, `none`, or gives a number, 0 for one that is
-- negative.
unfoldable pub request_body :
    (Text → Option ℕ) → StringMap → Text → List Text → Option (Option Text)
unfolding recv_body getm text_eq
request_body to_length header body pieces =
    if text_eq (getm header (codes "!method") []) (codes "POST")
    then (do
      len ← to_length (getm header (codes "Content-Length") (codes "0"))
      some (recv_body pieces (len - length body) body))
    else some (some body)

unfoldable pub client_handler :
    (Text → Option ℕ) → (Text → Option Text) → DataStoreRequest → Text → List Text → Result
unfolding recv_header request_body
client_handler to_length read_file request test_page pieces = elim (recv_header pieces []) [
  | none ↦ refused
  | some (header_text, body, rest) ↦
      let (ok, header) = parse_http_request_header [] header_text in
      elim ok [
        | false ↦ refused
        | true ↦ elim (request_body to_length header body rest) [
          | none ↦ failed
          | some received ↦ elim received [
            | none ↦ refused
            | some body' ↦
                answer (
                  respond read_file request test_page body'
                    (route (getm header (codes "!path") [])))
          ]
        ]
      ]
]
