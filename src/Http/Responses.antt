-- ===== src/Http/Responses.antt =====
-- webmon/http.cpp: `send_string` and the responses. `read_file` is what the file system has under a
-- name.
use llprof.Base.{
  ℕ, ◌-◌, ◌≡◌, ◌≢◌, refl, ap, ◌∙◌, not, ◌&&◌, Bool, true, false, Option, none, some, List, [], ◌∷◌,
  ◌++◌, Text, codes, decimal, text_eq, length, take, drop, ltb, ◌==◌, if◌then◌else◌, Bool-cases,
  inl, inr, drop_all, length-drop, arith,
}
use Prim.Native.Nat.{min}
use llprof.Network.{Sender, send_full, send_loop}
use llprof.Http.Strings.{StringMap, set}

-- The loop of `send_string`, from the bytes at `msg.c_str() + sent` on.
unfoldable pub send_rest : List ℕ → Text → Text → Bool × Sender
send_rest ready [] delivered = (true, record { ready = ready; delivered = delivered })
send_rest [] (c ∷ msg) delivered = (false, record { ready = []; delivered = delivered })
send_rest (w ∷ ws) (c ∷ msg) delivered =
    let n = min w (length (c ∷ msg)) in
    elim (n == 0) [
      | true ↦ (false, record { ready = ws; delivered = delivered })
      | false ↦ send_rest ws (drop n (c ∷ msg)) (delivered ++ take n (c ∷ msg))
    ]

-- `closed` says that a call which sends nothing is one on a connection that the peer has closed. The
-- flags are 0 and the signal SIGPIPE is not ignored, so that such a call ends the process: `none`.
unfoldable pub send_string : Bool → Text → Sender → Option (Bool × Sender)
unfolding send_rest
send_string closed msg s =
    let (sent, s') = send_rest s.ready msg s.delivered in
    if closed && not sent then none else some (sent, s')

-- A result, unless a failure ends the process.
abbrev pub unless_killed : Bool → Bool × Sender → Option (Bool × Sender)
unless_killed closed (sent, s) =
    if closed then (if sent then some (true, s) else none) else some (sent, s)

abbrev pub crlf : Text
crlf = 13 ∷ 10 ∷ []

unfoldable pub header_text : StringMap → Text
header_text [] = []
header_text ((key, value) ∷ header) = key ++ codes ": " ++ value ++ crlf ++ header_text header

unfoldable pub build_repsonce : Text → StringMap → Text → Text
unfolding header_text
build_repsonce first_line header body =
    first_line
    ++ crlf
    ++ header_text header
    ++ (codes "Content-Length: " ++ decimal (length body) ++ crlf)
    ++ crlf
    ++ body

unfoldable pub set_default_resp_header : StringMap → StringMap
unfolding set
set_default_resp_header header = set (codes "Content-Type") (codes "text/plain") (
    set (codes "Connection") (codes "close")
      (set (codes "Server") (codes "llprof web server") header))

unfoldable pub build_resp_200 : Text → Text → Text
unfolding build_repsonce set_default_resp_header
build_resp_200 content_type body =
    build_repsonce (codes "HTTP/1.1 200 OK")
      (set (codes "Content-Type") content_type (set_default_resp_header [])) body

unfoldable pub build_resp_404 : Text
unfolding build_repsonce set_default_resp_header
build_resp_404 =
    build_repsonce (codes "HTTP/1.1 404 Not Found") (set_default_resp_header []) (codes "404 Error")

unfoldable pub build_resp_500 : Text
unfolding build_repsonce set_default_resp_header
build_resp_500 =
    build_repsonce (codes "HTTP/1.1 500 Internal Server Error") (set_default_resp_header []) []

-- By the last three characters of a name.
unfoldable pub mime_of : Text → Text
unfolding text_eq
mime_of ext =
    if text_eq ext (codes "txt")
    then codes "text/plain"
    else if text_eq ext (codes "tml")
    then codes "text/html"
    else if text_eq ext (codes "htm")
    then codes "text/html"
    else if text_eq ext (codes "css")
    then codes "text/css"
    else if text_eq ext (codes ".js")
    then codes "text/javascript"
    else codes "application/octet-stream"

-- A name of less than three characters, for which `substr` throws, is `none`.
unfoldable pub build_resp_file : (Text → Option Text) → Text → Option Text
unfolding mime_of build_resp_200 build_resp_404
build_resp_file read_file file_name = elim (read_file file_name) [
  | none ↦ some build_resp_404
  | some body ↦
      if ltb (length file_name) 3
      then none
      else some (build_resp_200 (mime_of (drop (length file_name - 3) file_name)) body)
]

-- One call of `send`, in either loop.
send_rest-send_loop :
    (ws : List ℕ) (msg delivered : Text)
    → msg ≢ []
    → send_rest ws msg delivered ≡ send_loop ws msg delivered
unfolding send_rest send_loop
send_rest-send_loop ws [] delivered ne = absurd (ne refl)
send_rest-send_loop [] (c ∷ msg) delivered ne = refl
send_rest-send_loop (w ∷ ws) (c ∷ msg) delivered ne =
    let n = min w (length (c ∷ msg)) in
    elim (Bool-cases (n == 0)) [
      | inl e ↦ rw (e, send_rest, send_loop) refl
      | inr e ↦ elim (Bool-cases (n == length (c ∷ msg))) [
        | inl f ↦
            rw (e, f, send_rest, send_loop)
              (ap (λ rest. send_rest ws rest (delivered ++ take n (c ∷ msg)))
                (drop_all n (c ∷ msg) (ground arith)))
        | inr f ↦
            let left = length-drop n (c ∷ msg) in
            rw (e, f, send_rest, send_loop)
              (send_rest-send_loop ws (drop n (c ∷ msg)) (delivered ++ take n (c ∷ msg))
                (λ q. absurd (ground (arith, f, ap length q, left))))
      ]
    ]

unless_killed_lem :
    (closed : Bool) (r : Bool × Sender)
    → (if closed && not r.0 then none else some r) ≡ unless_killed closed r
unless_killed_lem true (true, s) = refl
unless_killed_lem true (false, s) = refl
unless_killed_lem false r = refl

-- The web server's `send_string` and the runtime's `SendFull` send a message that is not empty in
-- the same way, with the same result, except that where the peer has closed the connection a failure
-- of `SendFull` is a result, while one of `send_string` ends the process; the empty message is a
-- success for `send_string`, without a call of `send`.
pub send_string-send_full :
    (closed : Bool) (msg : Text) (s : Sender)
    → (msg ≢ [] → send_string closed msg s ≡ unless_killed closed (send_full msg s))
      × (send_string closed [] s ≡ some (true, s))
unfolding send_string send_full send_rest
send_string-send_full closed msg s = (
  λ ne.
      unless_killed_lem closed (send_rest s.ready msg s.delivered)
      ∙ ap (unless_killed closed) (send_rest-send_loop s.ready msg s.delivered ne),
  unless_killed_lem closed (true, s) ∙ sent_all closed,
)
  where
    sent_all : (closed : Bool) → unless_killed closed (true, s) ≡ some (true, s)
    sent_all true = refl
    sent_all false = refl
