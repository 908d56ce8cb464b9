-- ===== src/Server/Dispatch.antt =====
-- `llprof_message_dispatch` over a stream of messages.
use llprof.Base.{
  ℕ, zero, suc, ◌^◌, ◌<◌, ◌≡◌, refl, sym, ap, ◌∙◌, inl, inr, Bool, true, false, Option, none, some,
  List, [], ◌∷◌, ◌++◌, Text, length, drop, leb, ◌==◌, if◌then◌else◌, le32, word32, word32-le32,
  ◌>>=◌, Bool-cases, eq_nil_of_length, lt→leb, arith,
}
use mathlib.Core.List.{append_assoc}
use mathlib.Core.Option
use llprof.Network.{recv_full}
use llprof.Network.Transfer.{frame, AllPieces, joined, recv_full-takes}
use llprof.Server.{Process, Message}
use llprof.Server.Messages.{
  msg_handler, msg_buf_size, Ending, closed, request, after_body, after_size, after_header,
  message_dispatch,
}

-- The handler on one message after the other.
unfoldable pub handle_all :
    (ℕ → ℕ → ℕ) → Process → List Message → List Message → Option (Process × List Message)
handle_all read p [] sent = some (p, sent)
handle_all read p ((msg_id, body) ∷ messages) sent = do
  (p', out) ← msg_handler read p msg_id body
  handle_all read p' messages (sent ++ out)

abbrev pub frames : List Message → Text
frames [] = []
frames ((msg_id, body) ∷ messages) = frame msg_id body ++ frames messages

-- The messages that a client may send: a type of 32 bits, and a body that the buffer holds.
abbrev pub AllShort : List Message → Type 0
AllShort [] = Unit {0}
AllShort ((msg_id, body) ∷ messages) =
    (msg_id < 2 ^ 32) × (length body < msg_buf_size) × AllShort messages

abbrev pub ends : Process × List Message → Process × List Message × Ending
ends (p, sent) = (p, sent, closed)

no_pieces : (pieces : List Text) → AllPieces pieces → joined pieces ≡ [] → pieces ≡ []
no_pieces [] all e = refl
no_pieces ([] ∷ pieces) all e = absurd (all.0 refl)
no_pieces ((c ∷ p) ∷ pieces) all e = absurd (cc)

after_header-fields :
    (msg_id size : ℕ) (header : Text) (pieces : List Text)
    → word32 header ≡ some msg_id
    → word32 (drop 4 header) ≡ some size
    → after_header (true, header, pieces) ≡ some (after_size msg_id size pieces)
unfolding after_header
after_header-fields msg_id size header pieces e e' = rw (e, e', after_header) refl

after_size-small :
    (msg_id size : ℕ) (b : Bool) (pieces : List Text)
    → leb msg_buf_size size ≡ false
    → (size == 0) ≡ b
    → after_size msg_id size pieces
      ≡ (if b then request msg_id [] pieces else after_body msg_id (recv_full size pieces))
unfolding after_size
after_size-small msg_id size true pieces small e = rw (small, e, after_size) refl
after_size-small msg_id size false pieces small e = rw (small, e, after_size) refl

-- One message of the stream.
after_header-frame :
    (msg_id : ℕ) (body rest : Text) (pieces : List Text)
    → AllPieces pieces
    → joined pieces ≡ frame msg_id body ++ rest
    → msg_id < 2 ^ 32
    → length body < msg_buf_size
    → (pieces' : List Text) × (after_header (recv_full 8 pieces)
        ≡ some (request msg_id body pieces'))
      × AllPieces pieces'
      × (joined pieces' ≡ rest)
unfolding after_body
after_header-frame msg_id body rest pieces all split id_small small =
    let header = le32 msg_id ++ le32 (length body) in
    let (pieces1, got, all1, left1) =
      recv_full-takes pieces header (body ++ rest) all (split ∙ append_assoc header body rest)
        (omega arith) in
    let fields =
      ap after_header got
      ∙ after_header-fields msg_id (length body) header pieces1
          (word32-le32 msg_id (le32 (length body)) id_small)
          (word32-le32 (length body) [] (omega arith)) in
    let fits = lt→leb msg_buf_size (length body) small in
    elim (Bool-cases (length body == 0)) [
      | inl z ↦
          let empty : body ≡ [] = eq_nil_of_length body (ground arith) in
          (
            pieces1,
            fields
                ∙ ap some (
                    after_size-small msg_id (length body) true pieces1 fits z
                    ∙ ap (λ b. request msg_id b pieces1) (sym empty)),
            all1,
            left1 ∙ ap (λ b. b ++ rest) empty,
          )
      | inr z ↦
          let (pieces2, got2, all2, left2) =
            recv_full-takes pieces1 body rest all1 left1 (ground arith) in
          (
            pieces2,
            fields
                ∙ ap some (
                    after_size-small msg_id (length body) false pieces1 fits z
                    ∙ ap (after_body msg_id) got2),
            all2,
            left2,
          )
    ]

dispatch_step :
    (f msg_id : ℕ) (body : Text) (read : ℕ → ℕ → ℕ) (p : Process) (pieces pieces' : List Text)
    (sent : List Message)
    → after_header (recv_full 8 pieces) ≡ some (request msg_id body pieces')
    → message_dispatch (suc f) read p pieces sent
      ≡ (msg_handler read p msg_id body >>= λ r. message_dispatch f read r.0 pieces' (sent ++ r.1))
unfolding message_dispatch
dispatch_step f msg_id body read p pieces pieces' sent e = rw (e, message_dispatch) refl

dispatch_end :
    (f : ℕ) (read : ℕ → ℕ → ℕ) (p : Process) (sent : List Message)
    → message_dispatch (suc f) read p [] sent ≡ some (p, sent, closed)
unfolding message_dispatch after_header recv_full
dispatch_end f read p sent = refl

-- With a handler that gives the same rest, both loops agree.
same_rest :
    (read : ℕ → ℕ → ℕ) (sent : List Message) (messages : List Message)
    (r : Option (Process × List Message))
    (rest : Process → List Message → Option (Process × List Message × Ending))
    → ((p : Process) (out : List Message)
        → rest p out ≡ Option.map ends (handle_all read p messages out))
    → (r >>= λ r. rest r.0 (sent ++ r.1))
      ≡ Option.map ends (r >>= λ r. handle_all read r.0 messages (sent ++ r.1))
same_rest read sent messages none rest h = refl
same_rest read sent messages (some (p, out)) rest h = h p (sent ++ out)

handle_all-step :
    (read : ℕ → ℕ → ℕ) (p : Process) (msg_id : ℕ) (body : Text) (messages sent : List Message)
    → handle_all read p ((msg_id, body) ∷ messages) sent
      ≡ (msg_handler read p msg_id body >>= λ r. handle_all read r.0 messages (sent ++ r.1))
unfolding handle_all
handle_all-step read p msg_id body messages sent = refl

-- A client that sends messages that fit the buffer and then closes the connection has each of them
-- handled, in order and however the kernel cuts their bytes: the loop ends with the connection, and
-- has sent what the handler answers to one message after the other, each on the process that the one
-- before left. Fuel above the number of messages is enough; the loop fails exactly if the handler
-- does.
pub message_dispatch-frames :
    (messages : List Message) (f : ℕ) (read : ℕ → ℕ → ℕ) (p : Process) (pieces : List Text)
    (sent : List Message)
    → AllPieces pieces
    → joined pieces ≡ frames messages
    → AllShort messages
    → length messages < f
    → message_dispatch f read p pieces sent ≡ Option.map ends (handle_all read p messages sent)
unfolding handle_all
message_dispatch-frames messages zero read p pieces sent all split short fuel = absurd (omega arith)
message_dispatch-frames [] (suc f) read p pieces sent all split short fuel =
    ap (λ ps. message_dispatch (suc f) read p ps sent) (no_pieces pieces all split)
    ∙ dispatch_end f read p sent
message_dispatch-frames ((msg_id, body) ∷ messages) (suc f) read p pieces sent all split
      (id_small, small, short) fuel =
    let (pieces', one, all', left) =
      after_header-frame msg_id body (frames messages) pieces all split id_small small in
    dispatch_step f msg_id body read p pieces pieces' sent one
    ∙ same_rest read sent messages (msg_handler read p msg_id body)
        (λ q out. message_dispatch f read q pieces' out)
        (λ q out.
          message_dispatch-frames messages f read q pieces' out all' left short (omega arith))
    ∙ ap (Option.map ends) (sym (handle_all-step read p msg_id body messages sent))
