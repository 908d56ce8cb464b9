-- ===== src/Webmon/Receive.antt =====
-- webmon/data_store.cpp, `DataStore::RecvMessage` and `MessageBuf::ReadFrom`.
use llprof.Base.{
  ℕ, ◌-◌, ◌^◌, ◌<◌, ◌≡◌, refl, sym, ap, ◌∙◌, inl, inr, true, false, Option, none, some, List, [],
  ◌++◌, Text, length, drop, leb, ◌==◌, if◌then◌else◌, le32, word32, word32-le32, ◌>>=◌, Bool-cases,
  eq_nil_of_length, lt→leb, arith,
}
use mathlib.Core.List.{append_assoc, append-nil}
use llprof.Network.{recv_full}
use llprof.Network.Transfer.{frame, AllPieces, joined, recv_full-takes}
use llprof.Webmon.MessageBuf.{MessageBuf}

abbrev pub message_of : Text → MessageBuf
message_of buf = record { buf = buf; ptr = 0 }

-- What `recv` has to give for the body. Its result is not looked at: when it fails, the rest of the
-- buffer is never written, `none`; so is a size that does not fit an `int`.
unfoldable pub recv_body : Text → ℕ → List Text → Option (Option MessageBuf × List Text)
recv_body header size pieces = elim (leb (2 ^ 31 - 8) size) [
  | true ↦ none
  | false ↦
      let (got, body, pieces') = recv_full size pieces in
      if got then some (some (message_of (header ++ body)), pieces') else none
]

unfoldable pub recv_sized : Text → ℕ → List Text → Option (Option MessageBuf × List Text)
unfolding recv_body
recv_sized header size pieces = elim (size == 0) [
  | true ↦ some (some (message_of header), pieces)
  | false ↦ recv_body header size pieces
]

-- The message, NULL when the header does not arrive, and the pieces that are left.
unfoldable pub recv_message : List Text → Option (Option MessageBuf × List Text)
unfolding recv_sized
recv_message pieces =
    let (got, header, pieces') = recv_full 8 pieces in
    if got
    then (do size ← word32 (drop 4 header); recv_sized header size pieces')
    else some (none, pieces')

recv_sized-body :
    (header body rest : Text) (pieces : List Text)
    → AllPieces pieces
    → joined pieces ≡ body ++ rest
    → length body < 2 ^ 31 - 8
    → (pieces' : List Text) × (recv_sized header (length body) pieces
        ≡ some (some (message_of (header ++ body)), pieces'))
      × AllPieces pieces'
      × (joined pieces' ≡ rest)
unfolding recv_sized recv_body
recv_sized-body header body rest pieces all split small = elim (Bool-cases (length body == 0)) [
  | inl z ↦
      let empty : body ≡ [] = eq_nil_of_length body (ground arith) in
      (
        pieces,
        rw (z, recv_sized)
            (ap (λ b. some (some (message_of b), pieces))
              (sym (append-nil header) ∙ ap (◌++◌ header) (sym empty))),
        all,
        split ∙ ap (λ b. b ++ rest) empty,
      )
  | inr z ↦
      let (pieces', got, all', left) = recv_full-takes pieces body rest all split (ground arith) in
      (
        pieces',
        rw (z, lt→leb (2 ^ 31 - 8) (length body) small, got, recv_sized, recv_body) refl,
        all',
        left,
      )
]

recv_message_step :
    (header : Text) (size : ℕ) (pieces pieces' : List Text)
    → recv_full 8 pieces ≡ (true, header, pieces')
    → word32 (drop 4 header) ≡ some size
    → recv_message pieces ≡ recv_sized header size pieces'
unfolding recv_message
recv_message_step header size pieces pieces' got e = rw (got, e, recv_message) refl

-- However the kernel cuts the bytes, from a stream that begins with the frame of a message of less
-- than 2^31 - 8 bytes `RecvMessage` returns a buffer with exactly that frame, and leaves the rest of
-- the stream.
pub recv_message-frame :
    (msg_id : ℕ) (body rest : Text) (pieces : List Text)
    → AllPieces pieces
    → joined pieces ≡ frame msg_id body ++ rest
    → length body < 2 ^ 31 - 8
    → (pieces' : List Text) × (recv_message pieces
        ≡ some (some (message_of (frame msg_id body)), pieces'))
      × AllPieces pieces'
      × (joined pieces' ≡ rest)
recv_message-frame msg_id body rest pieces all split small =
    let header = le32 msg_id ++ le32 (length body) in
    let (pieces1, got, all1, left1) =
      recv_full-takes pieces header (body ++ rest) all (split ∙ append_assoc header body rest)
        (omega arith) in
    let (pieces2, done, all2, left2) = recv_sized-body header body rest pieces1 all1 left1 small in
    (
      pieces2,
      recv_message_step header (length body) pieces pieces1 got
            (word32-le32 (length body) [] (omega arith))
          ∙ done,
      all2,
      left2,
    )
