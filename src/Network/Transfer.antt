-- ===== src/Network/Transfer.antt =====
-- llprofcommon/network.cpp: the bytes that `SendFull`, `SendProfMessage` and `RecvFull` move.
use llprof.Base.{
  ℕ, ◌-◌, ◌<◌, ◌≡◌, refl, sym, ap, ◌∙◌, ◌≢◌, ◌⊎◌, inl, inr, Bool, true, false, List, [], ◌∷◌, ◌++◌,
  Text, length, take, drop, arith, ◌==◌, Bool-cases, le32, take-append-drop, take_all, length-drop,
  length-append, cut_left, cut_right, length_pos, eq_nil_of_length,
}
use Prim.Native.Nat.{min}
use mathlib.Core.List.{append-nil, append_assoc}
use llprof.Network.{Sender, send_loop, send_full, send_prof_message, recv_loop, recv_full, put_back}

-- A transfer of `buf`: what has been delivered, and what is left of it.
pub record Sends (buf before : Text) (r : Bool × Sender) : Type 0 where
  pub left : Text
  pub in_order : r.1.delivered ++ left ≡ before ++ buf
  pub complete : r.0 ≡ true → left ≡ []
  pub broken : r.0 ≡ false → (left ≢ []) ⊎ (buf ≡ [])

empty_or_not : (buf : Text) → (buf ≢ []) ⊎ (buf ≡ [])
empty_or_not [] = inr refl
empty_or_not (c ∷ buf) = inl (λ e. cc)

send_loop-Sends : (ws : List ℕ) (buf before : Text) → Sends buf before (send_loop ws buf before)
unfolding send_loop
send_loop-Sends [] buf before = record {
  left = buf;
  in_order = refl;
  complete = λ e. cc;
  broken = λ e. empty_or_not buf;
}
send_loop-Sends (w ∷ ws) buf before =
    let n = min w (length buf) in
    elim (Bool-cases (n == 0)) [
      | inl e ↦
          rw (e, send_loop)
            (record {
              left = buf;
              in_order = refl;
              complete = λ q. cc;
              broken = λ q. empty_or_not buf;
            })
      | inr e ↦ elim (Bool-cases (n == length buf)) [
        | inl f ↦
            rw (e, f, send_loop)
              (record {
                left = [];
                in_order = rw (append-nil (before ++ take n buf), take_all n buf (ground arith));
                complete = λ q. refl;
                broken = λ q. cc;
              })
        | inr f ↦
            let rest = send_loop-Sends ws (drop n buf) (before ++ take n buf) in
            rw (e, f, send_loop)
              (record {
                left = rest.left;
                in_order =
                    rest.in_order
                    ∙ append_assoc before (take n buf) (drop n buf)
                    ∙ ap (◌++◌ before) (take-append-drop n buf);
                complete = rest.complete;
                broken = λ q. elim (rest.broken q) [
                  | inl more ↦ inl more
                  | inr none_left ↦
                      absurd (ground (arith, f, ap length none_left, length-drop n buf))
                ];
              })
      ]
    ]

send_loop_nil : (ready : List ℕ) (delivered : Text) → (send_loop ready [] delivered).0 ≡ false
unfolding send_loop
send_loop_nil [] delivered = refl
send_loop_nil (w ∷ ws) delivered = ground arith

-- Whatever the kernel takes at each call, what is delivered is a beginning of the buffer, after what
-- was delivered before; of a buffer that is not empty it is the whole exactly if `SendFull` returns 0,
-- and of the empty buffer `SendFull` always reports a failure.
pub send_full-delivers :
    (buf : Text) (s : Sender)
    → let (sent, s') = send_full buf s in
      (left : Text) × (s'.delivered ++ left ≡ s.delivered ++ buf)
      × (sent ≡ true → left ≡ [])
      × (sent ≡ false → (left ≢ []) ⊎ (buf ≡ []))
      × ((send_full [] s).0 ≡ false)
unfolding send_full
send_full-delivers buf s =
    let r = send_loop-Sends s.ready buf s.delivered in
    (r.left, r.in_order, r.complete, r.broken, send_loop_nil s.ready s.delivered)

send_full-all :
    (buf : Text) (s : Sender)
    → (send_full buf s).0 ≡ true
    → (send_full buf s).1.delivered ≡ s.delivered ++ buf
send_full-all buf s h =
    let (left, in_order, complete, broken, _) = send_full-delivers buf s in
    sym (append-nil (send_full buf s).1.delivered)
    ∙ ap (◌++◌ (send_full buf s).1.delivered) (sym (complete h))
    ∙ in_order

-- The bytes of a message as they go over the wire.
abbrev pub frame : ℕ → Text → Text
frame msg_id body = le32 msg_id ++ le32 (length body) ++ body

-- If `SendProfMessage` reports success, the frame of the message has been delivered, and nothing
-- else.
pub send_prof_message-delivers :
    (msg_id : ℕ) (body : Text) (s : Sender)
    → let (sent, s') = send_prof_message msg_id body s in
      sent ≡ true → s'.delivered ≡ s.delivered ++ frame msg_id body
unfolding send_prof_message
send_prof_message-delivers msg_id body s h =
    let header = le32 msg_id ++ le32 (length body) in
    let after = (send_full header s).1 in
    elim (Bool-cases (send_full header s).0) [
      | inr e ↦ absurd (ground (arith, e))
      | inl e ↦ elim (Bool-cases (length body == 0)) [
        | inl z ↦
            let none_left : body ≡ [] = eq_nil_of_length body (ground arith) in
            rw (e, z)
              (send_full-all header s e ∙ ap (λ b. s.delivered ++ (header ++ b)) (sym none_left))
        | inr z ↦
            let sent : (send_full body after).0 ≡ true = ground (arith, e, z) in
            rw (e, z)
              (send_full-all body after sent
                ∙ ap (λ d. d ++ body) (send_full-all header s e)
                ∙ append_assoc s.delivered header body)
      ]
    ]

-- Pieces that hold a stream of bytes, none of them empty.
abbrev pub AllPieces : List Text → Type 0
AllPieces [] = Unit {0}
AllPieces (p ∷ ps) = (p ≢ []) × AllPieces ps

abbrev pub joined : List Text → Text
joined [] = []
joined (p ∷ ps) = p ++ joined ps

joined-put_back : (p : Text) (ps : List Text) → joined (put_back p ps) ≡ p ++ joined ps
unfolding put_back
joined-put_back [] ps = refl
joined-put_back (c ∷ p) ps = refl

AllPieces-put_back : (p : Text) (ps : List Text) → AllPieces ps → AllPieces (put_back p ps)
unfolding put_back
AllPieces-put_back [] ps a = a
AllPieces-put_back (c ∷ p) ps a = (λ e. cc, a)

recv_loop-takes :
    (pieces : List Text) (sz : ℕ) (got bytes rest : Text)
    → AllPieces pieces
    → joined pieces ≡ bytes ++ rest
    → length bytes ≡ sz
    → 0 < sz
    → (pieces' : List Text) × (recv_loop pieces sz got ≡ (true, got ++ bytes, pieces'))
      × AllPieces pieces'
      × (joined pieces' ≡ rest)
unfolding recv_loop
recv_loop-takes [] sz got bytes rest a j l pos =
    absurd (omega (arith, ap length j, length-append bytes rest))
recv_loop-takes (piece ∷ pieces) sz got bytes rest a j l pos =
    let n = min (length piece) sz in
    let some_bytes = length_pos piece a.0 in
    let e : (n == 0) ≡ false = ground arith in
    elim (Bool-cases (n == sz)) [
      | inl f ↦
          let (t, d) = cut_left bytes rest piece (joined pieces) j (ground arith) in
          (
            put_back (drop sz piece) pieces,
            rw (e, f, recv_loop)
                (ap (λ b. (true, got ++ b, put_back (drop sz piece) pieces)) (rw l at t)),
            AllPieces-put_back (drop sz piece) pieces a.1,
            joined-put_back (drop sz piece) pieces ∙ (rw l at d),
          )
      | inr f ↦
          let short : length piece < sz = ground arith in
          let (t, d) = cut_right bytes rest piece (joined pieces) j (ground arith) in
          let (ps, done, all, left) =
            recv_loop-takes pieces (sz - n) (got ++ piece) (drop (length piece) bytes) rest a.1 d
              (ground (arith, length-drop (length piece) bytes)) (ground arith) in
          (
            ps,
            rw (e, f, recv_loop)
                (done
                  ∙ ap (λ b. (true, b, ps))
                      (append_assoc got piece (drop (length piece) bytes) ∙ ap (◌++◌ got) (sym t))),
            all,
            left,
          )
    ]

-- From a stream of non-empty pieces that begins with some bytes, `RecvFull` of their number returns
-- 0 and exactly those bytes, and leaves a stream of non-empty pieces with the rest.
pub recv_full-takes :
    (pieces : List Text) (bytes rest : Text)
    → AllPieces pieces
    → joined pieces ≡ bytes ++ rest
    → 0 < length bytes
    → (pieces' : List Text) × (recv_full (length bytes) pieces ≡ (true, bytes, pieces'))
      × AllPieces pieces'
      × (joined pieces' ≡ rest)
unfolding recv_full
recv_full-takes pieces bytes rest a j pos =
    recv_loop-takes pieces (length bytes) [] bytes rest a j refl pos
