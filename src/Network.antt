-- ===== src/Network.antt =====
-- llprofcommon/network.cpp: transfers over a socket, connecting, and the hash of a name.
pub mod Transfer
pub mod Connect
pub mod Hash
pub mod Examples
use llprof.Base.{
  ℕ, zero, suc, ◌+◌, ◌-◌, ◌*◌, ◌/◌, ◌%◌, ◌^◌, Bool, true, false, Option, none, some, List, [], ◌∷◌,
  ◌++◌, Text, length, take, drop, get_or, ltb, leb, ◌==◌, if◌then◌else◌, le32, word32, read64,
  add64, ◌>>=◌,
}
use Prim.Native.Nat.{min}

-- The sending side of a socket: how many bytes the kernel is ready to take at each call of `send`, 0
-- for an error or a closed connection, and the bytes that it has taken. A call takes no more than
-- it is given; after the last of `ready` every call fails.
pub record Sender : Type 0 where
  pub ready : List ℕ
  pub delivered : Text

-- The loop of `SendFull`, from the bytes at `pbuf + offset` on; the result is whether it returns 0.
unfoldable pub send_loop : List ℕ → Text → Text → Bool × Sender
send_loop [] buf delivered = (false, record { ready = []; delivered = delivered })
send_loop (w ∷ ws) buf delivered =
    let wrote = min w (length buf) in
    elim (wrote == 0) [
      | true ↦ (false, record { ready = ws; delivered = delivered })
      | false ↦ elim (wrote == length buf) [
        | true ↦ (true, record { ready = ws; delivered = delivered ++ take wrote buf })
        | false ↦ send_loop ws (drop wrote buf) (delivered ++ take wrote buf)
      ]
    ]

unfoldable pub send_full : Text → Sender → Bool × Sender
unfolding send_loop
send_full buf s = send_loop s.ready buf s.delivered

-- The receiving side: the pieces in which the bytes arrive. An empty piece is an error or the end.
-- `recv` returns a piece, or its beginning where the piece is longer than what is asked for.
put_back : Text → List Text → List Text
put_back [] pieces = pieces
put_back (c ∷ piece) pieces = (c ∷ piece) ∷ pieces

unfoldable pub recv_loop : List Text → ℕ → Text → Bool × Text × List Text
unfolding put_back
recv_loop [] sz got = (false, got, [])
recv_loop (piece ∷ pieces) sz got =
    let read = min (length piece) sz in
    elim (read == 0) [
      | true ↦ (false, got, pieces)
      | false ↦ elim (read == sz) [
        | true ↦ (true, got ++ take sz piece, put_back (drop sz piece) pieces)
        | false ↦ recv_loop pieces (sz - read) (got ++ piece)
      ]
    ]

unfoldable pub recv_full : ℕ → List Text → Bool × Text × List Text
unfolding recv_loop
recv_full sz pieces = recv_loop pieces sz []

-- `SendProfMessage`
unfoldable pub send_prof_message : ℕ → Text → Sender → Bool × Sender
send_prof_message msg_id buf s =
    let (sent, s') = send_full (le32 msg_id ++ le32 (length buf)) s in
    if sent then (if length buf == 0 then (true, s') else send_full buf s') else (false, s')

-- An address that `getaddrinfo` found: whether `socket` and `connect` succeed for it.
pub record Address : Type 0 where
  pub opens : Bool
  pub connects : Bool

-- The loop of `SocketConnectTo`. The sockets are numbered by the addresses; the result is the value
-- of `sock` at the end, `none` for -1, and the sockets that are open then.
unfoldable pub connect_loop : List Address → ℕ → Option ℕ → List ℕ → Option ℕ × List ℕ
connect_loop [] n sock open_socks = (sock, open_socks)
connect_loop (a ∷ as_) n sock open_socks =
    connect_loop as_ (n + 1) (if a.opens then (if a.connects then some n else none) else none)
      (if a.opens then (if a.connects then n ∷ open_socks else open_socks) else open_socks)

-- `none` in place of the addresses is a failure of `getaddrinfo`.
unfoldable pub socket_connect_to : Option (List Address) → Option ℕ × List ℕ
unfolding connect_loop
socket_connect_to none = (none, [])
socket_connect_to (some addresses) = connect_loop addresses 0 none []

-- (int)*(char *)p << k, added to an unsigned 64-bit number
pub signed_shift : ℕ → ℕ → ℕ
signed_shift c k = if ltb c 128 then c * 2 ^ k else (2 ^ 64 - (256 - c) * 2 ^ k)

-- The loop of `HashStr`. The fuel is the number of bytes left, of which each round takes one at least.
unfoldable pub hash_loop : ℕ → Text → ℕ → ℕ → Option ℕ
unfolding signed_shift
hash_loop zero s p result = some result
hash_loop (suc f) s p result = elim (ltb p (length s)) [
  | false ↦ some result
  | true ↦ elim (leb 8 (length s - p)) [
    | true ↦ do v ← read64 s p; hash_loop f s (p + 7) (add64 result (v * 2 ^ (p / 7 % 7)))
    | false ↦ hash_loop f s (p + 1) (add64 result (signed_shift (get_or s p 0) (p * 8 % 7)))
  ]
]

-- `none` would be a read beyond the string.
unfoldable pub hash_str : Text → Option ℕ
unfolding hash_loop
hash_str s = hash_loop (length s) s 0 (length s % 2 ^ 64)
