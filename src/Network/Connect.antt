-- ===== src/Network/Connect.antt =====
-- llprofcommon/network.cpp: the result of `SocketConnectTo` and the sockets that it leaves open.
use llprof.Base.{
  ℕ, ◌+◌, ◌≡◌, ap, ◌∙◌, Bool, true, false, Option, none, some, List, [], ◌∷◌, ◌++◌, length, arith,
  if◌then◌else◌, Bool-cases, inl, inr, refl, sym,
}
use mathlib.Core.List.{reverse, reverse-cons, append_assoc, append-nil}
use llprof.Network.{Address, connect_loop, socket_connect_to}

abbrev pub failing : Address → Bool
failing a = if a.opens then (if a.connects then false else true) else true

last_decides :
    (before : List Address) (a : Address) (n : ℕ) (sock : Option ℕ) (open_socks : List ℕ)
    → (connect_loop (before ++ a ∷ []) n sock open_socks).0
      ≡ (if failing a then none else some (n + length before))
unfolding connect_loop
last_decides [] a n sock open_socks = ground arith
last_decides (b ∷ before) a n sock open_socks =
    last_decides before a (n + 1) _ _ ∙ ap (λ k. if failing a then none else some k) (omega arith)

-- The result is the socket of the last address, and -1 if that one cannot be opened or connected,
-- whether or not an earlier address accepted.
pub socket_connect_to-last :
    (before : List Address) (a : Address)
    → (socket_connect_to (some (before ++ a ∷ []))).0
      ≡ (if failing a then none else some (length before))
unfolding socket_connect_to
socket_connect_to-last before a =
    last_decides before a 0 none [] ∙ ap (λ k. if failing a then none else some k) (omega arith)

-- The numbers, from `n` on, of the addresses that accept a connection.
unfoldable pub connected : ℕ → List Address → List ℕ
connected n [] = []
connected n (a ∷ as_) = let rest = connected (n + 1) as_ in if failing a then rest else n ∷ rest

opened_lem :
    (a : Address) (n : ℕ) (open_socks : List ℕ)
    → failing a ≡ false
    → (if a.opens then (if a.connects then n ∷ open_socks else open_socks) else open_socks)
      ≡ n ∷ open_socks
opened_lem a n open_socks e = ground (arith, e)

connected_lem :
    (a : Address) (as_ : List Address) (n : ℕ)
    → failing a ≡ false
    → connected n (a ∷ as_) ≡ n ∷ connected (n + 1) as_
unfolding connected
connected_lem a as_ n e = rw (e, connected) refl

open_loop :
    (as_ : List Address) (n : ℕ) (sock : Option ℕ) (open_socks : List ℕ)
    → (connect_loop as_ n sock open_socks).1 ≡ reverse (connected n as_) ++ open_socks
unfolding connect_loop connected
open_loop [] n sock open_socks = refl
open_loop (a ∷ as_) n sock open_socks = elim (Bool-cases (failing a)) [
  | inl e ↦ open_loop as_ (n + 1) _ _ ∙ ground (arith, e)
  | inr e ↦
      open_loop as_ (n + 1) _ _
      ∙ ap (λ socks. reverse (connected (n + 1) as_) ++ socks) (opened_lem a n open_socks e)
      ∙ sym (append_assoc (reverse (connected (n + 1) as_)) (n ∷ []) open_socks)
      ∙ ap (λ socks. socks ++ open_socks)
          (sym (reverse-cons n (connected (n + 1) as_))
            ∙ sym (ap reverse (connected_lem a as_ n e)))
]

-- The sockets that are open at the end are those of all the addresses that accepted, the last one
-- first, and no other; so the sockets of all but the last accepting address are lost, and that one too
-- where a failing address follows.
pub socket_connect_to-open :
    (addresses : List Address)
    → (socket_connect_to (some addresses)).1 ≡ reverse (connected 0 addresses)
unfolding socket_connect_to
socket_connect_to-open addresses =
    open_loop addresses 0 none [] ∙ append-nil (reverse (connected 0 addresses))
