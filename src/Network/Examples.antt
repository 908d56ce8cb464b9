-- ===== src/Network/Examples.antt =====
-- Short transfers and address lists, and the theorems of Network at them.
use llprof.Base.{
  ◌≡◌, ◌≢◌, ◌⊎◌, refl, true, false, none, some, List, [], ◌∷◌, ◌++◌, Text, codes, arith,
}
use llprof.Network.{
  Sender, Address, send_loop, send_full, send_prof_message, recv_full, socket_connect_to,
}
use llprof.Network.Transfer.{
  frame, AllPieces, joined, send_full-delivers, send_prof_message-delivers, recv_full-takes,
}
use llprof.Network.Connect.{connected, socket_connect_to-last, socket_connect_to-open}

-- The kernel takes three bytes, then five, then as many as there are.
abbrev slow : Sender
slow = record { ready = 3 ∷ 5 ∷ 100 ∷ 100 ∷ []; delivered = [] }

abbrev accepting : Address
accepting = record { opens = true; connects = true }

abbrev refusing : Address
refusing = record { opens = true; connects = false }

send_full-delivers_example :
    let (sent, s') = send_full (codes "profile") slow in
    (left : Text) × (s'.delivered ++ left ≡ codes "profile")
    × (sent ≡ true → left ≡ [])
    × (sent ≡ false → (left ≢ []) ⊎ (codes "profile" ≡ []))
    × ((send_full [] slow).0 ≡ false)
send_full-delivers_example = send_full-delivers (codes "profile") slow

send_prof_message-delivers_example :
    (send_prof_message 4 (codes "abc") slow).1.delivered ≡ [] ++ frame 4 (codes "abc")
unfolding send_prof_message send_full send_loop
send_prof_message-delivers_example = send_prof_message-delivers 4 (codes "abc") slow refl

recv_full-takes_example :
    (pieces' : List Text) × (recv_full 3 (codes "ab" ∷ codes "cd" ∷ [])
      ≡ (true, codes "abc", pieces'))
    × AllPieces pieces'
    × (joined pieces' ≡ codes "d")
recv_full-takes_example =
    recv_full-takes (codes "ab" ∷ codes "cd" ∷ []) (codes "abc") (codes "d")
      ((λ e. cc), ((λ e. cc), tt)) refl (omega arith)

socket_connect_to-last_example : (socket_connect_to (some (accepting ∷ refusing ∷ []))).0 ≡ none
socket_connect_to-last_example = socket_connect_to-last (accepting ∷ []) refusing

socket_connect_to-open_example :
    (socket_connect_to (some (accepting ∷ refusing ∷ accepting ∷ []))).1 ≡ 2 ∷ 0 ∷ []
unfolding connected
socket_connect_to-open_example = socket_connect_to-open (accepting ∷ refusing ∷ accepting ∷ [])
