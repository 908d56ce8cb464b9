-- ===== src/Webmon/Answer/Examples.antt =====
-- A program with two threads, whose answer arrives in one piece.
use llprof.Base.{◌≡◌, refl, true, some, List, [], ◌∷◌, ◌++◌, Text, codes, arith}
use llprof.Protocol.{msg_command_succeed}
use llprof.Network.Transfer.{AllPieces, joined}
use llprof.Registry.Slots.{Layout, one_counter, start_node}
use llprof.Server.{Message}
use llprof.Server.Iteration.{AllFit, all_collected, all_messages, present, req_profile_data-all}
use llprof.Server.Dispatch.{frames}
use llprof.Server.Examples.{one_clock, two_threads, real_time}
use llprof.Webmon.Collect.{Received, receive_loop}
use llprof.Webmon.Answer.{
  AllSendable, all_received, offset_nameid, record_size, receive_loop-req_profile_data,
}

abbrev answer : List Message
answer = all_messages one_clock (λ k i. 5) 0 two_threads.threads ++ (msg_command_succeed, []) ∷ []

abbrev nothing_yet : Received
nothing_yet = record {
  buf_for_threads = [];
  nowinfo_buf_for_threads = [];
  query_names = [];
  name_table = (7, codes "main") ∷ [];
}

two_threads-sendable : AllSendable one_clock (λ k i. 5) 0 two_threads.threads
unfolding present start_node
two_threads-sendable = (
  (
    omega arith,
    (
      (omega arith, omega arith, omega arith, omega arith, (omega arith, (omega arith, tt)), refl),
      tt,
    ),
    omega arith,
    omega arith,
  ),
  (
    (
      omega arith,
      (
        (
          omega arith,
          omega arith,
          omega arith,
          omega arith,
          (omega arith, (omega arith, tt)),
          refl,
        ),
        tt,
      ),
      omega arith,
      omega arith,
    ),
    tt,
  ),
)

receive_loop-req_profile_data_example :
    (pieces' : List Text) × (receive_loop 5
        (offset_nameid one_clock)
        (record_size one_clock)
        (frames answer ∷ [])
        nothing_yet
      ≡ some (true, all_received one_clock (λ k i. 5) 0 two_threads.threads nothing_yet, pieces'))
    × AllPieces pieces'
    × (joined pieces' ≡ [])
receive_loop-req_profile_data_example =
    let layout : Layout one_clock = one_counter 0 real_time refl refl refl in
    let fit : AllFit one_clock two_threads.threads =
      ((0, 0 ∷ 0 ∷ [], refl, refl), ((0, 0 ∷ 0 ∷ [], refl, refl), tt)) in
    receive_loop-req_profile_data two_threads
      (record two_threads { threads = all_collected one_clock (λ k i. 5) 0 two_threads.threads })
      (λ k i. 5) answer 5 [] (frames answer ∷ []) nothing_yet layout fit two_threads-sendable
      (req_profile_data-all two_threads (λ k i. 5) layout fit) ((λ e. cc), tt) refl (omega arith)
