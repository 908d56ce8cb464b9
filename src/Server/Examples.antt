-- ===== src/Server/Examples.antt =====
-- A process with two threads, and the theorems of Server and NameTable at it.
use llprof.Base.{
  ℕ, ◌+◌, ◌<◌, ◌≡◌, refl, Bool, true, false, Option, none, some, List, [], ◌∷◌, ◌++◌, Map, Text,
  codes, ◌==◌, if◌then◌else◌, arith,
}
use mathlib.Core.Option
use mathlib.Core.List.{append-nil}
use llprof.NameTable
use llprof.Server.Messages.{message_dispatch}
use llprof.Server.Dispatch.{handle_all, frames, ends, message_dispatch-frames}
use llprof.Protocol.{msg_start_profile}
use llprof.Registry.{PvType, Registry}
use llprof.Registry.Slots.{one_counter}
use llprof.CallTree.{ThreadInfo, fresh_node}
use llprof.Protocol.{msg_query_names, msg_command_succeed}
use llprof.Server.{Process, Message, req_profile_data}
use llprof.Server.Iteration.{all_collected, all_messages, req_profile_data-all}
use llprof.Server.Queries.{names_request}

abbrev pub real_time : PvType
real_time = record {
  record_type_id = codes "rtime";
  record_type_name = codes "real-time";
  is_counter = true;
  record_index = none;
}

abbrev pub one_clock : Registry
one_clock = record { records = real_time ∷ []; active = 0 ∷ 0 ∷ [] }

abbrev pub thread_of : ℕ → ThreadInfo
thread_of id = record {
  thread_id = id;
  nodes = fresh_node 0 0 ∷ fresh_node 0 0 ∷ [];
  serialized =
      record {
        nameid = 7;
        call_node_id = 2;
        parent_node_id = 1;
        call_count = 4;
        profile_value = 90 ∷ 0 ∷ [];
      }
      ∷ [];
  current = 1;
  generation = 1;
  stop = false;
  now_info = 0 ∷ 0 ∷ 0 ∷ [];
}

abbrev pub two_threads : Process
two_threads = record {
  registry = one_clock;
  names = (7, codes "main") ∷ (9, codes "work") ∷ [];
  threads = thread_of 1 ∷ thread_of 2 ∷ [];
  target_name = codes "program";
  server_started = true;
}

req_profile_data-all_example :
    req_profile_data (λ k i. 5) two_threads
    ≡ some (
      record two_threads { threads = all_collected one_clock (λ k i. 5) 0 two_threads.threads },
      all_messages one_clock (λ k i. 5) 0 two_threads.threads ++ (msg_command_succeed, []) ∷ [],
    )
req_profile_data-all_example =
    req_profile_data-all two_threads (λ k i. 5) (one_counter 0 real_time refl refl refl)
      ((0, 0 ∷ 0 ∷ [], refl, refl), ((0, 0 ∷ 0 ∷ [], refl, refl), tt))

get-add_cb_example :
    NameTable.get 7 (NameTable.add_cb 7 (some (codes "other")) two_threads.names)
    ≡ (if 7 == 7 then codes "main" else NameTable.named 7 two_threads.names)
unfolding NameTable.get llprof.Base.find
get-add_cb_example = NameTable.get-add_cb 7 7 (some (codes "other")) two_threads.names

abbrev two_requests : List Message
two_requests = (msg_start_profile, codes "abcd") ∷ (msg_query_names, names_request (9 ∷ [])) ∷ []

message_dispatch-frames_example :
    message_dispatch 3 (λ k i. 5) two_threads (frames two_requests ∷ []) []
    ≡ Option.map ends (handle_all (λ k i. 5) two_threads two_requests [])
message_dispatch-frames_example =
    message_dispatch-frames two_requests 3 (λ k i. 5) two_threads (frames two_requests ∷ []) []
      ((λ e. cc), tt) (append-nil (frames two_requests))
      (omega arith, omega arith, (omega arith, omega arith, tt)) (omega arith)
