-- ===== src/Server.antt =====
-- llprofcommon/server.cpp and the buffer iteration of llprofcommon/call_tree.cpp: what the profiled
-- program answers to each message. `none` is a failed assertion or an access out of bounds.
pub mod Iteration
pub mod Messages
pub mod Queries
pub mod Dispatch
pub mod Examples
use llprof.Base.{
  ℕ, zero, suc, ◌+◌, ◌-◌, ◌*◌, ◌≤◌, Bool, true, false, not, Option, none, some, List, [], ◌∷◌, ◌++◌,
  Map, Text, codes, decimal, length, get_elem?, modify, ltb, leb, ◌==◌, if◌then◌else◌, le32, le64,
  word32, word64, ◌>>=◌, ◌>>◌, assert,
}
use mathlib.Core.List.{tail}
use mathlib.Core.Option
use llprof.NameTable
use llprof.Registry.{Registry, PvType}
use llprof.Registry.Slots.{start_node}
use llprof.CallTree.{ThreadInfo, SerializedInfo, get_serialized_buffer}
use llprof.Protocol.{
  Slide, get_slide, encode_records, encode_values, msg_start_profile, msg_query_info,
  info_data_slide, info_profile_target, info_record_metainfo, msg_req_profile_data, msg_slide_info,
  msg_profile_data, msg_query_names, query_names, msg_names, msg_stack_data, msg_profile_target,
  msg_record_metainfo, msg_nowinfo, msg_command_succeed, msg_error,
}

-- The profiled program, as the server thread sees it. `threads` is the list that begins at
-- `gFirstThread`.
pub record Process : Type 0 where
  pub registry : Registry
  pub names : Map Text
  pub threads : List ThreadInfo
  pub target_name : Text
  pub server_started : Bool

-- A message: its type and its body.
abbrev pub Message : Type 0
Message = ℕ × Text

-- `ThreadIterator`. The current thread is a position in the list, NULL beyond its end.
pub record ThreadIterator : Type 0 where
  pub current_thread : ℕ
  pub phase : ℕ
  pub got_flag : Bool

abbrev pub first_buffer : ThreadIterator
first_buffer = record { current_thread = 0; phase = 0; got_flag = false }

unfoldable pub next_buffer : Process → ThreadIterator → Option (Bool × ThreadIterator)
next_buffer p iter =
    if ltb iter.current_thread (length p.threads)
    then if iter.phase == 0
      then some (true, record iter { phase = 1; got_flag = false })
      else if iter.phase == 1
      then some (true, record iter { phase = 2; got_flag = false })
      else if iter.phase == 2
      then some (
        ltb (iter.current_thread + 1) (length p.threads),
        record { current_thread = iter.current_thread + 1; phase = 1; got_flag = false },
      )
      else none
    else some (false, record iter { got_flag = false })

-- `CallTree_GetNowInfo`; `read` is what the counters return.
unfoldable pub get_now_info : Registry → (ℕ → ℕ) → ThreadInfo → Option (ThreadInfo × List ℕ)
get_now_info g read ti = elim ti.now_info [
  | [] ↦ none
  | now ∷ values ↦ do
    values' ← start_node g read values
    some (record ti { now_info = now ∷ values' }, now ∷ values')
]

abbrev pub set_thread : Process → ℕ → ThreadInfo → Process
set_thread p k ti = record p { threads = modify p.threads k (λ _. ti) }

-- What a call of `BufferIteration_GetBuffer` leaves behind.
pub record Got : Type 0 where
  pub process : Process
  pub iter : ThreadIterator
  pub buf : Text

-- By the iterator's phase: the thread as the buffer leaves it, and the buffer's bytes.
unfoldable pub phase_buffer : ℕ → Registry → (ℕ → ℕ) → ThreadInfo → Option (ThreadInfo × Text)
unfolding get_serialized_buffer get_now_info
phase_buffer phase g read ti =
    if phase == 1
    then some ((get_serialized_buffer ti).0, encode_records (get_serialized_buffer ti).1)
    else if phase == 2
    then Option.map (λ (t, values). (t, encode_values values)) (get_now_info g read ti)
    else none

unfoldable pub get_buffer : Process → (ℕ → ℕ) → ThreadIterator → Option Got
unfolding phase_buffer
get_buffer p read iter = do
  assert (not iter.got_flag)
  ti ← get_elem? p.threads iter.current_thread
  (ti', buf) ← phase_buffer iter.phase p.registry read ti
  some (record {
    process = set_thread p iter.current_thread ti';
    iter = record iter { got_flag = true };
    buf = buf;
  })

-- The message type for `BufferIteration_GetBufferType`.
unfoldable pub buffer_msg_type : ThreadIterator → Option ℕ
buffer_msg_type iter =
    if iter.phase == 1
    then some msg_profile_data
    else if iter.phase == 2
    then some msg_nowinfo
    else if iter.phase == 3
    then some msg_stack_data
    else none

-- The loop of MSG_REQ_PROFILE_DATA. `read k` is what the counters return for thread `k`. With the
-- fuel used up the loop would not have ended: `none`.
unfoldable pub send_buffers :
    ℕ → (ℕ → ℕ → ℕ) → Process → ThreadIterator → List Message → Option (Process × List Message)
send_buffers zero read p iter sent = none
send_buffers (suc f) read p iter sent = do
  (more, iter') ← next_buffer p iter
  elim more [
    | false ↦ some (p, sent)
    | true ↦ do
      got ← get_buffer p (read iter'.current_thread) iter'
      msg_type ← buffer_msg_type got.iter
      ti ← get_elem? got.process.threads got.iter.current_thread
      send_buffers f read got.process got.iter
          (sent ++ (msg_type, le64 ti.thread_id ++ got.buf) ∷ [])
  ]

unfoldable pub req_profile_data : (ℕ → ℕ → ℕ) → Process → Option (Process × List Message)
unfolding send_buffers
req_profile_data read p = do
  (p', sent) ← send_buffers (2 * length p.threads + 1) read p first_buffer []
  some (p', sent ++ (msg_command_succeed, []) ∷ [])

-- `slide_info_to_str`: six short lines, which the buffer of 1024 bytes holds.
unfoldable pub slide_info_to_str : List Slide → Text
slide_info_to_str [] = []
slide_info_to_str (s ∷ slides) =
    s.field_name ++ b' ' ∷ decimal s.slide ++ b'\n' ∷ slide_info_to_str slides

-- A slot repeats the record type of the slot before it.
abbrev pub is_static : Option ℕ → ℕ → Bool
is_static none a = false
is_static (some b) a = b == a

-- One line of `llprof_get_record_info`.
unfoldable pub record_line : Registry → ℕ → ℕ → Option ℕ → Option Text
record_line g i a previous = do
  r ← get_elem? g.records a
  some (
      decimal i
      ++ (b' '
            ∷ (if is_static previous a
                then r.record_type_name ++ codes "(sv)"
                else r.record_type_name)
          ++ (codes " U f"
              ++ ((if is_static previous a
                    then codes "S"
                    else if r.is_counter
                    then codes "A"
                    else [])
                  ++ b'\n' ∷ []))))

unfoldable pub record_lines : Registry → List ℕ → ℕ → Option ℕ → Option Text
unfolding record_line
record_lines g [] i previous = some []
record_lines g (a ∷ active) i previous = do
  line ← record_line g i a previous
  rest ← record_lines g active (i + 1) (some a)
  some (line ++ rest)

unfoldable pub get_record_info : Registry → Option Text
unfolding record_lines
get_record_info g = do
  lines ← record_lines g g.active 0 none
  some (decimal (length g.active) ++ b'\n' ∷ lines)
