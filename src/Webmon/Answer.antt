-- ===== src/Webmon/Answer.antt =====
-- webmon/data_store.cpp, the loop of `DataStore::GetProfileData`, at the other end of the answer that
-- llprofcommon/server.cpp sends to MSG_REQ_PROFILE_DATA.
mod Examples
use llprof.Base.{
  ℕ, zero, suc, ◌+◌, ◌-◌, ◌*◌, ◌^◌, ◌≤◌, ◌<◌, ◌≡◌, refl, sym, ap, subst, ◌∙◌, Bool, true, false,
  Option, none, some, List, [], ◌∷◌, ◌++◌, Map, put, Text, codes, length, drop, le32, le64, word32,
  word64, word32-le32, word64-le64, length-append, if◌then◌else◌, ◌==◌, bind_some, arith,
}
use mathlib.Core.List.{append_assoc, append-nil}
use llprof.Registry.{Registry}
use llprof.CallTree.{SerializedInfo, ThreadInfo}
use llprof.Protocol.{
  get_slide, encode_records, encode_values, msg_profile_data, msg_nowinfo, msg_command_succeed,
  msg_error,
}
use llprof.Network.Transfer.{frame, AllPieces, joined}
use llprof.Registry.Slots.{Layout}
use llprof.Server.{Process, Message, req_profile_data}
use llprof.Server.Dispatch.{frames}
use llprof.Server.Iteration.{AllFit, present, thread_messages, all_messages, req_profile_data-all}
use llprof.Webmon.MessageBuf.{MessageBuf, get_message_type, get64}
use llprof.Webmon.Samples.{get_member_offset_of}
use llprof.Webmon.Receive.{recv_message, message_of, recv_message-frame}
use llprof.Webmon.RoundTrip.{AllInRange, drop_pre}
use llprof.Webmon.Collect.{Received, on_profile_data, on_nowinfo, on_message, receive_loop}
use llprof.Webmon.Names.{ask_all, all_read, on_profile_data-records, get64-step}

message_type-frame :
    (msg_id : ℕ) (body : Text)
    → msg_id < 2 ^ 32
    → get_message_type (message_of (frame msg_id body)) ≡ some msg_id
message_type-frame msg_id body small = word32-le32 msg_id (le32 (length body) ++ body) small

go_on :
    (f offset size msg_type : ℕ) (pieces pieces' : List Text) (m : MessageBuf) (st st' : Received)
    → recv_message pieces ≡ some (some m, pieces')
    → get_message_type m ≡ some msg_type
    → (msg_type == msg_command_succeed) ≡ false
    → (msg_type == msg_error) ≡ false
    → on_message offset size msg_type m st ≡ some st'
    → receive_loop (suc f) offset size pieces st ≡ receive_loop f offset size pieces' st'
unfolding receive_loop
go_on f offset size msg_type pieces pieces' m st st' got type more fine handled =
    bind_some (recv_message pieces) _ (some m, pieces') got
    ∙ bind_some (get_message_type m) _ msg_type type
    ∙ rw (more, fine, handled, receive_loop) refl

go_out :
    (f offset size : ℕ) (pieces pieces' : List Text) (m : MessageBuf) (st : Received)
    → recv_message pieces ≡ some (some m, pieces')
    → get_message_type m ≡ some msg_command_succeed
    → receive_loop (suc f) offset size pieces st ≡ some (true, st, pieces')
unfolding receive_loop
go_out f offset size pieces pieces' m st got type =
    bind_some (recv_message pieces) _ (some m, pieces') got
    ∙ bind_some (get_message_type m) _ msg_command_succeed type

-- A message that is handled, at the front of the stream.
message_step :
    (f offset size msg_id : ℕ) (body rest : Text) (pieces : List Text) (st st' : Received)
    → AllPieces pieces
    → joined pieces ≡ frame msg_id body ++ rest
    → length body < 2 ^ 31 - 8
    → msg_id < 2 ^ 32
    → (msg_id == msg_command_succeed) ≡ false
    → (msg_id == msg_error) ≡ false
    → on_message offset size msg_id (message_of (frame msg_id body)) st ≡ some st'
    → (pieces' : List Text) × (receive_loop (suc f) offset size pieces st
        ≡ receive_loop f offset size pieces' st')
      × AllPieces pieces'
      × (joined pieces' ≡ rest)
message_step f offset size msg_id body rest pieces st st' all split small id_small more fine
      handled =
    let (pieces', got, all', left) = recv_message-frame msg_id body rest pieces all split small in
    (
      pieces',
      go_on f offset size msg_id pieces pieces' (message_of (frame msg_id body)) st st' got
          (message_type-frame msg_id body id_small) more fine handled,
      all',
      left,
    )

-- What the loop keeps of a thread's two messages.
abbrev pub thread_received : Registry → (ℕ → ℕ) → ThreadInfo → Received → Received
thread_received g read ti st =
    let tid = ti.thread_id in
    let st' = ask_all ti.serialized st in
    let profile = frame msg_profile_data (le64 tid ++ encode_records ti.serialized) in
    let now = frame msg_nowinfo (le64 tid ++ encode_values (ti.current ∷ present g read ti)) in
    record st' {
      buf_for_threads = put tid (all_read profile (length profile - 8)) st'.buf_for_threads;
      nowinfo_buf_for_threads = put tid (record { buf = now; ptr = 8 }) st'.nowinfo_buf_for_threads;
    }

-- The same for the threads from number `k` on.
abbrev pub all_received : Registry → (ℕ → ℕ → ℕ) → ℕ → List ThreadInfo → Received → Received
all_received g read k [] st = st
all_received g read k (ti ∷ tis) st =
    all_received g read (k + 1) tis (thread_received g (read k) ti st)

-- The fields are in the range of their C types, and the messages have less than 2^31 - 8 bytes.
abbrev pub Sendable : Registry → (ℕ → ℕ) → ThreadInfo → Type 0
Sendable g read ti =
    (ti.thread_id < 2 ^ 64)
    × AllInRange (length g.active) ti.serialized
    × (length (le64 ti.thread_id ++ encode_records ti.serialized) < 2 ^ 31 - 8)
    × (length (le64 ti.thread_id ++ encode_values (ti.current ∷ present g read ti)) < 2 ^ 31 - 8)

abbrev pub AllSendable : Registry → (ℕ → ℕ → ℕ) → ℕ → List ThreadInfo → Type 0
AllSendable g read k [] = Unit {0}
AllSendable g read k (ti ∷ tis) = Sendable g (read k) ti × AllSendable g read (k + 1) tis

on_nowinfo-frame :
    (tid : ℕ) (values : Text) (st : Received)
    → tid < 2 ^ 64
    → let buf = frame msg_nowinfo (le64 tid ++ values) in
      on_nowinfo (message_of buf) st
      ≡ some (record st {
        nowinfo_buf_for_threads =
            put tid (record { buf = buf; ptr = 8 }) st.nowinfo_buf_for_threads;
      })
unfolding on_nowinfo
on_nowinfo-frame tid values st small =
    let buf = frame msg_nowinfo (le64 tid ++ values) in
    bind_some (get64 (message_of buf)) _ (tid, record { buf = buf; ptr = 8 })
      (get64-step (message_of buf) tid (omega arith) (word64-le64 tid values small))

regroup : (a b r s : Text) → (a ++ (b ++ r)) ++ s ≡ (a ++ (b ++ [])) ++ (r ++ s)
regroup a b r s =
    append_assoc a (b ++ r) s
    ∙ ap (◌++◌ a) (append_assoc b r s)
    ∙ sym (append_assoc a (b ++ []) (r ++ s) ∙ ap (◌++◌ a) (append_assoc b [] (r ++ s)))

module _ (g : Registry) where
  abbrev pub offset_nameid : ℕ
  offset_nameid = get_member_offset_of (get_slide g) (codes "pdata.nameid")

  abbrev pub record_size : ℕ
  record_size = get_member_offset_of (get_slide g) (codes "pdata.record_size")

  -- A message of profile data that is kept, with its position at its end.
  abbrev Kept : ThreadInfo → Received → Text → Type 0
  Kept ti st buf =
      let st' = ask_all ti.serialized st in
      on_profile_data offset_nameid record_size (message_of buf) st
      ≡ some (record st' {
        buf_for_threads = put ti.thread_id (all_read buf (length buf - 8)) st'.buf_for_threads;
      })

  on_profile_data-frame :
      (ti : ThreadInfo) (st : Received)
      → ti.thread_id < 2 ^ 64
      → AllInRange (length g.active) ti.serialized
      → Kept ti st (frame msg_profile_data (le64 ti.thread_id ++ encode_records ti.serialized))
  on_profile_data-frame ti st small ok =
      let body = le64 ti.thread_id ++ encode_records ti.serialized in
      let header = le32 msg_profile_data ++ le32 (length body) in
      let buf = header ++ le64 ti.thread_id ++ encode_records ti.serialized in
      let st' = ask_all ti.serialized st in
      let (end_ptr, done, at_end) =
        on_profile_data-records g header ti.thread_id ti.serialized st refl small ok in
      let end : end_ptr ≡ length buf - 8 = omega (arith, at_end) in
      subst (Kept ti st) (append_assoc header (le64 ti.thread_id) (encode_records ti.serialized)) (
        done
        ∙ ap
            (λ ptr. some (record st' {
              buf_for_threads = put ti.thread_id (all_read buf ptr) st'.buf_for_threads;
            }))
            end)

  -- The two messages of a thread, at the front of the stream.
  thread_step :
      (f : ℕ) (read : ℕ → ℕ) (ti : ThreadInfo) (rest : Text) (pieces : List Text) (st : Received)
      → AllPieces pieces
      → joined pieces ≡ frames (thread_messages g read ti) ++ rest
      → Sendable g read ti
      → (pieces' : List Text) × (receive_loop (suc (suc f)) offset_nameid record_size pieces st
          ≡ receive_loop f offset_nameid record_size pieces' (thread_received g read ti st))
        × AllPieces pieces'
        × (joined pieces' ≡ rest)
  unfolding on_message on_profile_data
  thread_step f read ti rest pieces st all split (small, ok, short, short') =
      let body = le64 ti.thread_id ++ encode_records ti.serialized in
      let values = encode_values (ti.current ∷ present g read ti) in
      let body' = le64 ti.thread_id ++ values in
      let st1 : Received = record (ask_all ti.serialized st) {
        buf_for_threads =
            put ti.thread_id
              (all_read (frame msg_profile_data body) (length (frame msg_profile_data body) - 8))
              (ask_all ti.serialized st).buf_for_threads;
      } in
      let cut : joined pieces ≡ frame msg_profile_data body ++ (frame msg_nowinfo body' ++ rest) =
        split
        ∙ append_assoc (frame msg_profile_data body) (frame msg_nowinfo body' ++ []) rest
        ∙ ap (◌++◌ (frame msg_profile_data body))
            (append_assoc (frame msg_nowinfo body') [] rest) in
      let (pieces1, one, all1, left1) =
        message_step (suc f) offset_nameid record_size msg_profile_data body
          (frame msg_nowinfo body' ++ rest) pieces st st1 all cut short (omega arith) refl refl
          (on_profile_data-frame ti st small ok) in
      let (pieces2, two, all2, left2) =
        message_step f offset_nameid record_size msg_nowinfo body' rest pieces1 st1
          (thread_received g read ti st) all1 left1 short' (omega arith) refl refl
          (on_nowinfo-frame ti.thread_id values st1 small) in
      (pieces2, one ∙ two, all2, left2)

  -- The success message.
  end_step :
      (f : ℕ) (rest : Text) (pieces : List Text) (st : Received)
      → AllPieces pieces
      → joined pieces ≡ frame msg_command_succeed [] ++ rest
      → (pieces' : List Text) × (receive_loop (suc f) offset_nameid record_size pieces st
          ≡ some (true, st, pieces'))
        × AllPieces pieces'
        × (joined pieces' ≡ rest)
  end_step f rest pieces st all split =
      let (pieces', got, all', left) =
        recv_message-frame msg_command_succeed [] rest pieces all split (omega arith) in
      (
        pieces',
        go_out f offset_nameid record_size pieces pieces'
            (message_of (frame msg_command_succeed [])) st got
            (message_type-frame msg_command_succeed [] (omega arith)),
        all',
        left,
      )

  -- The loop over the answer, with the messages of the threads written out.
  receive_loop-all_messages :
      (threads : List ThreadInfo) (read : ℕ → ℕ → ℕ) (k f : ℕ) (rest : Text) (pieces : List Text)
      (st : Received)
      → AllPieces pieces
      → joined pieces
        ≡ frames (all_messages g read k threads) ++ (frame msg_command_succeed [] ++ rest)
      → AllSendable g read k threads
      → 2 * length threads < f
      → (pieces' : List Text) × (receive_loop f offset_nameid record_size pieces st
          ≡ some (true, all_received g read k threads st, pieces'))
        × AllPieces pieces'
        × (joined pieces' ≡ rest)
  receive_loop-all_messages threads read k zero rest pieces st all split ok fuel =
      absurd (omega arith)
  receive_loop-all_messages [] read k (suc f) rest pieces st all split ok fuel =
      end_step f rest pieces st all split
  receive_loop-all_messages (ti ∷ threads) read k (suc zero) rest pieces st all split ok fuel =
      absurd (omega (arith, fuel))
  receive_loop-all_messages (ti ∷ threads) read k (suc (suc f)) rest pieces st all split (this, ok)
        fuel =
      let sent = frame msg_command_succeed [] ++ rest in
      let later = frames (all_messages g read (k + 1) threads) ++ sent in
      let cut : joined pieces ≡ frames (thread_messages g (read k) ti) ++ later =
        split
        ∙ regroup (frame msg_profile_data (le64 ti.thread_id ++ encode_records ti.serialized))
            (frame msg_nowinfo
              (le64 ti.thread_id ++ encode_values (ti.current ∷ present g (read k) ti)))
            (frames (all_messages g read (k + 1) threads)) sent in
      let (pieces1, one, all1, left1) = thread_step f (read k) ti later pieces st all cut this in
      let (pieces2, more, all2, left2) =
        receive_loop-all_messages threads read (k + 1) f rest pieces1
          (thread_received g (read k) ti st) all1 left1 ok (omega (arith, fuel)) in
      (pieces2, one ∙ more, all2, left2)

frames-append : (a b : List Message) → frames (a ++ b) ≡ frames a ++ frames b
frames-append [] b = refl
frames-append ((msg_id, body) ∷ a) b =
    ap (◌++◌ (frame msg_id body)) (frames-append a b)
    ∙ sym (append_assoc (frame msg_id body) (frames a) (frames b))

-- However the kernel cuts the bytes: from all that a program sends on MSG_REQ_PROFILE_DATA, the loop
-- of `GetProfileData` ends with success, with any fuel above two for each thread. It has kept the two
-- messages of each thread of the program under the thread's id, asked for the name ids of its records
-- that the table does not have, and left the bytes behind the answer. The program has no record
-- type active, or exactly one, which is a counter, and its buffers fit it; the fields are in the range of their C
-- types, and the messages have less than 2^31 - 8 bytes.
pub receive_loop-req_profile_data :
    (p p' : Process) (read : ℕ → ℕ → ℕ) (sent : List Message) (f : ℕ) (rest : Text)
    (pieces : List Text) (st : Received)
    → Layout p.registry
    → AllFit p.registry p.threads
    → AllSendable p.registry read 0 p.threads
    → req_profile_data read p ≡ some (p', sent)
    → AllPieces pieces
    → joined pieces ≡ frames sent ++ rest
    → 2 * length p.threads < f
    → (pieces' : List Text) × (receive_loop f
          (offset_nameid p.registry)
          (record_size p.registry)
          pieces
          st
        ≡ some (true, all_received p.registry read 0 p.threads st, pieces'))
      × AllPieces pieces'
      × (joined pieces' ≡ rest)
receive_loop-req_profile_data p p' read sent f rest pieces st layout fit ok answered all split
      fuel =
    let messages = all_messages p.registry read 0 p.threads in
    let whole = messages ++ (msg_command_succeed, []) ∷ [] in
    let done = req_profile_data-all p read layout fit in
    let same : sent ≡ whole = cc in
    let cut : joined pieces ≡ frames messages ++ (frame msg_command_succeed [] ++ rest) =
      split
      ∙ ap (λ m. frames m ++ rest) same
      ∙ ap (λ t. t ++ rest) (frames-append messages ((msg_command_succeed, []) ∷ []))
      ∙ append_assoc (frames messages) (frame msg_command_succeed [] ++ []) rest in
    receive_loop-all_messages p.registry p.threads read 0 f rest pieces st all cut ok fuel
