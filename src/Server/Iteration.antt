-- ===== src/Server/Iteration.antt =====
-- llprofcommon/server.cpp, the whole answer to MSG_REQ_PROFILE_DATA, thread by thread.
use llprof.Base.{
  ℕ, suc, ◌+◌, ◌*◌, ◌≡◌, refl, sym, ◌∙◌, Bool, true, false, none, some, List, [], ◌∷◌, ◌++◌, Text,
  length, get_elem?, le64, add32, arith, get_elem?-middle, modify-middle, length-append, lt→ltb,
  le→ltb,
}
use mathlib.Core.List.{tail, append_assoc, append-nil}
use llprof.Registry.{Registry}
use llprof.Registry.Slots.{Layout, start_node, start_node-total}
use llprof.CallTree.{ThreadInfo, get_serialized_buffer}
use llprof.Protocol.{
  encode_records, encode_values, msg_profile_data, msg_nowinfo, msg_command_succeed,
}
use llprof.Server.{
  Process, Message, ThreadIterator, Got, first_buffer, next_buffer, get_now_info, phase_buffer,
  get_buffer, buffer_msg_type, send_buffers, req_profile_data,
}

-- The buffer of present values has a place for the node and one for each slot.
abbrev pub Fits : Registry → ThreadInfo → Type 0
Fits g ti =
    (now : ℕ) × (values : List ℕ) × (ti.now_info ≡ now ∷ values) × (length values ≡ length g.active)

abbrev pub AllFit : Registry → List ThreadInfo → Type 0
AllFit g [] = Unit {0}
AllFit g (ti ∷ tis) = Fits g ti × AllFit g tis

-- What the counters give for a thread, `read` being what they return.
unfoldable pub present : Registry → (ℕ → ℕ) → ThreadInfo → List ℕ
present g read ti = elim (start_node g read (tail ti.now_info)) [ none ↦ [] | some v ↦ v ]

-- A thread after its buffers were sent, and the two messages.
abbrev pub collected : Registry → (ℕ → ℕ) → ThreadInfo → ThreadInfo
collected g read ti = record ti {
  serialized = [];
  generation = add32 ti.generation 1;
  now_info = ti.current ∷ present g read ti;
}

abbrev pub thread_messages : Registry → (ℕ → ℕ) → ThreadInfo → List Message
thread_messages g read ti =
    (msg_profile_data, le64 ti.thread_id ++ encode_records ti.serialized)
    ∷ (msg_nowinfo, le64 ti.thread_id ++ encode_values (ti.current ∷ present g read ti))
    ∷ []

-- The same for the threads from number `k` on.
abbrev pub all_collected : Registry → (ℕ → ℕ → ℕ) → ℕ → List ThreadInfo → List ThreadInfo
all_collected g read k [] = []
all_collected g read k (ti ∷ tis) = collected g (read k) ti ∷ all_collected g read (k + 1) tis

abbrev pub all_messages : Registry → (ℕ → ℕ → ℕ) → ℕ → List ThreadInfo → List Message
all_messages g read k [] = []
all_messages g read k (ti ∷ tis) = thread_messages g (read k) ti ++ all_messages g read (k + 1) tis

abbrev at : ℕ → ℕ → Bool → ThreadIterator
at k phase got = record { current_thread = k; phase = phase; got_flag = got }

two_more : (n : ℕ) → 2 * suc n + 1 ≡ suc (suc (2 * n + 1))
two_more n = omega arith

module _ (g : Registry) (layout : Layout g) (read : ℕ → ℕ → ℕ) where
  now_info_lem :
      (ti : ThreadInfo) (k : ℕ)
      → Fits g ti
      → get_now_info g (read k) (get_serialized_buffer ti).0
        ≡ some (collected g (read k) ti, ti.current ∷ present g (read k) ti)
  unfolding get_now_info get_serialized_buffer present
  now_info_lem ti k (now, values, e, w) =
      let (v, done, width) = start_node-total g (read k) values layout w in ground (arith, e, done)

  sent_round :
      (p : Process) (iter iter' : ThreadIterator) (sent : List Message) (f : ℕ) (got : Got) (m : ℕ)
      (ti : ThreadInfo)
      → next_buffer p iter ≡ some (true, iter')
      → get_buffer p (read iter'.current_thread) iter' ≡ some got
      → buffer_msg_type got.iter ≡ some m
      → get_elem? got.process.threads got.iter.current_thread ≡ some ti
      → send_buffers (suc f) read p iter sent
        ≡ send_buffers f read got.process got.iter (sent ++ (m, le64 ti.thread_id ++ got.buf) ∷ [])
  unfolding send_buffers
  sent_round p iter iter' sent f got m ti next buf kind here = rw (next, buf, kind, here) refl

  -- The buffer of either phase, at the thread after `pre`.
  phase_lem :
      (p : Process) (pre rest : List ThreadInfo) (ti ti' : ThreadInfo) (phase : ℕ) (buf : Text)
      → p.registry ≡ g
      → p.threads ≡ pre ++ ti ∷ rest
      → phase_buffer phase g (read (length pre)) ti ≡ some (ti', buf)
      → get_buffer p (read (length pre)) (at (length pre) phase false)
        ≡ some (record {
          process = record p { threads = pre ++ ti' ∷ rest };
          iter = at (length pre) phase true;
          buf = buf;
        })
  unfolding get_buffer
  phase_lem p pre rest ti ti' phase buf same split e =
      rw (split, get_elem?-middle pre rest ti, same, e, modify-middle pre rest ti (λ _. ti')) refl

  kind_one : (k : ℕ) → buffer_msg_type (at k 1 true) ≡ some msg_profile_data
  unfolding buffer_msg_type
  kind_one k = refl

  kind_two : (k : ℕ) → buffer_msg_type (at k 2 true) ≡ some msg_nowinfo
  unfolding buffer_msg_type
  kind_two k = refl

  next_two :
      (p : Process) (pre rest : List ThreadInfo) (ti : ThreadInfo)
      → p.threads ≡ pre ++ ti ∷ rest
      → next_buffer p (at (length pre) 1 true) ≡ some (true, at (length pre) 2 false)
  unfolding next_buffer
  next_two p pre rest ti split =
      rw
        (
          split,
          lt→ltb (length pre) (length (pre ++ ti ∷ rest))
              (omega (arith, length-append pre (ti ∷ rest))),
        )
        refl

  serialized_lem :
      (ti : ThreadInfo) (k : ℕ)
      → phase_buffer 1 g (read k) ti
        ≡ some ((get_serialized_buffer ti).0, encode_records ti.serialized)
  unfolding phase_buffer get_serialized_buffer
  serialized_lem ti k = refl

  values_lem :
      (ti : ThreadInfo) (k : ℕ)
      → Fits g ti
      → phase_buffer 2 g (read k) (get_serialized_buffer ti).0
        ≡ some (collected g (read k) ti, encode_values (ti.current ∷ present g (read k) ti))
  unfolding phase_buffer
  values_lem ti k fits = rw (now_info_lem ti k fits) refl

  same_thread : (ti : ThreadInfo) → (get_serialized_buffer ti).0.thread_id ≡ ti.thread_id
  unfolding get_serialized_buffer
  same_thread ti = refl

  -- The two rounds of the loop at one thread.
  thread_rounds :
      (p : Process) (pre rest : List ThreadInfo) (ti : ThreadInfo) (iter : ThreadIterator)
      (sent : List Message) (f : ℕ)
      → p.registry ≡ g
      → p.threads ≡ pre ++ ti ∷ rest
      → next_buffer p iter ≡ some (true, at (length pre) 1 false)
      → Fits g ti
      → send_buffers (suc (suc f)) read p iter sent
        ≡ send_buffers f read
            (record p { threads = pre ++ collected g (read (length pre)) ti ∷ rest })
            (at (length pre) 2 true)
            (sent ++ thread_messages g (read (length pre)) ti)
  thread_rounds p pre rest ti iter sent f same split next fits =
      let k = length pre in
      let one : ThreadInfo = (get_serialized_buffer ti).0 in
      let p1 : Process = record p { threads = pre ++ one ∷ rest } in
      let first =
        sent_round p iter (at k 1 false) sent (suc f) _ _ one next
          (phase_lem p pre rest ti one 1 _ same split (serialized_lem ti k)) (kind_one k)
          (get_elem?-middle pre rest one) in
      let second =
        sent_round p1 (at k 1 true) (at k 2 false)
          (sent ++ (msg_profile_data, le64 one.thread_id ++ encode_records ti.serialized) ∷ []) f _
          _ (collected g (read k) ti) (next_two p1 pre rest one refl)
          (phase_lem p1 pre rest one (collected g (read k) ti) 2 _ same refl (values_lem ti k fits))
          (kind_two k) (get_elem?-middle pre rest _) in
      first ∙ second ∙ rw (append_assoc sent, same_thread ti) refl

  -- Where the iteration goes from a state of the iterator, before the threads `rest`.
  abbrev Next : Process → ThreadIterator → ℕ → List ThreadInfo → Type 0
  Next p iter k [] = (iter' : ThreadIterator) × (next_buffer p iter ≡ some (false, iter'))
  Next p iter k (ti ∷ rest) = next_buffer p iter ≡ some (true, at k 1 false)

  Next-thread :
      (p : Process) (pre rest : List ThreadInfo) (ti : ThreadInfo)
      → Next
          (record p { threads = pre ++ ti ∷ rest })
          (at (length pre) 2 true)
          (length pre + 1)
          rest
  unfolding next_buffer
  Next-thread p pre [] ti =
      let len = length-append pre (ti ∷ []) in
      (
        at (length pre + 1) 1 false,
        rw
            (
              lt→ltb (length pre) (length (pre ++ ti ∷ [])) (omega (arith, len)),
              le→ltb (length pre + 1) (length (pre ++ ti ∷ [])) (omega (arith, len)),
            )
            refl,
      )
  Next-thread p pre (tj ∷ rest) ti =
      let len = length-append pre (ti ∷ tj ∷ rest) in
      rw
        (
          lt→ltb (length pre) (length (pre ++ ti ∷ tj ∷ rest)) (omega (arith, len)),
          lt→ltb (length pre + 1) (length (pre ++ ti ∷ tj ∷ rest)) (omega (arith, len)),
        )
        refl

  Next-first :
      (threads : List ThreadInfo) (p : Process)
      → p.threads ≡ threads
      → Next p first_buffer 0 threads
  unfolding next_buffer
  Next-first [] p split = (first_buffer, rw split refl)
  Next-first (ti ∷ rest) p split = rw (split, lt→ltb 0 (suc (length rest)) (omega arith)) refl

  send_rest :
      (rest pre : List ThreadInfo) (p : Process) (iter : ThreadIterator) (sent : List Message)
      (k : ℕ)
      → p.registry ≡ g
      → p.threads ≡ pre ++ rest
      → k ≡ length pre
      → Next p iter k rest
      → AllFit g rest
      → send_buffers (2 * length rest + 1) read p iter sent
        ≡ some (
          record p { threads = pre ++ all_collected g read k rest },
          sent ++ all_messages g read k rest,
        )
  unfolding send_buffers
  send_rest [] pre p iter sent k same split here (iter', next) fit =
      rw (next, sym split, append-nil sent) refl
  send_rest (ti ∷ rest) pre p iter sent k same split here next (fits, fit) =
      let n = length pre in
      let ti' = collected g (read n) ti in
      let sent' = sent ++ thread_messages g (read n) ti in
      let two =
        thread_rounds p pre rest ti iter sent (2 * length rest + 1) same split (rw (sym here) next)
          fits in
      let more =
        send_rest rest (pre ++ ti' ∷ []) (record p { threads = pre ++ ti' ∷ rest }) (at n 2 true)
          sent' (n + 1) same (sym (append_assoc pre (ti' ∷ []) rest))
          (omega (arith, length-append pre (ti' ∷ []))) (Next-thread p pre rest ti') fit in
      rw (here, two_more (length rest)) (two ∙ more ∙ rw (append_assoc pre, append_assoc sent) refl)

-- With no record type active, or exactly one, which is a counter, and a buffer of present values that
-- fits it in every thread, a request for the profile data is answered for any number of threads: each
-- thread's records and its present values, in the order of the threads, then the success message.
-- Each thread's list of records is left empty, its generation is one higher modulo 2^32, and its
-- present values are overwritten with its current node and what the counters read; no other part of
-- the process changes.
pub req_profile_data-all :
    (p : Process) (read : ℕ → ℕ → ℕ)
    → Layout p.registry
    → AllFit p.registry p.threads
    → req_profile_data read p
      ≡ some (
        record p { threads = all_collected p.registry read 0 p.threads },
        all_messages p.registry read 0 p.threads ++ (msg_command_succeed, []) ∷ [],
      )
unfolding req_profile_data
req_profile_data-all p read layout fit =
    rw
      (send_rest p.registry layout read p.threads [] p first_buffer [] 0 refl refl refl
        (Next-first p.registry layout read p.threads p refl) fit)
      refl
