-- ===== src/CallTree/Examples.antt =====
-- One counter active, a thread that calls and returns, and the theorems of CallTree at them.
use llprof.Base.{
  ℕ, ◌≡◌, refl, Bool, true, none, some, List, [], ◌∷◌, codes, add64, if◌then◌else◌, arith,
}
use llprof.Registry.{PvType, Registry}
use llprof.Registry.Slots.{Layout, one_counter}
use llprof.CallTree.{ThreadInfo, Tree, call_handler}
use llprof.CallTree.Counts.{calls_at}
use llprof.CallTree.Handlers.{IsReady, stack}
use llprof.CallTree.Calls.{call_handler-total}
use llprof.Base.{get_elem?, ◌↔◌}
use llprof.CallTree.Threads.{get_current_thread, get_all, no_threads, get_current_thread-injective}
use llprof.CallTree.Session.{Session, Event, calls, returns, collects, run, start, accounted}
use llprof.CallTree.Session.Run.{new_thread-IsReady, run-stack, run-accounted}

abbrev pub real_time : PvType
real_time = record {
  record_type_id = codes "rtime";
  record_type_name = codes "real-time";
  is_counter = true;
  record_index = none;
}

abbrev pub one_clock : Registry
one_clock = record { records = real_time ∷ []; active = 0 ∷ 0 ∷ [] }

pub one_clock-Layout : Layout one_clock
one_clock-Layout = one_counter 0 real_time refl refl refl

abbrev some_events : List Event
some_events =
    calls 7 (some (codes "main")) (λ i. 10)
    ∷ calls 9 (some (codes "work")) (λ i. 20)
    ∷ returns (λ i. 25)
    ∷ collects
    ∷ calls 9 (some (codes "work")) (λ i. 30)
    ∷ []

abbrev begun : Session
begun = start one_clock 1 (some (codes "root")) []

run-stack_example :
    (s : Session) × (run one_clock some_events begun ≡ some s) × (stack s.tree.thread ≡ 9 ∷ 7 ∷ [])
run-stack_example =
    run-stack one_clock 1 (some (codes "root")) [] some_events 128 one_clock-Layout (omega arith)
      (omega arith)

run-accounted_example :
    (s : Session) × (run one_clock some_events begun ≡ some s) × (accounted s ≡ 3)
run-accounted_example =
    run-accounted one_clock 1 (some (codes "root")) [] some_events 128 one_clock-Layout
      (omega arith) (omega arith)

call_handler-total_example :
    (t' : Tree) × (call_handler one_clock (λ i. 10) 7 (some (codes "main")) begun.tree ≡ some t')
    × IsReady one_clock t'.thread
    × (stack t'.thread ≡ 7 ∷ stack begun.tree.thread)
    × (t'.thread.generation ≡ begun.tree.thread.generation)
    × ((j : ℕ → Bool)
        → calls_at j t'.thread.serialized
          ≡ add64 (calls_at j begun.tree.thread.serialized) (if j t'.thread.current then 1 else 0))
call_handler-total_example =
    call_handler-total one_clock one_clock-Layout (λ i. 10) 7 (some (codes "main")) begun.tree
      (new_thread-IsReady one_clock 1 (some (codes "root")) [])

abbrev main_thread : ℕ
main_thread = 40

abbrev worker_thread : ℕ
worker_thread = 41

get_current_thread-injective_example :
    let (a, s) =
      get_current_thread one_clock none main_thread
        (get_all one_clock none (main_thread ∷ worker_thread ∷ []) (no_threads [])) in
    let (b, s') = get_current_thread one_clock none worker_thread s in
    ((a ≡ b) ↔ (main_thread ≡ worker_thread))
    × ((ti : ThreadInfo) × (get_elem? s'.threads b ≡ some ti) × (ti.thread_id ≡ b))
get_current_thread-injective_example =
    get_current_thread-injective one_clock none [] (main_thread ∷ worker_thread ∷ []) main_thread
      worker_thread (omega arith)
