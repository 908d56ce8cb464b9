-- ===== src/CallTree/Session.antt =====
-- One thread's calls and returns, with collections of the buffer by the server between them.
pub mod Steps
pub mod Run
use llprof.Base.{
  ℕ, zero, suc, ◌+◌, ◌%◌, ◌^◌, ◌<◌, ◌≤◌, ◌≡◌, refl, sym, ap, ◌∙◌, Bool, true, false, Option, none,
  some, List, [], ◌∷◌, ◌++◌, length, get_elem?, lt_of_get_elem?, find, arith, if◌then◌else◌, add32,
  add64, ◌>>=◌, Text, Map,
}
use mathlib.Core.List.{tail, append-nil}
use llprof.Registry.{Registry}
use llprof.Registry.Slots.{Layout}
use llprof.CallTree.{
  NodeInfo, fresh_node, SerializedInfo, ThreadInfo, Tree, new_thread, call_handler, return_handler,
  get_serialized_buffer,
}
use llprof.CallTree.Counts.{calls_at, calls_at-lt, calls_at-append}
use llprof.CallTree.Invariant.{IsCached-swap}
use llprof.CallTree.Links.{links, stack_at-root}
use llprof.CallTree.Refresh.{IsValid, starts}
use llprof.CallTree.Handlers.{IsReady, stack, return_handler-total}
use llprof.CallTree.Calls.{call_handler-total}

-- A thread and the records that were sent so far, in order.
pub record Session : Type 0 where
  pub tree : Tree
  pub sent : List SerializedInfo

pub data Event : Type 0 where
  calls : ℕ → Option Text → (ℕ → ℕ) → Event
  returns : (ℕ → ℕ) → Event
  collects : Event

unfoldable pub step : Registry → Event → Session → Option Session
step g (calls nameid name read) s = do
  t ← call_handler g read nameid name s.tree
  some (record s { tree = t })
step g (returns read) s = do
  ti ← return_handler g read s.tree.thread
  some (record s { tree = record s.tree { thread = ti } })
step g collects s =
    let (ti, buffer) = get_serialized_buffer s.tree.thread in
    some (record { tree = record s.tree { thread = ti }; sent = s.sent ++ buffer })

unfoldable pub run : Registry → List Event → Session → Option Session
run g [] s = some s
run g (e ∷ es) s = do s' ← step g e s; run g es s'

-- What the events do to a stack of names: a return on the empty stack is ignored.
abbrev pub on_stack : List Event → List ℕ → List ℕ
on_stack [] names = names
on_stack (calls nameid name read ∷ es) names = on_stack es (nameid ∷ names)
on_stack (returns read ∷ es) names = on_stack es (tail names)
on_stack (collects ∷ es) names = on_stack es names

abbrev pub call_events : List Event → ℕ
call_events [] = 0
call_events (calls nameid name read ∷ es) = suc (call_events es)
call_events (_ ∷ es) = call_events es

-- The calls that the records account for, sent or not.
abbrev pub accounted : Session → ℕ
accounted s = calls_at (λ _. true) (s.sent ++ s.tree.thread.serialized)

-- A new thread, nothing being sent yet.
abbrev pub start : Registry → ℕ → Option Text → Map Text → Session
start g id root_name names = record { tree = new_thread g id root_name names; sent = [] }
