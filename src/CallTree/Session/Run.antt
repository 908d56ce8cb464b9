-- ===== src/CallTree/Session/Run.antt =====
-- A session from a new thread.
use llprof.Base.{
  ℕ, zero, suc, ◌+◌, ◌*◌, ◌%◌, ◌^◌, ◌<◌, ◌≤◌, ◌≡◌, refl, ap, ◌∙◌, Option, some, List, [], ◌∷◌,
  length, get_elem?, lt_of_get_elem?, find, arith, Text, Map,
}
use llprof.Registry.{Registry}
use llprof.Registry.Slots.{Layout}
use llprof.CallTree.{NodeInfo, fresh_node, new_thread}
use llprof.CallTree.Counts.{calls_at}
use llprof.CallTree.Links.{links, stack_at-root}
use llprof.CallTree.Refresh.{starts}
use llprof.CallTree.Handlers.{IsReady, stack}
use llprof.CallTree.Session.{Session, Event, run, on_stack, call_events, accounted, start}
use llprof.CallTree.Session.Steps.{run-Outcome}

fresh_at :
    (i : ℕ) (n : NodeInfo)
    → get_elem? (fresh_node 0 0 ∷ fresh_node 0 0 ∷ []) i ≡ some n
    → (i < 2) × (n ≡ fresh_node 0 0)
fresh_at zero n e = (omega arith, cc)
fresh_at (suc zero) n e = (omega arith, cc)
fresh_at (suc (suc i)) n e = absurd (cc)

pub new_thread-IsReady :
    (g : Registry) (id : ℕ) (root_name : Option Text) (names : Map Text)
    → IsReady g (new_thread g id root_name names).thread
unfolding new_thread find
new_thread-IsReady g id root_name names = record {
  valid = record {
    tree = record {
      ordered = λ i k p e two. absurd (
          omega
            (arith, lt_of_get_elem? (links (new_thread g id root_name names).thread.nodes) i e));
      children = λ i n k c e h. absurd (ground (arith, fresh_at i n e));
    };
    cache = record {
      positive = omega arith;
      older = λ i n e. ground (arith, fresh_at i n e);
      cached = λ i n e h. absurd (ground (arith, fresh_at i n e));
      widths = λ j s e. absurd (cc);
    };
    low = omega arith;
    high = omega arith;
  };
  started = λ i w e two ne.
      absurd (
        omega (arith, lt_of_get_elem? (starts (new_thread g id root_name names).thread.nodes) i e));
  idle = refl;
}

pub start-facts :
    (g : Registry) (id : ℕ) (root_name : Option Text) (names : Map Text)
    → let s = start g id root_name names in
      (stack s.tree.thread ≡ []) × (accounted s ≡ 0) × (s.tree.thread.generation ≡ 1)
unfolding new_thread calls_at
start-facts g id root_name names =
    (stack_at-root (links (new_thread g id root_name names).thread.nodes), refl, refl)

-- Elements of `bytes` bytes, two more than the events, fit an `int`.
pub few_events : (n bytes : ℕ) → 0 < bytes → (2 + n) * bytes < 2 ^ 31 → 2 + n < 2 ^ 31
few_events n zero pos h = absurd (omega arith)
few_events n (suc k) pos h = omega (arith, more k)
  where
    more : (k : ℕ) → 2 + n ≤ (2 + n) * suc k
    more k = grind arith

-- With no record type active, or exactly one, which is a counter, and from a new thread whose arrays
-- stay below 2^31 bytes, where an element has `bytes` bytes at most and there is no more than one for
-- each event and two at the start: no sequence of calls, returns and collections makes a handler
-- fail, and the names from the current node up to the root are then those of the calls that have not
-- returned, innermost first; a return without a call changes nothing.
pub run-stack :
    (g : Registry) (id : ℕ) (root_name : Option Text) (names : Map Text) (es : List Event)
    (bytes : ℕ)
    → Layout g
    → 0 < bytes
    → (2 + length es) * bytes < 2 ^ 31
    → (s : Session) × (run g es (start g id root_name names) ≡ some s)
      × (stack s.tree.thread ≡ on_stack es [])
run-stack g id root_name names es bytes layout pos h =
    let (s, done, o) =
      run-Outcome g layout es (start g id root_name names) (new_thread-IsReady g id root_name names)
        (omega (arith, few_events (length es) bytes pos h, start-facts g id root_name names)) in
    (s, done, o.names ∙ ap (on_stack es) (start-facts g id root_name names).0)

-- With no record type active, or exactly one, which is a counter, and from a new thread whose arrays
-- stay below 2^31 bytes, where an element has `bytes` bytes at most and there is no more than one for
-- each event and two at the start: every sequence of calls, returns and collections succeeds, and the
-- records that were sent and those that wait then account for exactly the calls made, modulo 2^64: no
-- collection loses or repeats a call.
pub run-accounted :
    (g : Registry) (id : ℕ) (root_name : Option Text) (names : Map Text) (es : List Event)
    (bytes : ℕ)
    → Layout g
    → 0 < bytes
    → (2 + length es) * bytes < 2 ^ 31
    → (s : Session) × (run g es (start g id root_name names) ≡ some s)
      × (accounted s ≡ call_events es % 2 ^ 64)
run-accounted g id root_name names es bytes layout pos h =
    let (s, done, o) =
      run-Outcome g layout es (start g id root_name names) (new_thread-IsReady g id root_name names)
        (omega (arith, few_events (length es) bytes pos h, start-facts g id root_name names)) in
    (s, done, omega (arith, o.total, start-facts g id root_name names))
