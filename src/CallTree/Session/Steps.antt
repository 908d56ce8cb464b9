-- ===== src/CallTree/Session/Steps.antt =====
-- What the steps of a session keep: the invariant, the stack and the number of calls.
use llprof.Base.{
  ℕ, ◌+◌, ◌^◌, ◌<◌, ◌≤◌, ◌≡◌, refl, sym, ap, ◌∙◌, true, some, List, [], ◌∷◌, ◌++◌, length, arith,
  add32, add64,
}
use mathlib.Core.List.{append-nil}
use llprof.Registry.{Registry}
use llprof.Registry.Slots.{Layout}
use llprof.CallTree.{ThreadInfo, get_serialized_buffer}
use llprof.CallTree.Counts.{calls_at-lt, calls_at-append}
use llprof.CallTree.Invariant.{IsCached-swap}
use llprof.CallTree.Handlers.{IsReady, stack, return_handler-total}
use llprof.CallTree.Calls.{call_handler-total}
use llprof.CallTree.Session.{
  Session, Event, calls, returns, collects, step, run, on_stack, call_events, accounted,
}

pub record Outcome (g : Registry) (es : List Event) (s s' : Session) : Type 0 where
  pub ready : IsReady g s'.tree.thread
  pub names : stack s'.tree.thread ≡ on_stack es (stack s.tree.thread)
  pub total : accounted s' ≡ add64 (accounted s) (call_events es)
  pub generations : s'.tree.thread.generation ≤ s.tree.thread.generation + length es

-- Swapping the buffers keeps the invariant while the generation number does not wrap.
get_serialized_buffer-IsReady :
    (g : Registry) (ti : ThreadInfo)
    → IsReady g ti
    → ti.generation + 1 < 2 ^ 32
    → IsReady g (get_serialized_buffer ti).0
unfolding get_serialized_buffer
get_serialized_buffer-IsReady g ti v h =
    let e : add32 ti.generation 1 ≡ ti.generation + 1 = omega arith in
    record {
      valid = record {
        tree = v.valid.tree;
        cache =
            rw e
              (IsCached-swap (length g.active) ti.generation ti.nodes ti.serialized v.valid.cache);
        low = v.valid.low;
        high = v.valid.high;
      };
      started = v.started;
      idle = v.idle;
    }

pub step-Outcome :
    (g : Registry) (layout : Layout g) (e : Event) (s : Session)
    → IsReady g s.tree.thread
    → s.tree.thread.generation + 1 < 2 ^ 32
    → (s' : Session) × (step g e s ≡ some s') × Outcome g (e ∷ []) s s'
unfolding step get_serialized_buffer
step-Outcome g layout (calls nameid name read) s v h =
    let (t, done, ready, names, gen, counts) =
      call_handler-total g layout read nameid name s.tree v in
    (
      record s { tree = t },
      ground (arith, done),
      record {
        ready = ready;
        names = names;
        generations = omega (arith, gen);
        total = ground (
          arith,
          counts (λ _. true),
          calls_at-append (λ _. true) s.sent t.thread.serialized,
          calls_at-append (λ _. true) s.sent s.tree.thread.serialized,
        );
      },
    )
step-Outcome g layout (returns read) s v h =
    let (ti, done, ready, names, gen, counts) =
      return_handler-total g layout read s.tree.thread v in
    (
      record s { tree = record s.tree { thread = ti } },
      ground (arith, done),
      record {
        ready = ready;
        names = names;
        generations = omega (arith, gen);
        total = ground (
          arith,
          counts (λ _. true),
          calls_at-append (λ _. true) s.sent ti.serialized,
          calls_at-append (λ _. true) s.sent s.tree.thread.serialized,
        );
      },
    )
step-Outcome g layout collects s v h = (
  record {
    tree = record s.tree { thread = (get_serialized_buffer s.tree.thread).0 };
    sent = s.sent ++ s.tree.thread.serialized;
  },
  refl,
  record {
    ready = get_serialized_buffer-IsReady g s.tree.thread v h;
    names = refl;
    generations = omega arith;
    total =
        rw (append-nil (s.sent ++ s.tree.thread.serialized))
          (omega (arith, calls_at-lt (λ _. true) (s.sent ++ s.tree.thread.serialized)));
  },
)

on_stack-step :
    (e : Event) (es : List Event) (names : List ℕ)
    → on_stack (e ∷ es) names ≡ on_stack es (on_stack (e ∷ []) names)
on_stack-step (calls nameid name read) es names = refl
on_stack-step (returns read) es names = refl
on_stack-step collects es names = refl

call_events-step :
    (e : Event) (es : List Event) → call_events (e ∷ es) ≡ call_events (e ∷ []) + call_events es
call_events-step (calls nameid name read) es = omega arith
call_events-step (returns read) es = omega arith
call_events-step collects es = omega arith

Outcome-trans :
    (g : Registry) (e : Event) (es : List Event) (s s' s'' : Session)
    → Outcome g (e ∷ []) s s'
    → Outcome g es s' s''
    → Outcome g (e ∷ es) s s''
Outcome-trans g e es s s' s'' o o' = record {
  ready = o'.ready;
  names = o'.names ∙ ap (on_stack es) o.names ∙ sym (on_stack-step e es (stack s.tree.thread));
  total = omega (arith, o'.total, o.total, call_events-step e es);
  generations = omega (arith, o.generations, o'.generations);
}

pub run-Outcome :
    (g : Registry) (layout : Layout g) (es : List Event) (s : Session)
    → IsReady g s.tree.thread
    → s.tree.thread.generation + length es < 2 ^ 32
    → (s' : Session) × (run g es s ≡ some s') × Outcome g es s s'
unfolding run
run-Outcome g layout [] s v h = (
  s,
  refl,
  record {
    ready = v;
    names = refl;
    total = omega (arith, calls_at-lt (λ _. true) (s.sent ++ s.tree.thread.serialized));
    generations = omega arith;
  },
)
run-Outcome g layout (e ∷ es) s v h =
    let (s', done, o) = step-Outcome g layout e s v (omega arith) in
    let (s'', rest, o') = run-Outcome g layout es s' o.ready (omega (arith, o.generations)) in
    (s'', ground (arith, done, rest), Outcome-trans g e es s s' s'' o o')
