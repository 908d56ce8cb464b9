-- ===== src/Bindings/Python/Refinement.antt =====
-- Bindings/Python: a profile as a Python program sees it, a stack of names and the number of calls,
-- and the call tree that implements it.
use llprof.Base.{
  ℕ, ◌+◌, ◌*◌, ◌-◌, ◌%◌, ◌^◌, ◌<◌, ◌≤◌, ◌≡◌, refl, sym, ap, ◌∙◌, Bool, true, false, Option, none,
  some, List, [], ◌∷◌, Text, Map, length, lt→ltb, ◌==◌, if◌then◌else◌, ◌>>=◌, bind_some, arith,
  Bool-cases, Option-cases, subst, inl, inr, ◌⊎◌,
}
use mathlib.Core.List.{tail}
use llprof.Network.{hash_str}
use llprof.Network.Hash.{hash_str-total}
use llprof.Registry.{Registry}
use llprof.Registry.Slots.{Layout}
use llprof.CallTree.Handlers.{IsReady, stack}
use llprof.CallTree.Session.{Session, Event, step, accounted, start}
use llprof.CallTree.Session.Steps.{Outcome, step-Outcome}
use llprof.CallTree.Session.Run.{start-facts, new_thread-IsReady, few_events}
use llprof.Bindings.Python.{
  PyThread, start_counter, on_call, on_return, begin_profile, end_profile, What, handle_event,
  trace_counted, tracefunc, PyEvent, begins, ends, traces, if_set, py_step, py_run,
  python_name_func,
}

-- The abstract profile of a thread: how many profiles are open, the names of the calls that have not
-- returned, innermost first, and the number of the calls.
pub record Profile : Type 0 where
  pub open_profiles : ℕ
  pub names : List ℕ
  pub calls : ℕ

abbrev pub push : ℕ → Profile → Profile
push nameid p = record p { names = nameid ∷ p.names; calls = p.calls + 1 }

abbrev pub pop : Profile → Profile
pop p = record p { names = tail p.names }

abbrev pub profile_event : What → ℕ → Profile → Profile
profile_event What.call code p = push code p
profile_event What.exception code p = pop p
profile_event What.return code p = pop p
profile_event What.other code p = p

-- The id of a name, which every text has.
abbrev pub id_of : Text → ℕ
id_of s = elim (hash_str s) [ some id ↦ id | none ↦ 0 ]

id_of_lem : (s : Text) (id : ℕ) → hash_str s ≡ some id → id_of s ≡ id
id_of_lem s id e = rw (e, id_of) refl

-- An end without a begin is an error; between an end of the last profile and the next begin nothing
-- is recorded.
abbrev pub profile_step : PyEvent → Profile → Option Profile
profile_step (begins s read) p =
    some (push (id_of s) (record p { open_profiles = p.open_profiles + 1 }))
profile_step (ends read) p =
    if p.open_profiles == 0
    then none
    else some (pop (record p { open_profiles = p.open_profiles - 1 }))
profile_step (traces what code read) p =
    some (if p.open_profiles == 0 then p else profile_event what code p)
profile_step PyEvent.collects p = some p

unfoldable pub profile_run : List PyEvent → Profile → Option Profile
profile_run [] p = some p
profile_run (e ∷ es) p = do p' ← profile_step e p; profile_run es p'

abbrev pub Counted : Option ℕ → Bool → ℕ → Type 0
Counted none profiled n = (profiled ≡ false) × (n ≡ 0)
Counted (some counter) profiled n = (profiled ≡ true) × (counter ≡ n)

-- A session that the names and the calls of a profile describe.
pub record Holds (g : Registry) (s : Session) (p : Profile) : Type 0 where
  pub ready : IsReady g s.tree.thread
  pub names : stack s.tree.thread ≡ p.names
  pub calls : accounted s ≡ p.calls % 2 ^ 64

-- The thread is a state of the abstract profile.
pub record Refines (g : Registry) (st : PyThread) (p : Profile) : Type 0 where
  pub session : Holds g st.session p
  pub counted : Counted st.counter st.profiled p.open_profiles

-- Both fail, or both succeed in related states.
abbrev pub Agree : Registry → Option PyThread → Option Profile → Type 0
Agree g none none = Unit {0}
Agree g (some st) (some p) = Refines g st p
Agree g _ _ = ⊥

abbrev profile_of : Event → Profile → Profile
profile_of (Event.calls nameid name read) p = push nameid p
profile_of (Event.returns read) p = pop p
profile_of Event.collects p = p

Holds-after :
    (g : Registry) (e : Event) (s s' : Session) (p : Profile)
    → Holds g s p
    → Outcome g (e ∷ []) s s'
    → Holds g s' (profile_of e p)
Holds-after g (Event.calls nameid name read) s s' p h o = record {
  ready = o.ready;
  names = o.names ∙ ap (λ names. nameid ∷ names) h.names;
  calls = omega (arith, o.total, h.calls);
}
Holds-after g (Event.returns read) s s' p h o = record {
  ready = o.ready;
  names = o.names ∙ ap tail h.names;
  calls = omega (arith, o.total, h.calls);
}
Holds-after g Event.collects s s' p h o = record {
  ready = o.ready;
  names = o.names ∙ h.names;
  calls = omega (arith, o.total, h.calls);
}

step-Holds :
    (g : Registry) (layout : Layout g) (e : Event) (s : Session) (p : Profile)
    → Holds g s p
    → s.tree.thread.generation + 1 < 2 ^ 32
    → (s' : Session) × (step g e s ≡ some s')
      × Holds g s' (profile_of e p)
      × (s'.tree.thread.generation ≤ s.tree.thread.generation + 1)
step-Holds g layout e s p h lt =
    let (s', done, o) = step-Outcome g layout e s h.ready lt in
    (s', done, Holds-after g e s s' p h o, o.generations)

start_counter_lem :
    (st : PyThread) (n : ℕ) → Counted st.counter st.profiled n → start_counter st ≡ (n, true)
start_counter_lem st n c = elim (Option-cases st.counter) [
  | inl e ↦
      let c' = subst (λ o. Counted o st.profiled n) e c in
      rw e (ap (λ (k : ℕ). (k, true)) (sym c'.1))
  | inr (counter, e) ↦
      let c' = subst (λ o. Counted o st.profiled n) e c in
      rw e (ap (λ (b : Bool). (counter, b)) c'.0 ∙ ap (λ (k : ℕ). (k, true)) c'.1)
]

-- Both fail, or both succeed in related states, with one generation and one open profile more at
-- most.
data Stepped (g : Registry) (st : PyThread) (p : Profile) (o : Option PyThread) (r : Option Profile)
    : Type 0 where
  failed : o ≡ none → r ≡ none → Stepped g st p o r
  stepped :
      (st' : PyThread) (p' : Profile)
      → o ≡ some st'
      → r ≡ some p'
      → Refines g st' p'
      → st'.session.tree.thread.generation ≤ st.session.tree.thread.generation + 1
      → p'.open_profiles ≤ p.open_profiles + 1
      → Stepped g st p o r

module _ (g : Registry) (layout : Layout g) (co_name : ℕ → List ℕ) (st : PyThread) (p : Profile)
    (ref : Refines g st p) (low : st.session.tree.thread.generation + 1 < 2 ^ 32) where
  opened : Profile
  opened = record p { open_profiles = p.open_profiles + 1 }

  begin-Stepped :
      (read : ℕ → ℕ) (s : Text)
      → p.open_profiles + 1 < 2 ^ 31
      → Stepped g st p (begin_profile g co_name read s st) (profile_step (begins s read) p)
  unfolding begin_profile on_call opened
  begin-Stepped read s few =
      let (nameid, e) = hash_str-total s in
      let (s', done, h, gen) =
        step-Holds g layout
          (Event.calls nameid (some (python_name_func co_name nameid (some s))) read) st.session p
          ref.session low in
      stepped (record { session = s'; counter = some (p.open_profiles + 1); profiled = true })
        (push nameid opened)
        (rw
          (
            start_counter_lem st p.open_profiles ref.counted,
            lt→ltb (p.open_profiles + 1) (2 ^ 31) few,
            e,
            done,
          )
          refl)
        (ap (λ id. some (push id opened)) (id_of_lem s nameid e))
        (record {
          session = record { ready = h.ready; names = h.names; calls = h.calls };
          counted = (refl, refl);
        })
        gen (omega arith)

  -- The counter of a thread whose hook is set.
  counted_some : 0 < p.open_profiles → (st.counter ≡ some p.open_profiles) × (st.profiled ≡ true)
  counted_some pos = elim (Option-cases st.counter) [
    | inl e ↦
        let c = subst (λ o. Counted o st.profiled p.open_profiles) e ref.counted in
        absurd (omega (arith, c.1))
    | inr (counter, e) ↦
        let c = subst (λ o. Counted o st.profiled p.open_profiles) e ref.counted in
        (e ∙ ap some c.1, c.0)
  ]

  closed_counter :
      p.open_profiles ≡ 0 → ((st.counter ≡ none) × (st.profiled ≡ false)) ⊎ (st.counter ≡ some 0)
  closed_counter none_open = elim (Option-cases st.counter) [
    | inl e ↦ inl (e, (subst (λ o. Counted o st.profiled p.open_profiles) e ref.counted).0)
    | inr (counter, e) ↦
        let c = subst (λ o. Counted o st.profiled p.open_profiles) e ref.counted in
        inr (e ∙ ap some (c.1 ∙ none_open))
  ]

  end-closed : (read : ℕ → ℕ) → p.open_profiles ≡ 0 → end_profile g read st ≡ none
  unfolding end_profile
  end-closed read none_open = elim (closed_counter none_open) [
    | inl (e, _) ↦ rw e refl
    | inr e ↦ rw e refl
  ]

  end-Stepped : (read : ℕ → ℕ) → Stepped g st p (end_profile g read st) (profile_step (ends read) p)
  unfolding end_profile on_return
  end-Stepped read = elim (Bool-cases (p.open_profiles == 0)) [
    | inl zero_open ↦ failed (end-closed read (ground (arith, zero_open))) (rw zero_open refl)
    | inr some_open ↦
        let (e, on) = counted_some (ground (arith, some_open)) in
        let (s', done, h, gen) =
          step-Holds g layout (Event.returns read) st.session p ref.session low in
        stepped (record st { session = s'; counter = some (p.open_profiles - 1) })
          (pop (record p { open_profiles = p.open_profiles - 1 }))
          (rw (e, lt→ltb 0 p.open_profiles (ground (arith, some_open)), done) refl)
          (rw some_open refl)
          (record {
            session = record { ready = h.ready; names = h.names; calls = h.calls };
            counted = (on, refl);
          })
          gen (omega arith)
  ]

  handle_event-Holds :
      (read : ℕ → ℕ) (what : What) (code : ℕ)
      → (s' : Session) × (handle_event g co_name read what code st.session ≡ some s')
        × Holds g s' (profile_event what code p)
        × (s'.tree.thread.generation ≤ st.session.tree.thread.generation + 1)
  unfolding handle_event on_call on_return
  handle_event-Holds read What.call code =
      step-Holds g layout (Event.calls code (some (python_name_func co_name code none)) read)
        st.session p ref.session low
  handle_event-Holds read What.exception code =
      step-Holds g layout (Event.returns read) st.session p ref.session low
  handle_event-Holds read What.return code =
      step-Holds g layout (Event.returns read) st.session p ref.session low
  handle_event-Holds read What.other code = (st.session, refl, ref.session, omega arith)

  counted_event :
      (read : ℕ → ℕ) (what : What) (code n : ℕ) (s' : Session)
      → (n == 0) ≡ false
      → handle_event g co_name read what code st.session ≡ some s'
      → trace_counted g co_name read what code st n ≡ some (record st { session = s' })
  unfolding trace_counted
  counted_event read what code n s' some_open done = rw (some_open, done, trace_counted) refl

  event-Counted :
      (what : What) (code : ℕ)
      → Counted st.counter st.profiled (profile_event what code p).open_profiles
  event-Counted What.call code = ref.counted
  event-Counted What.exception code = ref.counted
  event-Counted What.return code = ref.counted
  event-Counted What.other code = ref.counted

  event_opens :
      (what : What) (code : ℕ) → (profile_event what code p).open_profiles ≤ p.open_profiles + 1
  event_opens What.call code = omega arith
  event_opens What.exception code = omega arith
  event_opens What.return code = omega arith
  event_opens What.other code = omega arith

  stays : {o : Option PyThread} {r : Option Profile} → o ≡ some st → r ≡ some p → Stepped g st p o r
  stays e e' = stepped st p e e' ref (omega arith) (omega arith)

  trace-closed :
      (read : ℕ → ℕ) (what : What) (code : ℕ)
      → p.open_profiles ≡ 0
      → py_step g co_name (traces what code read) st ≡ some st
  unfolding py_step tracefunc trace_counted
  trace-closed read what code none_open = elim (Bool-cases st.profiled) [
    | inl on ↦ elim (closed_counter none_open) [ inl (_, off) ↦ cc | inr e ↦ rw (on, e) refl ]
    | inr off ↦ rw off refl
  ]

  hooked :
      (read : ℕ → ℕ) (what : What) (code : ℕ)
      → st.profiled ≡ true
      → py_step g co_name (traces what code read) st ≡ tracefunc g co_name read what code st
  unfolding py_step
  hooked read what code on = ap (λ set. if_set set (tracefunc g co_name read what code st) st) on

  trace-open :
      (read : ℕ → ℕ) (what : What) (code n : ℕ) (s' : Session)
      → st.profiled ≡ true
      → st.counter ≡ some n
      → (n == 0) ≡ false
      → handle_event g co_name read what code st.session ≡ some s'
      → py_step g co_name (traces what code read) st ≡ some (record st { session = s' })
  unfolding tracefunc
  trace-open read what code n s' on e some_open done =
      hooked read what code on
      ∙ bind_some st.counter (trace_counted g co_name read what code st) n e
      ∙ counted_event read what code n s' some_open done

  trace-Stepped :
      (read : ℕ → ℕ) (what : What) (code : ℕ)
      → Stepped g st p
          (py_step g co_name (traces what code read) st)
          (profile_step (traces what code read) p)
  trace-Stepped read what code = elim (Bool-cases (p.open_profiles == 0)) [
    | inl zero_open ↦
        stays (trace-closed read what code (ground (arith, zero_open))) (rw zero_open refl)
    | inr some_open ↦
        let (e, on) = counted_some (ground (arith, some_open)) in
        let (s', done, h, gen) = handle_event-Holds read what code in
        stepped (record st { session = s' }) (profile_event what code p)
          (trace-open read what code p.open_profiles s' on e some_open done) (rw some_open refl)
          (record { session = h; counted = event-Counted what code }) gen (event_opens what code)
  ]

  collect-Stepped :
      Stepped g st p (py_step g co_name PyEvent.collects st) (profile_step PyEvent.collects p)
  unfolding py_step
  collect-Stepped =
      let (s', done, h, gen) = step-Holds g layout Event.collects st.session p ref.session low in
      stepped (record st { session = s' }) p
        (bind_some (step g Event.collects st.session)
          (λ session. some (record st { session = session })) s' done)
        refl (record { session = h; counted = ref.counted }) gen (omega arith)

  py_step-Stepped :
      (e : PyEvent)
      → p.open_profiles + 1 < 2 ^ 31
      → Stepped g st p (py_step g co_name e st) (profile_step e p)
  unfolding py_step
  py_step-Stepped (begins s read) few = begin-Stepped read s few
  py_step-Stepped (ends read) few = end-Stepped read
  py_step-Stepped (traces what code read) few = trace-Stepped read what code
  py_step-Stepped PyEvent.collects few = collect-Stepped

run_failed :
    (g : Registry) (co_name : ℕ → List ℕ) (e : PyEvent) (es : List PyEvent) (st : PyThread)
    (p : Profile)
    → py_step g co_name e st ≡ none
    → profile_step e p ≡ none
    → Agree g (py_run g co_name (e ∷ es) st) (profile_run (e ∷ es) p)
unfolding py_run profile_run
run_failed g co_name e es st p o r = rw (o, r, py_run, profile_run) tt

run_stepped :
    (g : Registry) (co_name : ℕ → List ℕ) (e : PyEvent) (es : List PyEvent) (st st' : PyThread)
    (p p' : Profile)
    → py_step g co_name e st ≡ some st'
    → profile_step e p ≡ some p'
    → Agree g (py_run g co_name es st') (profile_run es p')
    → Agree g (py_run g co_name (e ∷ es) st) (profile_run (e ∷ es) p)
unfolding py_run profile_run
run_stepped g co_name e es st st' p p' o r agree = rw (o, r, py_run, profile_run) agree

py_run-Agree :
    (g : Registry) (co_name : ℕ → List ℕ) (es : List PyEvent) (st : PyThread) (p : Profile)
    → Layout g
    → Refines g st p
    → st.session.tree.thread.generation + length es < 2 ^ 32
    → p.open_profiles + length es < 2 ^ 31
    → Agree g (py_run g co_name es st) (profile_run es p)
unfolding py_run profile_run
py_run-Agree g co_name [] st p layout ref low few = ref
py_run-Agree g co_name (e ∷ es) st p layout ref low few =
    elim (py_step-Stepped g layout co_name st p ref (omega arith) e (omega arith)) [
      | failed o r ↦ run_failed g co_name e es st p o r
      | stepped st' p' o r ref' gen opens ↦
          run_stepped g co_name e es st st' p p' o r
            (py_run-Agree g co_name es st' p' layout ref' (omega arith) (omega arith))
    ]

pub start_thread : Registry → ℕ → Option Text → Map Text → PyThread
start_thread g id root_name names = record {
  session = start g id root_name names;
  counter = none;
  profiled = false;
}

-- From a new thread of a Python program, whatever calls of begin_profile and end_profile, events of
-- the interpreter and collections follow one another, the binding implements the abstract profile:
-- it fails exactly where the profile does, and if not, the stack of the call tree has the names of the
-- profile, the records account for its calls modulo 2^64, and the thread's counter is the number of
-- open profiles. The profile fails exactly at an end_profile without a begin_profile, and outside every
-- profile the interpreter's events do not change it. No record
-- type is active, or exactly one, which is a counter, and the thread's arrays stay below 2^31 bytes,
-- where an element has `bytes` bytes at most and there is no more than one for each event and two at
-- the start.
pub py_run-Refines :
    (g : Registry) (co_name : ℕ → List ℕ) (id : ℕ) (root_name : Option Text) (names : Map Text)
    (es : List PyEvent) (bytes : ℕ)
    → Layout g
    → 0 < bytes
    → (2 + length es) * bytes < 2 ^ 31
    → Agree g
        (py_run g co_name es (start_thread g id root_name names))
        (profile_run es (record { open_profiles = 0; names = []; calls = 0 }))
unfolding start_thread
py_run-Refines g co_name id root_name names es bytes layout pos h =
    let facts = start-facts g id root_name names in
    py_run-Agree g co_name es (start_thread g id root_name names)
      (record { open_profiles = 0; names = []; calls = 0 }) layout
      (record {
        session = record {
          ready = new_thread-IsReady g id root_name names;
          names = facts.0;
          calls = omega (arith, facts);
        };
        counted = (refl, refl);
      })
      (omega (arith, few_events (length es) bytes pos h, facts))
      (omega (arith, few_events (length es) bytes pos h))
