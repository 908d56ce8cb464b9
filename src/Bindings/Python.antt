-- ===== src/Bindings/Python.antt =====
-- pyllprof/pyllprof.cpp: the functions that a Python program calls and the function that the
-- interpreter calls for each call and return. The names of the code objects are an argument. `none`
-- is a failed assertion, an access through NULL or a counter that overflows.
mod Refinement
mod Examples
use llprof.Base.{
  ℕ, zero, suc, ◌+◌, ◌-◌, ◌*◌, ◌%◌, ◌^◌, Bool, true, false, Option, none, some, List, [], ◌∷◌, Text,
  codes, take, ltb, ◌==◌, if◌then◌else◌, ◌>>=◌, ◌>>◌, assert,
}
use llprof.Network.{hash_str}
use llprof.Registry.{Registry}
use llprof.CallTree.{icl_profile_value}
use llprof.CallTree.Session.{Session, Event, step}

-- `int`, widened to the 64 bits of a `profile_value_t`.
abbrev pub int_value : ℕ → ℕ
int_value n = let low = n % 2 ^ 32 in if ltb low (2 ^ 31) then low else low + (2 ^ 64 - 2 ^ 32)

-- The loop of `wstr_to_str` over at most `n` characters, which are cut to bytes.
abbrev pub narrow : ℕ → List ℕ → Text
narrow zero s = []
narrow (suc n) [] = []
narrow (suc n) (c ∷ s) = if c == 0 then [] else (c % 256) ∷ narrow n s

-- The bytes before the first 0.
abbrev pub c_string : List ℕ → Text
c_string [] = []
c_string (c ∷ s) = if c == 0 then [] else c ∷ c_string s

abbrev pub wstr_to_str : List ℕ → Text
wstr_to_str s = c_string (narrow 255 s)

-- `co_name` gives the characters of a code object's name; `p` is NULL in the calls of the
-- interpreter.
unfoldable pub python_name_func : (ℕ → List ℕ) → ℕ → Option Text → Text
python_name_func co_name nameid p =
    if nameid == 0
    then codes "(null)"
    else elim p [ some name ↦ name | none ↦ wstr_to_str (co_name nameid) ]

-- A thread of the program. `counter` is none for NULL, and `profiled` tells whether
-- `PyEval_SetProfile` was called.
pub record PyThread : Type 0 where
  pub session : Session
  pub counter : Option ℕ
  pub profiled : Bool

unfoldable pub on_call :
    Registry → (ℕ → List ℕ) → (ℕ → ℕ) → ℕ → Option Text → Session → Option Session
unfolding step python_name_func
on_call g co_name read nameid p s =
    step g (Event.calls nameid (some (python_name_func co_name nameid p)) read) s

unfoldable pub on_return : Registry → (ℕ → ℕ) → Session → Option Session
unfolding step
on_return g read s = step g (Event.returns read) s

-- A counter that is NULL is made, with 0, and the hook is set.
abbrev pub start_counter : PyThread → ℕ × Bool
start_counter st = elim st.counter [ none ↦ (0, true) | some n ↦ (n, st.profiled) ]

-- `pyllprof_c_begin_profile`
unfoldable pub begin_profile : Registry → (ℕ → List ℕ) → (ℕ → ℕ) → Text → PyThread → Option PyThread
unfolding on_call
begin_profile g co_name read s st = do
  let started = start_counter st
  assert (ltb (started.0 + 1) (2 ^ 31))
  nameid ← hash_str s
  session ← on_call g co_name read nameid (some s) st.session
  some (record { session = session; counter = some (started.0 + 1); profiled = started.1 })

-- `pyllprof_end_profile`
unfoldable pub end_profile : Registry → (ℕ → ℕ) → PyThread → Option PyThread
unfolding on_return
end_profile g read st = do
  counter ← st.counter
  assert (ltb 0 counter)
  session ← on_return g read st.session
  some (record st { session = session; counter = some (counter - 1) })

-- The kinds of events of the interpreter.
pub data What : Type 0 where
  call : What
  exception : What
  return : What
  other : What

unfoldable pub handle_event :
    Registry → (ℕ → List ℕ) → (ℕ → ℕ) → What → ℕ → Session → Option Session
unfolding on_call on_return
handle_event g co_name read What.call code s = on_call g co_name read code none s
handle_event g co_name read What.exception code s = on_return g read s
handle_event g co_name read What.return code s = on_return g read s
handle_event g co_name read What.other code s = some s

-- The events after the test of the counter.
unfoldable pub trace_counted :
    Registry → (ℕ → List ℕ) → (ℕ → ℕ) → What → ℕ → PyThread → ℕ → Option PyThread
unfolding handle_event
trace_counted g co_name read what code st counter = elim (counter == 0) [
  | true ↦ some st
  | false ↦ do
    session ← handle_event g co_name read what code st.session
    some (record st { session = session })
]

-- `pyllprof_tracefunc`
unfoldable pub tracefunc : Registry → (ℕ → List ℕ) → (ℕ → ℕ) → What → ℕ → PyThread → Option PyThread
unfolding trace_counted
tracefunc g co_name read what code st = st.counter >>= trace_counted g co_name read what code st

-- `pyllprof_icl`
unfoldable pub icl : Registry → ℕ → ℕ → Session → Option Session
unfolding icl_profile_value
icl g idx val s = do
  ti ← icl_profile_value g idx (int_value val) s.tree.thread
  some (record s { tree = record s.tree { thread = ti } })

-- `c_icl_child`
unfoldable pub icl_child :
    Registry → (ℕ → List ℕ) → (ℕ → ℕ) → (ℕ → ℕ) → Text → ℕ → ℕ → Session → Option Session
unfolding on_call on_return icl
icl_child g co_name read read' s idx val session = do
  nameid ← hash_str s
  s1 ← on_call g co_name read nameid (some s) session
  s2 ← icl g idx val s1
  on_return g read' s2

-- `G_PyObjectHookFunc_Debug`
unfoldable pub object_hook :
    Registry → (ℕ → List ℕ) → (ℕ → ℕ) → (ℕ → ℕ) → Text → ℕ → Session → Option Session
unfolding icl_child
object_hook g co_name read read' tp_name size session =
    icl_child g co_name read read' (b'#' ∷ take 250 tp_name) 2 size session

-- What happens to a thread: calls of the two functions, events of the interpreter, and collections
-- by the server.
pub data PyEvent : Type 0 where
  begins : Text → (ℕ → ℕ) → PyEvent
  ends : (ℕ → ℕ) → PyEvent
  traces : What → ℕ → (ℕ → ℕ) → PyEvent
  collects : PyEvent

-- What the hook does, when it is set.
abbrev pub if_set : Bool → Option PyThread → PyThread → Option PyThread
if_set true called st = called
if_set false called st = some st

-- The interpreter calls the hook when it is set.
unfoldable pub py_step : Registry → (ℕ → List ℕ) → PyEvent → PyThread → Option PyThread
unfolding begin_profile end_profile tracefunc step
py_step g co_name (begins s read) st = begin_profile g co_name read s st
py_step g co_name (ends read) st = end_profile g read st
py_step g co_name (traces what code read) st =
    if_set st.profiled (tracefunc g co_name read what code st) st
py_step g co_name PyEvent.collects st = do
  session ← step g Event.collects st.session
  some (record st { session = session })

unfoldable pub py_run : Registry → (ℕ → List ℕ) → List PyEvent → PyThread → Option PyThread
unfolding py_step
py_run g co_name [] st = some st
py_run g co_name (e ∷ es) st = do st' ← py_step g co_name e st; py_run g co_name es st'
