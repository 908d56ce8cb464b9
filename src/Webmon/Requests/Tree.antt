-- ===== src/Webmon/Requests/Tree.antt =====
-- Webmon/Requests: what requests, new connections and rounds of the receiving thread leave.
use llprof.Base.{
  ℕ, suc, refl, Option, none, some, List, [], ◌∷◌, find, Text, codes, text_eq, ◌==◌, if◌then◌else◌,
  ◌>>=◌, Every, Every-bind, arith, Bool-cases, Option-cases, inl, inr, Bool, subst,
}
use llprof.Http.Strings.{StringMap, getm}
use llprof.Webmon.DataStore.{Globals}
use llprof.Webmon.Connections.{Connection, set_connect_to, start_receive, set_connected_socket}
use llprof.Webmon.Global.{
  Monitor, GlobalDataStore, init_data_store, new_store, accepted, receive_round,
}
use llprof.Webmon.Global.Fresh.{ids-put, IsNumbered, new_store-IsNumbered, receive_round-IsNumbered}
use llprof.Webmon.Requests.{
  Answer, host_and_port, new_request, list_request, tree_request, global_tree, store_tree_request,
  tree_of_id, as_data_store, some_answer, with_answer, data_store_request,
}

-- What happens to the monitor.
pub data MonitorEvent : Type 0 where
  accepts : List Text → MonitorEvent
  receives : ℕ → (Text → Text → Option (List Text)) → MonitorEvent
  requests : List Text → StringMap → MonitorEvent

-- The number of the stores after an event: each connection that is accepted and each request for a
-- new store adds one.
abbrev pub after_request : List Text → ℕ → ℕ
after_request [] n = n
after_request (first ∷ path) n = if text_eq first (codes "new") then suc n else n

abbrev pub after_event : MonitorEvent → ℕ → ℕ
after_event (accepts pieces) n = suc n
after_event (receives f socket_connect_to) n = n
after_event (requests path form) n = after_request path n

abbrev pub after_events : List MonitorEvent → ℕ → ℕ
after_events [] n = n
after_events (e ∷ es) n = after_events es (after_event e n)

module _ (lexical_cast : Text → Option ℕ) (dump : Monitor → Text) (g : Globals) where
  unfoldable pub monitor_step : MonitorEvent → Monitor → Option Monitor
  monitor_step (accepts pieces) m = accepted pieces m
  monitor_step (receives f socket_connect_to) m = receive_round f g socket_connect_to m
  monitor_step (requests path form) m = do
    (m', answer) ← data_store_request lexical_cast dump g path form m
    some m'

  unfoldable pub monitor_run : List MonitorEvent → Monitor → Option Monitor
  monitor_run [] m = some m
  monitor_run (e ∷ es) m = do m' ← monitor_step e m; monitor_run es m'

  Keeps : ℕ → Option (Monitor × Answer) → Type 0
  Keeps n = Every (λ r. IsNumbered n r.0)

  new_request-IsNumbered :
      (form : StringMap) (n : ℕ) (m : Monitor) → IsNumbered n m → Keeps (suc n) (new_request form m)
  unfolding new_request Keeps
  new_request-IsNumbered form n m numbered =
      Every-bind (λ r. IsNumbered (suc n) r.0) (host_and_port (getm form (codes "host") [])) _
        λ parts done.
          let set_up : Connection → Connection =
            λ c. start_receive (set_connect_to parts.0 parts.1 c) in
          Every-bind (λ r. IsNumbered (suc n) r.0) (new_store set_up m) _
            λ m' at.
              subst (Every (IsNumbered (suc n))) at (new_store-IsNumbered set_up n m numbered)

  global_tree-IsNumbered :
      (path : List Text) (n : ℕ) (m : Monitor) (global : Option GlobalDataStore)
      → IsNumbered n m
      → Keeps n (global_tree lexical_cast g path m global)
  unfolding global_tree Keeps
  global_tree-IsNumbered path n m none numbered = numbered
  global_tree-IsNumbered path n m (some global) numbered =
      Every-bind (λ r. IsNumbered n r.0) (tree_request lexical_cast g path (as_data_store global)) _
        λ r done. numbered

  store_tree_request-IsNumbered :
      (id : ℕ) (path : List Text) (n : ℕ) (m : Monitor)
      → IsNumbered n m
      → Keeps n (store_tree_request lexical_cast g id path m)
  unfolding store_tree_request Keeps
  store_tree_request-IsNumbered id path n m numbered = elim (Bool-cases (id == 0)) [
    | inl e ↦ rw (e, Every) (global_tree-IsNumbered path n m m.global numbered)
    | inr e ↦ elim (Option-cases (find id m.stores)) [
      | inl missing ↦ rw (e, missing, Every) numbered
      | inr (c, at) ↦
          rw (e, at, Every)
            (Every-bind (λ r. IsNumbered n r.0) (tree_request lexical_cast g path c.store) _
              λ r done.
                (ids-put id 1 n (record c { store = r.0 }) c m.stores numbered.0 at, numbered.1))
    ]
  ]

  tree_of_id-IsNumbered :
      (id : Text) (path : List Text) (n : ℕ) (m : Monitor)
      → IsNumbered n m
      → Keeps n (tree_of_id lexical_cast g id path m)
  unfolding tree_of_id Keeps
  tree_of_id-IsNumbered id path n m numbered = elim (Option-cases (lexical_cast id)) [
    | inl e ↦ rw (e, Every) numbered
    | inr (k, e) ↦ rw (e, Every) (store_tree_request-IsNumbered k path n m numbered)
  ]

  some_answer-IsNumbered :
      (n : ℕ) (o : Option (Monitor × Answer))
      → Keeps n o
      → Every (λ r. IsNumbered n r.0) (some_answer o)
  unfolding some_answer Keeps
  some_answer-IsNumbered n none kept = tt
  some_answer-IsNumbered n (some (m, answer)) kept = kept

  with_answer-IsNumbered :
      (n : ℕ) (m : Monitor) (o : Option Answer)
      → IsNumbered n m
      → Every (λ r. IsNumbered n r.0) (with_answer m o)
  unfolding with_answer
  with_answer-IsNumbered n m none numbered = tt
  with_answer-IsNumbered n m (some answer) numbered = numbered

  request-IsNumbered :
      (path : List Text) (form : StringMap) (n : ℕ) (m : Monitor)
      → IsNumbered n m
      → Every
          (λ r. IsNumbered (after_request path n) r.0)
          (data_store_request lexical_cast dump g path form m)
  unfolding data_store_request
  request-IsNumbered [] form n m numbered = numbered
  request-IsNumbered (first ∷ []) form n m numbered = ground (
    arith,
    some_answer-IsNumbered (suc n) (new_request form m) (new_request-IsNumbered form n m numbered),
    with_answer-IsNumbered n m (list_request m) numbered,
  )
  request-IsNumbered (first ∷ (id ∷ path)) form n m numbered = ground (
    arith,
    some_answer-IsNumbered (suc n) (new_request form m) (new_request-IsNumbered form n m numbered),
    with_answer-IsNumbered n m (list_request m) numbered,
    some_answer-IsNumbered n (tree_of_id lexical_cast g id path m)
        (tree_of_id-IsNumbered id path n m numbered),
  )

  step-IsNumbered :
      (e : MonitorEvent) (n : ℕ) (m : Monitor)
      → IsNumbered n m
      → Every (IsNumbered (after_event e n)) (monitor_step e m)
  unfolding monitor_step accepted
  step-IsNumbered (accepts pieces) n m numbered =
      new_store-IsNumbered (λ c. start_receive (set_connected_socket pieces c)) n m numbered
  step-IsNumbered (receives f socket_connect_to) n m numbered =
      receive_round-IsNumbered f g socket_connect_to n m numbered
  step-IsNumbered (requests path form) n m numbered =
      Every-bind (IsNumbered (after_request path n))
        (data_store_request lexical_cast dump g path form m) _
        λ r done.
          subst (Every (λ r. IsNumbered (after_request path n) r.0)) done
            (request-IsNumbered path form n m numbered)

  run-IsNumbered :
      (es : List MonitorEvent) (n : ℕ) (m : Monitor)
      → IsNumbered n m
      → Every (IsNumbered (after_events es n)) (monitor_run es m)
  unfolding monitor_run
  run-IsNumbered [] n m numbered = numbered
  run-IsNumbered (e ∷ es) n m numbered =
      Every-bind (IsNumbered (after_events es (after_event e n))) (monitor_step e m)
        (monitor_run es)
        λ m' done.
          run-IsNumbered es (after_event e n) m'
            (subst (Every (IsNumbered (after_event e n))) done (step-IsNumbered e n m numbered))

  -- Wherever connections that are accepted, rounds of the receiving thread and requests of a browser
  -- lead the monitor from its start, in whatever order, its stores have exactly the numbers from 1 to
  -- n, each once and in their order, beside the global store of the single mode with the number 0,
  -- and n is the last number given, where n counts the accepted connections and the requests for a new
  -- store: no store is lost, and none takes the number of another. A run ends where the `int`
  -- gDataStoreIDSeq would overflow.
  pub monitor_run-IsNumbered :
      (single : Bool) (es : List MonitorEvent)
      → Every (IsNumbered (after_events es 0)) (monitor_run es (init_data_store single))
  monitor_run-IsNumbered single es = run-IsNumbered es 0 (init_data_store single) (refl, refl)
