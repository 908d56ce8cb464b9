-- ===== src/Webmon/Requests/Examples.antt =====
-- Webmon/Requests: a monitor that accepts a connection and is asked for its stores.
use llprof.Base.{
  ℕ, ◌≡◌, refl, false, Option, none, some, List, [], ◌∷◌, ◌>>=◌, find, Text, codes, text_eq,
  if◌then◌else◌, Every,
}
use llprof.Webmon.DataStore.{Globals}
use llprof.Webmon.Connections.{new_data_store}
use llprof.Webmon.Global.{Monitor, init_data_store}
use llprof.Webmon.Global.Fresh.{IsNumbered}
use llprof.Webmon.Requests.{data_store_request}
use llprof.Webmon.Requests.Tree.{
  MonitorEvent, accepts, receives, requests, monitor_run, monitor_run-IsNumbered,
}

abbrev settings : Globals
settings = record { is_single_tree_mode = false; leaf_node_accumulate = false; crc64 = λ text. 1 }

abbrev one_or_none : Text → Option ℕ
one_or_none text = if text_eq text (codes "1") then some 1 else none

abbrev no_dump : Monitor → Text
no_dump m = []

abbrev some_requests : List MonitorEvent
some_requests =
    accepts []
    ∷ requests (codes "new" ∷ []) ((codes "host", codes "localhost:12400") ∷ [])
    ∷ requests (codes "list" ∷ []) []
    ∷ receives 10 (λ host port. none)
    ∷ requests (codes "tree" ∷ (codes "1" ∷ (codes "current" ∷ []))) []
    ∷ []

monitor_run-IsNumbered_example :
    Every
      (IsNumbered 2)
      (monitor_run one_or_none no_dump settings some_requests (init_data_store false))
unfolding text_eq
monitor_run-IsNumbered_example =
    monitor_run-IsNumbered one_or_none no_dump settings false some_requests

abbrev one_connection : Monitor
one_connection = record { stores = (1, new_data_store 1) ∷ []; id_seq = 1; global = none }

-- The events all succeed.
last_id : Option ℕ
unfolding monitor_run
last_id = monitor_run one_or_none no_dump settings some_requests (init_data_store false) >>= λ m.
    some m.id_seq

last_id_lem : last_id ≡ some 2
unfolding last_id llprof.Webmon.Requests.Tree.monitor_step data_store_request llprof.Base.split_from
    llprof.Webmon.Global.accepted llprof.Base.put llprof.Webmon.Global.receive_round
    llprof.Network.recv_full find
last_id_lem = refl
