-- ===== src/Webmon/Global.antt =====
-- webmon/data_store.cpp: all the stores of the monitor, `NewDataStore`, the global store with
-- `GlobalDataStore::Integrate`, and one round of `DataStore_ReceiveThread`. `none` is what makes the
-- operations on a store fail, a read of a number that is not initialised, and an overflow of the `int`
-- `gDataStoreIDSeq`.
pub mod Fresh
use llprof.Base.{
  ℕ, suc, Bool, true, false, Option, none, some, List, [], ◌∷◌, Map, find, put, Text, codes, length,
  ◌^◌, ltb, ◌==◌, ◌>>=◌, ◌>>◌, assert,
}
use llprof.Webmon.Nodes.{RecordMetadata, Ds}
use llprof.Webmon.Sequence.{new_sequence}
use llprof.Webmon.Current.{new_thread_store}
use llprof.Webmon.DataStore.{Globals, DataStore, ds_of}
use llprof.Webmon.Integrate.{GlobalThreadStore, integrate}
use llprof.Webmon.Connections.{
  Connection, new_data_store, set_connected_socket, set_connect_to, start_receive, receive_loop,
}

-- `GlobalDataStore`. The thread is that of the id 0, once it is made; it has the store's names.
pub record GlobalDataStore : Type 0 where
  pub current_time_number : ℕ
  pub record_metadata : List RecordMetadata
  pub num_records : ℕ
  pub thread : Option GlobalThreadStore

abbrev pub new_global : GlobalDataStore
new_global = record {
  current_time_number = 0;
  record_metadata = [];
  num_records = 0;
  thread = none;
}

-- `gAllDataStore` without the global store, `gDataStoreIDSeq` and `gGlobalDataStore`.
pub record Monitor : Type 0 where
  pub stores : Map Connection
  pub id_seq : ℕ
  pub global : Option GlobalDataStore

-- `InitDataStore`, with the setting of WEBMON_SINGLE.
abbrev pub init_data_store : Bool → Monitor
init_data_store single = record {
  stores = [];
  id_seq = 0;
  global = elim single [ true ↦ some new_global | false ↦ none ];
}

-- `NewDataStore`, and what its callers do to the new store.
unfoldable pub new_store : (Connection → Connection) → Monitor → Option Monitor
new_store set_up m = do
  assert (ltb (suc m.id_seq) (2 ^ 31))
  some (record m {
    id_seq = suc m.id_seq;
    stores = put (suc m.id_seq) (set_up (new_data_store (suc m.id_seq))) m.stores;
  })

-- A round of the loop of `DataStoreAcceptThreadMain`, with what arrives on the socket.
unfoldable pub accepted : List Text → Monitor → Option Monitor
unfolding new_store
accepted pieces m = new_store (λ c. start_receive (set_connected_socket pieces c)) m

-- The first loop of `GlobalDataStore::Integrate`: the columns of the first store that has some.
unfoldable pub find_columns : Map Connection → Option (Option (List RecordMetadata))
find_columns [] = some none
find_columns ((id, c) ∷ stores) = do
  n ← c.num_records
  elim (n == 0) [ true ↦ find_columns stores | false ↦ some (some c.store.record_metadata) ]

-- What the global store's thread reads of it.
abbrev pub global_ds : Globals → GlobalDataStore → Map Text → Ds
global_ds g global names = record {
  record_metadata = global.record_metadata;
  name_table = names;
  current_time_number = global.current_time_number;
  single_tree_mode = g.is_single_tree_mode;
  leaf_node_accumulate = g.leaf_node_accumulate;
  crc64 = g.crc64;
}

-- The columns, and the new thread with them.
unfoldable pub set_columns :
    Globals → GlobalDataStore → Option (List RecordMetadata) → GlobalDataStore
set_columns g global none = global
set_columns g global (some mds) =
    let global' = record global { record_metadata = mds; num_records = length mds } in
    record global' {
      thread = some (record {
        thread = record (new_thread_store (global_ds g global' [])) { thread_id = 0 };
        sequence = new_sequence;
        names = [];
      });
    }

abbrev pub stores_of : Map Connection → Map DataStore
stores_of [] = []
stores_of ((id, c) ∷ stores) = (id, c.store) ∷ stores_of stores

-- The connections with the stores that `integrate` left, which are in the same order.
abbrev pub with_stores : Map Connection → Map DataStore → Map Connection
with_stores ((id, c) ∷ connections) ((_, store) ∷ stores) =
    (id, record c { store = store }) ∷ with_stores connections stores
with_stores connections _ = connections

-- The second part of `GlobalDataStore::Integrate`.
unfoldable pub integrate_known :
    Globals → Map Connection → GlobalDataStore → Option (Map Connection × GlobalDataStore)
unfolding integrate
integrate_known g stores global = elim (global.num_records == 0) [
  | true ↦ some (stores, global)
  | false ↦ do
    thread ← global.thread
    let global' = record global { current_time_number = suc global.current_time_number }
    (stores', thread') ← integrate (global_ds g global' thread.names) (stores_of stores) thread
    some (with_stores stores stores', record global' { thread = some thread' })
]

-- `GlobalDataStore::Integrate`
unfoldable pub global_integrate :
    Globals → Map Connection → GlobalDataStore → Option (Map Connection × GlobalDataStore)
unfolding find_columns set_columns integrate_known
global_integrate g stores global = elim (global.num_records == 0) [
  | true ↦ do columns ← find_columns stores; integrate_known g stores (set_columns g global columns)
  | false ↦ integrate_known g stores global
]

-- The loop of `DataStore_ReceiveThread` over the stores. The global one does not receive. `f` is the
-- fuel of a poll.
unfoldable pub receive_all :
    ℕ → Globals → (Text → Text → Option (List Text)) → Map Connection → Option (Map Connection)
unfolding receive_loop
receive_all f g socket_connect_to [] = some []
receive_all f g socket_connect_to ((id, c) ∷ stores) = do
  (ok, c') ← receive_loop f g socket_connect_to c
  stores' ← receive_all f g socket_connect_to stores
  some ((id, c') ∷ stores')

-- The global store, when there is one.
unfoldable pub integrated : Globals → Monitor → Option GlobalDataStore → Option Monitor
unfolding global_integrate
integrated g m none = some m
integrated g m (some global) = do
  (stores, global') ← global_integrate g m.stores global
  some (record m { stores = stores; global = some global' })

unfoldable pub integrate_global : Globals → Monitor → Option Monitor
unfolding integrated
integrate_global g m = integrated g m m.global

-- One round of `DataStore_ReceiveThread`.
unfoldable pub receive_round :
    ℕ → Globals → (Text → Text → Option (List Text)) → Monitor → Option Monitor
unfolding receive_all integrate_global
receive_round f g socket_connect_to m = do
  stores ← receive_all f g socket_connect_to m.stores
  integrate_global g (record m { stores = stores })
