-- ===== src/Webmon/DataStore.antt =====
-- webmon/data_store.cpp, the state of `DataStore` and the rest of `DataStore::GetProfileData`: the
-- request for the names, and the calls of `Store`. `none` is a use of NULL, a failed assertion, an
-- access out of bounds, or a loop that has not ended when the fuel is used up.
mod Asking
mod Examples
use llprof.Base.{
  ℕ, zero, suc, Bool, true, false, Option, none, some, List, [], ◌∷◌, ◌++◌, Map, find, put, Text,
  codes, length, le32, if◌then◌else◌, ◌==◌, ◌>>=◌,
}
use llprof.Protocol.{Slide, msg_req_profile_data, msg_query_names, query_names}
use llprof.Server.{Message}
use llprof.Server.Queries.{encode_ids}
use llprof.Webmon.MessageBuf.{MessageBuf, as_string}
use llprof.Webmon.Samples.{get_member_offset_of}
use llprof.Webmon.Receive.{recv_message}
use llprof.Webmon.Collect.{Received, receive_loop}
use llprof.Webmon.Nodes.{Ds, RecordMetadata}
use llprof.Webmon.Current.{ThreadStore, new_thread_store}
use llprof.Webmon.Store.{store}

-- `gGlobalDataStore` and `gLeafNodeAccumulate`, as far as they are read, and boost's checksum.
pub record Globals : Type 0 where
  pub is_single_tree_mode : Bool
  pub leaf_node_accumulate : Bool
  pub crc64 : Text → ℕ

pub record DataStore : Type 0 where
  pub id : ℕ
  pub current_time_number : ℕ
  pub member_offset_info : List Slide
  pub record_metadata : List RecordMetadata
  pub name_table : Map Text
  pub threads : Map ThreadStore

-- What the store's threads read.
abbrev pub ds_of : Globals → DataStore → Ds
ds_of g store = record {
  record_metadata = store.record_metadata;
  name_table = store.name_table;
  current_time_number = store.current_time_number;
  single_tree_mode = g.is_single_tree_mode;
  leaf_node_accumulate = g.leaf_node_accumulate;
  crc64 = g.crc64;
}

-- `getline`: the text before the first newline, and the text behind it.
unfoldable pub get_line : Text → Text × Text
get_line [] = ([], [])
get_line (c ∷ text) = elim (c == b'\n') [
  | true ↦ ([], text)
  | false ↦ let (line, rest) = get_line text in (c ∷ line, rest)
]

-- The loop over the ids that were asked for, with the text of the answer.
unfoldable pub set_names : List ℕ → Text → Map Text → Map Text
unfolding get_line
set_names [] text table = table
set_names (id ∷ ids) text table =
    let (line, rest) = get_line text in set_names ids rest (put id line table)

-- The vector `query_names`, with its first slot overwritten by the kind and the number of the ids.
abbrev pub names_query : List ℕ → Text
names_query ids = le32 query_names ++ (le32 (length ids) ++ encode_ids ids)

unfoldable pub names_answer :
    List ℕ → DataStore → Option MessageBuf × List Text → Option (DataStore × List Text)
unfolding set_names
names_answer ids store (none, pieces) = none
names_answer ids store (some m, pieces) =
    some (record store { name_table = set_names ids (as_string m) store.name_table }, pieces)

-- The request for the names: the store, what was sent, and the pieces that are left to receive.
unfoldable pub ask_for_names :
    List ℕ → DataStore → List Text → Option (DataStore × List Message × List Text)
unfolding names_answer
ask_for_names [] store pieces = some (store, [], pieces)
ask_for_names (id ∷ ids) store pieces = do
  res ← recv_message pieces
  (store', pieces') ← names_answer (id ∷ ids) store res
  some (store', (msg_query_names, names_query (id ∷ ids)) ∷ [], pieces')

-- The thread of an id, made when it is missing.
unfoldable pub thread_store : Globals → DataStore → ℕ → ThreadStore
thread_store g store tid = elim (find tid store.threads) [
  | some ts ↦ ts
  | none ↦ record (new_thread_store (ds_of g store)) { thread_id = tid }
]

-- The loop over `buf_for_threads`.
unfoldable pub store_threads :
    Globals → Map MessageBuf → Map MessageBuf → DataStore → Option DataStore
unfolding thread_store store
store_threads g nowinfo [] ds = some ds
store_threads g nowinfo ((tid, buf) ∷ bufs) ds = do
  nibuf ← find tid nowinfo
  ts ← store (ds_of g ds) ds.member_offset_info buf nibuf (thread_store g ds tid)
  store_threads g nowinfo bufs (record ds { threads = put tid ts ds.threads })

-- What `GetProfileData` leaves: its result, the store, what was sent and what is left to receive.
pub record Polled : Type 0 where
  pub succeeded : Bool
  pub data_store : DataStore
  pub sent : List Message
  pub pieces : List Text

-- The part behind the label `end_of_loop`, with the locals that the loop left.
unfoldable pub end_of_loop : Globals → DataStore → Received → List Text → Option Polled
unfolding ask_for_names store_threads
end_of_loop g ds received pieces = do
  (ds', sent, pieces') ← ask_for_names received.query_names ds pieces
  ds'' ← store_threads g received.nowinfo_buf_for_threads received.buf_for_threads ds'
  some (record {
    succeeded = true;
    data_store = ds'';
    sent = (msg_req_profile_data, []) ∷ sent;
    pieces = pieces';
  })

unfoldable pub after_loop : Globals → DataStore → Bool × Received × List Text → Option Polled
unfolding end_of_loop
after_loop g ds (false, received, pieces) = some (record {
  succeeded = false;
  data_store = record ds { name_table = received.name_table };
  sent = (msg_req_profile_data, []) ∷ [];
  pieces = pieces;
})
after_loop g ds (true, received, pieces) =
    end_of_loop g (record ds { name_table = received.name_table }) received pieces

-- `GetProfileData`, with the fuel of its loop.
unfoldable pub get_profile_data : ℕ → Globals → DataStore → List Text → Option Polled
unfolding receive_loop after_loop get_member_offset_of
get_profile_data f g ds pieces = do
  let ds' = record ds { current_time_number = suc ds.current_time_number }
  result ←
      receive_loop f (get_member_offset_of ds.member_offset_info (codes "pdata.nameid"))
        (get_member_offset_of ds.member_offset_info (codes "pdata.record_size")) pieces
        (record {
          buf_for_threads = [];
          nowinfo_buf_for_threads = [];
          query_names = [];
          name_table = ds.name_table;
        })
  after_loop g ds' result
