-- ===== src/Webmon/Requests.antt =====
-- webmon/data_store.cpp, `DataStoreRequest`: what a browser's request does to the stores, and the
-- answer. `lexical_cast` is an argument; numbers that are negative are not modelled. `none` is an
-- exception, an access out of bounds, or what makes the operations on a store fail.
mod Tree
mod Current
mod Examples
use llprof.Base.{
  ℕ, suc, ◌+◌, Bool, true, false, ◌&&◌, Option, none, some, List, [], ◌∷◌, ◌++◌, Map, find, put,
  Text, codes, text_eq, split, decimal, length, get_elem?, ltb, ◌==◌, if◌then◌else◌, ◌>>=◌,
}
use llprof.Http.Strings.{StringMap, getm}
use llprof.Http.Json.{write_string, write_list}
use llprof.Webmon.Slices.{Node, Merged, merge_time_slice}
use llprof.Webmon.Nodes.{Ds, RecordNode, parents}
use llprof.Webmon.Clear.{statics}
use llprof.Webmon.Current.{ThreadStore}
use llprof.Webmon.Integrate.{GlobalThreadStore}
use llprof.Webmon.DataStore.{Globals, DataStore, ds_of}
use llprof.Webmon.Dump.{write_dict, dump_json}
use llprof.Webmon.Connections.{Connection, set_connect_to, start_receive}
use llprof.Webmon.Global.{GlobalDataStore, Monitor, new_store}

-- The answer: the content type, and what was written.
abbrev pub Answer : Type 0
Answer = Text × Text

abbrev pub text_javascript : Text
text_javascript = codes "text/javascript"

-- connect_to[0] and connect_to[1], with the port when there is none.
unfoldable pub host_and_port : Text → Option (Text × Text)
host_and_port hostval = elim (split b':' hostval) [
  | [] ↦ none
  | host ∷ parts ↦ elim parts [ [] ↦ some (host, codes "12321") | port ∷ _ ↦ some (host, port) ]
]

unfoldable pub new_request : StringMap → Monitor → Option (Monitor × Answer)
unfolding host_and_port getm new_store
new_request form m = do
  (host, port) ← host_and_port (getm form (codes "host") [])
  m' ← new_store (λ c. start_receive (set_connect_to host port c)) m
  some (m', (text_javascript, codes "\"OK\""))

unfoldable pub store_entry : ℕ → Text → Text → Option Text
unfolding write_dict
store_entry id name host = write_dict (
    (codes "id", decimal id)
    ∷ (codes "name", write_string name)
    ∷ (codes "host", write_string host)
    ∷ [])

-- The loop over the stores.
unfoldable pub store_entries : Map Connection → Option (List Text)
unfolding store_entry
store_entries [] = some []
store_entries ((id, c) ∷ stores) = do
  entry ← store_entry c.store.id c.target_name c.host
  rest ← store_entries stores
  some (entry ∷ rest)

-- The global store is the first one.
unfoldable pub global_entries : Option GlobalDataStore → Option (List Text)
unfolding store_entry
global_entries none = some []
global_entries (some global) = do entry ← store_entry 0 (codes "global") []; some (entry ∷ [])

unfoldable pub list_request : Monitor → Option Answer
unfolding store_entries global_entries write_list
list_request m = do
  first ← global_entries m.global
  entries ← store_entries m.stores
  w ← write_list (first ++ entries) []
  some (text_javascript, w.strm)

-- `RecordNodeBasic::ValuesEquals`
unfoldable pub values_equals : Node → Node → Bool
unfolding text_eq
values_equals node rhs =
    text_eq node.all_values rhs.all_values && text_eq node.children_values rhs.children_values

-- The ids for which `CheckAllTimeSlice` writes an error. A node that is missing would be read.
unfoldable pub errors : Map Node → Map RecordNode → Option (List ℕ)
unfolding values_equals
errors integrated [] = some []
errors integrated ((nid, current_node) ∷ tree) = do
  node ← find nid integrated
  rest ← errors integrated tree
  some (if values_equals current_node.basic node then rest else nid ∷ rest)

-- `ThreadStore::CheckAllTimeSlice`
unfoldable pub check_all_time_slice : Ds → ThreadStore → Option (ThreadStore × List ℕ)
unfolding merge_time_slice errors
check_all_time_slice ds ts = do
  m ←
      merge_time_slice (statics ds) (parents ts.current_tree) 0 (suc ds.current_time_number)
        (record { slices = ts.slices; integrated = []; last_tss = none })
  found ← errors m.integrated ts.current_tree
  some (record ts { slices = m.slices }, found)

-- `DataStore::CheckAllTimeSlice`, the loop over the threads.
unfoldable pub check_threads : Ds → Map ThreadStore → Option (Map ThreadStore)
unfolding check_all_time_slice
check_threads ds [] = some []
check_threads ds ((tid, ts) ∷ threads) = do
  (ts', found) ← check_all_time_slice ds ts
  threads' ← check_threads ds threads
  some ((tid, ts') ∷ threads')

unfoldable pub check_store : Globals → DataStore → Option (DataStore × Answer)
unfolding check_threads
check_store g store = do
  threads ← check_threads (ds_of g store) store.threads
  some (record store { threads = threads }, (codes "text/plain", codes "Done."))

unfoldable pub dump_store : Globals → ℕ → ℕ → ℕ → DataStore → Option (DataStore × Answer)
unfolding dump_json
dump_store g flag p1 p2 store = do
  (store', out) ← dump_json g flag p1 p2 store
  some (store', (text_javascript, out))

-- The parts of the path behind the id of the store. The second time is read whenever there is a
-- first one.
unfoldable pub tree_request :
    (Text → Option ℕ) → Globals → List Text → DataStore → Option (DataStore × Answer)
unfolding text_eq dump_store check_store
tree_request lexical_cast g [] store = some (store, (text_javascript, []))
tree_request lexical_cast g (what ∷ times) store =
    if text_eq what (codes "current")
    then dump_store g 1 0 0 store
    else if ltb 0 (length times) && text_eq what (codes "diff")
    then (do
      from ← get_elem? times 0
      to ← get_elem? times 1
      p1 ← lexical_cast from
      p2 ← lexical_cast to
      dump_store g 2 p1 p2 store)
    else if ltb 0 (length times) && text_eq what (codes "check")
    then check_store g store
    else some (store, (text_javascript, []))

-- The global store as the others are, with its thread.
abbrev pub global_threads : Option GlobalThreadStore → Map Text × Map ThreadStore
global_threads none = ([], [])
global_threads (some thread) = (thread.names, (0, thread.thread) ∷ [])

abbrev pub as_data_store : GlobalDataStore → DataStore
as_data_store global =
    let (names, threads) = global_threads global.thread in
    record {
      id = 0;
      current_time_number = global.current_time_number;
      member_offset_info = [];
      record_metadata = global.record_metadata;
      name_table = names;
      threads = threads;
    }

abbrev pub with_thread : GlobalDataStore → Map ThreadStore → GlobalDataStore
with_thread global [] = global
with_thread global ((_, ts) ∷ threads) = elim global.thread [
  | none ↦ global
  | some thread ↦ record global { thread = some (record thread { thread = ts }) }
]

unfoldable pub global_tree :
    (Text → Option ℕ)
    → Globals
    → List Text
    → Monitor
    → Option GlobalDataStore
    → Option (Monitor × Answer)
unfolding tree_request
global_tree lexical_cast g path m none = some (m, (text_javascript, codes "{}"))
global_tree lexical_cast g path m (some global) = do
  (store, answer) ← tree_request lexical_cast g path (as_data_store global)
  some (record m { global = some (with_thread global store.threads) }, answer)

-- The store of an id.
unfoldable pub store_tree_request :
    (Text → Option ℕ) → Globals → ℕ → List Text → Monitor → Option (Monitor × Answer)
unfolding tree_request global_tree
store_tree_request lexical_cast g id path m = elim (id == 0) [
  | true ↦ global_tree lexical_cast g path m m.global
  | false ↦ elim (find id m.stores) [
    | none ↦ some (m, (text_javascript, codes "{}"))
    | some c ↦ do
      (store, answer) ← tree_request lexical_cast g path c.store
      some (record m { stores = put id (record c { store = store }) m.stores }, answer)
  ]
]

-- A number that is none makes the find fail.
unfoldable pub tree_of_id :
    (Text → Option ℕ) → Globals → Text → List Text → Monitor → Option (Monitor × Answer)
unfolding store_tree_request
tree_of_id lexical_cast g id path m = elim (lexical_cast id) [
  | none ↦ some (m, (text_javascript, codes "{}"))
  | some n ↦ store_tree_request lexical_cast g n path m
]

unfoldable pub with_answer : Monitor → Option Answer → Option (Monitor × Option Answer)
with_answer m none = none
with_answer m (some answer) = some (m, some answer)

unfoldable pub some_answer : Option (Monitor × Answer) → Option (Monitor × Option Answer)
some_answer none = none
some_answer (some (m, answer)) = some (m, some answer)

-- The answer is none where `DataStoreRequest` returns false. `dump` is the text that DumpText writes
-- for all stores.
unfoldable pub data_store_request :
    (Text → Option ℕ)
    → (Monitor → Text)
    → Globals
    → List Text
    → StringMap
    → Monitor
    → Option (Monitor × Option Answer)
unfolding text_eq some_answer with_answer new_request list_request tree_of_id
data_store_request lexical_cast dump g [] form m = some (m, none)
data_store_request lexical_cast dump g (first ∷ path) form m =
    if text_eq first (codes "new")
    then some_answer (new_request form m)
    else if text_eq first (codes "list")
    then with_answer m (list_request m)
    else if ltb 0 (length path) && text_eq first (codes "tree")
    then elim path [
      | [] ↦ some (m, none)
      | id ∷ rest ↦ some_answer (tree_of_id lexical_cast g id rest m)
    ]
    else if text_eq first (codes "dump")
    then some (m, some (text_javascript, dump m))
    else some (m, none)
