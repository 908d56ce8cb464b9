-- ===== src/Webmon/Dump.antt =====
-- webmon/data_store.cpp: the JSON of the nodes, the threads and the store. Times are not negative.
-- `none` is a failed assertion, an access out of bounds or through NULL, or a time below 0 that a
-- thread without slices would keep.
mod Members
mod Spelling
pub mod Current
mod Examples
use llprof.Base.{
  ℕ, zero, suc, ◌+◌, ◌-◌, ◌*◌, ◌%◌, ◌^◌, Bool, true, false, ◌&&◌, Option, none, some, List, [], ◌∷◌,
  ◌++◌, Map, Text, codes, decimal, length, get_elem?, ltb, leb, if◌then◌else◌, ◌==◌, ◌>>=◌,
}
use llprof.Http.Json.{JsonWriter, new_writer, dict_add, close, write_string, write_list}
use llprof.Webmon.Slices.{Node, TimeSlice, Slices, get_time_slice, Merged, merge_time_slice}
use llprof.Webmon.Nodes.{RecordMetadata, Ds, RecordNode, get_name_from_id, parents}
use llprof.Webmon.Current.{ThreadStore}
use llprof.Webmon.Clear.{statics}
use llprof.Webmon.DataStore.{Globals, DataStore, ds_of}

-- A `ProfileValue` is a signed 64-bit word.
unfoldable pub write_value : ℕ → Text
write_value v = if ltb v (2 ^ 63) then decimal v else b'-' ∷ decimal (2 ^ 64 - v)

-- The texts that are written for the elements of a list.
abbrev pub texts {ℓ} : {A : Type ℓ} → (A → Text) → List A → List Text
texts f [] = []
texts f (x ∷ xs) = f x ∷ texts f xs

-- On a stream of its own, as each caller has it.
unfoldable pub profile_values_to_stream : List ℕ → Option Text
unfolding write_list write_value
profile_values_to_stream vec = do w ← write_list (texts write_value vec) []; some w.strm

-- `isprint` in the C locale.
abbrev pub is_print : ℕ → Bool
is_print c = leb b' ' c && leb c b'~'

unfoldable pub printable : Text → Text
printable [] = []
printable (c ∷ name) = (if is_print c then c else b'X') ∷ printable name

-- `out.add`, for members one after the other.
unfoldable pub add_members : List (Text × Text) → JsonWriter → Option JsonWriter
unfolding dict_add
add_members [] w = some w
add_members ((name, value) ∷ members) w = do w' ← dict_add name value w; add_members members w'

-- A `JsonDict` on a stream of its own, from its constructor to its `strm` or its destructor.
unfoldable pub write_dict : List (Text × Text) → Option Text
unfolding add_members close
write_dict members = do
  w ← add_members members (new_writer [])
  w' ← close (codes "{") (codes "}") w
  some w'.strm

-- `write_json` of a node. The casts cut the ids to 32 bits.
unfoldable pub write_node : Map Text → Node → Option Text
unfolding profile_values_to_stream printable write_dict write_string get_name_from_id
write_node names node = do
  all ← profile_values_to_stream node.all_values
  cld ← profile_values_to_stream node.children_values
  write_dict (
      (codes "id", decimal (node.id % 2 ^ 32))
      ∷ (codes "pid", decimal (node.parent_id % 2 ^ 32))
      ∷ (codes "name", write_string (printable (get_name_from_id names node.node_name)))
      ∷ (codes "all", all)
      ∷ (codes "cld", cld)
      ∷ (codes "cc", decimal node.call_count)
      ∷ [])

-- The loops over `current_tree_` and over `integrated`.
unfoldable pub node_texts : Map Text → List Node → Option (List Text)
unfolding write_node
node_texts names [] = some []
node_texts names (node ∷ nodes) = do
  text ← write_node names node
  rest ← node_texts names nodes
  some (text ∷ rest)

unfoldable pub write_nodes : Map Text → List Node → Option Text
unfolding node_texts write_list
write_nodes names nodes = do list ← node_texts names nodes; w ← write_list list []; some w.strm

abbrev pub elements : Map Node → List Node
elements [] = []
elements ((id, node) ∷ nodes) = node ∷ elements nodes

abbrev pub current_nodes : Map RecordNode → List Node
current_nodes [] = []
current_nodes ((id, node) ∷ tree) = node.basic ∷ current_nodes tree

-- The loop of `GetStartProfileValue` from the time `t`, over `n` times: the position of the slice.
unfoldable pub find_slice : ℕ → ℕ → Slices → Slices × Option ℕ
unfolding get_time_slice
find_slice t zero s = (s, none)
find_slice t (suc n) s =
    let (s', found) = get_time_slice t s in
    let later = find_slice (t + 1) n s' in elim found [ none ↦ later | some i ↦ (s', some i) ]

-- `GetStartProfileValue`. A thread that has slices has none before the time 0.
unfoldable pub get_start_profile_value : ℕ → ℕ → Slices → Option (Slices × Option ℕ)
unfolding find_slice
get_start_profile_value zero to s = elim s.time_slice [
  | [] ↦ none
  | _ ∷ _ ↦ some (find_slice 0 (to + 1) s)
]
get_start_profile_value (suc from) to s = some (find_slice from (to + 1 - from) s)

-- `start_values`, when there is a slice.
unfoldable pub start_member : List TimeSlice → Option ℕ → Option (List (Text × Text))
unfolding profile_values_to_stream
start_member time_slice none = some []
start_member time_slice (some i) = do
  tss ← get_elem? time_slice i
  text ← profile_values_to_stream tss.now_values
  some ((codes "start_values", text) ∷ [])

-- What is added when `last_tss` is not NULL.
unfoldable pub last_members : List TimeSlice → Option ℕ → Option ℕ → Option (List (Text × Text))
unfolding profile_values_to_stream start_member
last_members time_slice start none = some []
last_members time_slice start (some i) = do
  tss ← get_elem? time_slice i
  text ← profile_values_to_stream tss.now_values
  member ← start_member time_slice start
  some (
      (codes "now_values", text)
      ∷ (member ++ (codes "running_node", decimal (tss.running_node % 2 ^ 32)) ∷ []))

-- The members of a thread for DF_CURRENT_TREE.
unfoldable pub current_members : Map Text → ThreadStore → Option (List (Text × Text))
unfolding write_nodes profile_values_to_stream
current_members names ts = do
  nodes ← write_nodes names (current_nodes ts.current_tree)
  now_values ← profile_values_to_stream ts.now_values
  some (
      (codes "nodes", nodes)
      ∷ (codes "now_values", now_values)
      ∷ (codes "running_node", decimal (ts.running_node % 2 ^ 32))
      ∷ [])

-- The slices after `GetStartProfileValue`, and what is written with its result.
unfoldable pub merged_members :
    Map Text → ThreadStore → Merged → Slices × Option ℕ → Option (ThreadStore × List (Text × Text))
unfolding write_nodes last_members
merged_members names ts merged (slices, start) = do
  nodes ← write_nodes names (elements merged.integrated)
  last ← last_members slices.time_slice start merged.last_tss
  some (record ts { slices = slices }, (codes "nodes", nodes) ∷ last)

-- The members of a thread for DF_DIFF_TREE; the time 0 for `p2` is the present one.
unfoldable pub diff_members : Ds → ℕ → ℕ → ThreadStore → Option (ThreadStore × List (Text × Text))
unfolding merge_time_slice get_start_profile_value merged_members
diff_members ds p1 p2 ts = do
  let to = if p2 == 0 then ds.current_time_number else p2
  merged ←
      merge_time_slice (statics ds) (parents ts.current_tree) p1 (to + 1 - p1)
        (record { slices = ts.slices; integrated = []; last_tss = none })
  start ← get_start_profile_value p1 to merged.slices
  merged_members ds.name_table ts merged start

-- `DF_CURRENT_TREE` is the lowest bit of `flag`, and `DF_DIFF_TREE` the next one.
unfoldable pub thread_members :
    Ds → ℕ → ℕ → ℕ → ThreadStore → Option (ThreadStore × List (Text × Text))
unfolding current_members diff_members
thread_members ds flag p1 p2 ts = elim (flag % 2 == 1) [
  | true ↦ do members ← current_members ds.name_table ts; some (ts, members)
  | false ↦ elim (leb 2 (flag % 4)) [ true ↦ diff_members ds p1 p2 ts | false ↦ some (ts, []) ]
]

-- `ThreadStore::DumpJSON`: the thread that is left, and the text.
unfoldable pub dump_thread : Ds → ℕ → ℕ → ℕ → ThreadStore → Option (ThreadStore × Text)
unfolding thread_members write_dict
dump_thread ds flag p1 p2 ts = do
  (ts', members) ← thread_members ds flag p1 p2 ts
  text ← write_dict ((codes "id", decimal ts.thread_id) ∷ members)
  some (ts', text)

-- The loop over the threads.
unfoldable pub dump_threads :
    Ds → ℕ → ℕ → ℕ → Map ThreadStore → Option (Map ThreadStore × List Text)
unfolding dump_thread
dump_threads ds flag p1 p2 [] = some ([], [])
dump_threads ds flag p1 p2 ((id, ts) ∷ threads) = do
  (ts', text) ← dump_thread ds flag p1 p2 ts
  (threads', rest) ← dump_threads ds flag p1 p2 threads
  some ((id, ts') ∷ threads', text ∷ rest)

-- The loop over the metadata, from the index `i`.
unfoldable pub metadata_members : ℕ → List RecordMetadata → Option (List (Text × Text))
unfolding write_dict write_string
metadata_members i [] = some []
metadata_members i (md ∷ mds) = do
  dmd ← write_dict (
      (codes "field_name", write_string md.field_name)
      ∷ (codes "unit", write_string md.unit)
      ∷ (codes "flags", write_string md.flags)
      ∷ [])
  rest ← metadata_members (i + 1) mds
  some ((decimal i, dmd) ∷ rest)

-- `DataStore::DumpJSON`
unfoldable pub dump_json : Globals → ℕ → ℕ → ℕ → DataStore → Option (DataStore × Text)
unfolding dump_threads metadata_members write_dict write_list
dump_json g flag p1 p2 store = do
  (threads, list) ← dump_threads (ds_of g store) flag p1 p2 store.threads
  w ← write_list list []
  members ← metadata_members 0 store.record_metadata
  metadata ← write_dict members
  text ← write_dict (
      (codes "timenum", decimal store.current_time_number)
      ∷ (codes "threads", w.strm)
      ∷ (codes "numrecords", decimal (length store.record_metadata))
      ∷ (codes "metadata", metadata)
      ∷ [])
  some (record store { threads = threads }, text)
