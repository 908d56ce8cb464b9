-- ===== src/Webmon/Nodes.antt =====
-- webmon/data_store.h and data_store.cpp: `RecordMetadata`, the nodes of `current_tree_`
-- (`RecordNode`) and of a time slice. A pointer to a node is its key in the map, and `none` is an
-- access through NULL or out of bounds.
use llprof.Base.{
  ℕ, ◌-◌, Bool, false, not, ◌||◌, Option, none, some, List, [], ◌∷◌, ◌++◌, Map, find, put, Text,
  codes, length, take, replicate, ltb, if◌then◌else◌, ◌==◌,
}
use llprof.Webmon.Slices.{Node, Parents}

pub record RecordMetadata : Type 0 where
  pub field_name : Text
  pub unit : Text
  pub flags : Text
  pub accumulated_value_flag : Bool
  pub static_value_flag : Bool

-- `Flags.find(c) != string::npos`
unfoldable pub assoc_flag : ℕ → Text → Bool
assoc_flag c [] = false
assoc_flag c (d ∷ flags) = d == c || assoc_flag c flags

unfoldable pub update_flag : RecordMetadata → RecordMetadata
unfolding assoc_flag
update_flag md = record md {
  accumulated_value_flag = assoc_flag b'A' md.flags;
  static_value_flag = assoc_flag b'S' md.flags;
}

-- What a thread reads of its `DataStore` and of the globals. `crc64` is boost's checksum.
pub record Ds : Type 0 where
  pub record_metadata : List RecordMetadata
  pub name_table : Map Text
  pub current_time_number : ℕ
  pub single_tree_mode : Bool
  pub leaf_node_accumulate : Bool
  pub crc64 : Text → ℕ

-- `num_records_`, which is set together with the size of `record_metadata_`.
abbrev pub get_num_profile_values : Ds → ℕ
get_num_profile_values ds = length ds.record_metadata

unfoldable pub get_name_from_id : Map Text → ℕ → Text
get_name_from_id table id = elim (find id table) [ some name ↦ name | none ↦ codes "<Unknown>" ]

-- `RecordNode`, with the fields of its base class as `basic`.
pub record RecordNode : Type 0 where
  pub basic : Node
  pub temp_values : List ℕ
  pub temp_call_count : ℕ
  pub dirty : Bool
  pub children_id : List ℕ
  pub gnid : ℕ

-- The constructor leaves the ids, the name and `temp_call_count_` open; each is set before it is
-- read.
abbrev pub new_node : Node
new_node = record {
  id = 0;
  parent_id = 0;
  node_name = 0;
  all_values = [];
  children_values = [];
  call_count = 0;
  running = false;
}

abbrev pub new_record_node : RecordNode
new_record_node = record {
  basic = new_node;
  temp_values = [];
  temp_call_count = 0;
  dirty = false;
  children_id = [];
  gnid = 0;
}

starts_with_hash : Text → Bool
starts_with_hash [] = false
starts_with_hash (c ∷ name) = c == b'#'

unfoldable pub is_attr_node : Ds → Node → Bool
unfolding starts_with_hash get_name_from_id
is_attr_node ds node = starts_with_hash (get_name_from_id ds.name_table node.node_name)

-- vec.resize(n)
abbrev pub resize : ℕ → List ℕ → List ℕ
resize n xs = take n xs ++ replicate (n - length xs) 0

unfoldable pub set_data_store : Ds → Bool → Node → Node
set_data_store ds strippable node =
    if not strippable || not ds.single_tree_mode
    then record node {
      all_values = resize (get_num_profile_values ds) node.all_values;
      children_values = resize (get_num_profile_values ds) node.children_values;
    }
    else node

-- `SetDataStore` on a `RecordNode`: the virtual `UpdateDataStore` resizes the third vector.
unfoldable pub set_record_data_store : Ds → Bool → RecordNode → RecordNode
unfolding set_data_store
set_record_data_store ds strippable node = record node {
  basic = set_data_store ds strippable node.basic;
  temp_values = resize (get_num_profile_values ds) node.temp_values;
}

-- `set::insert`, in ascending order.
unfoldable pub insert_id : ℕ → List ℕ → List ℕ
insert_id c [] = c ∷ []
insert_id c (d ∷ ids) =
    if d == c then d ∷ ids else if ltb c d then c ∷ d ∷ ids else d ∷ insert_id c ids

unfoldable pub add_child_id : ℕ → RecordNode → RecordNode
unfolding insert_id
add_child_id cid node = record node { children_id = insert_id cid node.children_id }

unfoldable pub set_temp_values : List ℕ → ℕ → RecordNode → Option RecordNode
set_temp_values value call_count node =
    if length node.temp_values == length value
    then some (record node { temp_values = value; temp_call_count = call_count })
    else none

unfoldable pub clear_temp_values : RecordNode → RecordNode
clear_temp_values node = record node {
  temp_values = replicate (length node.temp_values) 0;
  temp_call_count = 0;
}

-- A write through a pointer to a node.
unfoldable pub update : ℕ → (RecordNode → RecordNode) → Map RecordNode → Map RecordNode
update id f tree = elim (find id tree) [ none ↦ tree | some node ↦ put id (f node) tree ]

-- `TimeSliceStore::GetNodeFromID`, which adds the node when it is missing.
unfoldable pub slice_node : Ds → ℕ → Map Node → Node
unfolding set_data_store
slice_node ds id slice = elim (find id slice) [
  | some node ↦ node
  | none ↦ record (set_data_store ds false new_node) { id = id; parent_id = 0 }
]

unfoldable pub get_slice_node : Ds → ℕ → Map Node → Map Node
unfolding slice_node
get_slice_node ds id slice = elim (find id slice) [
  | some _ ↦ slice
  | none ↦ put id (slice_node ds id slice) slice
]

-- What `MergeTimeSlice` reads of `current_tree_`.
abbrev pub parents : Map RecordNode → Parents
parents [] = []
parents ((id, node) ∷ tree) = (id, (node.basic.parent_id, node.basic.node_name)) ∷ parents tree
