-- ===== src/Webmon/Current.antt =====
-- webmon/data_store.cpp: `ThreadStore` and its `current_tree_`. A loop or a recursion over the
-- parents has as fuel one more than the id it starts at, which is enough when a parent's id is below
-- its child's; `none` is a use of NULL, a failed assertion, or fuel that was used up.
use llprof.Base.{
  ℕ, zero, suc, Bool, true, false, not, ◌&&◌, Option, none, some, List, [], ◌∷◌, ◌++◌, Map, find,
  put, Text, codes, decimal, if◌then◌else◌, ◌==◌, add64, ◌>>=◌,
}
use llprof.CallTree.{SerializedInfo}
use llprof.Webmon.Slices.{Slices}
use llprof.Webmon.Nodes.{
  RecordMetadata, Ds, get_name_from_id, RecordNode, new_record_node, is_attr_node,
  set_record_data_store, add_child_id, set_temp_values, clear_temp_values, update,
}

pub record ThreadStore : Type 0 where
  pub current_tree : Map RecordNode
  pub slices : Slices
  pub now_values : List ℕ
  pub running_node : ℕ
  pub thread_id : ℕ
  pub attr_node_id_alt : Map ℕ
  pub attr_node_map : List ((ℕ × ℕ) × ℕ)
  pub current_attr_node_id_index : ℕ

-- `attr_node_map_`, which is never iterated: the newest entry of a key comes first.
unfoldable pub find_attr : ℕ → ℕ → List ((ℕ × ℕ) × ℕ) → Option ℕ
find_attr cnid name [] = none
find_attr cnid name (((c, n), id) ∷ m) =
    if c == cnid && n == name then some id else find_attr cnid name m

-- The node that `current_tree_[cnid]` denotes.
abbrev pub node_or_new : ℕ → Map RecordNode → RecordNode
node_or_new cnid tree = elim (find cnid tree) [ some node ↦ node | none ↦ new_record_node ]

-- The `Set...` calls of `AddCurrentNode`.
unfoldable pub set_up_node : Ds → ℕ → ℕ → ℕ → Bool → RecordNode → RecordNode
unfolding set_record_data_store
set_up_node ds cnid parent_cnid nameid strippable node =
    let node' = set_record_data_store ds strippable node in
    record node' {
      basic = record node'.basic { id = cnid; parent_id = parent_cnid; node_name = nameid };
    }

unfoldable pub add_current_node : Ds → ℕ → ℕ → ℕ → Bool → Map RecordNode → Map RecordNode
unfolding set_up_node
add_current_node ds cnid parent_cnid nameid strippable tree =
    put cnid (set_up_node ds cnid parent_cnid nameid strippable (node_or_new cnid tree)) tree

-- The constructor. `start_time_number_` is set with the first slice.
unfoldable pub new_thread_store : Ds → ThreadStore
unfolding add_current_node update
new_thread_store ds = record {
  current_tree = update 1 (λ node. record node { gnid = 1 }) (add_current_node ds 1 0 0 false []);
  slices = record { start_time_number = 0; time_slice = [] };
  now_values = [];
  running_node = 0;
  thread_id = 0;
  attr_node_id_alt = [];
  attr_node_map = [];
  current_attr_node_id_index = 4278190080;
}

-- The text that `TouchGNID` hashes.
abbrev pub gnid_key : Ds → ℕ → RecordNode → Text
gnid_key ds parent_gnid node =
    decimal parent_gnid ++ codes "/" ++ get_name_from_id ds.name_table node.basic.node_name

unfoldable pub set_gnid : ℕ → ℕ → Map RecordNode → ℕ × Map RecordNode
unfolding update
set_gnid id result tree = (result, update id (λ n. record n { gnid = result }) tree)

unfoldable pub touch_gnid : ℕ → Ds → Map RecordNode → ℕ → Option (ℕ × Map RecordNode)
unfolding set_gnid get_name_from_id
touch_gnid zero ds tree id = none
touch_gnid (suc f) ds tree id = do
  node ← find id tree
  elim (node.gnid == 0) [
    | false ↦ some (node.gnid, tree)
    | true ↦ do
      (parent_gnid, tree') ← touch_gnid f ds tree node.basic.parent_id
      some (set_gnid id (ds.crc64 (gnid_key ds parent_gnid node)) tree')
  ]

-- The loop of `UnmarkRunningNodes` and of `MarkRunningNodes`, from a node upwards.
unfoldable pub set_running : ℕ → Bool → ℕ → Map RecordNode → Option (Map RecordNode)
set_running zero flag id tree = none
set_running (suc f) flag id tree = elim (find id tree) [
  | none ↦ some tree
  | some node ↦
      set_running f flag node.basic.parent_id
        (put id (record node { basic = record node.basic { running = flag } }) tree)
]

-- A new node, with its link from the parent and its global id.
unfoldable pub link_node : Ds → ℕ → ℕ → ℕ → ThreadStore → Option ThreadStore
unfolding add_current_node touch_gnid update add_child_id
link_node ds cnid parent_cnid nameid ts = do
  (_, tree) ←
      touch_gnid (suc cnid) ds (add_current_node ds cnid parent_cnid nameid true ts.current_tree)
        cnid
  some (record ts { current_tree = update parent_cnid (add_child_id cnid) tree })

-- `GetAttrNode`
unfoldable pub get_attr_node : Ds → ℕ → ℕ → ThreadStore → Option (ℕ × ThreadStore)
unfolding find_attr link_node
get_attr_node ds cnid attr_name ts = elim (find_attr cnid attr_name ts.attr_node_map) [
  | some id ↦ some (id, ts)
  | none ↦
      let new_id = ts.current_attr_node_id_index in
      do
        ts' ← link_node ds new_id cnid attr_name (record ts {
          current_attr_node_id_index = add64 new_id 1;
          attr_node_map = ((cnid, attr_name), new_id) ∷ ts.attr_node_map;
        })
        some (new_id, ts')
]

-- The loop of `MarkNodeDirty`: what the temporary values start from.
unfoldable pub start_temps : Bool → List RecordMetadata → List ℕ → List ℕ → Option (List ℕ)
start_temps single [] all temps = some temps
start_temps single (md ∷ mds) (a ∷ all) (t ∷ temps) = do
  rest ← start_temps single mds all temps
  some ((if md.static_value_flag && not single then a else t) ∷ rest)
start_temps true (md ∷ mds) [] temps = some temps
start_temps single (md ∷ mds) all temps = none

unfoldable pub start_dirty : Ds → RecordNode → Option RecordNode
unfolding clear_temp_values start_temps
start_dirty ds node =
    let node' = clear_temp_values (record node { dirty = true }) in
    do
      temps ←
          start_temps ds.single_tree_mode ds.record_metadata node'.basic.all_values
            node'.temp_values
      some (record node' { temp_values = temps })

-- `MarkNodeDirty`
unfoldable pub mark_node_dirty : ℕ → Ds → ℕ → ThreadStore → Option ThreadStore
unfolding start_dirty is_attr_node get_attr_node
mark_node_dirty zero ds id ts = none
mark_node_dirty (suc f) ds id ts = elim (find id ts.current_tree) [
  | none ↦ some ts
  | some node ↦ elim node.dirty [
    | true ↦ some ts
    | false ↦ do
      node' ← start_dirty ds node
      ts' ←
          mark_node_dirty f ds node.basic.parent_id
            (record ts { current_tree = put id node' ts.current_tree })
      elim (ds.leaf_node_accumulate && is_attr_node ds node.basic) [
        | false ↦ some ts'
        | true ↦ elim (find node.basic.parent_id ts'.current_tree) [
          | none ↦ some ts'
          | some pnode ↦ elim (find pnode.basic.parent_id ts'.current_tree) [
            | none ↦ some ts'
            | some p_pnode ↦ do
              (attr, ts'') ← get_attr_node ds p_pnode.basic.id node.basic.node_name ts'
              mark_node_dirty f ds attr ts''
          ]
        ]
      ]
  ]
]

unfoldable pub unmark_running_nodes : ThreadStore → Option ThreadStore
unfolding set_running
unmark_running_nodes ts = do
  tree ← set_running (suc ts.running_node) false ts.running_node ts.current_tree
  some (record ts { current_tree = tree })

unfoldable pub mark_running_nodes : Ds → ThreadStore → Option ThreadStore
unfolding set_running mark_node_dirty
mark_running_nodes ds ts = do
  ts' ← mark_node_dirty (suc ts.running_node) ds ts.running_node ts
  tree ← set_running (suc ts'.running_node) true ts'.running_node ts'.current_tree
  some (record ts' { current_tree = tree })

-- The node of a record of MSG_PROFILE_DATA, made when it is new.
unfoldable pub record_node : Ds → ℕ → ℕ → ℕ → ThreadStore → Option (ℕ × ThreadStore)
unfolding find_attr link_node is_attr_node
record_node ds cnid parent_cnid nameid ts = elim (find cnid ts.current_tree) [
  | some _ ↦ some (cnid, ts)
  | none ↦
      elim (if ds.leaf_node_accumulate
        then find_attr parent_cnid nameid ts.attr_node_map
        else none) [
          | some alt ↦ some (alt, record ts { attr_node_id_alt = put cnid alt ts.attr_node_id_alt })
          | none ↦ do
            ts' ← link_node ds cnid parent_cnid nameid ts
            node ← find cnid ts'.current_tree
            some (
              cnid,
              if ds.leaf_node_accumulate && is_attr_node ds node.basic
                  then record ts' {
                    attr_node_map = ((parent_cnid, nameid), cnid) ∷ ts'.attr_node_map;
                  }
                  else ts',
            )
        ]
]

-- The id under which a record is stored.
abbrev pub alt_id : Ds → ℕ → ThreadStore → ℕ
alt_id ds cnid ts =
    if ds.leaf_node_accumulate
    then elim (find cnid ts.attr_node_id_alt) [ some alt ↦ alt | none ↦ cnid ]
    else cnid

-- The rest of a round of the loop of `Store`, with the id under which the record is stored.
unfoldable pub store_under : Ds → SerializedInfo → ℕ → ThreadStore → Option ThreadStore
unfolding record_node mark_node_dirty set_temp_values
store_under ds s id ts = do
  (cnid, ts') ← record_node ds id s.parent_node_id s.nameid ts
  ts'' ← mark_node_dirty (suc cnid) ds cnid ts'
  node ← find cnid ts''.current_tree
  node' ← set_temp_values s.profile_value s.call_count node
  some (record ts'' { current_tree = put cnid node' ts''.current_tree })

-- One round of the loop of `Store` over the records.
unfoldable pub store_sample : Ds → SerializedInfo → ThreadStore → Option ThreadStore
unfolding store_under
store_sample ds s ts = store_under ds s (alt_id ds s.call_node_id ts) ts
