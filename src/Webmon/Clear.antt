-- ===== src/Webmon/Clear.antt =====
-- webmon/data_store.cpp, `ThreadStore::AddTempToChildren` and `ThreadStore::ClearDirtyNode`: the
-- temporary values of the dirty nodes go into the nodes of `current_tree_` and of a time slice.
-- `none` is a failed assertion, a use of NULL or out of bounds, or fuel that was used up.
use llprof.Base.{
  ℕ, zero, suc, Bool, true, false, not, ◌&&◌, Option, none, some, List, [], ◌∷◌, map, Map, find,
  put, if◌then◌else◌, ◌==◌, add64, ◌>>=◌, ◌>>◌, assert,
}
use llprof.Webmon.Slices.{Node, accumulate_values}
use llprof.Webmon.Nodes.{RecordMetadata, Ds, RecordNode, is_attr_node, get_slice_node}
use llprof.Webmon.Current.{find_attr}

-- `current_tree_`, and the nodes of the slice `tss`.
pub record Clearing : Type 0 where
  pub tree : Map RecordNode
  pub slice : Map Node

-- The loop over the values, for one of its three destinations: the values that `p` selects grow.
unfoldable pub add_values :
    (RecordMetadata → Bool) → List RecordMetadata → List ℕ → List ℕ → Option (List ℕ)
add_values p [] dest src = some dest
add_values p (md ∷ mds) (d ∷ dest) (s ∷ src) = do
  rest ← add_values p mds dest src
  some ((if p md then add64 d s else d) ∷ rest)
add_values p (md ∷ mds) _ _ = none

abbrev pub is_added : RecordMetadata → Bool
is_added md = not md.static_value_flag

abbrev pub is_inherited : RecordMetadata → Bool
is_inherited md = not md.static_value_flag && not md.accumulated_value_flag

-- A vector that was never resized is passed over.
unfoldable pub add_values_if_any : List RecordMetadata → List ℕ → List ℕ → Option (List ℕ)
unfolding add_values
add_values_if_any mds [] src = some []
add_values_if_any mds (d ∷ dest) src = add_values is_added mds (d ∷ dest) src

-- What the call makes of the two destinations.
unfoldable pub with_children : Ds → RecordNode → Node → RecordNode → Option (RecordNode × Node)
unfolding add_values add_values_if_any
with_children ds dest tss_node src = do
  children ← add_values_if_any ds.record_metadata dest.basic.children_values src.temp_values
  tss_children ← add_values is_added ds.record_metadata tss_node.children_values src.temp_values
  temps ← add_values is_inherited ds.record_metadata dest.temp_values src.temp_values
  some (
    record dest { basic = record dest.basic { children_values = children }; temp_values = temps },
    record tss_node { children_values = tss_children },
  )

-- `AddTempToChildren`; `tss_node` has the id of `dest_node`.
unfoldable pub add_temp_to_children : Ds → ℕ → ℕ → Clearing → Option Clearing
unfolding with_children
add_temp_to_children ds dest_id src_id c = do
  dest ← find dest_id c.tree
  tss_node ← find dest_id c.slice
  src ← find src_id c.tree
  (dest', tss_node') ← with_children ds dest tss_node src
  some (record { tree = put dest_id dest' c.tree; slice = put dest_id tss_node' c.slice })

abbrev pub statics : Ds → List Bool
statics ds = map (λ md. md.static_value_flag) ds.record_metadata

abbrev pub all_zero : List ℕ → Bool
all_zero [] = true
all_zero (v ∷ vs) = v == 0 && all_zero vs

-- The last loop over the values, for one destination, unless it is a vector that was never resized.
unfoldable pub flush_if_any : List Bool → List ℕ → List ℕ → Option (List ℕ)
flush_if_any static [] temps = some []
flush_if_any static (v ∷ vs) temps = accumulate_values static (v ∷ vs) temps

-- The end of `ClearDirtyNode`, for the node and the node of the slice.
unfoldable pub flush_node : Ds → RecordNode → Node → Option (RecordNode × Node)
unfolding flush_if_any
flush_node ds node tss_node = do
  assert (all_zero tss_node.all_values)
  all ← flush_if_any (statics ds) node.basic.all_values node.temp_values
  tss_all ← accumulate_values (statics ds) tss_node.all_values node.temp_values
  some (
    record node {
      basic = record node.basic {
        all_values = all;
        call_count = add64 node.temp_call_count node.basic.call_count;
      };
      dirty = false;
    },
    record tss_node { all_values = tss_all; call_count = node.temp_call_count },
  )

unfoldable pub flush : Ds → ℕ → Clearing → Option Clearing
unfolding flush_node
flush ds id c = do
  node ← find id c.tree
  tss_node ← find id c.slice
  (node', tss_node') ← flush_node ds node tss_node
  some (record { tree = put id node' c.tree; slice = put id tss_node' c.slice })

-- The loop of an attribute node over the children of its parent.
unfoldable pub clear_attr : Ds → List ((ℕ × ℕ) × ℕ) → ℕ → ℕ → List ℕ → Clearing → Option Clearing
unfolding is_attr_node find_attr add_temp_to_children
clear_attr ds attrs id name [] c = some c
clear_attr ds attrs id name (child_id ∷ children) c = do
  child ← find child_id c.tree
  c' ← elim (is_attr_node ds child.basic) [
    | true ↦ some c
    | false ↦ elim (find_attr child.basic.id name attrs) [
      | none ↦ some c
      | some attr ↦ add_temp_to_children ds id attr c
    ]
  ]
  clear_attr ds attrs id name children c'

-- The first loop of the other nodes, with the call of `ClearDirtyNode` on a child as an argument. It
-- also returns `attr_nodes`.
unfoldable pub clear_children :
    Ds
    → (ℕ → Clearing → Option (Bool × Clearing))
    → ℕ
    → List ℕ
    → Clearing
    → Option (List ℕ × Clearing)
unfolding is_attr_node add_temp_to_children
clear_children ds clear id [] c = some ([], c)
clear_children ds clear id (child_id ∷ children) c = do
  child ← find child_id c.tree
  elim (is_attr_node ds child.basic) [
    | true ↦ do
      (attr_nodes, c') ← clear_children ds clear id children c
      some (child_id ∷ attr_nodes, c')
    | false ↦ do
      (cleared, c') ← clear child_id c
      c'' ← elim cleared [ false ↦ some c' | true ↦ add_temp_to_children ds id child_id c' ]
      clear_children ds clear id children c''
  ]

-- The loop over `attr_nodes`.
unfoldable pub clear_attr_nodes :
    Ds → (ℕ → Clearing → Option (Bool × Clearing)) → ℕ → List ℕ → Clearing → Option Clearing
unfolding add_temp_to_children
clear_attr_nodes ds clear id [] c = some c
clear_attr_nodes ds clear id (attr ∷ attr_nodes) c = do
  node ← find attr c.tree
  c' ← elim node.dirty [
    | false ↦ some c
    | true ↦ do
      added ← add_temp_to_children ds id attr c
      (_, cleared) ← clear attr added
      some cleared
  ]
  clear_attr_nodes ds clear id attr_nodes c'

-- The part of `ClearDirtyNode` before its last loop.
unfoldable pub clear_below :
    Ds
    → List ((ℕ × ℕ) × ℕ)
    → (ℕ → Clearing → Option (Bool × Clearing))
    → RecordNode
    → ℕ
    → Clearing
    → Option Clearing
unfolding is_attr_node clear_attr clear_children clear_attr_nodes
clear_below ds attrs clear node id c = elim (is_attr_node ds node.basic) [
  | true ↦ do
    pnode ← find node.basic.parent_id c.tree
    clear_attr ds attrs id node.basic.node_name pnode.children_id c
  | false ↦ do
    (attr_nodes, c') ← clear_children ds clear id node.children_id c
    clear_attr_nodes ds clear id attr_nodes c'
]

-- `ClearDirtyNode`: whether the node was dirty, and the stores that the call leaves.
unfoldable pub clear_dirty_node :
    ℕ → Ds → List ((ℕ × ℕ) × ℕ) → ℕ → Clearing → Option (Bool × Clearing)
unfolding get_slice_node clear_below flush
clear_dirty_node zero ds attrs id c = none
clear_dirty_node (suc f) ds attrs id c = elim (find id c.tree) [
  | none ↦ some (false, c)
  | some node ↦ elim node.dirty [
    | false ↦ some (false, c)
    | true ↦ do
      below ←
          clear_below ds attrs (clear_dirty_node f ds attrs) node id
            (record c { slice = get_slice_node ds id c.slice })
      c' ← flush ds id below
      some (true, c')
  ]
]
