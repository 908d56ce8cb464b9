-- ===== src/Webmon/Totals.antt =====
-- Webmon/Current and Webmon/Clear: the shape of `current_tree_`, and how its totals stand to those
-- of a time slice.
pub mod Vectors
pub mod Moves
pub mod Children
pub mod Descent
pub mod Growth
pub mod Marking
pub mod Adding
pub mod Storing
use llprof.Base.{
  ℕ, ◌<◌, ◌^◌, ◌≡◌, ◌≢◌, refl, sym, ap, ◌∙◌, ◌⊎◌, inl, inr, Bool, true, false, Option, none, some,
  List, [], ◌∷◌, Map, find, put, find-put, Sorted, length, if◌then◌else◌, ◌==◌, Bool-cases, add64,
  arith,
}
use llprof.Webmon.Slices.{Node}
use llprof.Webmon.Merge.{Sized, AllSized, count}
use llprof.Webmon.Quantity.{Quantity, amount, IsAdded}
use llprof.Webmon.Nodes.{Ds, RecordNode, get_num_profile_values}
use llprof.Webmon.Clear.{Clearing, all_zero, statics}

-- A key of the tree.
abbrev pub Has : ℕ → Map RecordNode → Type 0
Has id tree = (node : RecordNode) × (find id tree ≡ some node)

-- Children that are in the tree, with greater ids.
abbrev pub AllHave : ℕ → List ℕ → Map RecordNode → Type 0
AllHave id [] tree = Unit {0}
AllHave id (c ∷ children) tree = (id < c) × Has c tree × AllHave id children tree

abbrev pub Values : Ds → ℕ → RecordNode → Type 0
Values ds id node =
    Sized (get_num_profile_values ds) node.basic
    × (length node.temp_values ≡ get_num_profile_values ds)
    × (node.basic.call_count < 2 ^ 64)

-- The root has a global id and the name id 0 instead of a parent.
abbrev pub HasParent : Map RecordNode → RecordNode → Type 0
HasParent tree node = Has node.basic.parent_id tree ⊎ ((node.gnid ≢ 0) × (node.basic.node_name ≡ 0))

-- A node with a value for each column, whose parent has a smaller id and whose children have greater
-- ones. `top` is above all ids.
pub record IsSound (ds : Ds) (top : ℕ) (tree : Map RecordNode) (id : ℕ) (node : RecordNode)
    : Type 0 where
  pub values : Values ds id node
  pub children : AllHave id node.children_id tree
  pub above : node.basic.parent_id < id
  pub below : id < top
  pub parent : HasParent tree node

abbrev pub AllSound : Ds → ℕ → Map RecordNode → Type 0
AllSound ds top tree =
    (id : ℕ) (node : RecordNode) → find id tree ≡ some node → IsSound ds top tree id node

-- What a node of `current_tree_` has of a quantity.
abbrev pub held : Quantity → ℕ → Map RecordNode → ℕ
held q id tree = elim (find id tree) [ none ↦ 0 | some node ↦ amount q node.basic ]

abbrev pub is_dirty : ℕ → Map RecordNode → Bool
is_dirty id tree = elim (find id tree) [ none ↦ false | some node ↦ node.dirty ]

-- The totals are those of `base` and the slice together, and the slice has nothing yet of a node
-- that is dirty. The nodes of the slice are nodes of the tree.
pub record IsBalanced (ds : Ds) (top : ℕ) (base : Quantity → ℕ → ℕ) (c : Clearing) : Type 0 where
  pub sound : AllSound ds top c.tree
  pub sized : AllSized (get_num_profile_values ds) c.slice
  pub fresh :
      (id : ℕ) (tss : Node)
      → find id c.slice ≡ some tss
      → is_dirty id c.tree ≡ true
      → (tss.call_count ≡ 0) × (all_zero tss.all_values ≡ true)
  pub known : (id : ℕ) (tss : Node) → find id c.slice ≡ some tss → Has id c.tree
  pub sorted : Sorted c.slice
  pub total :
      (q : Quantity)
      → IsAdded (statics ds) q
      → (id : ℕ) → held q id c.tree ≡ add64 (base q id) (count q id c.slice)

pub Has-put :
    (id j : ℕ) (node : RecordNode) (tree : Map RecordNode) → Has j tree → Has j (put id node tree)
Has-put id j node tree (old, e) = elim (Bool-cases (id == j)) [
  | inl same ↦ (node, find-put id j node tree ∙ ap (λ b. if b then some node else find j tree) same)
  | inr other ↦
      (old, find-put id j node tree ∙ ap (λ b. if b then some node else find j tree) other ∙ e)
]

pub AllHave-map :
    (tree tree' : Map RecordNode)
    → ((j : ℕ) → Has j tree → Has j tree')
    → (id : ℕ) (children : List ℕ) → AllHave id children tree
    → AllHave id children tree'
AllHave-map tree tree' keep id [] h = tt
AllHave-map tree tree' keep id (c ∷ children) (lt, has, h) =
    (lt, keep c has, AllHave-map tree tree' keep id children h)

pub IsSound-map :
    (ds : Ds) (top : ℕ) (tree tree' : Map RecordNode)
    → ((j : ℕ) → Has j tree → Has j tree')
    → (id : ℕ) (node : RecordNode) → IsSound ds top tree id node
    → IsSound ds top tree' id node
IsSound-map ds top tree tree' keep id node s = record {
  values = s.values;
  children = AllHave-map tree tree' keep id node.children_id s.children;
  above = s.above;
  below = s.below;
  parent = elim s.parent [ inl has ↦ inl (keep _ has) | inr root ↦ inr root ];
}

-- A sound node takes the place of another, or is new.
pub AllSound-put :
    (ds : Ds) (top : ℕ) (tree : Map RecordNode) (id : ℕ) (node : RecordNode)
    → AllSound ds top tree
    → IsSound ds top tree id node
    → AllSound ds top (put id node tree)
AllSound-put ds top tree id node all s j this e =
    IsSound-map ds top tree (put id node tree) (λ k. Has-put id k node tree) j this
      (elim (Bool-cases (id == j)) [
        | inl same ↦ ground (arith, find-put id j node tree, e, same, s)
        | inr other ↦ all j this (ground (arith, find-put id j node tree, e, other))
      ])

-- The links of a node are those of another.
abbrev pub Alike : RecordNode → RecordNode → Type 0
Alike old node =
    (node.children_id ≡ old.children_id)
    × (node.basic.parent_id ≡ old.basic.parent_id)
    × (node.gnid ≡ old.gnid)
    × (node.basic.node_name ≡ old.basic.node_name)

pub IsSound-Alike :
    (ds : Ds) (top : ℕ) (tree : Map RecordNode) (id : ℕ) (old node : RecordNode)
    → IsSound ds top tree id old
    → Alike old node
    → Values ds id node
    → IsSound ds top tree id node
IsSound-Alike ds top tree id old node s (children, parent, gnid, name) values = record {
  values = values;
  children = rw children s.children;
  above = rw parent s.above;
  below = s.below;
  parent = rw (name, gnid, parent) s.parent;
}
