-- ===== src/Webmon/Totals/Marking.antt =====
-- Webmon/Current: `MarkNodeDirty`, where no attribute nodes are made and every vector has its size
-- (`gLeafNodeAccumulate` and the single tree mode are off), and the marks of the running nodes.
use llprof.Base.{
  ℕ, zero, suc, ◌<◌, ◌≡◌, refl, ap, ◌∙◌, inl, inr, true, false, not, ◌&&◌, Option, none, some, List,
  [], ◌∷◌, Map, find, put, length, replicate, length-replicate, if◌then◌else◌, Bool-cases,
  Option-cases, arith,
}
use llprof.Webmon.Quantity.{SameValues}
use llprof.Webmon.Nodes.{RecordMetadata, Ds, RecordNode, clear_temp_values}
use llprof.Webmon.Current.{
  ThreadStore, set_running, start_temps, start_dirty, mark_node_dirty, unmark_running_nodes,
  mark_running_nodes,
}
use llprof.Webmon.Totals.{Values, AllSound, Alike}
use llprof.Webmon.Totals.Growth.{Tended, Tended-refl, Tended-trans, Tended-put, set_running-Tended}

length-start_temps :
    (mds : List RecordMetadata) (all temps : List ℕ)
    → length all ≡ length mds
    → length temps ≡ length mds
    → (r : List ℕ) × (start_temps false mds all temps ≡ some r) × (length r ≡ length mds)
unfolding start_temps
length-start_temps [] all temps h k = (temps, refl, k)
length-start_temps (md ∷ mds) [] temps h k = absurd (omega (arith, h))
length-start_temps (md ∷ mds) (a ∷ all) [] h k = absurd (omega (arith, k))
length-start_temps (md ∷ mds) (a ∷ all) (t ∷ temps) h k =
    let (r, e, len) = length-start_temps mds all temps (omega (arith, h)) (omega (arith, k)) in
    ((if md.static_value_flag && not false then a else t) ∷ r, rw (e, start_temps) refl, ap suc len)

module _ (ds : Ds) (top : ℕ) (many : ds.single_tree_mode ≡ false) where
  start_dirty-total :
      (id : ℕ) (node : RecordNode)
      → Values ds id node
      → (node' : RecordNode) × (start_dirty ds node ≡ some node')
        × Alike node node'
        × Values ds id node'
        × SameValues node'.basic node.basic
  unfolding start_dirty clear_temp_values
  start_dirty-total id node ((all, cld), temps, small) =
      let (r, e, len) =
        length-start_temps ds.record_metadata node.basic.all_values
          (replicate (length node.temp_values) 0) all
          (length-replicate (length node.temp_values) 0 ∙ temps) in
      (
        record (clear_temp_values (record node { dirty = true })) { temp_values = r },
        rw (many, e) refl,
        (refl, refl, refl, refl),
        ((all, cld), len, small),
        (refl, refl, refl),
      )

  module _ (no_attr : ds.leaf_node_accumulate ≡ false) where
    mark_end :
        (f id : ℕ) (ts : ThreadStore)
        → find id ts.current_tree ≡ none
        → mark_node_dirty (suc f) ds id ts ≡ some ts
    unfolding mark_node_dirty
    mark_end f id ts at = rw (at, mark_node_dirty) refl

    mark_dirty :
        (f id : ℕ) (ts : ThreadStore) (node : RecordNode)
        → find id ts.current_tree ≡ some node
        → node.dirty ≡ true
        → mark_node_dirty (suc f) ds id ts ≡ some ts
    unfolding mark_node_dirty
    mark_dirty f id ts node at dirty = rw (at, dirty, mark_node_dirty) refl

    mark_step :
        (f id : ℕ) (ts ts' : ThreadStore) (node node' : RecordNode)
        → find id ts.current_tree ≡ some node
        → node.dirty ≡ false
        → start_dirty ds node ≡ some node'
        → mark_node_dirty f ds node.basic.parent_id
            (record ts { current_tree = put id node' ts.current_tree })
          ≡ some ts'
        → mark_node_dirty (suc f) ds id ts ≡ some ts'
    unfolding mark_node_dirty
    mark_step f id ts ts' node node' at clean start parent =
        rw (at, clean, start, parent, no_attr, mark_node_dirty) refl

    -- Only the tree of the thread changes.
    abbrev pub OnTree : ThreadStore → Option ThreadStore → Type 0
    OnTree ts r =
        (tree : Map RecordNode) × (r ≡ some (record ts { current_tree = tree }))
        × Tended ds top ts.current_tree tree

    -- `MarkNodeDirty` reaches the root or a node that is dirty, with fuel above the id.
    pub mark_node_dirty-Tended :
        (f id : ℕ) (ts : ThreadStore)
        → id < f
        → AllSound ds top ts.current_tree
        → OnTree ts (mark_node_dirty f ds id ts)
    unfolding mark_node_dirty
    mark_node_dirty-Tended zero id ts lt sound = absurd (omega (arith, lt))
    mark_node_dirty-Tended (suc f) id ts lt sound = elim (Option-cases (find id ts.current_tree)) [
      | inl at ↦ (ts.current_tree, mark_end f id ts at, Tended-refl ds top ts.current_tree sound)
      | inr (node, at) ↦ elim (Bool-cases node.dirty) [
        | inl dirty ↦ (
          ts.current_tree,
          mark_dirty f id ts node at dirty,
          Tended-refl ds top ts.current_tree sound,
        )
        | inr clean ↦
            let s = sound id node at in
            let (node', start, alike, values, total) = start_dirty-total id node s.values in
            let one = Tended-put ds top ts.current_tree id node node' sound at alike values total in
            let (tree, done, rest) =
              mark_node_dirty-Tended f node.basic.parent_id
                (record ts { current_tree = put id node' ts.current_tree })
                (omega (arith, lt, s.above)) one.0 in
            (
              tree,
              mark_step f id ts (record ts { current_tree = tree }) node node' at clean start done,
              Tended-trans ds top ts.current_tree (put id node' ts.current_tree) tree one rest,
            )
      ]
    ]

    unmark_step :
        (ts : ThreadStore) (tree : Map RecordNode)
        → set_running (suc ts.running_node) false ts.running_node ts.current_tree ≡ some tree
        → unmark_running_nodes ts ≡ some (record ts { current_tree = tree })
    unfolding unmark_running_nodes
    unmark_step ts tree e = rw e refl

    mark_running_step :
        (ts : ThreadStore) (tree tree' : Map RecordNode)
        → mark_node_dirty (suc ts.running_node) ds ts.running_node ts
          ≡ some (record ts { current_tree = tree })
        → set_running (suc ts.running_node) true ts.running_node tree ≡ some tree'
        → mark_running_nodes ds ts ≡ some (record ts { current_tree = tree' })
    unfolding mark_running_nodes
    mark_running_step ts tree tree' e e' = rw (e, e') refl

    pub unmark_running_nodes-Tended :
        (ts : ThreadStore) → AllSound ds top ts.current_tree → OnTree ts (unmark_running_nodes ts)
    unmark_running_nodes-Tended ts sound =
        let (tree, done, tended) =
          set_running-Tended ds top (suc ts.running_node) ts.running_node false ts.current_tree
            (omega arith) sound in
        (tree, unmark_step ts tree done, tended)

    pub mark_running_nodes-Tended :
        (ts : ThreadStore) → AllSound ds top ts.current_tree → OnTree ts (mark_running_nodes ds ts)
    mark_running_nodes-Tended ts sound =
        let (tree, done, one) =
          mark_node_dirty-Tended (suc ts.running_node) ts.running_node ts (omega arith) sound in
        let (tree', done', two) =
          set_running-Tended ds top (suc ts.running_node) ts.running_node true tree (omega arith)
            one.0 in
        (
          tree',
          mark_running_step ts tree tree' done done',
          Tended-trans ds top ts.current_tree tree tree' one two,
        )
