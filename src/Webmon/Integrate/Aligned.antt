-- ===== src/Webmon/Integrate/Aligned.antt =====
-- Webmon/Integrate: the global tree beside the global slice, and a node that the tree gets.
use llprof.Base.{
  ℕ, ◌≡◌, refl, ap, ◌∙◌, inl, inr, false, none, some, Map, find, put, find-put, Text, ==_refl,
  Option-cases, add64, arith,
}
use llprof.Webmon.Slices.{Node}
use llprof.Webmon.Quantity.{Quantity, amount, IsAdded}
use llprof.Webmon.Merge.{Sized, AllSized, count, sum_amount, no_amount}
use llprof.Webmon.Sequence.{Sequence}
use llprof.Webmon.Integrate.Numbers.{Extends, Extends-refl, seq_of-number}
use llprof.Webmon.Nodes.{
  Ds, RecordNode, new_record_node, get_num_profile_values, set_data_store, set_record_data_store,
  update,
}
use llprof.Webmon.Current.{node_or_new, set_up_node, add_current_node}
use llprof.Webmon.Clear.{statics, is_added}
use llprof.Webmon.Totals.{Has, held}
use llprof.Webmon.Totals.Vectors.{length-add_values, Summed-Sums}
use llprof.Webmon.Totals.Moves.{held-put, length-resize_new, zero_at-resize_new}
use llprof.Webmon.Totals.Growth.{update-some}
use llprof.Webmon.Integrate.{Integrating, add_node, new_dest, touch_dest, parent_seq}

module _ (ds : Ds) (base : Quantity → ℕ → ℕ) where
  abbrev pub TreeSized : Map RecordNode → Type 0
  TreeSized tree =
      (id : ℕ) (node : RecordNode)
      → find id tree ≡ some node
      → Sized (get_num_profile_values ds) node.basic

  -- The totals of the global tree are those of `base` and the global slice together.
  pub record IsAligned (st : Integrating) : Type 0 where
    pub tree_sized : TreeSized st.tree
    pub slice_sized : AllSized (get_num_profile_values ds) st.slice
    pub total :
        (q : Quantity)
        → IsAdded (statics ds) q
        → (id : ℕ) → held q id st.tree ≡ add64 (base q id) (count q id st.slice)

  pub TreeSized-put :
      (id : ℕ) (node : RecordNode) (tree : Map RecordNode)
      → Sized (get_num_profile_values ds) node.basic
      → TreeSized tree
      → TreeSized (put id node tree)
  TreeSized-put id node tree this sized j other e =
      ground (arith, find-put id j node tree, this, sized j other, e)

  pub add_node-total :
      (dest src : Node)
      → Sized (get_num_profile_values ds) dest
      → Sized (get_num_profile_values ds) src
      → (r : Node) × (add_node ds dest src ≡ some r)
        × Sized (get_num_profile_values ds) r
        × ((q : Quantity)
            → IsAdded (statics ds) q
            → amount q r ≡ add64 (amount q dest) (amount q src))
  unfolding add_node
  add_node-total dest src (a, b) (c, d) =
      let mds = ds.record_metadata in
      let (all, e, len, sums) = length-add_values is_added mds dest.all_values src.all_values a c in
      let (children, e', len', sums') =
        length-add_values is_added mds dest.children_values src.children_values b d in
      (
        record dest {
          all_values = all;
          children_values = children;
          call_count = add64 dest.call_count src.call_count;
        },
        rw (e, e') refl,
        (len, len'),
        λ q added.
            sum_amount q (statics ds) dest src all children added
              (Summed-Sums ds dest.all_values src.all_values all sums)
              (Summed-Sums ds dest.children_values src.children_values children sums'),
      )

  -- The node that `AddCurrentNode` makes for the global tree.
  fresh : ℕ → ℕ → RecordNode
  unfolding set_up_node set_record_data_store set_data_store
  fresh dest_id parent_id = set_up_node ds dest_id parent_id dest_id false new_record_node

  fresh-Sized :
      (dest_id parent_id : ℕ) → Sized (get_num_profile_values ds) (fresh dest_id parent_id).basic
  unfolding fresh
  fresh-Sized dest_id parent_id =
      let width = length-resize_new (get_num_profile_values ds) in (width, width)

  fresh_amount :
      (q : Quantity) (dest_id parent_id : ℕ) → amount q (fresh dest_id parent_id).basic ≡ 0
  unfolding fresh
  fresh_amount q dest_id parent_id =
      let n = get_num_profile_values ds in
      no_amount q (fresh dest_id parent_id).basic refl (zero_at-resize_new n) (zero_at-resize_new n)

  new_tree :
      (dest_id parent_id gnid : ℕ) (tree : Map RecordNode)
      → find dest_id tree ≡ none
      → update dest_id
          (λ node. record node { gnid = gnid })
          (add_current_node ds dest_id parent_id dest_id false tree)
        ≡ put dest_id
            (record (fresh dest_id parent_id) { gnid = gnid })
            (put dest_id (fresh dest_id parent_id) tree)
  unfolding add_current_node fresh
  new_tree dest_id parent_id gnid tree e =
      let node = fresh dest_id parent_id in
      let none_there : node_or_new dest_id tree ≡ new_record_node = rw (e, node_or_new) refl in
      ap
        (λ old.
          update dest_id (λ n. record n { gnid = gnid })
            (put dest_id (set_up_node ds dest_id parent_id dest_id false old) tree))
        none_there
      ∙ update-some ds 0 dest_id (λ n. record n { gnid = gnid }) (put dest_id node tree) node
          (find-put dest_id dest_id node tree ∙ ground (arith, ==_refl dest_id))

  -- Adding a node without an amount.
  new_dest-IsAligned :
      (name : Text) (src_current : RecordNode) (dest_id : ℕ) (st : Integrating) (r : ℕ × Sequence)
      → IsAligned st
      → find dest_id st.tree ≡ none
      → IsAligned (new_dest ds name src_current dest_id st r)
        × Has dest_id (new_dest ds name src_current dest_id st r).tree
  unfolding new_dest
  new_dest-IsAligned name src_current dest_id st (parent_id, sequence) al e =
      let node = fresh dest_id parent_id in
      let node' : RecordNode = record node { gnid = src_current.gnid } in
      let one = put dest_id node st.tree in
      rw (new_tree dest_id parent_id src_current.gnid st.tree e) (
        record {
          tree_sized =
              TreeSized-put dest_id node' one (fresh-Sized dest_id parent_id)
                (TreeSized-put dest_id node st.tree (fresh-Sized dest_id parent_id) al.tree_sized);
          slice_sized = al.slice_sized;
          total = λ q added j. ground (
            arith,
            held-put q dest_id j node' one,
            held-put q dest_id j node st.tree,
            fresh_amount q dest_id parent_id,
            al.total q added j,
            e,
          );
        },
        (node', find-put dest_id dest_id node' one ∙ ground (arith, ==_refl dest_id)),
      )

  touch_dest-old :
      (src_names : Map Text) (src_tree : Map RecordNode) (src_current node : RecordNode)
      (dest_id : ℕ) (st : Integrating)
      → find dest_id st.tree ≡ some node
      → touch_dest ds src_names src_tree src_current dest_id st ≡ st
  unfolding touch_dest
  touch_dest-old src_names src_tree src_current node dest_id st e = rw (e, touch_dest) refl

  pub touch_dest_lem :
      (src_names : Map Text) (src_tree : Map RecordNode) (src_current : RecordNode) (dest_id : ℕ)
      (st : Integrating)
      → let st' = touch_dest ds src_names src_tree src_current dest_id st in
        (st'.slice ≡ st.slice) × Extends st.sequence st'.sequence
  unfolding touch_dest new_dest parent_seq
  touch_dest_lem src_names src_tree src_current dest_id st =
      elim (Option-cases (find dest_id st.tree)) [
        | inr (node, e) ↦ rw (e, touch_dest) (refl, Extends-refl st.sequence)
        | inl e ↦ elim (Option-cases (find src_current.basic.parent_id src_tree)) [
          | inl f ↦ rw (e, touch_dest, f, parent_seq) (refl, Extends-refl st.sequence)
          | inr (parent, f) ↦
              rw (e, touch_dest, f, parent_seq) (refl, (seq_of-number parent.gnid st.sequence).1)
        ]
      ]

  pub touch_dest-IsAligned :
      (src_names : Map Text) (src_tree : Map RecordNode) (src_current : RecordNode) (dest_id : ℕ)
      (st : Integrating)
      → IsAligned st
      → IsAligned (touch_dest ds src_names src_tree src_current dest_id st)
        × Has dest_id (touch_dest ds src_names src_tree src_current dest_id st).tree
  unfolding touch_dest
  touch_dest-IsAligned src_names src_tree src_current dest_id st al =
      elim (Option-cases (find dest_id st.tree)) [
        | inr (node, e) ↦
            rw (touch_dest-old src_names src_tree src_current node dest_id st e) (al, (node, e))
        | inl e ↦
            rw (e, touch_dest)
              (new_dest-IsAligned _ src_current dest_id st
                (parent_seq src_tree src_current st.sequence) al e)
      ]
