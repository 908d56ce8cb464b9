-- ===== src/Webmon/Totals/Storing.antt =====
-- Webmon/Current: the loop of `Store` over the records. Attribute nodes and the single tree mode are
-- off.
use llprof.Base.{
  ℕ, suc, ◌<◌, ◌≡◌, refl, sym, ap, ◌∙◌, ◌⊎◌, inl, inr, true, false, Option, none, some, List, Map,
  find, put, find-put, length, if◌then◌else◌, ==_refl, Option-cases, bind_some, arith,
}
use llprof.CallTree.{SerializedInfo}
use llprof.Webmon.Nodes.{
  Ds, RecordNode, get_num_profile_values, add_child_id, update, set_temp_values,
}
use llprof.Webmon.Current.{
  ThreadStore, add_current_node, touch_gnid, link_node, record_node, alt_id, mark_node_dirty,
  store_under, store_sample,
}
use llprof.Webmon.Totals.{Has, AllSound}
use llprof.Webmon.Totals.Growth.{
  Kept-Has, Tended, Tended-refl, Tended-trans, Tended-put, touch_gnid-Tended, update-some,
}
use llprof.Webmon.Totals.Marking.{mark_node_dirty-Tended}
use llprof.Webmon.Totals.Adding.{added, add_current_node-new, added-Tended, add_child_id-Tended}

module _ (ds : Ds) (top : ℕ) (many : ds.single_tree_mode ≡ false)
    (no_attr : ds.leaf_node_accumulate ≡ false) where
  -- The tree that an operation leaves has a node for the id, which the operation returns.
  abbrev Placed : ℕ → ThreadStore → Option (ℕ × ThreadStore) → Type 0
  Placed cnid ts r =
      (tree : Map RecordNode) × (r ≡ some (cnid, record ts { current_tree = tree }))
      × Tended ds top ts.current_tree tree
      × Has cnid tree

  link_step :
      (cnid parent_cnid nameid g : ℕ) (ts : ThreadStore) (tree : Map RecordNode)
      → touch_gnid
          (suc cnid)
          ds
          (add_current_node ds cnid parent_cnid nameid true ts.current_tree)
          cnid
        ≡ some (g, tree)
      → link_node ds cnid parent_cnid nameid ts
        ≡ some (record ts { current_tree = update parent_cnid (add_child_id cnid) tree })
  unfolding link_node
  link_step cnid parent_cnid nameid g ts tree e = rw e refl

  link_node-Tended :
      (cnid parent_cnid nameid : ℕ) (ts : ThreadStore)
      → AllSound ds top ts.current_tree
      → find cnid ts.current_tree ≡ none
      → cnid < top
      → parent_cnid < cnid
      → Has parent_cnid ts.current_tree
      → (tree : Map RecordNode) × (link_node ds cnid parent_cnid nameid ts
          ≡ some (record ts { current_tree = tree }))
        × Tended ds top ts.current_tree tree
        × Has cnid tree
  link_node-Tended cnid parent_cnid nameid ts sound new below above has =
      let node = added ds top many cnid parent_cnid nameid in
      let tree1 = put cnid node ts.current_tree in
      let one =
        added-Tended ds top many cnid parent_cnid nameid ts.current_tree sound new below above
          has in
      let here : Has cnid tree1 = (
        node,
        find-put cnid cnid node ts.current_tree
            ∙ ap (λ b. if b then some node else find cnid ts.current_tree) (==_refl cnid),
      ) in
      let (g, tree2, touched, two) =
        touch_gnid-Tended ds top (suc cnid) cnid tree1 (omega arith) one.0 here in
      let (parent, at) =
        Kept-Has tree1 tree2 two.1 parent_cnid
          (Kept-Has ts.current_tree tree1 one.1 parent_cnid has) in
      let tree3 = put parent_cnid (add_child_id cnid parent) tree2 in
      let here2 = Kept-Has tree1 tree2 two.1 cnid here in
      let three =
        add_child_id-Tended ds top many parent_cnid cnid tree2 parent two.0 at above here2 in
      (
        tree3,
        link_step cnid parent_cnid nameid g ts tree2 (
              rw (add_current_node-new ds top many cnid parent_cnid nameid ts.current_tree new)
                touched)
            ∙ ap (λ t. some (record ts { current_tree = t }))
                (update-some ds top parent_cnid (add_child_id cnid) tree2 parent at),
        Tended-trans ds top ts.current_tree tree1 tree3 one
            (Tended-trans ds top tree1 tree2 tree3 two three),
        Kept-Has tree2 tree3 three.1 cnid here2,
      )

  old_record :
      (cnid parent_cnid nameid : ℕ) (ts : ThreadStore) (node : RecordNode)
      → find cnid ts.current_tree ≡ some node
      → record_node ds cnid parent_cnid nameid ts ≡ some (cnid, ts)
  unfolding record_node
  old_record cnid parent_cnid nameid ts node at = rw (at, record_node) refl

  new_record :
      (cnid parent_cnid nameid : ℕ) (ts ts' : ThreadStore) (node : RecordNode)
      → find cnid ts.current_tree ≡ none
      → link_node ds cnid parent_cnid nameid ts ≡ some ts'
      → find cnid ts'.current_tree ≡ some node
      → record_node ds cnid parent_cnid nameid ts ≡ some (cnid, ts')
  unfolding record_node
  new_record cnid parent_cnid nameid ts ts' node new linked at =
      rw (new, no_attr, linked, record_node)
        (bind_some (find cnid ts'.current_tree) _ node at ∙ rw no_attr refl)

  -- A record is of a node that is there, or of a new one under a node that is there.
  abbrev pub Fits : Map RecordNode → SerializedInfo → Type 0
  Fits tree s =
      (length s.profile_value ≡ get_num_profile_values ds)
      × (Has s.call_node_id tree
          ⊎ ((s.call_node_id < top)
              × (s.parent_node_id < s.call_node_id)
              × Has s.parent_node_id tree))

  record_node-Tended :
      (s : SerializedInfo) (ts : ThreadStore)
      → AllSound ds top ts.current_tree
      → Fits ts.current_tree s
      → Placed s.call_node_id ts (record_node ds s.call_node_id s.parent_node_id s.nameid ts)
  record_node-Tended s ts sound (_, fits) =
      elim (Option-cases (find s.call_node_id ts.current_tree)) [
        | inr (node, at) ↦ (
          ts.current_tree,
          old_record s.call_node_id s.parent_node_id s.nameid ts node at,
          Tended-refl ds top ts.current_tree sound,
          (node, at),
        )
        | inl new ↦ elim fits [
          | inl (node, at) ↦ absurd (ground (arith, new, at))
          | inr (below, above, has) ↦
              let (tree, linked, tended, (node, at)) =
                link_node-Tended s.call_node_id s.parent_node_id s.nameid ts sound new below above
                  has in
              (
                tree,
                new_record s.call_node_id s.parent_node_id s.nameid ts
                    (record ts { current_tree = tree }) node new linked at,
                tended,
                (node, at),
              )
        ]
      ]

  alt_id-same : (cnid : ℕ) (ts : ThreadStore) → alt_id ds cnid ts ≡ cnid
  alt_id-same cnid ts = rw (no_attr, alt_id) refl

  set_step :
      (s : SerializedInfo) (ts ts1 ts2 : ThreadStore) (node node' : RecordNode)
      → record_node ds s.call_node_id s.parent_node_id s.nameid ts ≡ some (s.call_node_id, ts1)
      → mark_node_dirty (suc s.call_node_id) ds s.call_node_id ts1 ≡ some ts2
      → find s.call_node_id ts2.current_tree ≡ some node
      → set_temp_values s.profile_value s.call_count node ≡ some node'
      → store_sample ds s ts
        ≡ some (record ts2 { current_tree = put s.call_node_id node' ts2.current_tree })
  unfolding store_sample store_under
  set_step s ts ts1 ts2 node node' placed marked at set =
      ap (λ id. store_under ds s id ts) (alt_id-same s.call_node_id ts)
      ∙ rw (placed, marked, store_under)
          (bind_some (find s.call_node_id ts2.current_tree) _ node at ∙ rw set refl)

  set_temp_values-some :
      (vs : List ℕ) (n : ℕ) (node : RecordNode)
      → length node.temp_values ≡ length vs
      → set_temp_values vs n node ≡ some (record node { temp_values = vs; temp_call_count = n })
  unfolding set_temp_values
  set_temp_values-some vs n node e = rw (e, ==_refl (length vs), set_temp_values) refl

  pub store_sample-Tended :
      (s : SerializedInfo) (ts : ThreadStore)
      → AllSound ds top ts.current_tree
      → Fits ts.current_tree s
      → (tree : Map RecordNode) × (store_sample ds s ts ≡ some (record ts { current_tree = tree }))
        × Tended ds top ts.current_tree tree
        × Has s.call_node_id tree
  store_sample-Tended s ts sound fits =
      let id = s.call_node_id in
      let (tree1, placed, one, here) = record_node-Tended s ts sound fits in
      let (tree2, marked, two) =
        mark_node_dirty-Tended ds top many no_attr (suc id) id (record ts { current_tree = tree1 })
          (omega arith) one.0 in
      let (node, at) = Kept-Has tree1 tree2 two.1 id here in
      let width = (two.0 id node at).values in
      let node' : RecordNode = record node {
        temp_values = s.profile_value;
        temp_call_count = s.call_count;
      } in
      let three =
        Tended-put ds top tree2 id node node' two.0 at (refl, refl, refl, refl)
          (width.0, fits.0, width.2) (refl, refl, refl) in
      (
        put id node' tree2,
        set_step s ts (record ts { current_tree = tree1 }) (record ts { current_tree = tree2 }) node
            node' placed marked at
            (set_temp_values-some s.profile_value s.call_count node (width.1 ∙ sym fits.0)),
        Tended-trans ds top ts.current_tree tree1 (put id node' tree2) one
            (Tended-trans ds top tree1 tree2 (put id node' tree2) two three),
        Kept-Has tree2 (put id node' tree2) three.1 id (node, at),
      )
