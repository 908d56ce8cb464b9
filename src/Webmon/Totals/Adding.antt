-- ===== src/Webmon/Totals/Adding.antt =====
-- Webmon/Current: the nodes that `Store` adds, and the temporary values that it sets. Attribute nodes
-- and the single tree mode are off.
use llprof.Base.{
  ℕ, ◌<◌, ◌≡◌, refl, ap, ◌∙◌, inl, true, false, none, some, List, [], ◌∷◌, Map, find, put, find-put,
  arith,
}
use llprof.Webmon.Nodes.{
  Ds, RecordNode, get_num_profile_values, new_record_node, set_record_data_store, set_data_store,
  resize, insert_id, add_child_id,
}
use llprof.Webmon.Current.{node_or_new, set_up_node, add_current_node}
use llprof.Webmon.Totals.{Has, AllHave, AllSound, AllSound-put}
use llprof.Webmon.Totals.Moves.{length-resize_new, zero_at-resize_new, held-put, held-same}
use llprof.Webmon.Merge.{no_amount}
use llprof.Webmon.Totals.Growth.{Kept-put, Tended}

AllHave-insert_id :
    (id c : ℕ) (children : List ℕ) (tree : Map RecordNode)
    → id < c
    → Has c tree
    → AllHave id children tree
    → AllHave id (insert_id c children) tree
unfolding insert_id
AllHave-insert_id id c [] tree lt has all = (lt, has, tt)
AllHave-insert_id id c (d ∷ children) tree lt has (lt', has', all) =
    ground (arith, lt, has, lt', has', all, AllHave-insert_id id c children tree lt has all)

module _ (ds : Ds) (top : ℕ) (many : ds.single_tree_mode ≡ false) where
  -- The node that is added.
  unfoldable pub added : ℕ → ℕ → ℕ → RecordNode
  unfolding set_record_data_store set_data_store
  added cnid parent_cnid nameid =
      let n = get_num_profile_values ds in
      record new_record_node {
        basic = record new_record_node.basic {
          id = cnid;
          parent_id = parent_cnid;
          node_name = nameid;
          all_values = resize n [];
          children_values = resize n [];
        };
        temp_values = resize n [];
      }

  set_up_node-new :
      (cnid parent_cnid nameid : ℕ)
      → set_up_node ds cnid parent_cnid nameid true new_record_node ≡ added cnid parent_cnid nameid
  unfolding set_up_node added set_record_data_store set_data_store
  set_up_node-new cnid parent_cnid nameid = rw many refl

  node_or_new-none :
      (cnid : ℕ) (tree : Map RecordNode)
      → find cnid tree ≡ none
      → node_or_new cnid tree ≡ new_record_node
  node_or_new-none cnid tree e = rw (e, node_or_new) refl

  pub add_current_node-new :
      (cnid parent_cnid nameid : ℕ) (tree : Map RecordNode)
      → find cnid tree ≡ none
      → add_current_node ds cnid parent_cnid nameid true tree
        ≡ put cnid (added cnid parent_cnid nameid) tree
  unfolding add_current_node
  add_current_node-new cnid parent_cnid nameid tree e =
      ap (λ node. put cnid (set_up_node ds cnid parent_cnid nameid true node) tree)
        (node_or_new-none cnid tree e)
      ∙ ap (λ node. put cnid node tree) (set_up_node-new cnid parent_cnid nameid)

  pub added-Tended :
      (cnid parent_cnid nameid : ℕ) (tree : Map RecordNode)
      → AllSound ds top tree
      → find cnid tree ≡ none
      → cnid < top
      → parent_cnid < cnid
      → Has parent_cnid tree
      → Tended ds top tree (put cnid (added cnid parent_cnid nameid) tree)
  unfolding added
  added-Tended cnid parent_cnid nameid tree sound new below above parent =
      let width = length-resize_new (get_num_profile_values ds) in
      (
        AllSound-put ds top tree cnid (added cnid parent_cnid nameid) sound (record {
          values = ((width, width), width, omega arith);
          children = tt;
          above = above;
          below = below;
          parent = inl parent;
        }),
        (λ j node e. (
          node,
          ground (arith, find-put cnid j (added cnid parent_cnid nameid) tree, e, new),
          refl,
        )),
        λ q j. ground (
          arith,
          held-put q cnid j (added cnid parent_cnid nameid) tree,
          new,
          no_amount q (added cnid parent_cnid nameid).basic refl
              (zero_at-resize_new (get_num_profile_values ds))
              (zero_at-resize_new (get_num_profile_values ds)),
        ),
      )

  -- The link from a parent to its child.
  pub add_child_id-Tended :
      (parent_cnid cnid : ℕ) (tree : Map RecordNode) (parent : RecordNode)
      → AllSound ds top tree
      → find parent_cnid tree ≡ some parent
      → parent_cnid < cnid
      → Has cnid tree
      → Tended ds top tree (put parent_cnid (add_child_id cnid parent) tree)
  unfolding add_child_id
  add_child_id-Tended parent_cnid cnid tree parent sound at above has =
      let s = sound parent_cnid parent at in
      (
        AllSound-put ds top tree parent_cnid (add_child_id cnid parent) sound (record {
          values = s.values;
          children =
              AllHave-insert_id parent_cnid cnid parent.children_id tree above has s.children;
          above = s.above;
          below = s.below;
          parent = s.parent;
        }),
        Kept-put tree parent_cnid parent (add_child_id cnid parent) at refl,
        λ q j. held-same q parent_cnid j parent (add_child_id cnid parent) tree at refl,
      )
