-- ===== src/Webmon/Totals/Descent.antt =====
-- Webmon/Clear: the recursion of `ClearDirtyNode`, where no attribute nodes are made
-- (`gLeafNodeAccumulate` is off).
use llprof.Base.{
  ℕ, zero, suc, ◌+◌, ◌≤◌, ◌≡◌, refl, ap, ◌∙◌, inl, inr, true, false, none, some, [], find,
  Bool-cases, arith,
}
use llprof.Webmon.Quantity.{Quantity}
use llprof.Webmon.Nodes.{Ds, RecordNode, new_node, is_attr_node, get_slice_node}
use llprof.Webmon.Clear.{Clearing, flush, clear_below, clear_dirty_node}
use llprof.Webmon.Totals.{Has, IsBalanced}
use llprof.Webmon.Totals.Moves.{
  Keeps-refl, Keeps-trans, Keeps-le, get_slice_node-IsBalanced, flush-IsBalanced,
}
use llprof.Webmon.Totals.Children.{Cleared, clear_below-IsBalanced}

module _ (ds : Ds) (top : ℕ) (base : Quantity → ℕ → ℕ) where
  missing_step :
      (f id : ℕ) (c : Clearing) (node : RecordNode)
      → find id c.tree ≡ some node
      → node.dirty ≡ false
      → clear_dirty_node (suc f) ds [] id c ≡ some (false, c)
  unfolding clear_dirty_node
  missing_step f id c node at clean = rw (at, clean, clear_dirty_node) refl

  dirty_step :
      (f id : ℕ) (c below c' : Clearing) (node : RecordNode)
      → find id c.tree ≡ some node
      → node.dirty ≡ true
      → clear_below ds []
          (clear_dirty_node f ds [])
          node
          id
          (record c { slice = get_slice_node ds id c.slice })
        ≡ some below
      → flush ds id below ≡ some c'
      → clear_dirty_node (suc f) ds [] id c ≡ some (true, c')
  unfolding clear_dirty_node
  dirty_step f id c below c' node at dirty under flushed =
      rw (at, dirty, under, flushed, clear_dirty_node) refl

  -- With a fuel that reaches from the node to the greatest id, `ClearDirtyNode` ends with success,
  -- and keeps the balance.
  pub clear_dirty_node-IsBalanced :
      (f id : ℕ) (c : Clearing)
      → is_attr_node ds new_node ≡ false
      → top ≤ id + f
      → Has id c.tree
      → IsBalanced ds top base c
      → Cleared ds top base id c (clear_dirty_node f ds [] id c)
  unfolding clear_dirty_node
  clear_dirty_node-IsBalanced zero id c plain enough (node, at) bal =
      absurd (omega (arith, enough, (bal.sound id node at).below))
  clear_dirty_node-IsBalanced (suc f) id c plain enough (node, at) bal =
      elim (Bool-cases node.dirty) [
        | inr clean ↦ (false, c, missing_step f id c node at clean, bal, Keeps-refl id c)
        | inl dirty ↦
            let (bal1, slice, keep1) = get_slice_node-IsBalanced ds top base c id bal (node, at) in
            let c1 : Clearing = record c { slice = get_slice_node ds id c.slice } in
            let (c2, under, bal2, keep2) =
              clear_below-IsBalanced ds top base (clear_dirty_node f ds []) id
                (λ child c3 lt has bal3.
                  clear_dirty_node-IsBalanced f child c3 plain (omega (arith, enough, lt)) has bal3)
                node c1 plain at bal1 slice in
            let still =
              keep2.1 id (omega arith)
              ∙ ap (λ o. elim o [ none ↦ false | some n ↦ n.dirty ]) at
              ∙ dirty in
            let (c', flushed, bal', keep') =
              flush-IsBalanced ds top base id c2 bal2 (keep2.0 id (node, at)) still
                (keep2.2 id slice) in
            (
              true,
              c',
              dirty_step f id c c2 c' node at dirty under flushed,
              bal',
              Keeps-trans id c c2 c'
                  (Keeps-trans id c c1 c2 keep1 (Keeps-le id (suc id) c1 c2 (omega arith) keep2))
                  keep',
            )
      ]
