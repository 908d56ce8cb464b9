-- ===== src/Webmon/Totals/Children.antt =====
-- Webmon/Clear: the loops of `ClearDirtyNode` over children, where no attribute nodes are made
-- (`gLeafNodeAccumulate` is off).
use llprof.Base.{
  ℕ, suc, ◌<◌, ◌≡◌, refl, ◌∙◌, inl, inr, Bool, true, false, Option, some, List, [], ◌∷◌, find,
  Bool-cases, bind_some, arith,
}
use llprof.Webmon.Slices.{Node}
use llprof.Webmon.Quantity.{Quantity}
use llprof.Webmon.Nodes.{Ds, RecordNode, new_node, is_attr_node}
use llprof.Webmon.Current.{find_attr}
use llprof.Webmon.Clear.{
  Clearing, add_temp_to_children, clear_attr, clear_children, clear_attr_nodes, clear_below,
}
use llprof.Webmon.Totals.{Has, AllHave, IsBalanced, AllHave-map}
use llprof.Webmon.Totals.Moves.{
  Keeps, Keeps-refl, Keeps-trans, Keeps-le, Moved, add_temp_to_children-IsBalanced,
}

abbrev pub InSlice : ℕ → Clearing → Type 0
InSlice id c = (tss : Node) × (find id c.slice ≡ some tss)

module _ (ds : Ds) (top : ℕ) (base : Quantity → ℕ → ℕ) where
  -- What a call of `ClearDirtyNode` leaves, when it ends with success.
  abbrev pub Cleared : ℕ → Clearing → Option (Bool × Clearing) → Type 0
  Cleared k c r =
      (b : Bool) × (c' : Clearing) × (r ≡ some (b, c')) × IsBalanced ds top base c' × Keeps k c c'

  module _ (clear : ℕ → Clearing → Option (Bool × Clearing)) (id : ℕ)
      (spec : (child : ℕ) (c : Clearing)
        → id < child
        → Has child c.tree
        → IsBalanced ds top base c
        → Cleared child c (clear child c)) where
    attr_child_step :
        (child : ℕ) (children attrs : List ℕ) (c c' : Clearing) (node : RecordNode)
        → find child c.tree ≡ some node
        → is_attr_node ds node.basic ≡ true
        → clear_children ds clear id children c ≡ some (attrs, c')
        → clear_children ds clear id (child ∷ children) c ≡ some (child ∷ attrs, c')
    unfolding clear_children
    attr_child_step child children attrs c c' node at attr rest =
        bind_some (find child c.tree) _ node at ∙ rw (attr, rest, clear_children) refl

    child_step :
        (child : ℕ) (children attrs : List ℕ) (c c1 c2 c' : Clearing) (node : RecordNode) (b : Bool)
        → find child c.tree ≡ some node
        → is_attr_node ds node.basic ≡ false
        → clear child c ≡ some (b, c1)
        → (elim b [ false ↦ some c1 | true ↦ add_temp_to_children ds id child c1 ]) ≡ some c2
        → clear_children ds clear id children c2 ≡ some (attrs, c')
        → clear_children ds clear id (child ∷ children) c ≡ some (attrs, c')
    unfolding clear_children
    child_step child children attrs c c1 c2 c' node b at attr cleared added rest =
        bind_some (find child c.tree) _ node at
        ∙ rw (attr, cleared, added, rest, clear_children) refl

    after_child :
        (b : Bool) (child : ℕ) (c : Clearing)
        → IsBalanced ds top base c
        → Has id c.tree
        → Has child c.tree
        → InSlice id c
        → Moved ds top base
            (suc id)
            c
            (elim b [ false ↦ some c | true ↦ add_temp_to_children ds id child c ])
    after_child false child c bal this has slice = (c, refl, bal, Keeps-refl (suc id) c)
    after_child true child c bal this has slice =
        add_temp_to_children-IsBalanced ds top base id child (suc id) c bal this has slice

    clear_children-IsBalanced :
        (children : List ℕ) (c : Clearing)
        → AllHave id children c.tree
        → IsBalanced ds top base c
        → Has id c.tree
        → InSlice id c
        → (attrs : List ℕ) × (c' : Clearing) × (clear_children ds clear id children c
            ≡ some (attrs, c'))
          × AllHave id attrs c'.tree
          × IsBalanced ds top base c'
          × Keeps (suc id) c c'
    unfolding clear_children
    clear_children-IsBalanced [] c all bal this slice =
        ([], c, refl, tt, bal, Keeps-refl (suc id) c)
    clear_children-IsBalanced (child ∷ children) c (lt, (node, at), all) bal this slice =
        elim (Bool-cases (is_attr_node ds node.basic)) [
          | inl attr ↦
              let (attrs, c', done, all', bal', keep) =
                clear_children-IsBalanced children c all bal this slice in
              (
                child ∷ attrs,
                c',
                attr_child_step child children attrs c c' node at attr done,
                (lt, keep.0 child (node, at), all'),
                bal',
                keep,
              )
          | inr plain ↦
              let (b, c1, cleared, bal1, keep1) = spec child c lt (node, at) bal in
              let low = Keeps-le (suc id) child c c1 (omega (arith, lt)) keep1 in
              let (c2, added, bal2, keep2) =
                after_child b child c1 bal1 (low.0 id this) (low.0 child (node, at))
                  (low.2 id slice) in
              let both = Keeps-trans (suc id) c c1 c2 low keep2 in
              let (attrs, c', done, all', bal', keep') =
                clear_children-IsBalanced children c2
                  (AllHave-map c.tree c2.tree both.0 id children all) bal2 (both.0 id this)
                  (both.2 id slice) in
              (
                attrs,
                c',
                child_step child children attrs c c1 c2 c' node b at plain cleared added done,
                all',
                bal',
                Keeps-trans (suc id) c c2 c' both keep',
              )
        ]

    clean_attr_step :
        (attr : ℕ) (attrs : List ℕ) (c : Clearing) (node : RecordNode)
        → find attr c.tree ≡ some node
        → node.dirty ≡ false
        → clear_attr_nodes ds clear id (attr ∷ attrs) c ≡ clear_attr_nodes ds clear id attrs c
    unfolding clear_attr_nodes
    clean_attr_step attr attrs c node at clean = rw (at, clean, clear_attr_nodes) refl

    dirty_attr_step :
        (attr : ℕ) (attrs : List ℕ) (c c1 c2 : Clearing) (node : RecordNode) (b : Bool)
        → find attr c.tree ≡ some node
        → node.dirty ≡ true
        → add_temp_to_children ds id attr c ≡ some c1
        → clear attr c1 ≡ some (b, c2)
        → clear_attr_nodes ds clear id (attr ∷ attrs) c ≡ clear_attr_nodes ds clear id attrs c2
    unfolding clear_attr_nodes
    dirty_attr_step attr attrs c c1 c2 node b at dirty added cleared =
        rw (at, dirty, added, cleared, clear_attr_nodes) refl

    clear_attr_nodes-IsBalanced :
        (attrs : List ℕ) (c : Clearing)
        → AllHave id attrs c.tree
        → IsBalanced ds top base c
        → Has id c.tree
        → InSlice id c
        → Moved ds top base (suc id) c (clear_attr_nodes ds clear id attrs c)
    unfolding clear_attr_nodes
    clear_attr_nodes-IsBalanced [] c all bal this slice = (c, refl, bal, Keeps-refl (suc id) c)
    clear_attr_nodes-IsBalanced (attr ∷ attrs) c (lt, (node, at), all) bal this slice =
        elim (Bool-cases node.dirty) [
          | inl dirty ↦
              let (c1, added, bal1, keep1) =
                add_temp_to_children-IsBalanced ds top base id attr (suc id) c bal this (node, at)
                  slice in
              let (b, c2, cleared, bal2, keep2) = spec attr c1 lt (keep1.0 attr (node, at)) bal1 in
              let both =
                Keeps-trans (suc id) c c1 c2 keep1
                  (Keeps-le (suc id) attr c1 c2 (omega (arith, lt)) keep2) in
              let (c', done, bal', keep') =
                clear_attr_nodes-IsBalanced attrs c2
                  (AllHave-map c.tree c2.tree both.0 id attrs all) bal2 (both.0 id this)
                  (both.2 id slice) in
              (
                c',
                dirty_attr_step attr attrs c c1 c2 node b at dirty added cleared ∙ done,
                bal',
                Keeps-trans (suc id) c c2 c' both keep',
              )
          | inr clean ↦
              let (c', done, bal', keep') =
                clear_attr_nodes-IsBalanced attrs c all bal this slice in
              (c', clean_attr_step attr attrs c node at clean ∙ done, bal', keep')
        ]

    -- Without an entry in `attr_node_map_` the loop of an attribute node changes nothing.
    clear_attr-same :
        (name : ℕ) (low : ℕ) (children : List ℕ) (c : Clearing)
        → AllHave low children c.tree
        → clear_attr ds [] id name children c ≡ some c
    unfolding clear_attr find_attr
    clear_attr-same name low [] c all = refl
    clear_attr-same name low (child ∷ children) c (lt, (node, at), all) =
        elim (Bool-cases (is_attr_node ds node.basic)) [
          | inl attr ↦ rw (at, attr, clear_attr) (clear_attr-same name low children c all)
          | inr plain ↦ rw (at, plain, clear_attr) (clear_attr-same name low children c all)
        ]

    plain_below :
        (c c1 c2 : Clearing) (node : RecordNode) (attrs : List ℕ)
        → is_attr_node ds node.basic ≡ false
        → clear_children ds clear id node.children_id c ≡ some (attrs, c1)
        → clear_attr_nodes ds clear id attrs c1 ≡ some c2
        → clear_below ds [] clear node id c ≡ some c2
    unfolding clear_below
    plain_below c c1 c2 node attrs plain children rest =
        rw (plain, children, rest, clear_below) refl

    attr_below :
        (c : Clearing) (node pnode : RecordNode)
        → is_attr_node ds node.basic ≡ true
        → find node.basic.parent_id c.tree ≡ some pnode
        → clear_attr ds [] id node.basic.node_name pnode.children_id c ≡ some c
        → clear_below ds [] clear node id c ≡ some c
    unfolding clear_below
    attr_below c node pnode attr parent same =
        rw (attr, clear_below) (bind_some (find node.basic.parent_id c.tree) _ pnode parent ∙ same)

    root_plain :
        (node : RecordNode)
        → is_attr_node ds new_node ≡ false
        → node.basic.node_name ≡ 0
        → is_attr_node ds node.basic ≡ false
    unfolding is_attr_node
    root_plain node plain e = rw e plain

    -- The part before the last loop keeps the balance, when the name id 0 is no attribute.
    pub clear_below-IsBalanced :
        (node : RecordNode) (c : Clearing)
        → is_attr_node ds new_node ≡ false
        → find id c.tree ≡ some node
        → IsBalanced ds top base c
        → InSlice id c
        → Moved ds top base (suc id) c (clear_below ds [] clear node id c)
    clear_below-IsBalanced node c plain_root at bal slice =
        let s = bal.sound id node at in
        elim (Bool-cases (is_attr_node ds node.basic)) [
          | inr plain ↦
              let (attrs, c1, children, all, bal1, keep1) =
                clear_children-IsBalanced node.children_id c s.children bal (node, at) slice in
              let (c2, rest, bal2, keep2) =
                clear_attr_nodes-IsBalanced attrs c1 all bal1 (keep1.0 id (node, at))
                  (keep1.2 id slice) in
              (
                c2,
                plain_below c c1 c2 node attrs plain children rest,
                bal2,
                Keeps-trans (suc id) c c1 c2 keep1 keep2,
              )
          | inl attr ↦ elim s.parent [
            | inr (_, name) ↦ absurd (ground (arith, attr, root_plain node plain_root name))
            | inl (pnode, parent) ↦ (
              c,
              attr_below c node pnode attr parent (
                  clear_attr-same node.basic.node_name node.basic.parent_id pnode.children_id c
                    (bal.sound node.basic.parent_id pnode parent).children),
              bal,
              Keeps-refl (suc id) c,
            )
          ]
        ]
