-- ===== src/Webmon/Totals/Growth.antt =====
-- Webmon/Current: what the operations before `ClearDirtyNode` do to `current_tree_`. Its shape stays
-- sound, no node is lost, and no total changes.
use llprof.Base.{
  ℕ, zero, suc, ◌<◌, ◌≡◌, refl, ap, ◌∙◌, inl, inr, Bool, true, false, none, some, Map, find, put,
  find-put, ◌==◌, Bool-cases, Option-cases, bind_some, arith,
}
use llprof.Webmon.Quantity.{Quantity, SameValues, amount_same}
use llprof.Webmon.Nodes.{Ds, RecordNode, update}
use llprof.Webmon.Current.{set_gnid, touch_gnid, gnid_key, set_running}
use llprof.Webmon.Totals.{Has, Values, AllSound, held, Alike, IsSound-Alike, AllSound-put}
use llprof.Webmon.Totals.Moves.{held-same}

-- Each node is still there, under the same parent.
abbrev pub Kept : Map RecordNode → Map RecordNode → Type 0
Kept tree tree' =
    (j : ℕ) (node : RecordNode)
    → find j tree ≡ some node
    → (node' : RecordNode) × (find j tree' ≡ some node')
      × (node'.basic.parent_id ≡ node.basic.parent_id)

pub Kept-refl : (tree : Map RecordNode) → Kept tree tree
Kept-refl tree j node e = (node, e, refl)

pub Kept-trans : (a b c : Map RecordNode) → Kept a b → Kept b c → Kept a c
Kept-trans a b c k l j node e =
    let (node1, e1, p1) = k j node e in let (node2, e2, p2) = l j node1 e1 in (node2, e2, p2 ∙ p1)

pub Kept-Has : (a b : Map RecordNode) → Kept a b → (j : ℕ) → Has j a → Has j b
Kept-Has a b k j (node, e) = let (node', e', _) = k j node e in (node', e')

pub Kept-put :
    (tree : Map RecordNode) (id : ℕ) (old node : RecordNode)
    → find id tree ≡ some old
    → node.basic.parent_id ≡ old.basic.parent_id
    → Kept tree (put id node tree)
Kept-put tree id old node at parent j other e = elim (Bool-cases (id == j)) [
  | inl same ↦
      (node, ground (arith, find-put id j node tree, same), ground (arith, same, at, parent, e))
  | inr different ↦ (other, ground (arith, find-put id j node tree, e, different), refl)
]

module _ (ds : Ds) (top : ℕ) where
  -- What an operation on the tree leaves.
  abbrev pub Tended : Map RecordNode → Map RecordNode → Type 0
  Tended tree tree' =
      AllSound ds top tree'
      × Kept tree tree'
      × ((q : Quantity) (j : ℕ) → held q j tree' ≡ held q j tree)

  pub Tended-refl : (tree : Map RecordNode) → AllSound ds top tree → Tended tree tree
  Tended-refl tree sound = (sound, Kept-refl tree, λ q j. refl)

  pub Tended-trans : (a b c : Map RecordNode) → Tended a b → Tended b c → Tended a c
  Tended-trans a b c (_, k, t) (s, l, u) = (s, Kept-trans a b c k l, λ q j. u q j ∙ t q j)

  -- A node takes the place of one with the same links, calls and values.
  pub Tended-put :
      (tree : Map RecordNode) (id : ℕ) (old node : RecordNode)
      → AllSound ds top tree
      → find id tree ≡ some old
      → Alike old node
      → Values ds id node
      → SameValues node.basic old.basic
      → Tended tree (put id node tree)
  Tended-put tree id old node sound at alike values total = (
    AllSound-put ds top tree id node sound
        (IsSound-Alike ds top tree id old node (sound id old at) alike values),
    Kept-put tree id old node at alike.1,
    λ q j. held-same q id j old node tree at (amount_same q node.basic old.basic total),
  )

  set_running_step :
      (f id : ℕ) (flag : Bool) (tree : Map RecordNode) (node : RecordNode)
      → find id tree ≡ some node
      → set_running (suc f) flag id tree
        ≡ set_running f flag node.basic.parent_id
            (put id (record node { basic = record node.basic { running = flag } }) tree)
  unfolding set_running
  set_running_step f id flag tree node at = rw (at, set_running) refl

  set_running_end :
      (f id : ℕ) (flag : Bool) (tree : Map RecordNode)
      → find id tree ≡ none
      → set_running (suc f) flag id tree ≡ some tree
  unfolding set_running
  set_running_end f id flag tree at = rw (at, set_running) refl

  -- The loop over the parents ends, with fuel above the id.
  pub set_running-Tended :
      (f id : ℕ) (flag : Bool) (tree : Map RecordNode)
      → id < f
      → AllSound ds top tree
      → (tree' : Map RecordNode) × (set_running f flag id tree ≡ some tree') × Tended tree tree'
  unfolding set_running
  set_running-Tended zero id flag tree lt sound = absurd (omega (arith, lt))
  set_running-Tended (suc f) id flag tree lt sound = elim (Option-cases (find id tree)) [
    | inl at ↦ (tree, set_running_end f id flag tree at, Tended-refl tree sound)
    | inr (node, at) ↦
        let s = sound id node at in
        let node1 : RecordNode = record node { basic = record node.basic { running = flag } } in
        let one =
          Tended-put tree id node node1 sound at (refl, refl, refl, refl) s.values
            (refl, refl, refl) in
        let (tree', done, rest) =
          set_running-Tended f node.basic.parent_id flag (put id node1 tree)
            (omega (arith, lt, s.above)) one.0 in
        (
          tree',
          set_running_step f id flag tree node at ∙ done,
          Tended-trans tree (put id node1 tree) tree' one rest,
        )
  ]

  pub update-some :
      (id : ℕ) (g : RecordNode → RecordNode) (tree : Map RecordNode) (node : RecordNode)
      → find id tree ≡ some node
      → update id g tree ≡ put id (g node) tree
  unfolding update
  update-some id g tree node at = rw (at, update) refl

  touch_done :
      (f id : ℕ) (tree : Map RecordNode) (node : RecordNode)
      → find id tree ≡ some node
      → (node.gnid == 0) ≡ false
      → touch_gnid (suc f) ds tree id ≡ some (node.gnid, tree)
  unfolding touch_gnid
  touch_done f id tree node at set = bind_some (find id tree) _ node at ∙ rw (set, touch_gnid) refl

  touch_step :
      (f id g : ℕ) (tree tree' : Map RecordNode) (node : RecordNode)
      → find id tree ≡ some node
      → (node.gnid == 0) ≡ true
      → touch_gnid f ds tree node.basic.parent_id ≡ some (g, tree')
      → touch_gnid (suc f) ds tree id ≡ some (set_gnid id (ds.crc64 (gnid_key ds g node)) tree')
  unfolding touch_gnid
  touch_step f id g tree tree' node at unset parent =
      bind_some (find id tree) _ node at ∙ rw (unset, parent, touch_gnid) refl

  -- A node under a parent may have any global id.
  with_gnid :
      (id g : ℕ) (tree : Map RecordNode) (node : RecordNode)
      → AllSound ds top tree
      → find id tree ≡ some node
      → Has node.basic.parent_id tree
      → Tended tree (put id (record node { gnid = g }) tree)
  with_gnid id g tree node sound at parent =
      let s = sound id node at in
      (
        AllSound-put ds top tree id (record node { gnid = g }) sound
            (record {
              values = s.values;
              children = s.children;
              above = s.above;
              below = s.below;
              parent = inl parent;
            }),
        Kept-put tree id node (record node { gnid = g }) at refl,
        λ q j. held-same q id j node (record node { gnid = g }) tree at refl,
      )

  -- `TouchGNID` reaches the root, with fuel above the id.
  pub touch_gnid-Tended :
      (f id : ℕ) (tree : Map RecordNode)
      → id < f
      → AllSound ds top tree
      → Has id tree
      → (g : ℕ) × (tree' : Map RecordNode) × (touch_gnid f ds tree id ≡ some (g, tree'))
        × Tended tree tree'
  unfolding touch_gnid set_gnid
  touch_gnid-Tended zero id tree lt sound has = absurd (omega (arith, lt))
  touch_gnid-Tended (suc f) id tree lt sound (node, at) =
      let s = sound id node at in
      elim (Bool-cases (node.gnid == 0)) [
        | inr set ↦ (node.gnid, tree, touch_done f id tree node at set, Tended-refl tree sound)
        | inl unset ↦ elim s.parent [
          | inr (gnid, _) ↦ absurd (gnid (ground (arith, unset)))
          | inl parent ↦
              let (g, tree1, done, one) =
                touch_gnid-Tended f node.basic.parent_id tree (omega (arith, lt, s.above)) sound
                  parent in
              let (node1, at1, same) = one.1 id node at in
              let result = ds.crc64 (gnid_key ds g node) in
              (
                result,
                put id (record node1 { gnid = result }) tree1,
                touch_step f id g tree tree1 node at unset done
                    ∙ ap (λ t. some (result, t))
                        (update-some id (λ n. record n { gnid = result }) tree1 node1 at1),
                Tended-trans tree tree1 (put id (record node1 { gnid = result }) tree1) one (
                    with_gnid id result tree1 node1 one.0 at1
                      (rw same (Kept-Has tree tree1 one.1 node.basic.parent_id parent))),
              )
        ]
      ]
