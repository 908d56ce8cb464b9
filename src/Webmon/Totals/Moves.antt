-- ===== src/Webmon/Totals/Moves.antt =====
-- Webmon/Clear: `TimeSliceStore::GetNodeFromID`, `AddTempToChildren` and the end of
-- `ClearDirtyNode`, each on its own.
use llprof.Base.{
  ℕ, zero, suc, ◌-◌, ◌<◌, ◌≡◌, ◌≢◌, refl, sym, ap, ◌∙◌, ◌⊎◌, inl, inr, true, Option, none, some, [],
  Map, find, put, find-put, Sorted-put, length, replicate, get_or, length-replicate, if◌then◌else◌,
  ◌==◌, ==_refl, Bool-cases, Option-cases, add64, arith,
}
use llprof.Webmon.Slices.{Node}
use llprof.Webmon.Merge.{Sized, count, count-put, zero_at, no_amount, Sized-put}
use llprof.Webmon.Quantity.{Quantity, amount}
use llprof.Webmon.Nodes.{
  Ds, RecordNode, get_num_profile_values, get_slice_node, slice_node, resize, set_data_store,
}
use llprof.Webmon.Clear.{Clearing, with_children, add_temp_to_children, all_zero, flush_node, flush}
use llprof.Webmon.Totals.{Has, held, is_dirty, IsBalanced, IsSound-Alike, Has-put, AllSound-put}
use llprof.Webmon.Totals.Vectors.{with_children-total, flush_node-total}

-- What a call leaves as it was; `k` bounds the nodes of which the flag is kept.
abbrev pub Keeps : ℕ → Clearing → Clearing → Type 0
Keeps k c c' =
    ((j : ℕ) → Has j c.tree → Has j c'.tree)
    × ((j : ℕ) → j < k → is_dirty j c'.tree ≡ is_dirty j c.tree)
    × ((j : ℕ)
        → ((tss : Node) × (find j c.slice ≡ some tss))
        → (tss : Node) × (find j c'.slice ≡ some tss))

pub Keeps-refl : (k : ℕ) (c : Clearing) → Keeps k c c
Keeps-refl k c = (λ j h. h, λ j h. refl, λ j h. h)

pub Keeps-trans : (k : ℕ) (a b c : Clearing) → Keeps k a b → Keeps k b c → Keeps k a c
Keeps-trans k a b c (h, d, s) (h', d', s') =
    (λ j p. h' j (h j p), λ j p. d' j p ∙ d j p, λ j p. s' j (s j p))

pub Keeps-le : (k l : ℕ) (a b : Clearing) → k < suc l → Keeps l a b → Keeps k a b
Keeps-le k l a b le (h, d, s) = (h, λ j p. d j (omega (arith, p, le)), s)

pub held-put :
    (q : Quantity) (id j : ℕ) (node : RecordNode) (tree : Map RecordNode)
    → held q j (put id node tree) ≡ (if id == j then amount q node.basic else held q j tree)
held-put q id j node tree = ground (arith, find-put id j node tree)

is_dirty-put :
    (id j : ℕ) (node : RecordNode) (tree : Map RecordNode)
    → is_dirty j (put id node tree) ≡ (if id == j then node.dirty else is_dirty j tree)
is_dirty-put id j node tree = ground (arith, find-put id j node tree)

is_dirty-same :
    (id j : ℕ) (old node : RecordNode) (tree : Map RecordNode)
    → find id tree ≡ some old
    → node.dirty ≡ old.dirty
    → is_dirty j (put id node tree) ≡ is_dirty j tree
is_dirty-same id j old node tree e d = ground (arith, is_dirty-put id j node tree, e, d)

pub held-same :
    (q : Quantity) (id j : ℕ) (old node : RecordNode) (tree : Map RecordNode)
    → find id tree ≡ some old
    → amount q node.basic ≡ amount q old.basic
    → held q j (put id node tree) ≡ held q j tree
held-same q id j old node tree e d = ground (arith, held-put q id j node tree, e, d)

slice-put :
    (id j : ℕ) (node : Node) (slice : Map Node)
    → ((tss : Node) × (find j slice ≡ some tss))
    → (tss : Node) × (find j (put id node slice) ≡ some tss)
slice-put id j node slice (old, e) = elim (Bool-cases (id == j)) [
  | inl same ↦ (node, ground (arith, find-put id j node slice, same))
  | inr other ↦ (old, ground (arith, find-put id j node slice, e, other))
]

-- The node that a key has after an entry was written.
find-put_inv :
    (id j : ℕ) (node other : Node) (slice : Map Node)
    → find j (put id node slice) ≡ some other
    → ((id ≡ j) × (other ≡ node)) ⊎ ((id ≢ j) × (find j slice ≡ some other))
find-put_inv id j node other slice e = elim (Bool-cases (id == j)) [
  | inl same ↦ inl (ground (arith, same), ground (arith, find-put id j node slice, e, same))
  | inr different ↦
      inr (ground (arith, different), ground (arith, find-put id j node slice, e, different))
]

known_put :
    (id : ℕ) (node : Node) (slice : Map Node) (tree tree' : Map RecordNode)
    → ((j : ℕ) → Has j tree → Has j tree')
    → Has id tree
    → ((j : ℕ) (tss : Node) → find j slice ≡ some tss → Has j tree)
    → (j : ℕ) (tss : Node) → find j (put id node slice) ≡ some tss
    → Has j tree'
known_put id node slice tree tree' keep has known j tss e =
    elim (find-put_inv id j node tss slice e) [
      | inl (same, _) ↦ keep j (rw (← same) has)
      | inr (_, old) ↦ keep j (known j tss old)
    ]

pub length-resize_new : (n : ℕ) → length (resize n []) ≡ n
length-resize_new zero = refl
length-resize_new (suc n) = length-replicate (suc n - 0) 0 ∙ omega arith

pub zero_at-resize_new : (n i : ℕ) → get_or {A = ℕ} (resize n []) i 0 ≡ 0
zero_at-resize_new zero i = refl
zero_at-resize_new (suc n) i = zero_at (suc n - 0) i

all_zero-replicate : (n : ℕ) → all_zero (replicate n 0) ≡ true
all_zero-replicate zero = refl
all_zero-replicate (suc n) = ground (arith, all_zero-replicate n)

all_zero-resize_new : (n : ℕ) → all_zero (resize n []) ≡ true
all_zero-resize_new zero = refl
all_zero-resize_new (suc n) = all_zero-replicate (suc n - 0)

module _ (ds : Ds) (top : ℕ) (base : Quantity → ℕ → ℕ) where
  -- The slice has a node for the id, which has counted nothing.
  pub new_slice_node :
      (id : ℕ) (slice : Map Node)
      → find id slice ≡ none
      → Sized (get_num_profile_values ds) (slice_node ds id slice)
        × ((slice_node ds id slice).call_count ≡ 0)
        × (all_zero (slice_node ds id slice).all_values ≡ true)
        × ((q : Quantity) → amount q (slice_node ds id slice) ≡ 0)
  unfolding slice_node set_data_store
  new_slice_node id slice e =
      let n = get_num_profile_values ds in
      rw (e, slice_node)
        (
          (length-resize_new n, length-resize_new n),
          refl,
          all_zero-resize_new n,
          λ q. no_amount q _ refl (zero_at-resize_new n) (zero_at-resize_new n),
        )

  pub get_slice_node-old :
      (id : ℕ) (slice : Map Node) (tss : Node)
      → find id slice ≡ some tss
      → get_slice_node ds id slice ≡ slice
  unfolding get_slice_node
  get_slice_node-old id slice tss e = rw (e, get_slice_node) refl

  pub get_slice_node-new :
      (id : ℕ) (slice : Map Node)
      → find id slice ≡ none
      → get_slice_node ds id slice ≡ put id (slice_node ds id slice) slice
  unfolding get_slice_node
  get_slice_node-new id slice e = rw (e, get_slice_node) refl

  added-IsBalanced :
      (c : Clearing) (id : ℕ) (tss : Node)
      → IsBalanced ds top base c
      → Has id c.tree
      → find id c.slice ≡ none
      → Sized (get_num_profile_values ds) tss
      → tss.call_count ≡ 0
      → all_zero tss.all_values ≡ true
      → ((q : Quantity) → amount q tss ≡ 0)
      → IsBalanced ds top base (record c { slice = put id tss c.slice })
  added-IsBalanced c id tss b has e width zero_calls zero_values nothing = record {
    sound = b.sound;
    sized = Sized-put (get_num_profile_values ds) id tss c.slice width b.sized;
    fresh = λ j other at dirty.
        ground
          (arith, find-put id j tss c.slice, at, b.fresh j other, dirty, zero_calls, zero_values);
    known = known_put id tss c.slice c.tree c.tree (λ j h. h) has b.known;
    sorted = Sorted-put id tss c.slice b.sorted;
    total =
        λ q added j. ground (arith, b.total q added j, count-put q id j tss c.slice, e, nothing q);
  }

  -- `GetNodeFromID` keeps the balance, and the slice has the node then.
  pub get_slice_node-IsBalanced :
      (c : Clearing) (id : ℕ)
      → IsBalanced ds top base c
      → Has id c.tree
      → IsBalanced ds top base (record c { slice = get_slice_node ds id c.slice })
        × ((tss : Node) × (find id (get_slice_node ds id c.slice) ≡ some tss))
        × Keeps id c (record c { slice = get_slice_node ds id c.slice })
  get_slice_node-IsBalanced c id b has = elim (Option-cases (find id c.slice)) [
    | inl e ↦
        let (width, zero_calls, zero_values, nothing) = new_slice_node id c.slice e in
        rw (get_slice_node-new id c.slice e) (
          added-IsBalanced c id (slice_node ds id c.slice) b has e width zero_calls zero_values
              nothing,
          (
            slice_node ds id c.slice,
            find-put id id (slice_node ds id c.slice) c.slice ∙ ground (arith, ==_refl id),
          ),
          (λ j h. h, λ j h. refl, λ j. slice-put id j (slice_node ds id c.slice) c.slice),
        )
    | inr (tss, e) ↦ rw (get_slice_node-old id c.slice tss e) (b, (tss, e), Keeps-refl id c)
  ]

  -- What an operation on the node `id` leaves, when it ends with success.
  abbrev pub Moved : ℕ → Clearing → Option Clearing → Type 0
  Moved k c r = (c' : Clearing) × (r ≡ some c') × IsBalanced ds top base c' × Keeps k c c'

  -- The totals after a node and its slice node were written.
  pub written_total :
      (q : Quantity) (id j : ℕ) (c : Clearing) (node : RecordNode) (tss : Node)
      → held q j c.tree ≡ add64 (base q j) (count q j c.slice)
      → amount q node.basic ≡ add64 (base q id) (amount q tss)
      → held q j (put id node c.tree) ≡ add64 (base q j) (count q j (put id tss c.slice))
  written_total q id j c node tss before after =
      ground (arith, held-put q id j node c.tree, count-put q id j tss c.slice, before, after)

  pub own_total :
      (q : Quantity) (id : ℕ) (c : Clearing) (node : RecordNode) (tss : Node)
      → held q id c.tree ≡ add64 (base q id) (count q id c.slice)
      → find id c.tree ≡ some node
      → find id c.slice ≡ some tss
      → amount q node.basic ≡ add64 (base q id) (amount q tss)
  own_total q id c node tss total at tss_at = ground (arith, total, at, tss_at)

  add_step :
      (id src_id : ℕ) (c : Clearing) (dest src dest' : RecordNode) (tss tss' : Node)
      → find id c.tree ≡ some dest
      → find id c.slice ≡ some tss
      → find src_id c.tree ≡ some src
      → with_children ds dest tss src ≡ some (dest', tss')
      → add_temp_to_children ds id src_id c
        ≡ some (record { tree = put id dest' c.tree; slice = put id tss' c.slice })
  unfolding add_temp_to_children
  add_step id src_id c dest src dest' tss tss' a b d e = rw (a, b, d, e) refl

  -- `AddTempToChildren` keeps the balance.
  pub add_temp_to_children-IsBalanced :
      (id src_id k : ℕ) (c : Clearing)
      → IsBalanced ds top base c
      → Has id c.tree
      → Has src_id c.tree
      → ((tss : Node) × (find id c.slice ≡ some tss))
      → Moved k c (add_temp_to_children ds id src_id c)
  add_temp_to_children-IsBalanced id src_id k c b (dest, at) (src, src_at) (tss, tss_at) =
      let s = b.sound id dest at in
      let (dest', tss', done, alike, values, flag, sized, tss_total, tss_all, totals) =
        with_children-total ds dest src tss s.values (b.sized id tss tss_at)
          (b.sound src_id src src_at).values.1 in
      (
        record { tree = put id dest' c.tree; slice = put id tss' c.slice },
        add_step id src_id c dest src dest' tss tss' at tss_at src_at done,
        record {
          sound =
              AllSound-put ds top c.tree id dest' b.sound
                (IsSound-Alike ds top c.tree id dest dest' s alike values);
          sized = Sized-put (get_num_profile_values ds) id tss' c.slice sized b.sized;
          fresh = λ j other other_at dirty.
              let was = sym (is_dirty-same id j dest dest' c.tree at flag) ∙ dirty in
              elim (find-put_inv id j tss' other c.slice other_at) [
                | inl (same, now) ↦
                    let (zero_calls, zero_values) = b.fresh id tss tss_at (rw same was) in
                    rw now (tss_total ∙ zero_calls, ap all_zero tss_all ∙ zero_values)
                | inr (_, old) ↦ b.fresh j other old was
              ];
          known =
              known_put id tss' c.slice c.tree (put id dest' c.tree)
                (λ j. Has-put id j dest' c.tree) (dest, at) b.known;
          sorted = Sorted-put id tss' c.slice b.sorted;
          total = λ q added j. written_total q id j c dest' tss' (b.total q added j) (
              totals q added (base q id)
                (own_total q id c dest tss (b.total q added id) at tss_at));
        },
        (
          λ j. Has-put id j dest' c.tree,
          λ j lt. is_dirty-same id j dest dest' c.tree at flag,
          λ j. slice-put id j tss' c.slice,
        ),
      )

  flush_step :
      (id : ℕ) (c : Clearing) (node node' : RecordNode) (tss tss' : Node)
      → find id c.tree ≡ some node
      → find id c.slice ≡ some tss
      → flush_node ds node tss ≡ some (node', tss')
      → flush ds id c ≡ some (record { tree = put id node' c.tree; slice = put id tss' c.slice })
  unfolding flush
  flush_step id c node node' tss tss' a b e = rw (a, b, e) refl

  -- The end of `ClearDirtyNode` keeps the balance.
  pub flush-IsBalanced :
      (id : ℕ) (c : Clearing)
      → IsBalanced ds top base c
      → Has id c.tree
      → is_dirty id c.tree ≡ true
      → ((tss : Node) × (find id c.slice ≡ some tss))
      → Moved id c (flush ds id c)
  flush-IsBalanced id c b (node, at) dirty (tss, tss_at) =
      let s = b.sound id node at in
      let (zero_calls, zero_values) = b.fresh id tss tss_at dirty in
      let (node', tss', done, alike, values, flag, sized, totals) =
        flush_node-total ds node tss s.values (b.sized id tss tss_at) zero_values in
      (
        record { tree = put id node' c.tree; slice = put id tss' c.slice },
        flush_step id c node node' tss tss' at tss_at done,
        record {
          sound =
              AllSound-put ds top c.tree id node' b.sound
                (IsSound-Alike ds top c.tree id node node' s alike values);
          sized = Sized-put (get_num_profile_values ds) id tss' c.slice sized b.sized;
          fresh = λ j other other_at still. elim (find-put_inv id j tss' other c.slice other_at) [
            | inl (same, now) ↦
                absurd (ground (arith, is_dirty-put id j node' c.tree, still, same, flag))
            | inr (different, old) ↦
                b.fresh j other old
                  (ground (arith, is_dirty-put id j node' c.tree, still, different))
          ];
          known =
              known_put id tss' c.slice c.tree (put id node' c.tree)
                (λ j. Has-put id j node' c.tree) (node, at) b.known;
          sorted = Sorted-put id tss' c.slice b.sorted;
          total = λ q added j. written_total q id j c node' tss' (b.total q added j) (
              totals q added (base q id) zero_calls
                (own_total q id c node tss (b.total q added id) at tss_at));
        },
        (
          λ j. Has-put id j node' c.tree,
          λ j lt. ground (arith, is_dirty-put id j node' c.tree, lt),
          λ j. slice-put id j tss' c.slice,
        ),
      )
