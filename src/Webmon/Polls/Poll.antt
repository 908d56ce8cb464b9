-- ===== src/Webmon/Polls/Poll.antt =====
-- Webmon/Store: one call of `Store`, from the state that the calls before it left.
use llprof.Base.{
  ℕ, suc, ◌+◌, ◌-◌, ◌≤◌, ◌<◌, ◌^◌, ◌≡◌, ◌≢◌, refl, sym, ap, subst, ◌∙◌, inl, inr, Bool, false, some,
  [], ◌∷◌, Map, Sorted, find, get_elem?, ◌==◌, ==_refl, Bool-cases, Option-cases, bind_some, add64,
  arith,
}
use llprof.Webmon.Slices.{Node, TimeSlice, Slices, get_time_slice}
use llprof.Webmon.SliceLookup.{tree_at}
use llprof.Webmon.Merge.{Known, count, add_counts, add_range}
use llprof.Webmon.Quantity.{Quantity, of_calls, of_all, of_children, amount, IsAdded}
use llprof.Webmon.Nodes.{parents, Ds, RecordNode, new_node, get_num_profile_values, is_attr_node}
use llprof.Webmon.Current.{ThreadStore}
use llprof.Webmon.Clear.{Clearing, clear_dirty_node, statics}
use llprof.Webmon.Store.{top, clear_into, clear_found, store_slice}
use llprof.Webmon.Totals.{Has, AllSound, held, IsBalanced}
use llprof.Webmon.Totals.Descent.{clear_dirty_node-IsBalanced}
use llprof.Webmon.Polls.{OnTime}
use llprof.Webmon.Polls.Placing.{
  get_time_slice-OnTime, with_slice, tree_at-with_slice, tree_at-with_slice_ne,
}
use llprof.Webmon.Polls.Sums.{
  add_counts-Sorted, add_range-last, add_range-below, add_range_empty, Known-tree, Known-grown,
}

-- What holds of a thread between the calls of `Store`, the last at the time `now`: each node has the
-- calls and the values that the slices have of it together.
pub record IsSettled (ds : Ds) (limit now : ℕ) (ts : ThreadStore) : Type 0 where
  pub sound : AllSound ds limit ts.current_tree
  pub root : Has 1 ts.current_tree
  pub no_attrs : ts.attr_node_map ≡ []
  pub on_time : OnTime now ts.slices
  pub later : (u : ℕ) → now < u → tree_at u ts.slices ≡ []
  pub known :
      (u : ℕ) → Known (get_num_profile_values ds) (parents ts.current_tree) (tree_at u ts.slices)
  pub total :
      (q : Quantity)
      → IsAdded (statics ds) q
      → (id : ℕ) → held q id ts.current_tree ≡ add_range q id ts.slices 0 (suc now) 0

find-top :
    (id : ℕ) (node : RecordNode) (tree : Map RecordNode) → find id tree ≡ some node → id ≤ top tree
unfolding find top
find-top id node [] e = absurd (cc)
find-top id node ((j, other) ∷ tree) e = ground (arith, e, find-top id node tree)

top_below :
    (limit : ℕ) (tree : Map RecordNode)
    → 0 < limit
    → ((j : ℕ) → Has j tree → j < limit)
    → top tree < limit
unfolding top find
top_below limit [] pos all = pos
top_below limit ((j, node) ∷ tree) pos all =
    let rest = top_below limit tree pos (λ k has. all k (elim (Bool-cases (j == k)) [
      | inl same ↦ (node, rw (same, find) refl)
      | inr other ↦ (has.0, rw (other, find) has.1)
    ])) in
    ground (arith, rest, all j (node, rw (==_refl j, find) refl))

-- Another bound on the ids.
AllSound-bound :
    (ds : Ds) (limit limit' : ℕ) (tree : Map RecordNode)
    → ((j : ℕ) → Has j tree → j < limit')
    → AllSound ds limit tree
    → AllSound ds limit' tree
AllSound-bound ds limit limit' tree below sound id node e =
    let s = sound id node e in
    record {
      values = s.values;
      children = s.children;
      above = s.above;
      below = below id (node, e);
      parent = s.parent;
    }

amount_small : (q : Quantity) (node : Node) → node.call_count < 2 ^ 64 → amount q node < 2 ^ 64
amount_small (of_calls) node small = small
amount_small (of_all i) node small = omega arith
amount_small (of_children i) node small = omega arith

held_small :
    (q : Quantity) (ds : Ds) (limit id : ℕ) (tree : Map RecordNode)
    → AllSound ds limit tree
    → held q id tree < 2 ^ 64
held_small q ds limit id tree sound = elim (Option-cases (find id tree)) [
  | inl none_there ↦ rw (none_there, held) (omega arith)
  | inr (node, at) ↦ rw (at, held) (amount_small q node.basic (sound id node at).values.2)
]

-- Before `ClearDirtyNode`, the slice has nothing yet.
IsBalanced-start :
    (ds : Ds) (limit : ℕ) (tree : Map RecordNode)
    → AllSound ds limit tree
    → IsBalanced ds limit (λ q id. held q id tree) (record { tree = tree; slice = [] })
unfolding find
IsBalanced-start ds limit tree sound = record {
  sound = sound;
  sized = λ id node e. absurd (cc);
  fresh = λ id node e. absurd (cc);
  known = λ id node e. absurd (cc);
  sorted = tt;
  total = λ q added id. let small = held_small q ds limit id tree sound in omega (arith, small);
}

clear_step :
    (ds : Ds) (slices : Slices) (i : ℕ) (ts : ThreadStore) (tss : TimeSlice) (b : Bool)
    (c : Clearing)
    → get_elem? slices.time_slice i ≡ some tss
    → clear_dirty_node
        (suc (top ts.current_tree))
        ds
        ts.attr_node_map
        1
        (record { tree = ts.current_tree; slice = tss.tree })
      ≡ some (b, c)
    → clear_into ds slices i ts
      ≡ some (record ts {
        current_tree = c.tree;
        slices =
            with_slice
              (λ s. record s {
                tree = c.slice;
                now_values = ts.now_values;
                running_node = ts.running_node;
              })
              i
              slices;
      })
unfolding clear_into
clear_step ds slices i ts tss b c at e =
    bind_some (get_elem? slices.time_slice i) _ tss at ∙ rw e refl

found_step :
    (ds : Ds) (slices : Slices) (i : ℕ) (ts : ThreadStore)
    → get_time_slice ds.current_time_number ts.slices ≡ (slices, some i)
    → store_slice ds ts ≡ clear_into ds slices i ts
unfolding store_slice clear_found
found_step ds slices i ts e = ap (clear_found ds ts) e

-- The sums over the times, when the slice of a later time is filled.
sum_step :
    (q : Quantity) (id now t : ℕ) (s s' : Slices) (slice : Map Node) (before after : ℕ)
    → now < t
    → before ≡ add_range q id s 0 (suc now) 0
    → before < 2 ^ 64
    → ((u : ℕ) → now < u → tree_at u s ≡ [])
    → ((u : ℕ) → u ≢ t → tree_at u s' ≡ tree_at u s)
    → tree_at t s' ≡ slice
    → Sorted slice
    → after ≡ add64 before (count q id slice)
    → after ≡ add_range q id s' 0 (suc t) 0
sum_step q id now t s s' slice before after lt sum small empty same here sorted moved =
    let k = t - suc now in
    let e : suc now + k ≡ t = omega (arith, lt) in
    let old : add_range q id s' 0 t 0 ≡ before =
      add_range-below q id s s' t 0 (λ u below. same u (omega (arith, below)))
      ∙ ap (λ n. add_range q id s 0 n 0) (sym e)
      ∙ add_range_empty q id s (suc now) k 0 (λ u le. empty u (omega (arith, le)))
      ∙ sym sum in
    moved
    ∙ sym (add_counts-Sorted q id before slice small sorted)
    ∙ ap (add_counts q id slice) (sym old)
    ∙ ap (λ tree. add_counts q id tree (add_range q id s' 0 t 0)) (sym here)
    ∙ sym (add_range-last q id s' t 0)

module _ (ds : Ds) (limit : ℕ) (plain_root : is_attr_node ds new_node ≡ false) where
  -- The part of `Store` after the loop over the records.
  pub store_slice-IsSettled :
      (now : ℕ) (ts : ThreadStore)
      → IsSettled ds limit now ts
      → now < ds.current_time_number
      → (ts' : ThreadStore) × (store_slice ds ts ≡ some ts')
        × IsSettled ds limit ds.current_time_number ts'
  store_slice-IsSettled now ts st lt =
      let t = ds.current_time_number in
      let n = get_num_profile_values ds in
      let tree = ts.current_tree in
      let small =
        top_below limit tree (omega (arith, (st.sound 1 st.root.0 st.root.1).below))
          (λ j has. (st.sound j has.0 has.1).below) in
      let (s', i, tss, found, at, here, blank, same) =
        get_time_slice-OnTime t ts.slices
          (elim st.on_time [ inl nil ↦ inl nil | inr le ↦ inr (omega (arith, le, lt)) ]) in
      let empty : tss.tree ≡ [] = blank ∙ st.later t lt in
      let start = IsBalanced-start ds (suc (top tree)) tree (
        AllSound-bound ds limit (suc (top tree)) tree
          (λ j has. let le = find-top j has.0 tree has.1 in omega (arith, le)) st.sound) in
      let (b, c, cleared, bal, keep) =
        clear_dirty_node-IsBalanced ds (suc (top tree)) (λ q id. held q id tree) (suc (top tree)) 1
          (record { tree = tree; slice = [] }) plain_root (omega arith) st.root start in
      let f : TimeSlice → TimeSlice = λ s. record s {
        tree = c.slice;
        now_values = ts.now_values;
        running_node = ts.running_node;
      } in
      let filled = tree_at-with_slice f t i s' tss at here in
      let others : (u : ℕ) → u ≢ t → tree_at u (with_slice f i s') ≡ tree_at u ts.slices =
        λ u ne. tree_at-with_slice_ne f t u i s' at ne ∙ same u in
      (
        record ts { current_tree = c.tree; slices = with_slice f i s' },
        found_step ds s' i ts found
            ∙ clear_step ds s' i ts tss b c here (rw (empty, st.no_attrs) cleared),
        record {
          sound =
              AllSound-bound ds (suc (top tree)) limit c.tree
                (λ j has. omega (arith, small, (bal.sound j has.0 has.1).below)) bal.sound;
          root = keep.0 1 st.root;
          no_attrs = st.no_attrs;
          on_time = inr (ground (arith, at.0));
          later =
              λ u after. others u (omega (arith, after)) ∙ st.later u (omega (arith, after, lt));
          known = λ u. elim (Bool-cases (u == t)) [
            | inl eq ↦
                let e : u ≡ t = ground (arith, eq) in
                subst (λ v. Known n (parents c.tree) (tree_at v (with_slice f i s'))) (sym e)
                  (subst (Known n (parents c.tree)) (sym filled)
                    (Known-tree n c.tree c.slice bal.sorted bal.sized bal.known))
            | inr ne ↦
                subst (Known n (parents c.tree)) (sym (others u (ground (arith, ne))))
                  (Known-grown n tree c.tree (tree_at u ts.slices) keep.0 (st.known u))
          ];
          total = λ q added id.
              sum_step q id now t ts.slices (with_slice f i s') c.slice (held q id tree)
                (held q id c.tree) lt (st.total q added id) (held_small q ds limit id tree st.sound)
                st.later others filled bal.sorted (bal.total q added id);
        },
      )
