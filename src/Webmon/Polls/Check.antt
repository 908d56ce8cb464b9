-- ===== src/Webmon/Polls/Check.antt =====
-- webmon/data_store.cpp: the polls of a thread as steps, and what `CheckAllTimeSlice` compares.
use llprof.Base.{
  ℕ, suc, ◌<◌, ◌≡◌, refl, sym, ap, subst, ◌∙◌, inl, inr, false, none, some, List, [], ◌∷◌, map,
  length, Map, find, put, Text, length-map, arith,
}
use llprof.Protocol.{Slide}
use llprof.Webmon.MessageBuf.{MessageBuf}
use llprof.Webmon.Slices.{Merged, merge_time_slice}
use llprof.Webmon.SliceLookup.{tree_at}
use llprof.Webmon.Merge.{Known, count, merge_range, no_amount}
use llprof.Webmon.Quantity.{Quantity, IsAdded}
use llprof.Webmon.Nodes.{
  parents, Ds, RecordNode, new_node, new_record_node, resize, get_num_profile_values, is_attr_node,
  update, set_data_store, set_record_data_store,
}
use llprof.Webmon.Current.{ThreadStore, set_up_node, add_current_node, new_thread_store}
use llprof.Webmon.Clear.{statics}
use llprof.Webmon.Store.{store}
use llprof.Webmon.Totals.{Has, AllSound, AllSound-put, held}
use llprof.Webmon.Totals.Moves.{length-resize_new, zero_at-resize_new}
use llprof.Webmon.Polls.{IsPlain}
use llprof.Webmon.Polls.Poll.{IsSettled}
use llprof.Webmon.Polls.Step.{Storable, store-IsSettled}

-- The `DataStore` at a poll: its time and its names go on.
abbrev pub at_poll : Ds → ℕ → Map Text → Ds
at_poll ds t names = record ds { current_time_number = t; name_table = names }

-- The states of a thread, with the time of its last poll. A poll comes at a later time, under any
-- names in which the id 0 is no attribute, with messages that can be stored.
pub data Polled (ds : Ds) (slides : List Slide) (limit : ℕ) : ℕ → ThreadStore → Type 0 where
  created : Polled ds slides limit 0 (new_thread_store ds)
  polled :
      {now : ℕ} {ts ts' : ThreadStore} (t : ℕ) (names : Map Text) (buf nibuf : MessageBuf)
      → Polled ds slides limit now ts
      → now < t
      → is_attr_node (at_poll ds t names) new_node ≡ false
      → Storable ds limit slides buf nibuf ts.current_tree
      → store (at_poll ds t names) slides buf nibuf ts ≡ some ts'
      → Polled ds slides limit t ts'

AllSound-again :
    (ds ds' : Ds) (limit : ℕ) (tree : Map RecordNode)
    → get_num_profile_values ds' ≡ get_num_profile_values ds
    → AllSound ds limit tree
    → AllSound ds' limit tree
AllSound-again ds ds' limit tree same sound id node e =
    let s = sound id node e in
    record {
      values = rw same s.values;
      children = s.children;
      above = s.above;
      below = s.below;
      parent = s.parent;
    }

IsSettled-again :
    (ds ds' : Ds) (limit now : ℕ) (ts : ThreadStore)
    → ds'.record_metadata ≡ ds.record_metadata
    → IsSettled ds limit now ts
    → IsSettled ds' limit now ts
IsSettled-again ds ds' limit now ts same st = record {
  sound = AllSound-again ds ds' limit ts.current_tree (ap length same) st.sound;
  root = st.root;
  no_attrs = st.no_attrs;
  on_time = st.on_time;
  later = st.later;
  known = λ u.
      subst (λ n. Known n (parents ts.current_tree) (tree_at u ts.slices)) (sym (ap length same))
        (st.known u);
  total = λ q added.
      st.total q (subst (λ mds. IsAdded (map (λ md. md.static_value_flag) mds) q) same added);
}

-- The root, as the constructor makes it.
root_node : Ds → RecordNode
root_node ds =
    let n = get_num_profile_values ds in
    record new_record_node {
      basic = record new_node { id = 1; all_values = resize n []; children_values = resize n [] };
      temp_values = resize n [];
      gnid = 1;
    }

new_tree : (ds : Ds) → (new_thread_store ds).current_tree ≡ (1, root_node ds) ∷ []
unfolding new_thread_store root_node update add_current_node set_up_node set_record_data_store
    set_data_store put find
new_tree ds = refl

root_sound : (ds : Ds) (limit : ℕ) → 1 < limit → AllSound ds limit ((1, root_node ds) ∷ [])
unfolding root_node find put
root_sound ds limit lt =
    let width = length-resize_new (get_num_profile_values ds) in
    AllSound-put ds limit [] 1 (root_node ds) (λ id node e. absurd (cc))
      (record {
        values = ((width, width), width, omega arith);
        children = tt;
        above = omega arith;
        below = lt;
        parent = inr (omega arith, refl);
      })

nothing_held : (q : Quantity) (ds : Ds) (id : ℕ) → held q id ((1, root_node ds) ∷ []) ≡ 0
unfolding find root_node
nothing_held q ds id =
    let n = get_num_profile_values ds in
    ground
      (arith, no_amount q (root_node ds).basic refl (zero_at-resize_new n) (zero_at-resize_new n))

tree_at-new : (ds : Ds) (u : ℕ) → tree_at u (new_thread_store ds).slices ≡ []
unfolding new_thread_store
tree_at-new ds u = ground arith

created-IsSettled : (ds : Ds) (limit : ℕ) → 1 < limit → IsSettled ds limit 0 (new_thread_store ds)
unfolding new_thread_store find
created-IsSettled ds limit lt = record {
  sound = subst (AllSound ds limit) (sym (new_tree ds)) (root_sound ds limit lt);
  root = subst (Has 1) (sym (new_tree ds)) (root_node ds, refl);
  no_attrs = refl;
  on_time = inl refl;
  later = λ u after. tree_at-new ds u;
  known = λ u.
      subst (Known (get_num_profile_values ds) (parents (new_thread_store ds).current_tree))
        (sym (tree_at-new ds u)) tt;
  total = λ q added id. ap (held q id) (new_tree ds) ∙ nothing_held q ds id;
}

-- Every state that polls lead to is settled.
pub Polled-IsSettled :
    (ds : Ds) (slides : List Slide) (limit now : ℕ) (ts : ThreadStore)
    → IsPlain ds
    → 1 < limit
    → Polled ds slides limit now ts
    → IsSettled ds limit now ts
Polled-IsSettled ds slides limit now ts plain lt (created) = created-IsSettled ds limit lt
Polled-IsSettled ds slides limit now ts plain lt
      (polled {now = before} {ts = old} t names buf nibuf run later plain_root storable e) =
    let st =
      IsSettled-again ds (at_poll ds t names) limit before old refl
        (Polled-IsSettled ds slides limit before old plain lt run) in
    let (ts', done, st') =
      store-IsSettled (at_poll ds t names) limit before slides buf nibuf old plain plain_root st
        later storable in
    let same : ts' ≡ ts = cc in
    subst (IsSettled ds limit t) same (IsSettled-again (at_poll ds t names) ds limit t ts' refl st')

-- In any state that polls lead to, the next poll ends with success, with the fuels that the
-- definitions give their loops, and leads to such a state: at a later time, with a record for each
-- node after its parent's record, which has a smaller id, and with MSG_NOWINFO as long as the columns
-- need. Attribute nodes and the single tree mode are off, and the name id 0 is no attribute.
pub store-Polled :
    (ds : Ds) (slides : List Slide) (limit now t : ℕ) (ts : ThreadStore) (names : Map Text)
    (buf nibuf : MessageBuf)
    → IsPlain ds
    → 1 < limit
    → Polled ds slides limit now ts
    → now < t
    → is_attr_node (at_poll ds t names) new_node ≡ false
    → Storable ds limit slides buf nibuf ts.current_tree
    → (ts' : ThreadStore) × (store (at_poll ds t names) slides buf nibuf ts ≡ some ts')
      × Polled ds slides limit t ts'
store-Polled ds slides limit now t ts names buf nibuf plain lt run later plain_root storable =
    let st =
      IsSettled-again ds (at_poll ds t names) limit now ts refl
        (Polled-IsSettled ds slides limit now ts plain lt run) in
    let (ts', done, _) =
      store-IsSettled (at_poll ds t names) limit now slides buf nibuf ts plain plain_root st later
        storable in
    (ts', done, polled t names buf nibuf run later plain_root storable done)

-- The start of `MergeTimeSlice` in `CheckAllTimeSlice`: an empty map.
abbrev pub check_start : ThreadStore → Merged
check_start ts = record { slices = ts.slices; integrated = []; last_tss = none }

-- In any state that polls lead to, the merge of `CheckAllTimeSlice` over the times from 0 to the last
-- poll succeeds, and each node has as many calls in its result as in `current_tree_`, and, modulo
-- 2^64, the same values and the same values of its children in each column that is not static: the
-- slices add up to the tree. Attribute nodes and the single tree mode are off.
pub check_all_time_slice-totals :
    (ds : Ds) (slides : List Slide) (limit now : ℕ) (ts : ThreadStore)
    → IsPlain ds
    → 1 < limit
    → Polled ds slides limit now ts
    → (m : Merged) × (merge_time_slice
          (statics ds)
          (parents ts.current_tree)
          0
          (suc now)
          (check_start ts)
        ≡ some m)
      × ((q : Quantity)
          → IsAdded (statics ds) q
          → (id : ℕ) → count q id m.integrated ≡ held q id ts.current_tree)
unfolding find
check_all_time_slice-totals ds slides limit now ts plain lt run =
    let st = Polled-IsSettled ds slides limit now ts plain lt run in
    let width = length-map (λ md. md.static_value_flag) ds.record_metadata in
    let (m, done, counts) =
      merge_range (statics ds) (parents ts.current_tree) (suc now) 0 (check_start ts)
        (λ id node e. absurd (cc))
        (λ u.
          subst (λ n. Known n (parents ts.current_tree) (tree_at u ts.slices)) (sym width)
            (st.known u)) in
    (m, done, λ q added id. counts q added id ∙ sym (st.total q added id))
