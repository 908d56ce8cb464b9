-- ===== src/Webmon/Polls/Step.antt =====
-- Webmon/Store: `Store` from its first line to its last.
use llprof.Base.{ℕ, suc, ◌+◌, ◌*◌, ◌≤◌, ◌<◌, ◌≡◌, refl, ◌∙◌, false, some, List, [], Map, length}
use llprof.CallTree.{SerializedInfo}
use llprof.Protocol.{Slide}
use llprof.Webmon.MessageBuf.{MessageBuf, set_current_ptr}
use llprof.Webmon.Samples.{offsets_of, samples, read_samples}
use llprof.Webmon.Nodes.{Ds, RecordNode, new_node, get_num_profile_values, is_attr_node}
use llprof.Webmon.Current.{ThreadStore, unmark_running_nodes, mark_running_nodes}
use llprof.Webmon.Store.{store_records, store_now_info, update_now_values, store_slice, store}
use llprof.Webmon.SliceLookup.{tree_at}
use llprof.Webmon.Totals.Growth.{Kept-Has, Tended}
use llprof.Webmon.Totals.Marking.{unmark_running_nodes-Tended, mark_running_nodes-Tended}
use llprof.Webmon.Polls.{IsPlain, AllFit}
use llprof.Webmon.Polls.Records.{store_records-samples, store_samples-Tended}
use llprof.Webmon.Polls.NowInfo.{store_now_info-total}
use llprof.Webmon.Polls.Sums.{Known-grown}
use llprof.Webmon.Polls.Poll.{IsSettled, store_slice-IsSettled}

module _ (ds : Ds) (limit : ℕ) where
  IsSettled-Tended :
      (now : ℕ) (ts : ThreadStore) (tree : Map RecordNode)
      → IsSettled ds limit now ts
      → Tended ds limit ts.current_tree tree
      → IsSettled ds limit now (record ts { current_tree = tree })
  IsSettled-Tended now ts tree st (sound, kept, same) = record {
    sound = sound;
    root = Kept-Has ts.current_tree tree kept 1 st.root;
    no_attrs = st.no_attrs;
    on_time = st.on_time;
    later = st.later;
    known = λ u.
        Known-grown (get_num_profile_values ds) ts.current_tree tree (tree_at u ts.slices)
          (Kept-Has ts.current_tree tree kept) (st.known u);
    total = λ q added id. same q id ∙ st.total q added id;
  }

  IsSettled-now_values :
      (now v : ℕ) (values : List ℕ) (ts : ThreadStore)
      → IsSettled ds limit now ts
      → IsSettled ds limit now (update_now_values v values ts)
  unfolding update_now_values
  IsSettled-now_values now v values ts st = record {
    sound = st.sound;
    root = st.root;
    no_attrs = st.no_attrs;
    on_time = st.on_time;
    later = st.later;
    known = st.known;
    total = st.total;
  }

-- The messages that `Store` takes: records that fit, and the current values of all columns.
abbrev pub Storable : Ds → ℕ → List Slide → MessageBuf → MessageBuf → Map RecordNode → Type 0
Storable ds limit slides buf nibuf tree =
    ((infos : List SerializedInfo) × (samples slides (get_num_profile_values ds) buf.buf
        ≡ some infos)
      × AllFit ds limit tree [] infos)
    × (get_num_profile_values ds * 8 + 24 ≤ length nibuf.buf)

store_step :
    (ds : Ds) (slides : List Slide) (buf nibuf : MessageBuf) (ts ts1 ts2 ts3 ts4 : ThreadStore)
    → unmark_running_nodes ts ≡ some ts1
    → store_now_info ds nibuf ts1 ≡ some ts2
    → mark_running_nodes ds ts2 ≡ some ts3
    → store_records (suc (length buf.buf)) ds (offsets_of slides) (set_current_ptr buf 8) ts3
      ≡ some ts4
    → store ds slides buf nibuf ts ≡ store_slice ds ts4
unfolding store
store_step ds slides buf nibuf ts ts1 ts2 ts3 ts4 a b c d = rw (a, b, c, d) refl

read_as :
    (slides : List Slide) (n : ℕ) (buf : MessageBuf) (infos : List SerializedInfo)
    → samples slides n buf.buf ≡ some infos
    → read_samples (suc (length buf.buf)) (offsets_of slides) n (set_current_ptr buf 8) ≡ some infos
unfolding samples
read_as slides n buf infos e = e

-- `Store` ends with success and keeps the calls in step.
pub store-IsSettled :
    (ds : Ds) (limit now : ℕ) (slides : List Slide) (buf nibuf : MessageBuf) (ts : ThreadStore)
    → IsPlain ds
    → is_attr_node ds new_node ≡ false
    → IsSettled ds limit now ts
    → now < ds.current_time_number
    → Storable ds limit slides buf nibuf ts.current_tree
    → (ts' : ThreadStore) × (store ds slides buf nibuf ts ≡ some ts')
      × IsSettled ds limit ds.current_time_number ts'
unfolding update_now_values
store-IsSettled ds limit now slides buf nibuf ts plain plain_root st lt ((infos, read, fit), long) =
    let (tree1, unmarked, one) = unmark_running_nodes-Tended ds limit plain.0 plain.1 ts st.sound in
    let ts1 = record ts { current_tree = tree1 } in
    let st1 = IsSettled-Tended ds limit now ts tree1 st one in
    let (v, values, informed) = store_now_info-total ds nibuf ts1 long in
    let ts2 = update_now_values v values ts1 in
    let st2 = IsSettled-now_values ds limit now v values ts1 st1 in
    let (tree3, marked, three) = mark_running_nodes-Tended ds limit plain.0 plain.1 ts2 st2.sound in
    let ts3 = record ts2 { current_tree = tree3 } in
    let st3 = IsSettled-Tended ds limit now ts2 tree3 st2 three in
    let (tree4, stored, four) =
      store_samples-Tended ds limit plain infos ts.current_tree [] ts3 st3.sound
        (λ j has.
          Kept-Has ts2.current_tree tree3 three.1 j (Kept-Has ts.current_tree tree1 one.1 j has))
        (λ j was. absurd was) fit in
    let ts4 = record ts3 { current_tree = tree4 } in
    let st4 = IsSettled-Tended ds limit now ts3 tree4 st3 four in
    let (ts', done, st') = store_slice-IsSettled ds limit plain_root now ts4 st4 lt in
    (
      ts',
      store_step ds slides buf nibuf ts ts1 ts2 ts3 ts4 unmarked informed marked (
            store_records-samples ds (offsets_of slides) (suc (length buf.buf))
              (set_current_ptr buf 8) ts3 infos
              (read_as slides (get_num_profile_values ds) buf infos read)
            ∙ stored)
          ∙ done,
      st',
    )
