-- ===== src/Webmon/Store.antt =====
-- webmon/data_store.cpp, `ThreadStore::Store` and the functions that it calls last:
-- `UpdateNowValues`, `GetCurrentTimeSlice`, `TimeSliceStore::SetNowValues`.
use llprof.Base.{
  ℕ, zero, suc, ◌+◌, ◌*◌, ◌||◌, true, false, Option, none, some, List, [], ◌∷◌, ◌++◌, Map, length,
  drop, modify, get_elem?, ltb, leb, if◌then◌else◌, ◌>>=◌, ◌>>◌, assert,
}
use llprof.CallTree.{SerializedInfo}
use llprof.Protocol.{Slide}
use llprof.Webmon.MessageBuf.{MessageBuf, get_current, set_current_ptr, seek, get32, is_eof}
use llprof.Webmon.Samples.{Offsets, offsets_of, read_values, read_sample, get_member_offset_of}
use llprof.Webmon.Slices.{Slices, get_time_slice}
use llprof.Webmon.Nodes.{Ds, RecordNode, get_num_profile_values}
use llprof.Webmon.Current.{ThreadStore, unmark_running_nodes, mark_running_nodes, store_sample}
use llprof.Webmon.Clear.{clear_dirty_node}

-- The loop of `Store` over the records of MSG_PROFILE_DATA. `none` also stands for a loop that has
-- not ended when the fuel is used up.
unfoldable pub store_records : ℕ → Ds → Offsets → MessageBuf → ThreadStore → Option ThreadStore
unfolding read_sample store_sample
store_records zero ds o buf ts = none
store_records (suc f) ds o buf ts = elim (is_eof buf) [
  | true ↦ some ts
  | false ↦ do
    s ← read_sample o (get_num_profile_values ds) (get_current buf)
    ts' ← store_sample ds s ts
    buf' ← seek buf o.record_size
    store_records f ds o buf' ts'
]

-- The same loop over records that are read already.
unfoldable pub store_samples : Ds → List SerializedInfo → ThreadStore → Option ThreadStore
unfolding store_sample
store_samples ds [] ts = some ts
store_samples ds (s ∷ samples) ts = do ts' ← store_sample ds s ts; store_samples ds samples ts'

-- `UpdateNowValues`: `memcpy` over the first values.
unfoldable pub update_now_values : ℕ → List ℕ → ThreadStore → ThreadStore
update_now_values running_node values ts = record ts {
  running_node = running_node;
  now_values = values ++ drop (length values) ts.now_values;
}

-- What `Store` does with MSG_NOWINFO. The assertion compares unsigned numbers: a message that is too
-- short passes it, and is then read out of bounds.
unfoldable pub store_now_info : Ds → MessageBuf → ThreadStore → Option ThreadStore
unfolding update_now_values
store_now_info ds nibuf ts = do
  (running_node, ni) ← get32 (set_current_ptr nibuf 8)
  let ni' = set_current_ptr ni 16
  assert (ltb (length ni'.buf) 24 || leb (get_num_profile_values ds * 8 + 24) (length ni'.buf))
  values ← read_values (get_num_profile_values ds) (get_current ni')
  some (update_now_values running_node values ts)

-- The greatest id of a node; ids below it bound the depth of the tree.
unfoldable pub top : Map RecordNode → ℕ
top [] = 0
top ((id, node) ∷ tree) = let rest = top tree in if ltb rest id then id else rest

-- The rest of `Store` with the slice at hand, which is the one at the position `i`.
unfoldable pub clear_into : Ds → Slices → ℕ → ThreadStore → Option ThreadStore
unfolding clear_dirty_node top
clear_into ds slices i ts = do
  tss ← get_elem? slices.time_slice i
  (_, c) ←
      clear_dirty_node (suc (top ts.current_tree)) ds ts.attr_node_map 1
        (record { tree = ts.current_tree; slice = tss.tree })
  some (record ts {
    current_tree = c.tree;
    slices = record slices {
      time_slice = modify slices.time_slice i (λ s. record s {
        tree = c.slice;
        now_values = ts.now_values;
        running_node = ts.running_node;
      });
    };
  })

unfoldable pub clear_found : Ds → ThreadStore → Slices × Option ℕ → Option ThreadStore
unfolding clear_into
clear_found ds ts (slices, none) = none
clear_found ds ts (slices, some i) = clear_into ds slices i ts

-- The part of `Store` after the loop over the records.
unfoldable pub store_slice : Ds → ThreadStore → Option ThreadStore
unfolding clear_found get_time_slice
store_slice ds ts = clear_found ds ts (get_time_slice ds.current_time_number ts.slices)

-- `Store`, with the messages MSG_PROFILE_DATA and MSG_NOWINFO of the thread.
unfoldable pub store : Ds → List Slide → MessageBuf → MessageBuf → ThreadStore → Option ThreadStore
unfolding unmark_running_nodes mark_running_nodes store_now_info store_records store_slice
    get_member_offset_of
store ds slides buf nibuf ts = do
  ts1 ← unmark_running_nodes ts
  ts2 ← store_now_info ds nibuf ts1
  ts3 ← mark_running_nodes ds ts2
  ts4 ← store_records (suc (length buf.buf)) ds (offsets_of slides) (set_current_ptr buf 8) ts3
  store_slice ds ts4
