-- ===== src/Webmon/Integrate.antt =====
-- webmon/data_store.cpp, `GlobalThreadStore::Integrate` and `GlobalDataStore::Integrate`: the current
-- slices of all threads go into the thread of the global store. `none` is a use of NULL or an access
-- out of bounds.
mod Numbers
mod Aligned
mod Adding
mod Examples
use llprof.Base.{
  ℕ, zero, suc, ◌+◌, Bool, true, false, Option, none, some, List, [], ◌∷◌, Map, find, put, Text,
  length, get_elem?, modify, if◌then◌else◌, ◌==◌, add64, ◌>>=◌,
}
use llprof.Webmon.Slices.{Node, TimeSlice, Slices, get_time_slice}
use llprof.Webmon.Sequence.{Sequence, seq_of, new_sequence}
use llprof.Webmon.Nodes.{
  RecordMetadata, Ds, RecordNode, get_num_profile_values, get_name_from_id, update, get_slice_node,
}
use llprof.Webmon.Current.{ThreadStore, add_current_node, new_thread_store}
use llprof.Webmon.Clear.{add_values, is_added}
use llprof.Webmon.DataStore.{Globals, DataStore, ds_of}

-- What the loop over the nodes of a slice changes: `current_tree_` and the slice of the global
-- thread, its numbers, and the names of the global store.
pub record Integrating : Type 0 where
  pub tree : Map RecordNode
  pub slice : Map Node
  pub sequence : Sequence
  pub names : Map Text

-- The loop over the values and `AddCallCount`, for one of the two destinations.
unfoldable pub add_node : Ds → Node → Node → Option Node
unfolding add_values
add_node ds dest src = do
  all ← add_values is_added ds.record_metadata dest.all_values src.all_values
  children ← add_values is_added ds.record_metadata dest.children_values src.children_values
  some (record dest {
    all_values = all;
    children_values = children;
    call_count = add64 dest.call_count src.call_count;
  })

-- The number of the parent's global id; 0 when the source has no parent.
unfoldable pub parent_seq : Map RecordNode → RecordNode → Sequence → ℕ × Sequence
unfolding seq_of
parent_seq src_tree src_current sequence = elim (find src_current.basic.parent_id src_tree) [
  | none ↦ (0, sequence)
  | some parent ↦ seq_of parent.gnid sequence
]

-- A node of the global tree for a source, made when it is missing, under the number of its global id.
unfoldable pub new_dest : Ds → Text → RecordNode → ℕ → Integrating → ℕ × Sequence → Integrating
unfolding add_current_node update
new_dest ds name src_current dest_id st (parent_id, sequence) = record st {
  tree =
      update dest_id (λ node. record node { gnid = src_current.gnid })
        (add_current_node ds dest_id parent_id dest_id false st.tree);
  sequence = sequence;
  names = put dest_id name st.names;
}

unfoldable pub touch_dest :
    Ds → Map Text → Map RecordNode → RecordNode → ℕ → Integrating → Integrating
unfolding parent_seq new_dest get_name_from_id
touch_dest ds src_names src_tree src_current dest_id st = elim (find dest_id st.tree) [
  | some _ ↦ st
  | none ↦
      new_dest ds (get_name_from_id src_names src_current.basic.node_name) src_current dest_id st
        (parent_seq src_tree src_current st.sequence)
]

-- The additions to the node of the slice and to the node of the tree.
unfoldable pub add_dest : Ds → Node → ℕ → Integrating → Option Integrating
unfolding add_node get_slice_node
add_dest ds src dest_id st = do
  let slice = get_slice_node ds dest_id st.slice
  dest_current ← find dest_id st.tree
  dest ← find dest_id slice
  dest' ← add_node ds dest src
  basic ← add_node ds dest_current.basic src
  some (record st {
    tree = put dest_id (record dest_current { basic = basic }) st.tree;
    slice = put dest_id dest' slice;
  })

unfoldable pub integrate_under :
    Ds
    → Map Text
    → Map RecordNode
    → Node
    → RecordNode
    → Integrating
    → ℕ × Sequence
    → Option Integrating
unfolding touch_dest add_dest
integrate_under ds src_names src_tree src src_current st (dest_id, sequence) =
    add_dest ds src dest_id
      (touch_dest ds src_names src_tree src_current dest_id (record st { sequence = sequence }))

-- One round of the loop over the nodes of a source's slice.
unfoldable pub integrate_node :
    Ds → Map Text → Map RecordNode → Node → Integrating → Option Integrating
unfolding integrate_under seq_of
integrate_node ds src_names src_tree src st = do
  src_current ← find src.id src_tree
  integrate_under ds src_names src_tree src src_current st (seq_of src_current.gnid st.sequence)

unfoldable pub integrate_nodes :
    Ds → Map Text → Map RecordNode → Map Node → Integrating → Option Integrating
unfolding integrate_node
integrate_nodes ds src_names src_tree [] st = some st
integrate_nodes ds src_names src_tree ((_, src) ∷ nodes) st = do
  st' ← integrate_node ds src_names src_tree src st
  integrate_nodes ds src_names src_tree nodes st'

-- `GlobalThreadStore`, with the names of its `DataStore`.
pub record GlobalThreadStore : Type 0 where
  pub thread : ThreadStore
  pub sequence : Sequence
  pub names : Map Text

-- What the loop over the threads carries: the global thread, and `nowvalue_copied`.
pub record Integration : Type 0 where
  pub global : GlobalThreadStore
  pub nowvalue_copied : Bool

-- The present values are those of the first thread; `i` is the position of `dest_tss`.
unfoldable pub copy_now_values : ℕ → TimeSlice → Integration → Integration
copy_now_values i src_tss st =
    if st.nowvalue_copied
    then st
    else (let thread = st.global.thread in
        record {
          global = record st.global {
            thread = record thread {
              running_node = src_tss.running_node;
              now_values = src_tss.now_values;
              slices = record thread.slices {
                time_slice = modify thread.slices.time_slice i (λ tss. record tss {
                  now_values = src_tss.now_values;
                  running_node = src_tss.running_node;
                });
              };
            };
          };
          nowvalue_copied = true;
        })

-- The nodes of a source's slice, into the global thread.
unfoldable pub integrate_slice :
    Ds → ℕ → Map Text → Map RecordNode → TimeSlice → Integration → Option Integration
unfolding integrate_nodes
integrate_slice ds i src_names src_tree src_tss st = do
  let global = st.global
  let thread = global.thread
  dest_tss ← get_elem? thread.slices.time_slice i
  done ← integrate_nodes ds src_names src_tree src_tss.tree (record {
    tree = thread.current_tree;
    slice = dest_tss.tree;
    sequence = global.sequence;
    names = global.names;
  })
  some (record st {
    global = record {
      thread = record thread {
        current_tree = done.tree;
        slices = record thread.slices {
          time_slice = modify thread.slices.time_slice i (λ tss. record tss { tree = done.slice });
        };
      };
      sequence = done.sequence;
      names = done.names;
    };
  })

-- `RemoveTimeSlice`, in the single tree mode.
unfoldable pub remove_time_slice : Bool → Slices → Slices
remove_time_slice single slices = if single then record slices { time_slice = [] } else slices

-- One thread of a source, with what `GetTimeSlice` returned for it: the thread that is left, too.
unfoldable pub integrate_found :
    Ds
    → ℕ
    → Map Text
    → ThreadStore
    → Integration
    → Slices × Option ℕ
    → Option (ThreadStore × Integration)
unfolding copy_now_values integrate_slice remove_time_slice
integrate_found ds i src_names ts st (slices, none) = none
integrate_found ds i src_names ts st (slices, some j) = do
  src_tss ← get_elem? slices.time_slice j
  st' ← integrate_slice ds i src_names ts.current_tree src_tss (copy_now_values i src_tss st)
  some (record ts { slices = remove_time_slice ds.single_tree_mode slices }, st')

-- The loop over the threads of a source.
unfoldable pub integrate_threads :
    Ds → ℕ → DataStore → Map ThreadStore → Integration → Option (Map ThreadStore × Integration)
unfolding integrate_found get_time_slice
integrate_threads ds i src [] st = some ([], st)
integrate_threads ds i src ((tid, ts) ∷ threads) st = do
  (ts', st') ←
      integrate_found ds i src.name_table ts st (get_time_slice src.current_time_number ts.slices)
  (threads', st'') ← integrate_threads ds i src threads st'
  some ((tid, ts') ∷ threads', st'')

-- The loop over the stores; the global one, whose only thread is passed over, is not among them.
unfoldable pub integrate_stores :
    Ds → ℕ → Map DataStore → Integration → Option (Map DataStore × Integration)
unfolding integrate_threads
integrate_stores ds i [] st = some ([], st)
integrate_stores ds i ((id, src) ∷ stores) st = do
  (threads, st') ← integrate_threads ds i src src.threads st
  (stores', st'') ← integrate_stores ds i stores st'
  some ((id, record src { threads = threads }) ∷ stores', st'')

unfoldable pub integrate_into :
    Ds
    → Map DataStore
    → GlobalThreadStore
    → Slices × Option ℕ
    → Option (Map DataStore × GlobalThreadStore)
unfolding integrate_stores
integrate_into ds stores global (slices, none) = none
integrate_into ds stores global (slices, some i) = do
  (stores', st) ← integrate_stores ds i stores (record {
    global = record global { thread = record global.thread { slices = slices } };
    nowvalue_copied = false;
  })
  some (stores', st.global)

-- `GlobalThreadStore::Integrate`
unfoldable pub integrate :
    Ds → Map DataStore → GlobalThreadStore → Option (Map DataStore × GlobalThreadStore)
unfolding integrate_into get_time_slice
integrate ds stores global =
    integrate_into ds stores global (get_time_slice ds.current_time_number global.thread.slices)
