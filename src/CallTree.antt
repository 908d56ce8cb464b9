-- ===== src/CallTree.antt =====
-- llprofcommon/call_tree.cpp, the call tree of one thread and the handlers that a language binding
-- calls at each call and return. `none` is a failed assertion or an access out of bounds.
pub mod Counts
pub mod Links
pub mod Invariant
pub mod Refresh
pub mod Handlers
pub mod Calls
pub mod Session
pub mod Threads
pub mod Examples
use llprof.Base.{
  ℕ, suc, ◌+◌, ◌-◌, Bool, true, false, not, Option, none, some, List, [], ◌∷◌, ◌++◌, Map, find,
  insert, Text, length, get_elem?, modify, replicate, ◌==◌, if◌then◌else◌, add32, add64, ◌>>=◌,
  ◌>>◌, assert,
}
use llprof.NameTable.{add_cb}
use llprof.Registry.{Registry, PvType}
use llprof.Registry.Slots.{start_node, end_node}

-- `MethodNodeInfo`
pub record NodeInfo : Type 0 where
  pub serialized_node_index : ℕ
  pub generation_number : ℕ
  pub nameid : ℕ
  pub children : Map ℕ
  pub parent_node_id : ℕ
  pub start_value : List ℕ

-- `MethodNodeSerializedInfo`
pub record SerializedInfo : Type 0 where
  pub nameid : ℕ
  pub call_node_id : ℕ
  pub parent_node_id : ℕ
  pub call_count : ℕ
  pub profile_value : List ℕ

-- `ThreadInfo`
pub record ThreadInfo : Type 0 where
  pub thread_id : ℕ
  pub nodes : List NodeInfo
  pub serialized : List SerializedInfo
  pub current : ℕ
  pub generation : ℕ
  pub stop : Bool
  pub now_info : List ℕ

-- A thread and the table of names, which all threads share.
pub record Tree : Type 0 where
  pub thread : ThreadInfo
  pub names : Map Text

-- The children of a node, by `std::map::insert`.
abbrev pub add_child : ℕ → ℕ → NodeInfo → NodeInfo
add_child nameid id n = record n { children = insert nameid id n.children }

-- `start_value` is not initialised: a read of it before the first write is out of bounds here.
abbrev pub fresh_node : ℕ → ℕ → NodeInfo
fresh_node parent nameid = record {
  serialized_node_index = 0;
  generation_number = 0;
  nameid = nameid;
  children = [];
  parent_node_id = parent;
  start_value = [];
}

-- `ThreadInfo::AddCallNode`
unfoldable pub add_call_node : ℕ → ℕ → Option Text → Tree → Tree × ℕ
add_call_node parent nameid name t = (
  record {
    thread = record t.thread {
      nodes =
          let grown = t.thread.nodes ++ fresh_node parent nameid ∷ [] in
          if parent == 0 then grown else modify grown parent (add_child nameid (length grown - 1));
    };
    names = add_cb nameid name t.names;
  },
  length t.thread.nodes + 1 - 1,
)

-- `GetChildNodeID`
unfoldable pub get_child_node_id : ℕ → Option Text → Tree → Option (Tree × ℕ)
get_child_node_id nameid name t = do
  node ← get_elem? t.thread.nodes t.thread.current
  elim (find nameid node.children) [
    | none ↦ some (add_call_node t.thread.current nameid name t)
    | some id ↦ some (t, id)
  ]

-- The record that `AddActualRecord` appends for a node.
abbrev pub fresh_record : Registry → ℕ → NodeInfo → SerializedInfo
fresh_record g cnid n = record {
  nameid = n.nameid;
  call_node_id = cnid;
  parent_node_id = n.parent_node_id;
  call_count = 0;
  profile_value = replicate (length g.active) 0;
}

abbrev pub point_to : ℕ → ℕ → NodeInfo → NodeInfo
point_to index generation n = record n {
  serialized_node_index = index;
  generation_number = generation;
}

unfoldable pub add_actual_record : Registry → ℕ → ThreadInfo → Option ThreadInfo
add_actual_record g cnid ti = do
  n ← get_elem? ti.nodes cnid
  some (record ti {
    nodes = modify ti.nodes cnid (point_to (length ti.serialized) ti.generation);
    serialized = ti.serialized ++ fresh_record g cnid n ∷ [];
  })

-- `get_current_node_info_pair`: the current node's record of this generation exists afterwards.
unfoldable pub refresh : Registry → ThreadInfo → Option ThreadInfo
unfolding add_actual_record
refresh g ti = do
  n ← get_elem? ti.nodes ti.current
  if n.generation_number == ti.generation then some ti else add_actual_record g ti.current ti

-- The node and the record that it returns pointers to.
pub record Pair : Type 0 where
  pub thread : ThreadInfo
  pub ninfo : NodeInfo
  pub sinfo : SerializedInfo

unfoldable pub get_current_node_info_pair : Registry → ThreadInfo → Option Pair
unfolding refresh
get_current_node_info_pair g ti = do
  ti' ← refresh g ti
  n ← get_elem? ti'.nodes ti'.current
  s ← get_elem? ti'.serialized n.serialized_node_index
  some (record { thread = ti'; ninfo = n; sinfo = s })

-- A write through both pointers.
abbrev pub write_pair :
    Pair → (NodeInfo → NodeInfo) → (SerializedInfo → SerializedInfo) → ThreadInfo
write_pair p f h = record p.thread {
  nodes = modify p.thread.nodes p.thread.current f;
  serialized = modify p.thread.serialized p.ninfo.serialized_node_index h;
}

abbrev pub set_start : List ℕ → NodeInfo → NodeInfo
set_start v n = record n { start_value = v }

abbrev pub count_call : List ℕ → SerializedInfo → SerializedInfo
count_call v s = record s { call_count = add64 s.call_count 1; profile_value = v }

abbrev pub set_values : List ℕ → SerializedInfo → SerializedInfo
set_values v s = record s { profile_value = v }

-- What the end of `llprof_call_handler` does at the new current node.
unfoldable pub enter : Registry → (ℕ → ℕ) → ThreadInfo → Option ThreadInfo
unfolding get_current_node_info_pair
enter g read ti = do
  p ← get_current_node_info_pair g ti
  v ← start_node g read p.sinfo.profile_value
  some (write_pair p (set_start v) (count_call v))

unfoldable pub call_handler : Registry → (ℕ → ℕ) → ℕ → Option Text → Tree → Option Tree
call_handler g read nameid name t = do
  assert (not t.thread.stop)
  (t', id) ← get_child_node_id nameid name (record t { thread = record t.thread { stop = true } })
  ti ← enter g read (record t'.thread { current = id })
  some (record t' { thread = record ti { stop = false } })

-- What `llprof_return_handler` does below the root.
unfoldable pub leave : Registry → (ℕ → ℕ) → ThreadInfo → Option ThreadInfo
unfolding get_current_node_info_pair
leave g read ti = do
  p ← get_current_node_info_pair g ti
  v ← end_node g read p.ninfo.start_value p.sinfo.profile_value
  let ti' = write_pair p (λ n. n) (set_values v)
  some (record ti' { current = p.sinfo.parent_node_id })

unfoldable pub return_handler : Registry → (ℕ → ℕ) → ThreadInfo → Option ThreadInfo
return_handler g read ti = elim (ti.current == 1) [
  | true ↦ some ti
  | false ↦ do
    assert (not ti.stop)
    ti' ← leave g read (record ti { stop = true })
    some (record ti' { stop = false })
]

-- `llprof_icl_profile_value`; `value` is a 64-bit pattern.
unfoldable pub icl_profile_value : Registry → ℕ → ℕ → ThreadInfo → Option ThreadInfo
unfolding get_current_node_info_pair
icl_profile_value g type_index value ti = do
  r ← get_elem? g.records type_index
  elim r.record_index [
    | none ↦ some ti
    | some i ↦ do
      p ← get_current_node_info_pair g ti
      some
          (write_pair p (λ n. n) (set_values (modify p.sinfo.profile_value i (λ v. add64 v value))))
  ]

-- The swap of `CallTree_GetSerializedBuffer`: the thread goes on with the emptied back buffer, in a
-- new generation; the result is the buffer that is sent.
unfoldable pub get_serialized_buffer : ThreadInfo → ThreadInfo × List SerializedInfo
get_serialized_buffer ti = (
  record ti {
    serialized = [];
    generation = add32 ti.generation 1;
    now_info = modify ti.now_info 0 (λ _. ti.current);
  },
  ti.serialized,
)

-- `ThreadInfo::ThreadInfo`. `NodeInfoArray[0]` is not initialised and not used; `NowInfo` is not
-- initialised either, and zeros stand for what it has.
abbrev pub bare_thread : ℕ → ℕ → ThreadInfo
bare_thread id slots = record {
  thread_id = id;
  nodes = fresh_node 0 0 ∷ [];
  serialized = [];
  current = 0;
  generation = 1;
  stop = false;
  now_info = replicate (slots + 1) 0;
}

unfoldable pub new_thread : Registry → ℕ → Option Text → Map Text → Tree
unfolding add_call_node
new_thread g id root_name names =
    let (t, root) =
      add_call_node 0 0 root_name
        (record { thread = bare_thread id (length g.active); names = names }) in
    record t { thread = record t.thread { current = root } }
