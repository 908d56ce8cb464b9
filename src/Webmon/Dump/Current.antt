-- ===== src/Webmon/Dump/Current.antt =====
-- Webmon/Dump: what `DumpJSON` writes for DF_CURRENT_TREE.
use llprof.Base.{ℕ, ◌+◌, ◌%◌, ◌^◌, List, [], ◌∷◌, ◌++◌, Map, Text, codes, decimal, length, ◌>>=◌}
use llprof.Http.JsonText.{commas}
use llprof.Webmon.Nodes.{RecordMetadata}
use llprof.Webmon.Current.{ThreadStore}
use llprof.Webmon.DataStore.{DataStore}
use llprof.Webmon.Dump.{texts, current_nodes}
use llprof.Webmon.Dump.Spelling.{quoted}
use llprof.Webmon.Dump.Members.{object, numbers, node_object}

-- The texts in brackets.
abbrev pub array : List Text → Text
array list = codes "[" ++ (commas list ++ codes "]")

-- The members of a thread as they are written, with its nodes in the order of their ids.
abbrev pub current_list : Map Text → ThreadStore → List (Text × Text)
current_list names ts =
    (codes "nodes", array (texts (node_object names) (current_nodes ts.current_tree)))
    ∷ (codes "now_values", numbers ts.now_values)
    ∷ (codes "running_node", decimal (ts.running_node % 2 ^ 32))
    ∷ []

abbrev pub thread_object : Map Text → ThreadStore → Text
thread_object names ts = object ((codes "id", decimal ts.thread_id) ∷ current_list names ts)

abbrev pub thread_objects : Map Text → Map ThreadStore → List Text
thread_objects names [] = []
thread_objects names ((id, ts) ∷ threads) = thread_object names ts ∷ thread_objects names threads

-- The names of the columns, with the index of each.
abbrev pub column_objects : ℕ → List RecordMetadata → List (Text × Text)
column_objects i [] = []
column_objects i (md ∷ mds) =
    (
      decimal i,
      object (
          (codes "field_name", quoted md.field_name)
          ∷ (codes "unit", quoted md.unit)
          ∷ (codes "flags", quoted md.flags)
          ∷ []),
    )
    ∷ column_objects (i + 1) mds

abbrev store_members : DataStore → Text → Text → List (Text × Text)
store_members store threads metadata =
    (codes "timenum", decimal store.current_time_number)
    ∷ (codes "threads", threads)
    ∷ (codes "numrecords", decimal (length store.record_metadata))
    ∷ (codes "metadata", metadata)
    ∷ []

-- The store as one text: the time, the threads in the order of their ids, and the columns.
abbrev pub store_object : DataStore → Text
store_object store = object (
    store_members store (array (thread_objects store.name_table store.threads))
      (object (column_objects 0 store.record_metadata)))
