-- ===== src/Webmon/Dump/Examples.antt =====
-- Webmon/Dump: a store with one thread, which has two nodes. A name has a tab.
use llprof.Base.{ℕ, ◌≡◌, refl, false, some, List, [], ◌∷◌, Text, codes}
use llprof.Webmon.Nodes.{RecordNode, new_record_node}
use llprof.Webmon.Current.{ThreadStore}
use llprof.Webmon.DataStore.{Globals, DataStore}
use llprof.Webmon.Dump.{write_node}

abbrev globals : Globals
globals = record { is_single_tree_mode = false; leaf_node_accumulate = false; crc64 = λ text. 1 }

abbrev node_at : ℕ → ℕ → ℕ → RecordNode
node_at id parent name = record new_record_node {
  basic = record {
    id = id;
    parent_id = parent;
    node_name = name;
    all_values = 20 ∷ [];
    children_values = 5 ∷ [];
    call_count = 3;
    running = false;
  };
}

abbrev one_thread : ThreadStore
one_thread = record {
  current_tree = (1, node_at 1 0 7) ∷ (2, node_at 2 1 8) ∷ [];
  slices = record { start_time_number = 0; time_slice = [] };
  now_values = 25 ∷ [];
  running_node = 2;
  thread_id = 5;
  attr_node_id_alt = [];
  attr_node_map = [];
  current_attr_node_id_index = 0;
}

abbrev one_store : DataStore
one_store = record {
  id = 1;
  current_time_number = 4;
  member_offset_info = [];
  record_metadata =
      record {
        field_name = codes "real-time";
        unit = codes "ns";
        flags = codes "A";
        accumulated_value_flag = false;
        static_value_flag = false;
      }
      ∷ [];
  name_table = (7, 9 ∷ codes "main") ∷ [];
  threads = (5, one_thread) ∷ [];
}

node_text :
    write_node one_store.name_table (node_at 1 0 7).basic
    ≡ some (
        codes
          "{\"id\": 1, \"pid\": 0, \"name\": \"Xmain\", \"all\": [20], \"cld\": [5], \"cc\": 3}")
unfolding write_node llprof.Base.digits llprof.Base.find
node_text = refl
