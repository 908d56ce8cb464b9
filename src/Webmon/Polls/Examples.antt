-- ===== src/Webmon/Polls/Examples.antt =====
-- A thread that is polled once, with two records and a message of its current values.
use llprof.Base.{
  ℕ, ◌≡◌, refl, false, true, Option, some, ◌>>=◌, List, [], ◌∷◌, ◌++◌, codes, length, digits, le32,
  le64, inl, inr, find, put, arith,
}
use llprof.Protocol.{get_slide, encode_records, msg_nowinfo}
use llprof.Webmon.MessageBuf.{MessageBuf}
use llprof.Webmon.Slices.{Merged, started_slice, merge_one, merge_found, merge_time_slice}
use llprof.Webmon.Merge.{count}
use llprof.Webmon.RoundTrip.{samples-encode_records}
use llprof.Webmon.Quantity.{Quantity, of_calls, of_all, IsAdded}
use llprof.Webmon.Nodes.{
  parents, Ds, new_node, is_attr_node, get_name_from_id, update, set_record_data_store,
  set_data_store,
}
use llprof.Webmon.Current.{ThreadStore, new_thread_store, add_current_node, set_up_node}
use llprof.Webmon.Clear.{statics}
use llprof.Webmon.Store.{store}
use llprof.Webmon.Totals.{held}
use llprof.Webmon.Polls.{IsPlain}
use llprof.Webmon.Polls.Step.{Storable}
use llprof.Webmon.Polls.Check.{
  Polled, created, at_poll, store-Polled, check_start, check_all_time_slice-totals,
}
use llprof.Webmon.Examples.{one_slot, two_records, header}

abbrev pub monitor : Ds
monitor = record {
  record_metadata =
      record {
        field_name = codes "time";
        unit = codes "ns";
        flags = codes "fA";
        accumulated_value_flag = true;
        static_value_flag = false;
      }
      ∷ [];
  name_table = [];
  current_time_number = 0;
  single_tree_mode = false;
  leaf_node_accumulate = false;
  crc64 = λ key. length key;
}

abbrev records_message : MessageBuf
records_message = record { buf = header ++ le64 5 ++ encode_records two_records; ptr = 8 }

abbrev now_message : MessageBuf
now_message = record { buf = le32 msg_nowinfo ++ le32 24 ++ le64 5 ++ le64 3 ++ le64 250; ptr = 8 }

two_records-Storable :
    Storable monitor 100
      (get_slide one_slot)
      records_message
      now_message
      (new_thread_store monitor).current_tree
unfolding new_thread_store update add_current_node set_up_node set_record_data_store set_data_store
    find put
two_records-Storable = (
  (
    two_records,
    samples-encode_records one_slot header 5 two_records refl (
      (omega arith, omega arith, omega arith, omega arith, (omega arith, tt), refl),
      ((omega arith, omega arith, omega arith, omega arith, (omega arith, tt), refl), tt),
    ),
    (
      refl,
      inr (omega arith, omega arith, inl (_, refl)),
      (refl, inr (omega arith, omega arith, inr (inl refl)), tt),
    ),
  ),
  omega arith,
)

plain : IsPlain monitor
plain = (refl, refl)

root_plain : is_attr_node (at_poll monitor 1 []) new_node ≡ false
unfolding is_attr_node get_name_from_id find
root_plain = refl

-- The calls of the nodes 1, 2 and 3 in the tree, and the time of the node 2 in the slices together.
totals_after_poll : Option (List ℕ)
unfolding store merge_time_slice
totals_after_poll = do
  ts ←
      store (at_poll monitor 1 []) (get_slide one_slot) records_message now_message
        (new_thread_store monitor)
  m ← merge_time_slice (statics monitor) (parents ts.current_tree) 0 2 (check_start ts)
  some (
      held (of_calls) 1 ts.current_tree
      ∷ held (of_calls) 2 ts.current_tree
      ∷ held (of_calls) 3 ts.current_tree
      ∷ count (of_all 0) 2 m.integrated
      ∷ [])

first_poll :
    (ts : ThreadStore) × (store
        (at_poll monitor 1 [])
        (get_slide one_slot)
        records_message
        now_message
        (new_thread_store monitor)
      ≡ some ts)
    × Polled monitor (get_slide one_slot) 100 1 ts
first_poll =
    store-Polled monitor (get_slide one_slot) 100 0 1 (new_thread_store monitor) [] records_message
      now_message plain (omega arith) (created) (omega arith) root_plain two_records-Storable

store-Polled_example :
    (ts : ThreadStore) × (store
        (at_poll monitor 1 [])
        (get_slide one_slot)
        records_message
        now_message
        (new_thread_store monitor)
      ≡ some ts)
    × Polled monitor (get_slide one_slot) 100 1 ts
store-Polled_example =
    store-Polled monitor (get_slide one_slot) 100 0 1 (new_thread_store monitor) [] records_message
      now_message plain (omega arith) (created) (omega arith) root_plain two_records-Storable

check_all_time_slice-totals_example :
    let ts = first_poll.0 in
    (m : Merged) × (merge_time_slice
        (statics monitor)
        (parents ts.current_tree)
        0
        2
        (check_start ts)
      ≡ some m)
    × ((q : Quantity)
        → IsAdded (statics monitor) q
        → (id : ℕ) → count q id m.integrated ≡ held q id ts.current_tree)
check_all_time_slice-totals_example =
    check_all_time_slice-totals monitor (get_slide one_slot) 100 1 first_poll.0 plain (omega arith)
      first_poll.2

totals_after_poll_lem : totals_after_poll ≡ some (0 ∷ 4 ∷ 1 ∷ 90 ∷ [])
unfolding totals_after_poll find new_thread_store put get_slide digits started_slice merge_one
    merge_found
totals_after_poll_lem = refl
