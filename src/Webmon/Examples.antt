-- ===== src/Webmon/Examples.antt =====
-- A message with two records, a thread with two slices, and the theorems of Webmon at them.
use llprof.Base.{
  ℕ, ◌≡◌, ◌↔◌, refl, false, none, some, List, [], ◌∷◌, ◌++◌, Map, find, Text, le32, le64, arith,
}
use llprof.Registry.{Registry}
use llprof.CallTree.{SerializedInfo}
use llprof.Protocol.{get_slide, encode_records, msg_profile_data}
use llprof.Network.Transfer.{frame, AllPieces, joined}
use llprof.Webmon.Receive.{recv_message, message_of, recv_message-frame}
use llprof.Base.{put, codes, ◌+◌, length}
use llprof.Webmon.Samples.{get_member_offset_of}
use llprof.Webmon.Collect.{Received, on_profile_data}
use llprof.Webmon.Names.{ask_all, all_read, on_profile_data-records}
use llprof.Webmon.Samples.{samples}
use llprof.Webmon.RoundTrip.{samples-encode_records}
use llprof.Webmon.Slices.{
  Node, TimeSlice, Slices, Merged, Parents, get_time_slice, merge_time_slice,
}
use llprof.Webmon.Sequence.{seq_of, seq_of_all, new_sequence, seq_of-injective}
use llprof.Webmon.Quantity.{Quantity, IsAdded}
use llprof.Webmon.SliceLookup.{tree_at, tree_at-get_time_slice}
use llprof.Webmon.Merge.{count, add_range, AllSized, AllKnown, merge_time_slice-count}

abbrev pub one_slot : Registry
one_slot = record { records = []; active = 0 ∷ [] }

abbrev pub two_records : List SerializedInfo
two_records =
    record {
      nameid = 7;
      call_node_id = 2;
      parent_node_id = 1;
      call_count = 4;
      profile_value = 90 ∷ [];
    }
    ∷ record {
      nameid = 9;
      call_node_id = 3;
      parent_node_id = 2;
      call_count = 1;
      profile_value = 70 ∷ [];
    }
    ∷ []

abbrev pub header : Text
header = le32 msg_profile_data ++ le32 72

samples-encode_records_example :
    samples (get_slide one_slot) 1 (header ++ le64 5 ++ encode_records two_records)
    ≡ some two_records
samples-encode_records_example = samples-encode_records one_slot header 5 two_records refl (
  (omega arith, omega arith, omega arith, omega arith, (omega arith, tt), refl),
  ((omega arith, omega arith, omega arith, omega arith, (omega arith, tt), refl), tt),
)

abbrev nothing_yet : Received
nothing_yet = record {
  buf_for_threads = [];
  nowinfo_buf_for_threads = [];
  query_names = [];
  name_table = (7, codes "main") ∷ [];
}

on_profile_data-records_example :
    let buf = header ++ le64 5 ++ encode_records two_records in
    let st' = ask_all two_records nothing_yet in
    (end_ptr : ℕ) × (on_profile_data
        (get_member_offset_of (get_slide one_slot) (codes "pdata.nameid"))
        (get_member_offset_of (get_slide one_slot) (codes "pdata.record_size"))
        (message_of buf)
        nothing_yet
      ≡ some (record st' { buf_for_threads = put 5 (all_read buf end_ptr) st'.buf_for_threads }))
    × (end_ptr + 8 ≡ length buf)
on_profile_data-records_example =
    on_profile_data-records one_slot header 5 two_records nothing_yet refl (omega arith) (
      (omega arith, omega arith, omega arith, omega arith, (omega arith, tt), refl),
      ((omega arith, omega arith, omega arith, omega arith, (omega arith, tt), refl), tt),
    )

abbrev node_of : ℕ → ℕ → Node
node_of id calls = record {
  id = id;
  parent_id = 0;
  node_name = 0;
  all_values = 90 ∷ [];
  children_values = 0 ∷ [];
  call_count = calls;
  running = false;
}

abbrev slice_of : ℕ → Map Node → TimeSlice
slice_of t tree = record { time_number = t; tree = tree; now_values = 0 ∷ []; running_node = 1 }

abbrev two_slices : Slices
two_slices = record {
  start_time_number = 3;
  time_slice = slice_of 3 ((2, node_of 2 4) ∷ []) ∷ slice_of 4 ((2, node_of 2 1) ∷ []) ∷ [];
}

abbrev parents : Parents
parents = (1, (0, 0)) ∷ (2, (1, 7)) ∷ []

tree_at-get_time_slice_example : tree_at 4 (get_time_slice 9 two_slices).0 ≡ (2, node_of 2 1) ∷ []
tree_at-get_time_slice_example = tree_at-get_time_slice 9 4 two_slices

known : AllKnown 1 parents two_slices.time_slice
unfolding find
known = (((refl, refl), ((1, 7), refl), tt), (((refl, refl), ((1, 7), refl), tt), tt))

abbrev begun : Merged
begun = record { slices = two_slices; integrated = []; last_tss = none }

none_yet : AllSized 1 []
unfolding find
none_yet id node e = absurd (cc)

merge_time_slice-count_example :
    (m' : Merged) × (merge_time_slice (false ∷ []) parents 0 6 begun ≡ some m')
    × ((q : Quantity)
        → IsAdded (false ∷ []) q
        → (id : ℕ) → count q id m'.integrated ≡ add_range q id two_slices 0 6 (count q id []))
merge_time_slice-count_example =
    merge_time_slice-count (false ∷ []) parents 6 0 begun none_yet known

abbrev main_hash : ℕ
main_hash = 900

abbrev work_hash : ℕ
work_hash = 700

seq_of-injective_example :
    let (a, s) = seq_of main_hash (seq_of_all (work_hash ∷ main_hash ∷ 1 ∷ []) new_sequence) in
    let (b, s') = seq_of work_hash s in (a ≡ b) ↔ (main_hash ≡ work_hash)
seq_of-injective_example =
    seq_of-injective (work_hash ∷ main_hash ∷ 1 ∷ []) main_hash work_hash (omega arith)

-- A message whose header is cut, with the beginning of the next behind it.
recv_message-frame_example :
    (pieces' : List Text) × (recv_message
        ((12 ∷ 0 ∷ 0 ∷ []) ∷ (0 ∷ 2 ∷ 0 ∷ 0 ∷ 0 ∷ 70 ∷ 71 ∷ 8 ∷ []) ∷ [])
      ≡ some (some (message_of (frame 12 (70 ∷ 71 ∷ []))), pieces'))
    × AllPieces pieces'
    × (joined pieces' ≡ 8 ∷ [])
recv_message-frame_example =
    recv_message-frame 12 (70 ∷ 71 ∷ []) (8 ∷ [])
      ((12 ∷ 0 ∷ 0 ∷ []) ∷ (0 ∷ 2 ∷ 0 ∷ 0 ∷ 0 ∷ 70 ∷ 71 ∷ 8 ∷ []) ∷ []) ((λ e. cc), ((λ e. cc), tt))
      refl (omega arith)
