-- ===== src/Protocol.antt =====
-- llprofcommon/llprof_const.h, the message and buffer types, and the memory layout of the records
-- that are sent, as `CallTree_GetSlide` of llprofcommon/call_tree.cpp describes it.
use llprof.Base.{ℕ, ◌+◌, ◌*◌, List, [], ◌∷◌, ◌++◌, Text, codes, length, le32, le64}
use llprof.Registry.{Registry}
use llprof.CallTree.{SerializedInfo}

abbrev pub msg_start_profile : ℕ
msg_start_profile = 2

abbrev pub msg_query_info : ℕ
msg_query_info = 3

abbrev pub info_data_slide : ℕ
info_data_slide = 1

abbrev pub info_profile_target : ℕ
info_profile_target = 2

abbrev pub info_record_metainfo : ℕ
info_record_metainfo = 3

abbrev pub msg_req_profile_data : ℕ
msg_req_profile_data = 4

abbrev pub msg_slide_info : ℕ
msg_slide_info = 5

abbrev pub msg_profile_data : ℕ
msg_profile_data = 6

abbrev pub msg_query_names : ℕ
msg_query_names = 7

abbrev pub query_names : ℕ
query_names = 1

abbrev pub msg_names : ℕ
msg_names = 8

abbrev pub msg_stack_data : ℕ
msg_stack_data = 9

abbrev pub msg_profile_target : ℕ
msg_profile_target = 10

abbrev pub msg_record_metainfo : ℕ
msg_record_metainfo = 11

abbrev pub msg_nowinfo : ℕ
msg_nowinfo = 12

abbrev pub msg_command_succeed : ℕ
msg_command_succeed = 100

abbrev pub msg_error : ℕ
msg_error = 101

-- `sizeof(profile_value_t)` and `sizeof(MethodNodeSerializedInfo)`
abbrev pub value_size : ℕ
value_size = 8

abbrev pub record_header : ℕ
record_header = 24

-- `slide_record_t`
pub record Slide : Type 0 where
  pub field_name : Text
  pub slide : ℕ

unfoldable pub get_slide : Registry → List Slide
get_slide g =
    record { field_name = codes "pdata.nameid"; slide = 0 }
    ∷ record { field_name = codes "pdata.value"; slide = 24 }
    ∷ record { field_name = codes "pdata.call_count"; slide = 16 }
    ∷ record { field_name = codes "pdata.call_node_id"; slide = 8 }
    ∷ record { field_name = codes "pdata.parent_node_id"; slide = 12 }
    ∷ record {
      field_name = codes "pdata.record_size";
      slide = record_header + length g.active * value_size;
    }
    ∷ []

abbrev pub encode_values : List ℕ → Text
encode_values [] = []
encode_values (v ∷ vs) = le64 v ++ encode_values vs

-- The bytes of a `MethodNodeSerializedInfo`.
abbrev pub encode_record : SerializedInfo → Text
encode_record s =
    le64 s.nameid
    ++ le32 s.call_node_id
    ++ le32 s.parent_node_id
    ++ le64 s.call_count
    ++ encode_values s.profile_value

abbrev pub encode_records : List SerializedInfo → Text
encode_records [] = []
encode_records (s ∷ records) = encode_record s ++ encode_records records
