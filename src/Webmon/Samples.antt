-- ===== src/Webmon/Samples.antt =====
-- webmon/data_store.cpp, the loop of `ThreadStore::Store` over the records of MSG_PROFILE_DATA, as
-- far as it reads them, and `GetMemberOffsetOf`. The other end is `encode_records`.
use llprof.Base.{
  ℕ, zero, suc, true, false, Option, none, some, List, [], ◌∷◌, Text, codes, text_eq, length, drop,
  if◌then◌else◌, word64, read32, read64, ◌>>=◌,
}
use llprof.CallTree.{SerializedInfo}
use llprof.Protocol.{Slide}
use llprof.Webmon.MessageBuf.{MessageBuf, get_current, seek, is_eof}

-- `member_offset_info_[name]`, after the pairs of MSG_SLIDE_INFO were inserted: the first of a name
-- counts, and a name that is not there is given 0.
unfoldable pub get_member_offset_of : List Slide → Text → ℕ
unfolding text_eq
get_member_offset_of [] name = 0
get_member_offset_of (s ∷ slides) name =
    if text_eq s.field_name name then s.slide else get_member_offset_of slides name

-- The locals of `Store` that hold the offsets.
pub record Offsets : Type 0 where
  pub call_node_id : ℕ
  pub parent_node_id : ℕ
  pub nameid : ℕ
  pub record_size : ℕ
  pub value : ℕ
  pub call_count : ℕ

abbrev pub offsets_of : List Slide → Offsets
offsets_of slides = record {
  call_node_id = get_member_offset_of slides (codes "pdata.call_node_id");
  parent_node_id = get_member_offset_of slides (codes "pdata.parent_node_id");
  nameid = get_member_offset_of slides (codes "pdata.nameid");
  record_size = get_member_offset_of slides (codes "pdata.record_size");
  value = get_member_offset_of slides (codes "pdata.value");
  call_count = get_member_offset_of slides (codes "pdata.call_count");
}

abbrev pub read_values : ℕ → Text → Option (List ℕ)
read_values zero p = some []
read_values (suc n) p = do v ← word64 p; vs ← read_values n (drop 8 p); some (v ∷ vs)

-- One record at the address `p`; `n` is the number of profile values.
unfoldable pub read_sample : Offsets → ℕ → Text → Option SerializedInfo
read_sample o n p = do
  cnid ← read32 p o.call_node_id
  parent_cnid ← read32 p o.parent_node_id
  nameid ← read64 p o.nameid
  call_count ← read64 p o.call_count
  values ← read_values n (drop o.value p)
  some (record {
    nameid = nameid;
    call_node_id = cnid;
    parent_node_id = parent_cnid;
    call_count = call_count;
    profile_value = values;
  })

-- The loop; `none` also stands for one that has not ended when the fuel is used up.
unfoldable pub read_samples : ℕ → Offsets → ℕ → MessageBuf → Option (List SerializedInfo)
unfolding read_sample
read_samples zero o n buf = none
read_samples (suc f) o n buf = elim (is_eof buf) [
  | true ↦ some []
  | false ↦ do
    s ← read_sample o n (get_current buf)
    buf' ← seek buf o.record_size
    rest ← read_samples f o n buf'
    some (s ∷ rest)
]

-- `buf->SetCurrentPtr(8)`, then the loop. A record has at least 24 bytes.
unfoldable pub samples : List Slide → ℕ → Text → Option (List SerializedInfo)
unfolding get_member_offset_of read_samples
samples slides n bytes =
    read_samples (suc (length bytes)) (offsets_of slides) n (record { buf = bytes; ptr = 8 })
