-- ===== src/Webmon/RoundTrip.antt =====
-- webmon/data_store.cpp, the reading of MSG_PROFILE_DATA, over the bytes that the program writes.
use llprof.Base.{
  ℕ, zero, suc, ◌+◌, ◌*◌, ◌^◌, ◌<◌, ◌≤◌, ◌≡◌, refl, sym, ap, ◌∙◌, true, false, some, List, [], ◌∷◌,
  ◌++◌, Text, text_eq, length, drop, le32, le64, word64, read32, read64, word32-le32, word64-le64,
  length-append, drop-append, le→leb, lt→leb, arith,
}
use mathlib.Core.List.{append_assoc}
use llprof.Registry.{Registry}
use llprof.CallTree.{SerializedInfo}
use llprof.Protocol.{get_slide, encode_values, encode_record, encode_records}
use llprof.Webmon.MessageBuf.{MessageBuf, get_current, seek, is_eof}
use llprof.Webmon.Samples.{
  Offsets, offsets_of, get_member_offset_of, read_values, read_sample, read_samples, samples,
}

abbrev pub Values : List ℕ → Type 0
Values [] = Unit {0}
Values (v ∷ vs) = (v < 2 ^ 64) × Values vs

-- The fields of a record are in the range of their C types, and it has `n` values.
abbrev pub InRange : ℕ → SerializedInfo → Type 0
InRange n s =
    (s.nameid < 2 ^ 64)
    × (s.call_node_id < 2 ^ 32)
    × (s.parent_node_id < 2 ^ 32)
    × (s.call_count < 2 ^ 64)
    × Values s.profile_value
    × (length s.profile_value ≡ n)

abbrev pub AllInRange : ℕ → List SerializedInfo → Type 0
AllInRange n [] = Unit {0}
AllInRange n (s ∷ records) = InRange n s × AllInRange n records

abbrev layout : ℕ → Offsets
layout n = record {
  call_node_id = 8;
  parent_node_id = 12;
  nameid = 0;
  record_size = 24 + n * 8;
  value = 24;
  call_count = 16;
}

offsets_lem : (g : Registry) → offsets_of (get_slide g) ≡ layout (length g.active)
unfolding get_member_offset_of get_slide text_eq
offsets_lem g = refl

length-encode_values : (vs : List ℕ) → length (encode_values vs) ≡ length vs * 8
length-encode_values [] = refl
length-encode_values (v ∷ vs) =
    omega (arith, length-append (le64 v) (encode_values vs), length-encode_values vs)

pub length-encode_record :
    (n : ℕ) (s : SerializedInfo) → InRange n s → length (encode_record s) ≡ 24 + n * 8
length-encode_record n s (_, _, _, _, _, w) = omega (arith, length-encode_values s.profile_value, w)

read_values_step :
    (n v : ℕ) (vs : List ℕ) (p : Text)
    → word64 p ≡ some v
    → read_values n (drop 8 p) ≡ some vs
    → read_values (suc n) p ≡ some (v ∷ vs)
read_values_step n v vs p e more = rw (e, more) refl

read_values-encode :
    (vs : List ℕ) (rest : Text)
    → Values vs
    → read_values (length vs) (encode_values vs ++ rest) ≡ some vs
read_values-encode [] rest h = refl
read_values-encode (v ∷ vs) rest (h, hs) =
    read_values_step (length vs) v vs (le64 v ++ (encode_values vs ++ rest))
      (word64-le64 v (encode_values vs ++ rest) h) (read_values-encode vs rest hs)

read_sample_fields :
    (n : ℕ) (s : SerializedInfo) (p : Text)
    → read32 p 8 ≡ some s.call_node_id
    → read32 p 12 ≡ some s.parent_node_id
    → read64 p 0 ≡ some s.nameid
    → read64 p 16 ≡ some s.call_count
    → read_values n (drop 24 p) ≡ some s.profile_value
    → read_sample (layout n) n p ≡ some s
unfolding read_sample
read_sample_fields n s p a b c d e = rw (a, b, c, d, e) refl

read_sample-encode :
    (n : ℕ) (s : SerializedInfo) (rest : Text)
    → InRange n s
    → read_sample (layout n) n (encode_record s ++ rest) ≡ some s
read_sample-encode n s rest (a, b, c, d, e, w) =
    let values = encode_values s.profile_value ++ rest in
    let counted = le64 s.call_count ++ values in
    let parented = le32 s.parent_node_id ++ counted in
    read_sample_fields n s (encode_record s ++ rest) (word32-le32 s.call_node_id parented b)
      (word32-le32 s.parent_node_id counted c)
      (word64-le64 s.nameid (le32 s.call_node_id ++ parented) a) (word64-le64 s.call_count values d)
      (rw (sym w) (read_values-encode s.profile_value rest e))

read_samples_end :
    (o : Offsets) (n f : ℕ) (m : MessageBuf)
    → is_eof m ≡ true
    → read_samples (suc f) o n m ≡ some []
unfolding read_samples
read_samples_end o n f m e = rw (e, read_samples) refl

read_samples_step :
    (o : Offsets) (n f : ℕ) (m m' : MessageBuf) (s : SerializedInfo) (rest : List SerializedInfo)
    → is_eof m ≡ false
    → read_sample o n (get_current m) ≡ some s
    → seek m o.record_size ≡ some m'
    → read_samples f o n m' ≡ some rest
    → read_samples (suc f) o n m ≡ some (s ∷ rest)
unfolding read_samples
read_samples_step o n f m m' s rest e sample here more =
    rw (e, sample, here, more, read_samples) refl

pub seek_lem :
    (m : MessageBuf) (offset : ℕ)
    → m.ptr + offset ≤ length m.buf
    → seek m offset ≡ some (record m { ptr = m.ptr + offset })
seek_lem m offset h = rw (le→leb (m.ptr + offset) (length m.buf) h) refl

pub drop_pre : (pre more : Text) (k : ℕ) → k ≡ length pre → drop k (pre ++ more) ≡ more
drop_pre pre more k e = rw e (drop-append pre more)

read_samples-encode :
    (records : List SerializedInfo) (n f : ℕ) (pre buf : Text) (ptr : ℕ)
    → AllInRange n records
    → buf ≡ pre ++ encode_records records
    → ptr + 8 ≡ length pre
    → length records < f
    → read_samples f (layout n) n (record { buf = buf; ptr = ptr }) ≡ some records
read_samples-encode records n zero pre buf ptr ok split start fuel = absurd (omega arith)
read_samples-encode [] n (suc f) pre buf ptr ok split start fuel =
    read_samples_end (layout n) n f _
      (le→leb (length buf) (ptr + 8) (omega (arith, ap length split, length-append pre [], start)))
read_samples-encode (s ∷ records) n (suc f) pre buf ptr (this, ok) split start fuel =
    let len = ap length split ∙ length-append pre (encode_record s ++ encode_records records) in
    let size = length-append (encode_record s) (encode_records records) in
    let width = length-encode_record n s this in
    read_samples_step (layout n) n f _ (record { buf = buf; ptr = ptr + (24 + n * 8) }) s records
      (lt→leb (length buf) (ptr + 8) (omega (arith, len, size, width, start)))
      (rw (ap (drop (ptr + 8)) split ∙ drop_pre pre _ (ptr + 8) start)
        (read_sample-encode n s (encode_records records) this))
      (seek_lem _ (24 + n * 8) (omega (arith, len, size, width, start)))
      (read_samples-encode records n f (pre ++ encode_record s) buf (ptr + (24 + n * 8)) ok
        (split ∙ sym (append_assoc pre (encode_record s) (encode_records records)))
        (omega (arith, length-append pre (encode_record s), width, start)) (omega arith))

pub enough : (records : List SerializedInfo) → length records ≤ length (encode_records records)
enough [] = omega arith
enough (s ∷ records) = omega (
  arith,
  enough records,
  length-append (encode_record s) (encode_records records),
  length-append (le64 s.nameid) (
      le32 s.call_node_id
      ++ le32 s.parent_node_id
      ++ le64 s.call_count
      ++ encode_values s.profile_value),
)

-- The records that the profiled program writes are the ones that webmon reads back, for any number
-- of records and of values in each, with the offsets of the program's own answer to
-- INFO_DATA_SLIDE: the message is a header of eight bytes, the thread's id and the records. The
-- fields are in the range of their C types, and each record has a value for each slot.
pub samples-encode_records :
    (g : Registry) (header : Text) (tid : ℕ) (records : List SerializedInfo)
    → length header ≡ 8
    → AllInRange (length g.active) records
    → samples (get_slide g) (length g.active) (header ++ le64 tid ++ encode_records records)
      ≡ some records
unfolding samples
samples-encode_records g header tid records h ok =
    let bytes = header ++ le64 tid ++ encode_records records in
    let len = length-append (header ++ le64 tid) (encode_records records) in
    rw (offsets_lem g) (
      read_samples-encode records (length g.active) (suc (length bytes)) (header ++ le64 tid) bytes
        8 ok refl (omega (arith, length-append header (le64 tid), h))
        (omega (arith, len, enough records)))
