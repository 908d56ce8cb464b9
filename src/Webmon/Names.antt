-- ===== src/Webmon/Names.antt =====
-- webmon/data_store.cpp: the names that the monitor asks for when a message of records arrives.
use llprof.Base.{
  ℕ, zero, suc, ◌+◌, ◌*◌, ◌^◌, ◌<◌, ◌≤◌, ◌≡◌, refl, sym, ap, ◌∙◌, Bool, true, false, Option, none,
  some, List, [], ◌∷◌, ◌++◌, map, Map, find, put, Text, codes, length, length-append, drop, le32,
  le64, word64, word64-le64, read64, ◌==◌, ◌>>=◌, le→leb, lt→leb, arith, Option-cases, inl, inr,
}
use mathlib.Core.List.{append_assoc, append-nil}
use llprof.Registry.{Registry}
use llprof.CallTree.{SerializedInfo}
use llprof.Protocol.{get_slide, encode_values, encode_record, encode_records}
use llprof.Webmon.MessageBuf.{MessageBuf, get_current, set_current_ptr, seek, get64, is_eof}
use llprof.Webmon.Receive.{message_of}
use llprof.Webmon.Samples.{get_member_offset_of}
use llprof.Webmon.Collect.{Received, ask_name, ask_names, on_profile_data}
use llprof.Webmon.RoundTrip.{AllInRange, length-encode_record, seek_lem, drop_pre, enough}

-- The name ids of records that a table does not have, each once, in the order of the records.
abbrev pub new_ids : List SerializedInfo → Map Text → List ℕ
new_ids [] table = []
new_ids (s ∷ records) table = elim (find s.nameid table) [
  | some _ ↦ new_ids records table
  | none ↦ s.nameid ∷ new_ids records (put s.nameid (codes "<Asking>") table)
]

-- The table with a mark for each of some ids.
abbrev pub mark : List ℕ → Map Text → Map Text
mark [] table = table
mark (id ∷ ids) table = mark ids (put id (codes "<Asking>") table)

-- The new ids of the records are asked for, and marked.
unfoldable pub ask_all : List SerializedInfo → Received → Received
ask_all records st = record st {
  query_names = st.query_names ++ new_ids records st.name_table;
  name_table = mark (new_ids records st.name_table) st.name_table;
}

ask_all_none : (st : Received) → ask_all [] st ≡ st
unfolding ask_all
ask_all_none st = ap (λ ids. record st { query_names = ids }) (append-nil st.query_names)

new_ids-none :
    (s : SerializedInfo) (records : List SerializedInfo) (table : Map Text)
    → find s.nameid table ≡ none
    → new_ids (s ∷ records) table
      ≡ s.nameid ∷ new_ids records (put s.nameid (codes "<Asking>") table)
new_ids-none s records table e = rw (e, new_ids) refl

new_ids-some :
    (s : SerializedInfo) (records : List SerializedInfo) (table : Map Text) (name : Text)
    → find s.nameid table ≡ some name
    → new_ids (s ∷ records) table ≡ new_ids records table
new_ids-some s records table name e = rw (e, new_ids) refl

ask_name-none :
    (nameid : ℕ) (st : Received)
    → find nameid st.name_table ≡ none
    → ask_name nameid st ≡ record st {
      query_names = st.query_names ++ (nameid ∷ []);
      name_table = put nameid (codes "<Asking>") st.name_table;
    }
unfolding ask_name
ask_name-none nameid st e = rw (e, ask_name) refl

ask_name-some :
    (nameid : ℕ) (st : Received) (name : Text)
    → find nameid st.name_table ≡ some name
    → ask_name nameid st ≡ st
unfolding ask_name
ask_name-some nameid st name e = rw (e, ask_name) refl

-- Some ids are asked for and marked.
abbrev ask_ids : List ℕ → Received → Received
ask_ids ids st = record st {
  query_names = st.query_names ++ ids;
  name_table = mark ids st.name_table;
}

ask_all_step :
    (s : SerializedInfo) (records : List SerializedInfo) (st : Received)
    → ask_all records (ask_name s.nameid st) ≡ ask_all (s ∷ records) st
unfolding ask_all
ask_all_step s records st = elim (Option-cases (find s.nameid st.name_table)) [
  | inl e ↦
      let table = put s.nameid (codes "<Asking>") st.name_table in
      let ids = new_ids records table in
      ap (ask_all records) (ask_name-none s.nameid st e)
      ∙ ap (λ all. record st { query_names = all; name_table = mark ids table })
          (append_assoc st.query_names (s.nameid ∷ []) ids)
      ∙ sym (ap (λ all. ask_ids all st) (new_ids-none s records st.name_table e))
  | inr (name, e) ↦
      ap (ask_all records) (ask_name-some s.nameid st name e)
      ∙ sym (ap (λ all. ask_ids all st) (new_ids-some s records st.name_table name e))
]

ask_names_end :
    (f offset size : ℕ) (m : MessageBuf) (st : Received)
    → is_eof m ≡ true
    → ask_names (suc f) offset size m st ≡ some (m, st)
unfolding ask_names
ask_names_end f offset size m st e = rw (e, ask_names) refl

ask_names_step :
    (f offset size nameid : ℕ) (m m' : MessageBuf) (st : Received)
    → is_eof m ≡ false
    → read64 (get_current m) offset ≡ some nameid
    → seek m size ≡ some m'
    → ask_names (suc f) offset size m st ≡ ask_names f offset size m' (ask_name nameid st)
unfolding ask_names
ask_names_step f offset size nameid m m' st e name next = rw (e, name, next, ask_names) refl

-- The message with its position behind the last record.
abbrev pub all_read : Text → ℕ → MessageBuf
all_read buf ptr = record { buf = buf; ptr = ptr }

ask_names-encode :
    (records : List SerializedInfo) (n f : ℕ) (pre buf : Text) (ptr : ℕ) (st : Received)
    → AllInRange n records
    → buf ≡ pre ++ encode_records records
    → ptr + 8 ≡ length pre
    → length records < f
    → (end_ptr : ℕ) × (ask_names f 0 (24 + n * 8) (record { buf = buf; ptr = ptr }) st
        ≡ some (all_read buf end_ptr, ask_all records st))
      × (end_ptr + 8 ≡ length buf)
ask_names-encode records n zero pre buf ptr st ok split start fuel = absurd (omega arith)
ask_names-encode [] n (suc f) pre buf ptr st ok split start fuel =
    let len = ap length split ∙ length-append pre [] in
    (
      ptr,
      ask_names_end f 0 (24 + n * 8) _ st
            (le→leb (length buf) (ptr + 8) (omega (arith, len, start)))
          ∙ ap (λ st'. some (all_read buf ptr, st')) (sym (ask_all_none st)),
      omega (arith, len, start),
    )
ask_names-encode (s ∷ records) n (suc f) pre buf ptr st (this, ok) split start fuel =
    let len = ap length split ∙ length-append pre (encode_record s ++ encode_records records) in
    let size = length-append (encode_record s) (encode_records records) in
    let width = length-encode_record n s this in
    let m : MessageBuf = record { buf = buf; ptr = ptr } in
    let m' : MessageBuf = record { buf = buf; ptr = ptr + (24 + n * 8) } in
    let rest =
      le32 s.call_node_id
      ++ le32 s.parent_node_id
      ++ le64 s.call_count
      ++ encode_values s.profile_value
      ++ encode_records records in
    let name : read64 (get_current m) 0 ≡ some s.nameid =
      ap (λ p. read64 p 0) (ap (drop (ptr + 8)) split ∙ drop_pre pre _ (ptr + 8) start)
      ∙ word64-le64 s.nameid rest this.0 in
    let (end_ptr, done, at_end) =
      ask_names-encode records n f (pre ++ encode_record s) buf (ptr + (24 + n * 8))
        (ask_name s.nameid st) ok
        (split ∙ sym (append_assoc pre (encode_record s) (encode_records records)))
        (omega (arith, length-append pre (encode_record s), width, start)) (omega arith) in
    (
      end_ptr,
      ask_names_step f 0 (24 + n * 8) s.nameid m m' st
            (lt→leb (length buf) (ptr + 8) (omega (arith, len, size, width, start))) name
            (seek_lem m (24 + n * 8) (omega (arith, len, size, width, start)))
          ∙ done
          ∙ ap (λ st'. some (all_read buf end_ptr, st')) (ask_all_step s records st),
      at_end,
    )

pub get64-step :
    (m : MessageBuf) (v : ℕ)
    → 8 + m.ptr ≤ length m.buf
    → word64 (get_current m) ≡ some v
    → get64 m ≡ some (v, record m { ptr = m.ptr + 8 })
get64-step m v fits word =
    rw (le→leb (8 + m.ptr) (length m.buf) fits, word, seek_lem m 8 (omega (arith, fits)), get64)
      refl

on_profile_data_step :
    (offset size tid : ℕ) (res m m' : MessageBuf) (st st' : Received)
    → get64 res ≡ some (tid, m)
    → ask_names (suc (length res.buf)) offset size (set_current_ptr m 8) st ≡ some (m', st')
    → on_profile_data offset size res st
      ≡ some (record st' { buf_for_threads = put tid m' st'.buf_for_threads })
unfolding on_profile_data
on_profile_data_step offset size tid res m m' st st' got names =
    rw (got, names, on_profile_data) refl

offsets_nameid : (g : Registry) → get_member_offset_of (get_slide g) (codes "pdata.nameid") ≡ 0
unfolding get_member_offset_of get_slide llprof.Base.text_eq
offsets_nameid g = refl

offsets_size :
    (g : Registry)
    → get_member_offset_of (get_slide g) (codes "pdata.record_size") ≡ 24 + length g.active * 8
unfolding get_member_offset_of get_slide llprof.Base.text_eq
offsets_size g = refl

-- A message of profile data, as the program sends it, is kept under its thread's id with all of its
-- bytes and its position at the end, and those name ids of its records are asked for that the table
-- does not have, each once, in the order of the records, and marked in the table; no other is. The
-- offsets are those of the program's own answer to INFO_DATA_SLIDE; the header has eight bytes, the
-- id 64 bits, the fields of the records the range of their C types, and each record a value for each
-- slot.
pub on_profile_data-records :
    (g : Registry) (header : Text) (tid : ℕ) (records : List SerializedInfo) (st : Received)
    → length header ≡ 8
    → tid < 2 ^ 64
    → AllInRange (length g.active) records
    → let buf = header ++ le64 tid ++ encode_records records in
      let st' = ask_all records st in
      (end_ptr : ℕ) × (on_profile_data
          (get_member_offset_of (get_slide g) (codes "pdata.nameid"))
          (get_member_offset_of (get_slide g) (codes "pdata.record_size"))
          (message_of buf)
          st
        ≡ some
            (record st' { buf_for_threads = put tid (all_read buf end_ptr) st'.buf_for_threads }))
      × (end_ptr + 8 ≡ length buf)
on_profile_data-records g header tid records st h small ok =
    let buf = header ++ le64 tid ++ encode_records records in
    let len = length-append (header ++ le64 tid) (encode_records records) in
    let len' = length-append header (le64 tid) in
    let here : word64 (drop 8 buf) ≡ some tid =
      ap word64 (
        ap (drop 8) (append_assoc header (le64 tid) (encode_records records))
        ∙ drop_pre header _ 8 (sym h))
      ∙ word64-le64 tid (encode_records records) small in
    let got = get64-step (message_of buf) tid (omega (arith, len, len', h)) here in
    let (end_ptr, names, at_end) =
      ask_names-encode records (length g.active) (suc (length buf)) (header ++ le64 tid) buf 8 st ok
        refl (omega (arith, len', h)) (omega (arith, len, enough records)) in
    (
      end_ptr,
      rw (offsets_nameid g, offsets_size g)
          (on_profile_data_step 0 (24 + length g.active * 8) tid (message_of buf)
            (record { buf = buf; ptr = 8 }) (all_read buf end_ptr) st (ask_all records st) got
            names),
      at_end,
    )
