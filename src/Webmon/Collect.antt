-- ===== src/Webmon/Collect.antt =====
-- webmon/data_store.cpp, the loop of `DataStore::GetProfileData` that receives the answer to
-- MSG_REQ_PROFILE_DATA. `none` is a failed assertion, a read out of bounds, or a loop that has not
-- ended when the fuel is used up.
use llprof.Base.{
  ℕ, zero, suc, Bool, true, false, Option, none, some, List, [], ◌∷◌, ◌++◌, Map, find, put, Text,
  codes, length, read64, ◌==◌, ◌>>=◌, if◌then◌else◌,
}
use llprof.Protocol.{msg_command_succeed, msg_error, msg_profile_data, msg_nowinfo}
use llprof.Webmon.MessageBuf.{
  MessageBuf, get_message_type, get_current, set_current_ptr, seek, get64, is_eof,
}
use llprof.Webmon.Receive.{recv_message}

-- The locals, the table of names being the store's. `query_names` is without its first slot, which
-- the request for the names overwrites.
pub record Received : Type 0 where
  pub buf_for_threads : Map MessageBuf
  pub nowinfo_buf_for_threads : Map MessageBuf
  pub query_names : List ℕ
  pub name_table : Map Text

-- A name id that the table does not have is asked for.
unfoldable pub ask_name : ℕ → Received → Received
ask_name nameid st = elim (find nameid st.name_table) [
  | some _ ↦ st
  | none ↦ record st {
    query_names = st.query_names ++ nameid ∷ [];
    name_table = put nameid (codes "<Asking>") st.name_table;
  }
]

-- The loop over the records of a message, with `offset_nameid` and `pdata_record_size`.
unfoldable pub ask_names : ℕ → ℕ → ℕ → MessageBuf → Received → Option (MessageBuf × Received)
unfolding ask_name
ask_names zero offset size res st = none
ask_names (suc f) offset size res st = elim (is_eof res) [
  | true ↦ some (res, st)
  | false ↦ do
    nameid ← read64 (get_current res) offset
    res' ← seek res size
    ask_names f offset size res' (ask_name nameid st)
]

-- The cases of the `switch` that go on with the loop.
unfoldable pub on_profile_data : ℕ → ℕ → MessageBuf → Received → Option Received
unfolding ask_names
on_profile_data offset size res st = do
  (thread_id, m) ← get64 res
  (m', st') ← ask_names (suc (length res.buf)) offset size (set_current_ptr m 8) st
  some (record st' { buf_for_threads = put thread_id m' st'.buf_for_threads })

unfoldable pub on_nowinfo : MessageBuf → Received → Option Received
on_nowinfo res st = do
  (thread_id, m) ← get64 res
  some (record st { nowinfo_buf_for_threads = put thread_id m st.nowinfo_buf_for_threads })

unfoldable pub on_message : ℕ → ℕ → ℕ → MessageBuf → Received → Option Received
unfolding on_profile_data on_nowinfo
on_message offset size msg_type res st =
    if msg_type == msg_profile_data
    then on_profile_data offset size res st
    else if msg_type == msg_nowinfo
    then on_nowinfo res st
    else some st

-- The loop; the flag is false where `GetProfileData` returns false.
unfoldable pub receive_loop :
    ℕ → ℕ → ℕ → List Text → Received → Option (Bool × Received × List Text)
unfolding on_message
receive_loop zero offset size pieces st = none
receive_loop (suc f) offset size pieces st = do
  (res, pieces') ← recv_message pieces
  elim res [
    | none ↦ some (false, st, pieces')
    | some m ↦ do
      msg_type ← get_message_type m
      elim (msg_type == msg_command_succeed) [
        | true ↦ some (true, st, pieces')
        | false ↦ elim (msg_type == msg_error) [
          | true ↦ some (false, st, pieces')
          | false ↦ do
            st' ← on_message offset size msg_type m st
            receive_loop f offset size pieces' st'
        ]
      ]
  ]
