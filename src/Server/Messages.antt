-- ===== src/Server/Messages.antt =====
-- llprofcommon/server.cpp, `msg_handler` and `llprof_message_dispatch`.
use llprof.Base.{
  ℕ, zero, suc, ◌+◌, ◌-◌, Bool, true, false, Option, none, some, List, [], ◌∷◌, ◌++◌, Map, Text,
  length, ltb, leb, ◌==◌, if◌then◌else◌, word32, word64, ◌>>=◌, drop,
}
use mathlib.Core.Option
use llprof.NameTable
use llprof.Network.{recv_full}
use llprof.Protocol.{
  get_slide, msg_start_profile, msg_query_info, info_data_slide, info_profile_target,
  info_record_metainfo, msg_req_profile_data, msg_slide_info, msg_query_names, query_names,
  msg_names, msg_profile_target, msg_record_metainfo, msg_command_succeed, msg_error,
}
use llprof.Server.{Process, Message, req_profile_data, slide_info_to_str, get_record_info}

-- `sizeof(name_buf)` and `sizeof(msg_buf)`
abbrev pub name_buf_size : ℕ
name_buf_size = 256000

abbrev pub msg_buf_size : ℕ
msg_buf_size = 65536

-- How the loop of MSG_QUERY_NAMES ends.
pub data NamesReply : Type 0 where
  names : Text → NamesReply
  too_many : NamesReply

-- The text that is appended for an entry, without its newline; `none` when it does not fit.
abbrev pub append_name : ℕ → ℕ → Map Text → Text → Option Text
append_name subsec_type id table out =
    if subsec_type == query_names
    then (let name = NameTable.get id table in
        if leb name_buf_size (length name + length out) then none else some (out ++ name))
    else some out

-- One entry: `name_buf[offset] = '\n'` is not checked, and beyond the buffer it is `none`.
unfoldable pub end_line : Text → Option Text
end_line out = if ltb (length out) name_buf_size then some (out ++ b'\n' ∷ []) else none

-- The loop, eight bytes at a time, with `subsec_rem`, `subsec_type` and the text so far.
unfoldable pub query_loop : Map Text → Text → ℕ → ℕ → Text → Option NamesReply
unfolding end_line
query_loop table (a ∷ b ∷ c ∷ d ∷ e ∷ f ∷ g ∷ h ∷ rest) rem kind out = elim (rem == 0) [
  | true ↦ do
    kind' ← word32 (a ∷ b ∷ c ∷ d ∷ [])
    rem' ← word32 (e ∷ f ∷ g ∷ h ∷ [])
    query_loop table rest rem' kind' out
  | false ↦ do
    id ← word64 (a ∷ b ∷ c ∷ d ∷ e ∷ f ∷ g ∷ h ∷ [])
    elim (append_name kind id table out) [
      | none ↦ some too_many
      | some out' ↦ do line ← end_line out'; query_loop table rest (rem - 1) kind line
    ]
]
query_loop table _ rem kind out = some (names out)

abbrev pub names_message : NamesReply → Message
names_message (names out) = (msg_names, out)
names_message too_many = (msg_error, [])

-- The first four bytes of `msgbuf`.
abbrev pub info_type : Text → Option ℕ
info_type body = word32 (body ++ 255 ∷ 255 ∷ 255 ∷ 255 ∷ [])

unfoldable pub query_info : Process → Text → Option (List Message)
unfolding slide_info_to_str get_record_info
query_info p body = do
  kind ← info_type body
  (if kind == info_data_slide
      then some ((msg_slide_info, slide_info_to_str (get_slide p.registry)) ∷ [])
      else if kind == info_profile_target
      then some ((msg_profile_target, p.target_name) ∷ [])
      else if kind == info_record_metainfo
      then Option.map (λ info. (msg_record_metainfo, info) ∷ []) (get_record_info p.registry)
      else some [])

-- `msg_handler`: the messages that it sends, in order. `body` has the `size` bytes of `msgbuf`; what
-- stands behind them there is 255 in each byte, so a body that is too short for an `int` is read as
-- one that ends so.
unfoldable pub msg_handler : (ℕ → ℕ → ℕ) → Process → ℕ → Text → Option (Process × List Message)
msg_handler read p msg_id body =
    if msg_id == msg_start_profile
    then some (record p { server_started = true }, (msg_command_succeed, []) ∷ [])
    else if msg_id == msg_query_info
    then Option.map (λ ms. (p, ms)) (query_info p body)
    else if msg_id == msg_req_profile_data
    then req_profile_data read p
    else if msg_id == msg_query_names
    then Option.map (λ r. (p, names_message r ∷ [])) (query_loop p.names body 0 0 [])
    else some (p, [])

-- How `llprof_message_dispatch` ends: the connection is over, or the process is aborted.
pub data Ending : Type 0 where
  closed aborted : Ending

-- What one round of the loop receives: a message, with the pieces that follow, or an end.
pub data Incoming : Type 0 where
  request : ℕ → Text → List Text → Incoming
  ended : Ending → Incoming

unfoldable pub after_body : ℕ → Bool × Text × List Text → Incoming
after_body msg_id (false, body, pieces) = ended closed
after_body msg_id (true, body, pieces) = request msg_id body pieces

-- `msg_sz` is an `int` that is compared as an unsigned number.
unfoldable pub after_size : ℕ → ℕ → List Text → Incoming
unfolding after_body
after_size msg_id msg_sz pieces = elim (leb msg_buf_size msg_sz) [
  | true ↦ ended aborted
  | false ↦ elim (msg_sz == 0) [
    | true ↦ request msg_id [] pieces
    | false ↦ after_body msg_id (recv_full msg_sz pieces)
  ]
]

unfoldable pub after_header : Bool × Text × List Text → Option Incoming
unfolding after_size
after_header (false, header, pieces) = some (ended closed)
after_header (true, header, pieces) = do
  msg_id ← word32 header
  msg_sz ← word32 (drop 4 header)
  some (after_size msg_id msg_sz pieces)

-- `llprof_message_dispatch`, over the pieces in which the client's bytes arrive: the messages sent
-- and the way it ends. Each round takes the eight bytes of a header, so as many rounds as there are
-- bytes are enough.
unfoldable pub message_dispatch :
    ℕ → (ℕ → ℕ → ℕ) → Process → List Text → List Message → Option (Process × List Message × Ending)
unfolding after_header
message_dispatch zero read p pieces sent = none
message_dispatch (suc f) read p pieces sent = do
  incoming ← after_header (recv_full 8 pieces)
  elim incoming [
    | ended ending ↦ some (p, sent, ending)
    | request msg_id body pieces' ↦ do
      (p', ms) ← msg_handler read p msg_id body
      message_dispatch f read p' pieces' (sent ++ ms)
  ]
