-- ===== src/Webmon/Connections.antt =====
-- webmon/data_store.cpp: the connection of a `DataStore` to its program, `DataStore::ReceiveLoop`.
-- `none` is a use of NULL or what makes the texts of the program fail.
use llprof.Base.{
  ℕ, Bool, true, false, Option, none, some, List, [], ◌∷◌, ◌++◌, Text, length, le32, ◌>>=◌,
}
use llprof.Protocol.{msg_query_info, info_data_slide, info_record_metainfo, info_profile_target}
use llprof.Server.{Message}
use llprof.Webmon.MessageBuf.{MessageBuf, as_string}
use llprof.Webmon.Receive.{recv_message}
use llprof.Webmon.Texts.{slides_of, metadata_of}
use llprof.Webmon.DataStore.{Globals, DataStore, get_profile_data}

-- The fields of `DataStore` beside those of the model's record of this name. `connected` tells
-- whether `socket_` is not 0, `pieces` are what arrives on the socket, and `sent` was sent on it.
-- `num_records` is none until it is set.
pub record Connection : Type 0 where
  pub store : DataStore
  pub num_records : Option ℕ
  pub recv : Bool
  pub first_received : Bool
  pub closed : Bool
  pub connected : Bool
  pub host : Text
  pub port : Text
  pub target_name : Text
  pub pieces : List Text
  pub sent : List Message

-- `DataStore::DataStore`
abbrev pub new_data_store : ℕ → Connection
new_data_store id = record {
  store = record {
    id = id;
    current_time_number = 0;
    member_offset_info = [];
    record_metadata = [];
    name_table = [];
    threads = [];
  };
  num_records = none;
  recv = false;
  first_received = false;
  closed = false;
  connected = false;
  host = [];
  port = [];
  target_name = [];
  pieces = [];
  sent = [];
}

-- `SetConnectedSocket`
abbrev pub set_connected_socket : List Text → Connection → Connection
set_connected_socket pieces c = record c { connected = true; pieces = pieces }

-- `SetConnectTo`
abbrev pub set_connect_to : Text → Text → Connection → Connection
set_connect_to host port c = record c { host = host; port = port }

-- `StartReceive`
abbrev pub start_receive : Connection → Connection
start_receive c = record c { recv = true }

-- `SendQueryInfoRequest`: the connection that is left, and the answer.
unfoldable pub send_query_info_request : ℕ → Connection → Option (Connection × Option MessageBuf)
unfolding recv_message
send_query_info_request request_val c = do
  (res, pieces) ← recv_message c.pieces
  some (record c { pieces = pieces; sent = c.sent ++ (msg_query_info, le32 request_val) ∷ [] }, res)

-- The metadata and the name of the program, after the offsets.
unfoldable pub receive_info : Connection → Option Connection
unfolding send_query_info_request metadata_of
receive_info c = do
  (c1, res) ← send_query_info_request info_record_metainfo c
  m ← res
  record_metadata ← metadata_of (as_string m)
  (c2, res') ← send_query_info_request info_profile_target c1
  m' ← res'
  some (record c2 {
    store = record c2.store { record_metadata = record_metadata };
    num_records = some (length record_metadata);
    target_name = as_string m';
  })

-- What is read when the connection is there. The result is that of `ReceiveLoop` where it returns.
unfoldable pub receive_slides : Connection × Option MessageBuf → Option (Bool × Connection)
unfolding receive_info
receive_slides (c, none) = some (false, record c { recv = false })
receive_slides (c, some m) = do
  slides ← slides_of (as_string m)
  c' ← receive_info (record c { store = record c.store { member_offset_info = slides } })
  some (true, c')

-- The socket, when there is none yet. `socket_connect_to` gives what arrives on a new one.
unfoldable pub connect : (Text → Text → Option (List Text)) → Connection → Bool × Connection
connect socket_connect_to c = elim c.connected [
  | true ↦ (true, c)
  | false ↦ elim (socket_connect_to c.host c.port) [
    | some pieces ↦ (true, record c { connected = true; pieces = pieces })
    | none ↦ (false, record c { closed = true; recv = false })
  ]
]

unfoldable pub receive_first :
    (Text → Text → Option (List Text)) → Connection → Option (Bool × Connection)
unfolding connect send_query_info_request receive_slides
receive_first socket_connect_to c =
    let (ok, c') = connect socket_connect_to (record c { first_received = true }) in
    elim ok [
      | false ↦ some (false, c')
      | true ↦ do answered ← send_query_info_request info_data_slide c'; receive_slides answered
    ]

-- The poll at the end. `f` is the fuel of `get_profile_data`.
unfoldable pub receive_poll : ℕ → Globals → Bool × Connection → Option (Bool × Connection)
unfolding get_profile_data
receive_poll f g (false, c) = some (false, c)
receive_poll f g (true, c) = do
  polled ← get_profile_data f g c.store c.pieces
  some (
    polled.succeeded,
    record c {
      store = polled.data_store;
      recv = polled.succeeded;
      pieces = polled.pieces;
      sent = c.sent ++ polled.sent;
    },
  )

-- `ReceiveLoop`. A store that polls has `recv` set.
unfoldable pub receive_loop :
    ℕ → Globals → (Text → Text → Option (List Text)) → Connection → Option (Bool × Connection)
unfolding receive_first receive_poll
receive_loop f g socket_connect_to c = elim c.recv [
  | false ↦ some (false, c)
  | true ↦ elim c.first_received [
    | true ↦ receive_poll f g (true, c)
    | false ↦ do started ← receive_first socket_connect_to c; receive_poll f g started
  ]
]
