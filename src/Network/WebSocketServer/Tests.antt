-- ===== src/Network/WebSocketServer/Tests.antt =====
-- Runs of the server of src/network/websocket-server.ts.
use sync_engine.Base.{◌≡◌, refl, true, false, none, some, List, [], ◌∷◌, arith}
use sync_engine.Base.Map
use sync_engine.Network.Protocol.{
  BinaryProtocol, Buffer, Item, data_, heartbeat, handshake_ack, encode, encode_batch,
}
use sync_engine.Network.WebSocketServer
use sync_engine.Network.WebSocketServer.{
  WebSocketServer, ClientConnection, WsConfig, Json, Output, message, create, received, set_on_auth,
  handle_message, set_on_message, admitted, handle_connection, check_heartbeats, check_clients,
  check_client, handle_disconnect,
}
use sync_engine.Network.WebSocketServer.Capacity.{
  Event, IsWithin, run, step, has_stopped, registers_message, registers_connect,
  registers_disconnect, registers_auth, connects, pongs, fails, ticks, run-IsWithin,
}
use sync_engine.Network.WebSocketServer.Receiving.{
  delivered, handle_message-encode_batch, IsAcknowledged, handle_message-handshake_ack,
}

abbrev one_client : WsConfig
one_client = record { max_connections = 1; heartbeat_interval = 10 }

-- The object without a token is one byte here.
abbrev json : Json
json = record {
  handshake_payload = λ session now. now ∷ [];
  auth_failed = 0 ∷ [];
  read_ack = λ payload. some none;
}

abbrev events : List Event
events =
    registers_message
    ∷ registers_connect
    ∷ registers_disconnect
    ∷ registers_auth
    ∷ connects "a" "10.0.0.1" 0
    ∷ connects "b" "10.0.0.2" 1
    ∷ pongs "a" 5
    ∷ fails
    ∷ ticks 9
    ∷ ticks 26
    ∷ connects "c" "10.0.0.3" 30
    ∷ []

run-IsWithin_example : IsWithin 1 false (run one_client json create events)
unfolding has_stopped
run-IsWithin_example = run-IsWithin one_client json events

-- The second client is turned away, the first is cut off by the silence after its pong.
run_keeps_last : Map.keys (run one_client json create events).clients ≡ "c" ∷ []
unfolding run step create handle_connection check_heartbeats check_clients check_client
    handle_disconnect Map.set Map.get Map.keys Map.delete
run_keeps_last = refl

abbrev holding : WebSocketServer
holding = set_on_auth (set_on_message (admitted create "a" "10.0.0.1" 0))

abbrev client : ClientConnection
client = WebSocketServer.new_client "a" "10.0.0.1" 0

abbrev protocol : BinaryProtocol
protocol = record { sequence_id = 65535 }

abbrev items : List Item
items = record { type = data_; payload = 1 ∷ [] } ∷ record { type = heartbeat; payload = [] } ∷ []

held : Map.get holding.clients "a" ≡ some client
unfolding create Map.get Map.set
held = refl

flagged : holding.on_message ≡ true
flagged = refl

handle_message-encode_batch_example :
    (buf : Buffer) × ((encode_batch protocol items).1 ≡ some buf)
    × (handle_message json holding "a" buf 7
        ≡ (received holding "a" client buf 7, delivered "a" items))
handle_message-encode_batch_example =
    handle_message-encode_batch json holding "a" client 7 protocol items (omega arith) held flagged

abbrev empty_object : Buffer
empty_object = 123 ∷ 125 ∷ []

handle_message-handshake_ack_example :
    (buf : Buffer) × ((encode protocol handshake_ack empty_object).1 ≡ some buf)
    × IsAcknowledged holding "a" client 7 none (handle_message json holding "a" buf 7)
handle_message-handshake_ack_example =
    handle_message-handshake_ack json holding "a" client 7 protocol empty_object none (omega arith)
      held refl
