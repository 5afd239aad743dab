-- ===== src/Network/WebSocketServer.antt =====
-- `SyncWebSocketServer` of src/network/websocket-server.ts. The sockets, the handlers and JSON are not
-- of this code: an operation returns what it does with them, a socket's `readyState` is kept as a
-- flag of its client, which `close` and `terminate` of the library lower, and `Json` gives the texts
-- that are sent and read. The clock, the new session and the client's address are arguments. A
-- handler that calls the server again is a later event.
mod Sizes
pub mod Capacity
pub mod Receiving
mod Tests
use sync_engine.Base.{
  ℕ, ◌+◌, ◌-◌, ◌*◌, String, Bool, true, false, not, ◌&&◌, ◌||◌, Option, none, some, List, [], ◌∷◌,
  ◌++◌, ltb, leb, ◌==◌, length, any, str_eq, if◌then◌else◌,
}
use sync_engine.Base.Map
use sync_engine.Base.Map.{Map}
use sync_engine.Network.Protocol.{
  BinaryProtocol, Buffer, Packet, PacketType, handshake, data_, heartbeat_ack, error, encode,
  decode, decode_batch,
}

pub record ClientConnection : Type 0 where
  pub session_id : String
  pub is_open : Bool
  pub ip : String
  pub connected_at : ℕ
  pub last_activity : ℕ
  pub authenticated : Bool

pub record Stats : Type 0 where
  pub total_connections : ℕ
  pub active_connections : ℕ
  pub messages_received : ℕ
  pub messages_sent : ℕ
  pub bytes_received : ℕ
  pub bytes_sent : ℕ
  pub errors : ℕ

-- The last four fields say which handlers are registered.
pub record WebSocketServer : Type 0 where
  pub clients : Map ClientConnection
  pub protocol : BinaryProtocol
  pub stats : Stats
  pub on_message : Bool
  pub on_connect : Bool
  pub on_disconnect : Bool
  pub on_auth : Bool

-- `config.ws`
pub record WsConfig : Type 0 where
  pub max_connections : ℕ
  pub heartbeat_interval : ℕ

-- The handshake for a session and a time; the payload of a failed authentication; and the token that
-- an acknowledgement names, if it names one that is not empty: `none` if reading it throws.
pub record Json : Type 0 where
  pub handshake_payload : String → ℕ → Buffer
  pub auth_failed : Buffer
  pub read_ack : Buffer → Option (Option String)

pub data Output : Type 0 where
  sent : String → Buffer → Output
  pinged terminated : String → Output
  closed : String → ℕ → Output
  message : String → Buffer → Output
  auth_asked : String → String → Output
  connect_handler : String → Output
  disconnect_handler : String → String → Output
  client_connected : String → String → Output
  client_disconnected : String → String → Output

abbrev pub no_stats : Stats
no_stats = record {
  total_connections = 0;
  active_connections = 0;
  messages_received = 0;
  messages_sent = 0;
  bytes_received = 0;
  bytes_sent = 0;
  errors = 0;
}

unfoldable pub create : WebSocketServer
create = record {
  clients = [];
  protocol = record { sequence_id = 0 };
  stats = no_stats;
  on_message = false;
  on_connect = false;
  on_disconnect = false;
  on_auth = false;
}

abbrev pub set_on_message : WebSocketServer → WebSocketServer
set_on_message s = record s { on_message = true }

abbrev pub set_on_connect : WebSocketServer → WebSocketServer
set_on_connect s = record s { on_connect = true }

abbrev pub set_on_disconnect : WebSocketServer → WebSocketServer
set_on_disconnect s = record s { on_disconnect = true }

abbrev pub set_on_auth : WebSocketServer → WebSocketServer
set_on_auth s = record s { on_auth = true }

-- The outputs of a call that is made only under a condition.
abbrev pub when : Bool → Output → List Output
when true o = o ∷ []
when false o = []

abbrev pub count_sent : Stats → Buffer → Stats
count_sent t packet = record t {
  messages_sent = t.messages_sent + 1;
  bytes_sent = t.bytes_sent + length packet;
}

-- `sendToClient`; the answer is `none` if `encode` throws.
unfoldable pub send_to_client :
    WebSocketServer → String → PacketType → Buffer → WebSocketServer × Option Bool × List Output
send_to_client s id type payload = elim (Map.get s.clients id) [
  | none ↦ (s, some false, [])
  | some client ↦
      if client.is_open
      then (let (p, out) = encode s.protocol type payload in
          elim out [
            | none ↦ (record s { protocol = p }, none, [])
            | some packet ↦ (
              record s { protocol = p; stats = count_sent s.stats packet },
              some true,
              sent id packet ∷ [],
            )
          ])
      else (s, some false, [])
]

-- `ws.close()` of a client: its socket is not open after it.
abbrev pub shut : WebSocketServer → String → WebSocketServer
shut s id = elim (Map.get s.clients id) [
  | none ↦ s
  | some client ↦ record s { clients = Map.set s.clients id (record client { is_open = false }) }
]

abbrev pub new_client : String → String → ℕ → ClientConnection
new_client session ip now = record {
  session_id = session;
  is_open = true;
  ip = ip;
  connected_at = now;
  last_activity = now;
  authenticated = false;
}

-- The state once the client is stored.
abbrev pub admitted : WebSocketServer → String → String → ℕ → WebSocketServer
admitted s session ip now =
    let clients = Map.set s.clients session (new_client session ip now) in
    record s {
      clients = clients;
      stats = record s.stats {
        total_connections = s.stats.total_connections + 1;
        active_connections = Map.size clients;
      };
    }

-- A handshake that cannot be encoded throws before the handlers are called.
unfoldable pub handle_connection :
    WsConfig → Json → WebSocketServer → String → String → ℕ → WebSocketServer × List Output
handle_connection cfg json s session ip now =
    if leb cfg.max_connections (Map.size s.clients)
    then (s, closed session 1013 ∷ [])
    else (let s' = admitted s session ip now in
        let (p, out) = encode s'.protocol handshake (json.handshake_payload session now) in
        (
          record s' { protocol = p },
          elim out [
            | none ↦ []
            | some packet ↦
                sent session packet
                ∷ (when s.on_connect (connect_handler session) ++ client_connected session ip ∷ [])
          ],
        ))

abbrev pub authenticated_as : WebSocketServer → String → Bool → WebSocketServer
authenticated_as s id ok = elim (Map.get s.clients id) [
  | none ↦ s
  | some client ↦ record s { clients = Map.set s.clients id (record client { authenticated = ok }) }
]

-- What follows once the acknowledgement is read: without a token, or without a handler to ask, the client
-- counts as authenticated.
unfoldable pub acknowledge :
    WebSocketServer → String → Option String → WebSocketServer × List Output
acknowledge s id none = (authenticated_as s id true, [])
acknowledge s id (some token) =
    if s.on_auth then (s, auth_asked id token ∷ []) else (authenticated_as s id true, [])

unfoldable pub handle_handshake_ack :
    Json → WebSocketServer → String → Buffer → WebSocketServer × List Output
unfolding acknowledge
handle_handshake_ack json s id payload = elim (json.read_ack payload) [
  | none ↦ (s, [])
  | some token ↦ if Map.has s.clients id then acknowledge s id token else (s, [])
]

-- The continuation of `onAuthHandler`, with its answer. If the error cannot be encoded it throws
-- before the socket is closed.
unfoldable pub auth_answered :
    Json → WebSocketServer → String → Bool → WebSocketServer × List Output
unfolding send_to_client
auth_answered json s id true = (authenticated_as s id true, [])
auth_answered json s id false =
    let (s', answer, out) =
      send_to_client (authenticated_as s id false) id error json.auth_failed in
    elim answer [ none ↦ (s', out) | some _ ↦ (shut s' id, out ++ closed id 4001 ∷ []) ]

-- The code of DATA is 3.
unfoldable pub deliver_batch : String → List Packet → List Output
deliver_batch id [] = []
deliver_batch id (p ∷ ps) =
    let rest = deliver_batch id ps in if p.type == 3 then message id p.payload ∷ rest else rest

unfoldable pub handle_batch : WebSocketServer → String → Buffer → ℕ → List Output
unfolding deliver_batch
handle_batch s id payload now =
    if s.on_message then deliver_batch id (decode_batch now payload) else []

-- The switch on the packet's type, by its code.
unfoldable pub dispatch :
    Json → WebSocketServer → String → Packet → ℕ → WebSocketServer × List Output
unfolding handle_handshake_ack send_to_client handle_batch
dispatch json s id packet now =
    if packet.type == 2
    then handle_handshake_ack json s id packet.payload
    else (if packet.type == 4
        then (let (s', _, out) = send_to_client s id heartbeat_ack [] in (s', out))
        else (if packet.type == 3
            then (s, when s.on_message (message id packet.payload))
            else (if packet.type == 6
                then (shut s id, closed id 1000 ∷ [])
                else (if packet.type == 8
                    then (s, handle_batch s id packet.payload now)
                    else (s, [])))))

-- The state once the message is counted.
abbrev pub received : WebSocketServer → String → ClientConnection → Buffer → ℕ → WebSocketServer
received s id client data_bytes now = record s {
  clients = Map.set s.clients id (record client { last_activity = now });
  stats = record s.stats {
    messages_received = s.stats.messages_received + 1;
    bytes_received = s.stats.bytes_received + length data_bytes;
  };
}

unfoldable pub handle_message :
    Json → WebSocketServer → String → Buffer → ℕ → WebSocketServer × List Output
unfolding dispatch
handle_message json s id data_bytes now = elim (Map.get s.clients id) [
  | none ↦ (s, [])
  | some client ↦
      let s' = received s id client data_bytes now in
      elim (decode now data_bytes) [
        | none ↦ (s', [])
        | some packet ↦ dispatch json s' id packet now
      ]
]

unfoldable pub handle_disconnect : WebSocketServer → String → String → WebSocketServer × List Output
handle_disconnect s id reason =
    let clients = Map.delete s.clients id in
    (
      record s {
        clients = clients;
        stats = record s.stats { active_connections = Map.size clients };
      },
      when s.on_disconnect (disconnect_handler id reason) ++ client_disconnected id reason ∷ [],
    )

abbrev pub pong : WebSocketServer → String → ℕ → WebSocketServer
pong s id now = elim (Map.get s.clients id) [
  | none ↦ s
  | some client ↦ record s {
    clients = Map.set s.clients id (record client { last_activity = now });
  }
]

abbrev pub socket_error : WebSocketServer → WebSocketServer
socket_error s = record s { stats = record s.stats { errors = s.stats.errors + 1 } }

-- The clients that a broadcast reaches, in the map's order.
unfoldable pub reached : Map ClientConnection → List String → List String
reached [] exclude = []
reached ((id, client) ∷ m) exclude =
    let rest = reached m exclude in
    if any (str_eq id) exclude then rest else (if client.is_open then id ∷ rest else rest)

unfoldable pub send_each : Stats → Buffer → List String → Stats × List Output
send_each t packet [] = (t, [])
send_each t packet (id ∷ ids) =
    let (t', out) = send_each (count_sent t packet) packet ids in (t', sent id packet ∷ out)

-- The flag is false if `encode` throws.
unfoldable pub broadcast :
    WebSocketServer → PacketType → Buffer → List String → WebSocketServer × Bool × List Output
unfolding reached send_each
broadcast s type payload exclude =
    let (p, out) = encode s.protocol type payload in
    elim out [
      | none ↦ (record s { protocol = p }, false, [])
      | some packet ↦
          let (t, outs) = send_each s.stats packet (reached s.clients exclude) in
          (record s { protocol = p; stats = t }, true, outs)
    ]

-- One round of the loop of `checkHeartbeats`.
unfoldable pub check_client :
    WsConfig → WebSocketServer → ℕ → String → WebSocketServer × List Output
unfolding handle_disconnect
check_client cfg s now id = elim (Map.get s.clients id) [
  | none ↦ (s, [])
  | some client ↦
      if ltb (cfg.heartbeat_interval * 2) (now - client.last_activity)
      then (let (s', out) = handle_disconnect s id "heartbeat timeout" in (s', terminated id ∷ out))
      else (s, when client.is_open (pinged id))
]

unfoldable pub check_clients :
    WsConfig → WebSocketServer → ℕ → List String → WebSocketServer × List Output
unfolding check_client
check_clients cfg s now [] = (s, [])
check_clients cfg s now (id ∷ ids) =
    let (s', out) = check_client cfg s now id in
    let later : WebSocketServer × List Output = check_clients cfg s' now ids in
    (later.0, out ++ later.1)

unfoldable pub check_heartbeats : WsConfig → WebSocketServer → ℕ → WebSocketServer × List Output
unfolding check_clients
check_heartbeats cfg s now = check_clients cfg s now (Map.keys s.clients)

unfoldable pub close_all : List String → List Output
close_all [] = []
close_all (id ∷ ids) = closed id 1001 ∷ close_all ids

unfoldable pub stop : WebSocketServer → WebSocketServer × List Output
unfolding close_all
stop s = (record s { clients = [] }, close_all (Map.keys s.clients))

abbrev pub get_client : WebSocketServer → String → Option ClientConnection
get_client s id = Map.get s.clients id

abbrev pub get_stats : WebSocketServer → Stats
get_stats s = s.stats

abbrev pub connection_count : WebSocketServer → ℕ
connection_count s = Map.size s.clients
