-- ===== src/Network/WebSocketServer/Sizes.antt =====
-- What leaves the clients of src/network/websocket-server.ts as many as they are.
use sync_engine.Base.{
  ℕ, ◌≡◌, refl, ◌∙◌, inl, inr, String, Bool, true, false, Option, none, some, List, [], ◌∷◌, arith,
  ◌==◌, if◌then◌else◌, Option-cases, Bool-cases,
}
use sync_engine.Base.Map
use sync_engine.Base.Map.Laws.{size-set}
use sync_engine.Network.Protocol.{Buffer, Packet, PacketType, error, decode, encode, heartbeat_ack}
use sync_engine.Network.WebSocketServer
use sync_engine.Network.WebSocketServer.{
  WebSocketServer, when, closed, message, handle_batch, WsConfig, Json, Output, ClientConnection,
  create, shut, set_on_message, set_on_connect, set_on_disconnect, set_on_auth, stop,
  authenticated_as, acknowledge, admitted, received, send_to_client, handle_connection,
  handle_handshake_ack, auth_answered, dispatch, handle_message, handle_disconnect, pong,
  socket_error, broadcast, check_client, check_clients, check_heartbeats, send_each, reached,
}

-- Nothing about the clients but their contents has changed.
abbrev pub SameSize : WebSocketServer → WebSocketServer → Type 0
SameSize s t =
    (Map.size t.clients ≡ Map.size s.clients)
    × (t.stats.active_connections ≡ s.stats.active_connections)

pub send_to_client-SameSize :
    (s : WebSocketServer) (id : String) (type : PacketType) (payload : Buffer)
    → SameSize s (send_to_client s id type payload).0
unfolding send_to_client
send_to_client-SameSize s id type payload = elim (Option-cases (Map.get s.clients id)) [
  | inl e ↦ rw (e, send_to_client) (refl, refl)
  | inr (c, e) ↦ elim (Bool-cases c.is_open) [
    | inl o ↦ elim (Option-cases (encode s.protocol type payload).1) [
      | inl out ↦ rw (e, send_to_client, o, out) (refl, refl)
      | inr (b, out) ↦ rw (e, send_to_client, o, out) (refl, refl)
    ]
    | inr o ↦ rw (e, send_to_client, o) (refl, refl)
  ]
]

shut-SameSize : (s : WebSocketServer) (id : String) → SameSize s (shut s id)
shut-SameSize s id = elim (Option-cases (Map.get s.clients id)) [
  | inl e ↦ rw (e, shut) (refl, refl)
  | inr (c, e) ↦ ground (arith, size-set s.clients id (record c { is_open = false }))
]

authenticated_as-SameSize :
    (s : WebSocketServer) (id : String) (ok : Bool) → SameSize s (authenticated_as s id ok)
authenticated_as-SameSize s id ok = elim (Option-cases (Map.get s.clients id)) [
  | inl e ↦ rw (e, authenticated_as) (refl, refl)
  | inr (c, e) ↦ ground (arith, size-set s.clients id (record c { authenticated = ok }))
]

abbrev Answer : Type 0
Answer = WebSocketServer × List Output

if-SameSize :
    (s : WebSocketServer) (b : Bool) (x y : Answer)
    → SameSize s x.0
    → SameSize s y.0
    → SameSize s (if b then x else y).0
if-SameSize s true x y h k = h
if-SameSize s false x y h k = k

SameSize-trans : (s t u : WebSocketServer) → SameSize s t → SameSize t u → SameSize s u
SameSize-trans s t u h k = (k.0 ∙ h.0, k.1 ∙ h.1)

acknowledge-SameSize :
    (s : WebSocketServer) (id : String) (token : Option String)
    → SameSize s (acknowledge s id token).0
unfolding acknowledge
acknowledge-SameSize s id none = authenticated_as-SameSize s id true
acknowledge-SameSize s id (some token) =
    if-SameSize s s.on_auth _ _ (refl, refl) (authenticated_as-SameSize s id true)

ack-SameSize :
    (json : Json) (s : WebSocketServer) (id : String) (payload : Buffer)
    → SameSize s (handle_handshake_ack json s id payload).0
unfolding handle_handshake_ack
ack-SameSize json s id payload = elim (Option-cases (json.read_ack payload)) [
  | inl e ↦ rw (e, handle_handshake_ack) (refl, refl)
  | inr (token, e) ↦
      rw (e, handle_handshake_ack)
        (if-SameSize s (Map.has s.clients id) _ _ (acknowledge-SameSize s id token) (refl, refl))
]

dispatch-SameSize :
    (json : Json) (s : WebSocketServer) (id : String) (p : Packet) (now : ℕ)
    → SameSize s (dispatch json s id p now).0
unfolding dispatch
dispatch-SameSize json s id p now =
    let acked = handle_handshake_ack json s id p.payload in
    let beat : Answer = (let (s', _, out) = send_to_client s id heartbeat_ack [] in (s', out)) in
    let given : Answer = (s, when s.on_message (message id p.payload)) in
    let gone : Answer = (shut s id, closed id 1000 ∷ []) in
    let several : Answer = (s, handle_batch s id p.payload now) in
    let last : Answer = if p.type == 8 then several else (s, []) in
    let fourth : Answer = if p.type == 6 then gone else last in
    let third : Answer = if p.type == 3 then given else fourth in
    let second : Answer = if p.type == 4 then beat else third in
    if-SameSize s (p.type == 2) acked second (ack-SameSize json s id p.payload) (
      if-SameSize s (p.type == 4) beat third (send_to_client-SameSize s id heartbeat_ack []) (
        if-SameSize s (p.type == 3) given fourth (refl, refl)
          (if-SameSize s (p.type == 6) gone last (shut-SameSize s id)
            (if-SameSize s (p.type == 8) several (s, []) (refl, refl) (refl, refl)))))

pub handle_message-SameSize :
    (json : Json) (s : WebSocketServer) (id : String) (data_bytes : Buffer) (now : ℕ)
    → SameSize s (handle_message json s id data_bytes now).0
unfolding handle_message
handle_message-SameSize json s id data_bytes now = elim (Option-cases (Map.get s.clients id)) [
  | inl e ↦ rw (e, handle_message) (refl, refl)
  | inr (c, e) ↦
      let s' = received s id c data_bytes now in
      let first : SameSize s s' =
        ground (arith, size-set s.clients id (record c { last_activity = now })) in
      elim (Option-cases (decode now data_bytes)) [
        | inl d ↦ rw (e, handle_message, d) first
        | inr (p, d) ↦
            rw (e, handle_message, d)
              (SameSize-trans s s' (dispatch json s' id p now).0 first
                (dispatch-SameSize json s' id p now))
      ]
]

answer-SameSize :
    (s : WebSocketServer) (id : String) (r : WebSocketServer × Option Bool × List Output)
    → SameSize s r.0
    → SameSize s (elim r.1 [ none ↦ r.0 | some _ ↦ shut r.0 id ])
answer-SameSize s id (t, none, out) h = h
answer-SameSize s id (t, some b, out) h = SameSize-trans s t (shut t id) h (shut-SameSize t id)

pub auth_answered-SameSize :
    (json : Json) (s : WebSocketServer) (id : String) (ok : Bool)
    → SameSize s (auth_answered json s id ok).0
unfolding auth_answered
auth_answered-SameSize json s id true = authenticated_as-SameSize s id true
auth_answered-SameSize json s id false =
    let t = authenticated_as s id false in
    let first = authenticated_as-SameSize s id false in
    let r = send_to_client t id error json.auth_failed in
    let second =
      SameSize-trans s t r.0 first (send_to_client-SameSize t id error json.auth_failed) in
    elim (Option-cases r.1) [
      | inl e ↦ rw (e, auth_answered) second
      | inr (b, e) ↦
          rw (e, auth_answered) (SameSize-trans s r.0 (shut r.0 id) second (shut-SameSize r.0 id))
    ]

pub pong-SameSize : (s : WebSocketServer) (id : String) (now : ℕ) → SameSize s (pong s id now)
pong-SameSize s id now = elim (Option-cases (Map.get s.clients id)) [
  | inl e ↦ rw (e, pong) (refl, refl)
  | inr (c, e) ↦ ground (arith, size-set s.clients id (record c { last_activity = now }))
]

active-send_each :
    (t : WebSocketServer.Stats) (packet : Buffer) (ids : List String)
    → (send_each t packet ids).0.active_connections ≡ t.active_connections
unfolding send_each
active-send_each t packet [] = refl
active-send_each t packet (id ∷ ids) =
    active-send_each (WebSocketServer.count_sent t packet) packet ids

pub broadcast-SameSize :
    (s : WebSocketServer) (type : PacketType) (payload : Buffer) (exclude : List String)
    → SameSize s (broadcast s type payload exclude).0
unfolding broadcast
broadcast-SameSize s type payload exclude = elim (Option-cases (encode s.protocol type payload).1) [
  | inl e ↦ rw (e, broadcast) (refl, refl)
  | inr (b, e) ↦ rw (e, broadcast) (refl, active-send_each s.stats b (reached s.clients exclude))
]
