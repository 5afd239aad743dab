-- ===== src/Network/WebSocketServer/Capacity.antt =====
-- How many clients the server of src/network/websocket-server.ts holds, and what it reports of them.
use sync_engine.Base.{
  ℕ, ◌-◌, ◌*◌, ◌≤◌, ◌≡◌, refl, sym, subst, ◌⊎◌, inl, inr, String, Bool, true, false, List, [], ◌∷◌,
  arith, ltb, leb, Option-cases, Bool-cases,
}
use sync_engine.Base.Map
use sync_engine.Base.Map.Laws.{size-set, size-delete-le}
use sync_engine.Network.Protocol.{Buffer, PacketType}
use sync_engine.Network.WebSocketServer
use sync_engine.Network.WebSocketServer.{
  WebSocketServer, when, closed, message, handle_batch, WsConfig, Json, Output, ClientConnection,
  create, shut, set_on_message, set_on_connect, set_on_disconnect, set_on_auth, stop,
  authenticated_as, acknowledge, admitted, received, send_to_client, handle_connection,
  handle_handshake_ack, auth_answered, dispatch, handle_message, handle_disconnect, pong,
  socket_error, broadcast, check_client, check_clients, check_heartbeats, send_each, reached,
}
use sync_engine.Network.WebSocketServer.Sizes.{
  SameSize, send_to_client-SameSize, handle_message-SameSize, auth_answered-SameSize, pong-SameSize,
  broadcast-SameSize,
}

-- Everything that happens to a server: calls of its methods, events of its sockets, answers of the
-- handler for authentication, and ticks of its timer.
pub data Event : Type 0 where
  connects : String → String → ℕ → Event
  sends : String → Buffer → ℕ → Event
  answers : String → Bool → Event
  disconnects : String → String → Event
  pongs : String → ℕ → Event
  fails : Event
  broadcasts : PacketType → Buffer → List String → Event
  ticks : ℕ → Event
  registers_message registers_connect registers_disconnect registers_auth : Event
  sends_to : String → PacketType → Buffer → Event
  stops : Event

unfoldable pub step : WsConfig → Json → WebSocketServer → Event → WebSocketServer
step cfg json s (connects session ip now) = (handle_connection cfg json s session ip now).0
step cfg json s (sends id data_bytes now) = (handle_message json s id data_bytes now).0
step cfg json s (answers id ok) = (auth_answered json s id ok).0
step cfg json s (disconnects id reason) = (handle_disconnect s id reason).0
step cfg json s (pongs id now) = pong s id now
step cfg json s fails = socket_error s
step cfg json s (broadcasts type payload exclude) = (broadcast s type payload exclude).0
step cfg json s (ticks now) = (check_heartbeats cfg s now).0
step cfg json s registers_message = set_on_message s
step cfg json s registers_connect = set_on_connect s
step cfg json s registers_disconnect = set_on_disconnect s
step cfg json s registers_auth = set_on_auth s
step cfg json s (sends_to id type payload) = (send_to_client s id type payload).0
step cfg json s stops = (stop s).0

unfoldable pub run : WsConfig → Json → WebSocketServer → List Event → WebSocketServer
run cfg json s [] = s
run cfg json s (e ∷ es) = run cfg json (step cfg json s e) es

-- Whether the server has been stopped, given whether it was before.
unfoldable pub has_stopped : Bool → List Event → Bool
has_stopped b [] = b
has_stopped b (stops ∷ es) = has_stopped true es
has_stopped b (_ ∷ es) = has_stopped b es

-- The server neither holds nor reports more clients than allowed, and reports those that it holds
-- unless it has been stopped.
pub record IsWithin (limit : ℕ) (stopped : Bool) (s : WebSocketServer) : Type 0 where
  pub bounded : Map.size s.clients ≤ limit
  pub no_more : s.stats.active_connections ≤ limit
  pub reported : (stopped ≡ true) ⊎ (s.stats.active_connections ≡ Map.size s.clients)

SameSize-IsWithin :
    (limit : ℕ) (b : Bool) (s t : WebSocketServer)
    → SameSize s t
    → IsWithin limit b s
    → IsWithin limit b t
SameSize-IsWithin limit b s t h v = record {
  bounded = omega (arith, h, v.bounded);
  no_more = omega (arith, h, v.no_more);
  reported = ground (arith, h, v.reported);
}

handle_disconnect-IsWithin :
    (limit : ℕ) (b : Bool) (s : WebSocketServer) (id reason : String)
    → IsWithin limit b s
    → IsWithin limit b (handle_disconnect s id reason).0
unfolding handle_disconnect
handle_disconnect-IsWithin limit b s id reason v = record {
  bounded = omega (arith, v.bounded, size-delete-le s.clients id);
  no_more = omega (arith, v.bounded, size-delete-le s.clients id);
  reported = inr refl;
}

handle_connection-IsWithin :
    (cfg : WsConfig) (json : Json) (b : Bool) (s : WebSocketServer) (session ip : String) (now : ℕ)
    → IsWithin cfg.max_connections b s
    → IsWithin cfg.max_connections b (handle_connection cfg json s session ip now).0
unfolding handle_connection
handle_connection-IsWithin cfg json b s session ip now v =
    elim (Bool-cases (leb cfg.max_connections (Map.size s.clients))) [
      | inl full ↦ rw (full, handle_connection) v
      | inr room ↦
          rw (room, handle_connection)
            (record {
              bounded =
                  ground
                    (arith, size-set s.clients session (WebSocketServer.new_client session ip now));
              no_more =
                  ground
                    (arith, size-set s.clients session (WebSocketServer.new_client session ip now));
              reported = inr refl;
            })
    ]

check_client-IsWithin :
    (cfg : WsConfig) (limit : ℕ) (b : Bool) (s : WebSocketServer) (now : ℕ) (id : String)
    → IsWithin limit b s
    → IsWithin limit b (check_client cfg s now id).0
unfolding check_client
check_client-IsWithin cfg limit b s now id v = elim (Option-cases (Map.get s.clients id)) [
  | inl e ↦ rw (e, check_client) v
  | inr (c, e) ↦ elim (Bool-cases (ltb (cfg.heartbeat_interval * 2) (now - c.last_activity))) [
    | inl late ↦
        rw (e, check_client, late) (handle_disconnect-IsWithin limit b s id "heartbeat timeout" v)
    | inr alive ↦ rw (e, check_client, alive) v
  ]
]

check_clients-IsWithin :
    (cfg : WsConfig) (limit : ℕ) (b : Bool) (s : WebSocketServer) (now : ℕ) (ids : List String)
    → IsWithin limit b s
    → IsWithin limit b (check_clients cfg s now ids).0
unfolding check_clients
check_clients-IsWithin cfg limit b s now [] v = v
check_clients-IsWithin cfg limit b s now (id ∷ ids) v =
    check_clients-IsWithin cfg limit b (check_client cfg s now id).0 now ids
      (check_client-IsWithin cfg limit b s now id v)

-- The last argument says how the flag goes on.
step-IsWithin :
    (cfg : WsConfig) (json : Json) (b : Bool) (s : WebSocketServer) (e : Event) (es : List Event)
    → IsWithin cfg.max_connections b s
    → (b' : Bool) × IsWithin cfg.max_connections b' (step cfg json s e)
      × (has_stopped b (e ∷ es) ≡ has_stopped b' es)
unfolding step check_heartbeats has_stopped stop
step-IsWithin cfg json b s (connects session ip now) es v =
    (b, handle_connection-IsWithin cfg json b s session ip now v, refl)
step-IsWithin cfg json b s (sends id data_bytes now) es v = (
  b,
  SameSize-IsWithin _ b s (handle_message json s id data_bytes now).0
      (handle_message-SameSize json s id data_bytes now) v,
  refl,
)
step-IsWithin cfg json b s (answers id ok) es v = (
  b,
  SameSize-IsWithin _ b s (auth_answered json s id ok).0 (auth_answered-SameSize json s id ok) v,
  refl,
)
step-IsWithin cfg json b s (disconnects id reason) es v =
    (b, handle_disconnect-IsWithin _ b s id reason v, refl)
step-IsWithin cfg json b s (pongs id now) es v =
    (b, SameSize-IsWithin _ b s (pong s id now) (pong-SameSize s id now) v, refl)
step-IsWithin cfg json b s fails es v =
    (b, SameSize-IsWithin _ b s (socket_error s) (refl, refl) v, refl)
step-IsWithin cfg json b s (broadcasts type payload exclude) es v = (
  b,
  SameSize-IsWithin _ b s (broadcast s type payload exclude).0
      (broadcast-SameSize s type payload exclude) v,
  refl,
)
step-IsWithin cfg json b s (ticks now) es v =
    (b, check_clients-IsWithin cfg _ b s now (Map.keys s.clients) v, refl)
step-IsWithin cfg json b s registers_message es v =
    (b, SameSize-IsWithin _ b s (set_on_message s) (refl, refl) v, refl)
step-IsWithin cfg json b s registers_connect es v =
    (b, SameSize-IsWithin _ b s (set_on_connect s) (refl, refl) v, refl)
step-IsWithin cfg json b s registers_disconnect es v =
    (b, SameSize-IsWithin _ b s (set_on_disconnect s) (refl, refl) v, refl)
step-IsWithin cfg json b s registers_auth es v =
    (b, SameSize-IsWithin _ b s (set_on_auth s) (refl, refl) v, refl)
step-IsWithin cfg json b s (sends_to id type payload) es v = (
  b,
  SameSize-IsWithin _ b s (send_to_client s id type payload).0
      (send_to_client-SameSize s id type payload) v,
  refl,
)
step-IsWithin cfg json b s stops es v =
    (true, record { bounded = omega arith; no_more = v.no_more; reported = inl refl }, refl)

run_keeps :
    (cfg : WsConfig) (json : Json) (b : Bool) (s : WebSocketServer) (es : List Event)
    → IsWithin cfg.max_connections b s
    → IsWithin cfg.max_connections (has_stopped b es) (run cfg json s es)
unfolding run has_stopped
run_keeps cfg json b s [] v = v
run_keeps cfg json b s (e ∷ es) v =
    let (b', next, flag) = step-IsWithin cfg json b s e es v in
    subst (λ f. IsWithin cfg.max_connections f (run cfg json (step cfg json s e) es)) (sym flag)
      (run_keeps cfg json b' (step cfg json s e) es next)

-- Whatever handlers are registered, whatever clients connect, send, are sent to, answer, lose their
-- connection or fall silent, and whenever the server is stopped, in any order: a server that starts
-- empty never holds more clients than it may and never reports more, and unless it has been stopped
-- the number of active connections that it reports is the number that it holds.
pub run-IsWithin :
    (cfg : WsConfig) (json : Json) (es : List Event)
    → IsWithin cfg.max_connections (has_stopped false es) (run cfg json create es)
unfolding create
run-IsWithin cfg json es =
    run_keeps cfg json false create es
      (record { bounded = omega arith; no_more = omega arith; reported = inr refl })
