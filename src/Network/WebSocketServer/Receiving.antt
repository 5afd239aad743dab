-- ===== src/Network/WebSocketServer/Receiving.antt =====
-- What a message makes the server of src/network/websocket-server.ts do, from the bytes on the wire.
use mathlib.Core.List.{append-nil}
use sync_engine.Base.{
  ℕ, ◌<◌, ◌≡◌, refl, sym, ◌∙◌, ap, subst, String, true, none, some, List, [], ◌∷◌, length, ◌==◌,
  if◌then◌else◌, is_some, Bool, false, Option, ◌≢◌, arith, eq_iff,
}
use sync_engine.Base.Map
use sync_engine.Base.Map.Laws.{get-set, get-set_self}
use sync_engine.Network.Protocol.{
  BinaryProtocol, Buffer, Item, Packet, code, handshake_ack, encode, encode_batch, decode,
  decode_batch, u32_mod,
}
use sync_engine.Network.Protocol.Batch.{batch_size, numbered, next_id, decode_batch-encode_batch}
use sync_engine.Network.Protocol.RoundTrip.{decode-encode}
use sync_engine.Network.WebSocketServer.{
  WebSocketServer, ClientConnection, Json, Output, message, received, authenticated_as, acknowledge,
  auth_asked, handle_handshake_ack, deliver_batch, handle_batch, dispatch, handle_message,
}

-- The payloads of the DATA items of a batch, in order.
abbrev pub delivered : String → List Item → List Output
delivered id [] = []
delivered id (x ∷ xs) =
    let rest = delivered id xs in if code x.type == 3 then message id x.payload ∷ rest else rest

deliver_batch-numbered :
    (id : String) (now seq : ℕ) (xs : List Item)
    → deliver_batch id (numbered now seq xs) ≡ delivered id xs
unfolding deliver_batch
deliver_batch-numbered id now seq [] = refl
deliver_batch-numbered id now seq (x ∷ xs) =
    rw (deliver_batch-numbered id now (next_id seq) xs) refl

dispatch-batch :
    (json : Json) (s : WebSocketServer) (id : String) (p : Packet) (now seq : ℕ) (xs : List Item)
    → p.type ≡ 8
    → decode_batch now p.payload ≡ numbered now seq xs
    → s.on_message ≡ true
    → dispatch json s id p now ≡ (s, delivered id xs)
unfolding dispatch handle_batch
dispatch-batch json s id p now seq xs e d h =
    rw (e, d, h, deliver_batch-numbered id now seq xs) refl

-- A server with a message handler that gets a batch as `encodeBatch` writes it, with items of less than
-- 2^32 bytes together, from a client that it holds: it counts one message, and hands the payloads of
-- the DATA items to the handler in their order, and of no others. The client need not be
-- authenticated.
pub handle_message-encode_batch :
    (json : Json) (s : WebSocketServer) (id : String) (c : ClientConnection) (now : ℕ)
    (p : BinaryProtocol) (items : List Item)
    → batch_size items < u32_mod
    → Map.get s.clients id ≡ some c
    → s.on_message ≡ true
    → (buf : Buffer) × ((encode_batch p items).1 ≡ some buf)
      × (handle_message json s id buf now ≡ (received s id c buf now, delivered id items))
unfolding handle_message
handle_message-encode_batch json s id c now p items small held h =
    let (buf, packet, out, dec, type, _, _, payload) =
      decode_batch-encode_batch p items now small in
    (
      buf,
      out,
      rw (held, handle_message, dec)
          (dispatch-batch json (received s id c buf now) id packet now p.sequence_id items type
            payload h),
    )

-- What is asked of the handler for authentication: nothing without a token, or without the handler.
abbrev pub questions : String → Option String → Bool → List Output
questions id none asks = []
questions id (some token) false = []
questions id (some token) true = auth_asked id token ∷ []

-- Whether a client counts as authenticated from what it acknowledged: as before if its token is asked
-- about, and else at once.
abbrev pub trusted : Bool → Option String → Bool → Bool
trusted before none asks = true
trusted before (some token) false = true
trusted before (some token) true = before

-- What an acknowledgement leaves of a server and answers.
abbrev pub IsAcknowledged :
    WebSocketServer
    → String
    → ClientConnection
    → ℕ
    → Option String
    → WebSocketServer × List Output
    → Type 0
IsAcknowledged s id c now token (s', out) =
    (Map.get s'.clients id
      ≡ some (record c {
        last_activity = now;
        authenticated = trusted c.authenticated token s.on_auth;
      }))
    × ((j : String) → id ≢ j → Map.get s'.clients j ≡ Map.get s.clients j)
    × (out ≡ questions id token s.on_auth)

get-authenticated_as :
    (s : WebSocketServer) (id : String) (c : ClientConnection) (buf : Buffer) (now : ℕ)
    → let s' = authenticated_as (received s id c buf now) id true in
      (Map.get s'.clients id ≡ some (record c { last_activity = now; authenticated = true }))
      × ((j : String) → id ≢ j → Map.get s'.clients j ≡ Map.get s.clients j)
get-authenticated_as s id c buf now =
    let c' : ClientConnection = record c { last_activity = now } in
    let m = Map.set s.clients id c' in
    rw (get-set_self s.clients id c', authenticated_as)
      (
        get-set_self m id (record c' { authenticated = true }),
        λ j ne. ground (
          arith,
          eq_iff id j,
          get-set m id j (record c' { authenticated = true }),
          get-set s.clients id j c',
        ),
      )

acknowledge-IsAcknowledged :
    (s : WebSocketServer) (id : String) (c : ClientConnection) (buf : Buffer) (now : ℕ)
    (asks : Bool) (token : Option String)
    → s.on_auth ≡ asks
    → IsAcknowledged s id c now token (acknowledge (received s id c buf now) id token)
unfolding acknowledge
acknowledge-IsAcknowledged s id c buf now asks none e =
    let (here, there) = get-authenticated_as s id c buf now in (here, there, refl)
acknowledge-IsAcknowledged s id c buf now true (some token) e =
    let c' : ClientConnection = record c { last_activity = now } in
    rw e (
      get-set_self s.clients id c',
      λ j ne. ground (arith, eq_iff id j, get-set s.clients id j c'),
      refl,
    )
acknowledge-IsAcknowledged s id c buf now false (some token) e =
    let (here, there) = get-authenticated_as s id c buf now in
    let at_once : acknowledge (received s id c buf now) id (some token)
        ≡ (authenticated_as (received s id c buf now) id true, []) =
      rw (e, acknowledge) refl in
    subst (λ done. IsAcknowledged s id c now (some token) done) (sym at_once)
      (
        here
            ∙ ap
                (λ b. some (record c {
                  last_activity = now;
                  authenticated = trusted c.authenticated (some token) b;
                }))
                (sym e),
        there,
        ap (questions id (some token)) (sym e),
      )

dispatch-ack :
    (json : Json) (s : WebSocketServer) (id : String) (p : Packet) (now : ℕ) (token : Option String)
    → p.type ≡ 2
    → json.read_ack p.payload ≡ some token
    → Map.has s.clients id ≡ true
    → dispatch json s id p now ≡ acknowledge s id token
unfolding dispatch handle_handshake_ack
dispatch-ack json s id p now token e t h = rw (e, handle_handshake_ack, t, h) refl

-- A client that the server holds, and that acknowledges its handshake in a payload of less than 2^32
-- bytes that can be read: it is authenticated at once if the payload names no token, or if no
-- handler for authentication is registered, and nothing is asked; if it names a token and a handler
-- is registered, the handler is asked about that token and the client counts as before. No other
-- client is touched.
pub handle_message-handshake_ack :
    (json : Json) (s : WebSocketServer) (id : String) (c : ClientConnection) (now : ℕ)
    (p : BinaryProtocol) (payload : Buffer) (token : Option String)
    → length payload < u32_mod
    → Map.get s.clients id ≡ some c
    → json.read_ack payload ≡ some token
    → (buf : Buffer) × ((encode p handshake_ack payload).1 ≡ some buf)
      × IsAcknowledged s id c now token (handle_message json s id buf now)
unfolding handle_message
handle_message-handshake_ack json s id c now p payload token small held named =
    let (_, sent, _) = decode-encode p handshake_ack payload [] now in
    let (buf, out, dec) = sent small in
    let p' : Packet = record {
      type = 2;
      id = (encode p handshake_ack payload).0.sequence_id;
      timestamp = now;
      payload = payload;
    } in
    let dec' : decode now buf ≡ some p' =
      subst (λ b. decode now b ≡ some p') (append-nil buf) dec in
    let acked : dispatch json (received s id c buf now) id p' now
        ≡ acknowledge (received s id c buf now) id token =
      dispatch-ack json (received s id c buf now) id p' now token refl named
        (ap is_some (get-set_self s.clients id (record c { last_activity = now }))) in
    (
      buf,
      out,
      rw (held, handle_message, dec', acked)
          (acknowledge-IsAcknowledged s id c buf now s.on_auth token refl),
    )
