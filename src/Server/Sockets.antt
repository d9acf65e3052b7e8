-- ===== src/Server/Sockets.antt =====
-- packages/server/src/ws.ts: the rooms of the sockets, and what a socket's connection, messages and
-- close do.
--
-- A socket is a number. `now` is `Date.now()`; a handler runs to its end before the next one starts.
-- JSON, HMAC and the texts of errors are parameters. What leaves the server is in the trace.
pub mod Joining
pub mod Handling
mod Quiet
pub mod Changes
pub mod Entry
pub mod Members
pub mod Registry
mod Told
pub mod Reach
mod Tests
use open_rtc.Base.{
  ℕ, Bool, true, false, not, ◌&&◌, ◌||◌, ◌++◌, Option, none, some, List, [], ◌∷◌, Text, text_eq,
  nat_eq, codes, text_beq, if◌then◌else◌, or_else, is_some,
}
use open_rtc.Base.JsMap
use open_rtc.Base.JsMap.{JsMap}
use open_rtc.Base.JsSet
use open_rtc.Protocol
use open_rtc.Protocol.{Envelope, create_envelope}
use open_rtc.Protocol.Values.{Js, end, field, undefined, str, obj}
use open_rtc.Server.Types.{Room, Participant}
use open_rtc.Server.Errors.{ServerError}
use open_rtc.Server.World.{World}
use open_rtc.Server.Auth.{
  Crypto, TokenClaims, Revoked, Failure, auth_error, type_error, unauthorized, token_expired,
  forbidden, AuthErrorCode, Checked, verify_token, verify_token_with_rotation, is_empty,
}

pub record SocketMeta : Type 0 where
  pub room_id : Text
  pub sender_id : Text
  pub session_id : Text

pub record RoomHub : Type 0 where
  pub rooms : JsMap Text (List ℕ)
  pub metas : JsMap ℕ SocketMeta

unfoldable pub attach : Text → ℕ → Text → Text → RoomHub → RoomHub
attach room_id socket sender_id session_id hub =
    let set = or_else (JsMap.get room_id hub.rooms) [] in
    record {
      rooms = JsMap.set room_id (JsSet.add socket set) hub.rooms;
      metas =
          JsMap.set socket
            (record { room_id = room_id; sender_id = sender_id; session_id = session_id })
            hub.metas;
    }

abbrev pub is_nil : List ℕ → Bool
is_nil [] = true
is_nil (x ∷ xs) = false

unfoldable pub detach : Text → ℕ → RoomHub → RoomHub
detach room_id socket hub = record {
  rooms = elim (JsMap.get room_id hub.rooms) [
    | none ↦ hub.rooms
    | some set ↦
        let rest = JsSet.delete socket set in
        if is_nil rest then JsMap.delete room_id hub.rooms else JsMap.set room_id rest hub.rooms
  ];
  metas = JsMap.delete socket hub.metas;
}

abbrev pub meta_for : ℕ → RoomHub → Option SocketMeta
meta_for socket hub = JsMap.get socket hub.metas

-- What a socket is sent.
pub data Message : Type 0 where
  relayed : Envelope → Message
  joined_message : Text → Room → List Participant → Message

-- What leaves the server: messages, closed connections (all with code 4401), and notices to the push
-- service and to the webhooks.
pub data Effect : Type 0 where
  sent : ℕ → Message → Effect
  closed : ℕ → Text → Effect
  pushed : Text → Text → Effect
  webhook : Text → Text → Js → Effect

pub record AuthConfig : Type 0 where
  pub secret : Text
  pub previous_secrets : List Text

pub record Services : Type 0 where
  pub crypto : Crypto
  pub auth : Option AuthConfig
  pub has_push : Bool
  pub has_webhooks : Bool
  pub error_text : ServerError → Text
  pub failure_text : Failure → Text

-- The server behind the sockets: the sockets that are open, the clients, and their tokens.
pub record Gateway : Type 0 where
  pub world : World
  pub revoked : Revoked
  pub hub : RoomHub
  pub clients : List ℕ
  pub tokens : JsMap ℕ Text
  pub open_sockets : List ℕ
  pub trace : List Effect

unfoldable pub log : Effect → Gateway → Gateway
log x g = record g { trace = g.trace ++ x ∷ [] }

-- `if (socket.readyState === WebSocket.OPEN) socket.send(…)`
unfoldable pub send_json : ℕ → Message → Gateway → Gateway
unfolding log
send_json socket m g = if JsSet.has socket g.open_sockets then log (sent socket m) g else g

unfoldable pub close_socket : ℕ → Text → Gateway → Gateway
unfolding log
close_socket socket reason g =
    log (closed socket reason) (record g { open_sockets = JsSet.delete socket g.open_sockets })

abbrev pub is_excepted : Text → Option SocketMeta → Bool
is_excepted except none = false
is_excepted except (some m) = not (is_empty except) && text_beq m.sender_id except

-- The loop of `broadcast` over the sockets of a room.
unfoldable pub send_to : List ℕ → Envelope → Text → Gateway → Gateway
unfolding send_json
send_to [] e except g = g
send_to (socket ∷ sockets) e except g =
    send_to sockets e except
      (if is_excepted except (meta_for socket g.hub) then g else send_json socket (relayed e) g)

unfoldable pub broadcast : Text → Envelope → Text → Gateway → Gateway
unfolding send_to
broadcast room_id e except g = send_to (or_else (JsMap.get room_id g.hub.rooms) []) e except g

unfoldable pub error_envelope : ℕ → Text → Text → Text → Envelope
error_envelope now room_id code message = create_envelope now Protocol.error (record {
  room_id = room_id;
  sender_id = codes "server";
  session_id = codes "server";
  ts = none;
  seq = none;
  target_sender_id = undefined;
  payload = obj (field (codes "code") (str code) (field (codes "message") (str message) end));
})

unfoldable pub send_error : ℕ → ℕ → Text → Text → Text → Gateway → Gateway
unfolding send_json error_envelope
send_error now socket room_id code message =
    send_json socket (relayed (error_envelope now room_id code message))

abbrev pub auth_code : AuthErrorCode → Text
auth_code unauthorized = codes "unauthorized"
auth_code token_expired = codes "token_expired"
auth_code forbidden = codes "forbidden"

-- `errCode` of what a token's check throws.
abbrev pub failure_code : Failure → Text
failure_code (auth_error code _) = auth_code code
failure_code (type_error _) = codes "internal_error"

-- The check of the socket's token, which a handler makes again where it needs the claims.
unfoldable pub verify_socket :
    Services → AuthConfig → ℕ → ℕ → Gateway → Checked TokenClaims × Gateway
unfolding verify_token verify_token_with_rotation
verify_socket s auth now socket g =
    let token = or_else (JsMap.get socket g.tokens) [] in
    let r : Checked TokenClaims × Revoked = elim auth.previous_secrets [
      | [] ↦ verify_token s.crypto auth.secret token now g.revoked
      | p ∷ ps ↦ verify_token_with_rotation s.crypto (auth.secret ∷ p ∷ ps) token now g.revoked
    ] in
    (r.0, record g { revoked = r.1 })

-- What becomes of a request to upgrade.
pub data Upgrade : Type 0 where
  destroyed bad_request : Upgrade
  upgraded : Text → Upgrade

-- The path of the request, with its `roomId` and `token`.
unfoldable pub on_upgrade : Text → Text → Option Text → Option Text → Upgrade
on_upgrade path pathname room_id token =
    if not (text_beq pathname path)
    then destroyed
    else if is_empty (or_else room_id [])
    then bad_request
    else upgraded (or_else token [])

unfoldable pub on_connection : ℕ → Text → Gateway → Gateway
on_connection socket token g = record g {
  tokens = JsMap.set socket token g.tokens;
  clients = JsSet.add socket g.clients;
  open_sockets = JsSet.add socket g.open_sockets;
}
