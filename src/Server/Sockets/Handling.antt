-- ===== src/Server/Sockets/Handling.antt =====
-- packages/server/src/ws.ts: handleMessage and handleClose.
use open_rtc.Base.{
  ℕ, Bool, true, false, not, ◌&&◌, ◌++◌, Option, none, some, Text, text_eq, nat_eq, codes, text_beq,
  if◌then◌else◌, or_else,
}
use open_rtc.Base.JsMap
use open_rtc.Base.JsSet
use open_rtc.Protocol.{Envelope, MessageType, transcript, is_envelope, narrow}
use open_rtc.Protocol.Values.{Js, bool, prop}
use open_rtc.Server.Types.{LeaveResult, SignalDelivery}
use open_rtc.Server.Errors.{error_code}
use open_rtc.Server.Store
use open_rtc.Server.World.{World, Result, ok, err}
use open_rtc.Server.Membership.{leave_room}
use open_rtc.Server.Relay.{is_join, is_leave, handle_signal, build_leave_envelope}
use open_rtc.Server.Auth.{is_empty}
use open_rtc.Server.Sockets.{
  SocketMeta, detach, meta_for, webhook, Services, Gateway, log, broadcast, send_error,
}
use open_rtc.Server.Sockets.Joining.{text_of, notice, handle_join}

-- A leave is told to those who stay.
abbrev pub deliver_leave : Text → Option SignalDelivery → Text → Gateway → Gateway
deliver_leave room_id none except g = g
deliver_leave room_id (some delivery) except g = broadcast room_id delivery.envelope except g

abbrev pub is_transcript : MessageType → Bool
is_transcript transcript = true
is_transcript _ = false

-- `payload?.isFinal === false`
abbrev pub is_interim : Js → Bool
is_interim (bool false) = true
is_interim _ = false

unfoldable pub on_left :
    ℕ → ℕ → Services → Envelope → Result LeaveResult × World → Gateway → Gateway
unfolding detach broadcast send_error error_code
on_left now socket s e (ok result, w) g =
    deliver_leave e.room_id result.delivery e.sender_id
      (record g { world = w; hub = detach e.room_id socket g.hub })
on_left now socket s e (err error, w) g =
    send_error now socket e.room_id (error_code error) (s.error_text error) (record g { world = w })

unfoldable pub on_signal :
    ℕ → ℕ → Services → Envelope → Result SignalDelivery × World → Gateway → Gateway
unfolding broadcast send_error error_code log
on_signal now socket s e (ok delivery, w) g =
    let d = delivery.envelope in
    let g1 = broadcast e.room_id d e.sender_id (record g { world = w }) in
    let told = is_transcript d.type && s.has_webhooks in
    let event =
      if is_interim (prop (codes "isFinal") d.payload)
      then codes "transcript.interim"
      else codes "transcript.final" in
    notice told (webhook (codes "transcript") d.room_id d.payload)
      (notice told (webhook event d.room_id d.payload) g1)
on_signal now socket s e (err error, w) g =
    send_error now socket e.room_id (error_code error) (s.error_text error) (record g { world = w })

-- An envelope of a socket that is in a room.
unfoldable pub handle_member : Services → ℕ → ℕ → Js → Envelope → SocketMeta → Gateway → Gateway
unfolding leave_room handle_signal on_left on_signal send_error
handle_member s now socket value e m g =
    if not (text_beq e.room_id m.room_id)
    then send_error now socket e.room_id (codes "room_mismatch")
        (codes "Socket is bound to room " ++ m.room_id) g
    else if is_leave e.type
    then on_left now socket s e (leave_room e.room_id e.sender_id (some e) now g.world) g
    else on_signal now socket s e (handle_signal value now g.world) g

-- An envelope of a socket that is in no room.
unfoldable pub handle_stranger : Services → ℕ → ℕ → Js → Envelope → Gateway → Gateway
unfolding handle_join send_error
handle_stranger s now socket value e g =
    if not (is_join e.type)
    then send_error now socket e.room_id (codes "must_join") (codes "Send a join envelope first") g
    else handle_join s now socket value e g

-- The room that an invalid envelope names.
abbrev pub claimed_room : Js → Text
claimed_room value = or_else (text_of (prop (codes "roomId") value)) (codes "unknown")

-- `!meta?.roomId`
abbrev pub entered : Option SocketMeta → Option SocketMeta
entered none = none
entered (some m) = if is_empty m.room_id then none else some m

unfoldable pub handle_envelope : Services → ℕ → ℕ → Js → Envelope → Gateway → Gateway
unfolding handle_stranger handle_member
handle_envelope s now socket value e g = elim (entered (meta_for socket g.hub)) [
  | none ↦ handle_stranger s now socket value e g
  | some m ↦ handle_member s now socket value e m g
]

unfoldable pub handle_message : Services → ℕ → ℕ → Text → Gateway → Gateway
unfolding handle_envelope is_envelope narrow send_error
handle_message s now socket raw g = elim (s.crypto.parse raw) [
  | none ↦
      send_error now socket (codes "unknown") (codes "invalid_json")
        (codes "Message is not valid JSON") g
  | some value ↦ elim (if is_envelope value then narrow value else none) [
    | none ↦
        send_error now socket (claimed_room value) (codes "invalid_envelope")
          (codes "Envelope failed protocol validation") g
    | some e ↦ handle_envelope s now socket value e g
  ]
]

-- What the leave of a closed socket has led to.
unfoldable pub after_close : ℕ → Text → Text → Result LeaveResult × World → Gateway → Gateway
unfolding detach broadcast
after_close socket room_id sender_id (ok result, w) g =
    deliver_leave room_id result.delivery sender_id
      (record g { world = w; hub = detach room_id socket g.hub })
after_close socket room_id sender_id (err error, w) g = record g {
  world = w;
  hub = detach room_id socket g.hub;
}

unfoldable pub close_member : ℕ → ℕ → SocketMeta → Gateway → Gateway
unfolding leave_room build_leave_envelope after_close detach Store.get_participant
close_member now socket m g = elim (Store.get_participant m.room_id m.sender_id g.world.store) [
  | none ↦ record g { hub = detach m.room_id socket g.hub }
  | some participant ↦
      let e = build_leave_envelope now m.room_id participant (some (codes "disconnect")) in
      after_close socket m.room_id m.sender_id
        (leave_room m.room_id m.sender_id (some e) now g.world) g
]

unfoldable pub handle_close : ℕ → ℕ → Gateway → Gateway
unfolding close_member
handle_close now socket g = elim (entered (meta_for socket g.hub)) [
  | none ↦ g
  | some m ↦ if is_empty m.sender_id then g else close_member now socket m g
]

-- The socket's `close` event.
unfoldable pub on_close : ℕ → ℕ → Gateway → Gateway
unfolding handle_close
on_close now socket g = handle_close now socket (record g {
  clients = JsSet.delete socket g.clients;
  tokens = JsMap.delete socket g.tokens;
  open_sockets = JsSet.delete socket g.open_sockets;
})
