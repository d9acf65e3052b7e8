-- ===== src/Server/Relay.antt =====
-- packages/server/src/core.ts: the relay of an envelope to the members of its room.
--
-- `now` is the value of `Date.now()`.
pub mod Recipients
pub mod Delivery
mod Tests
use open_rtc.Base.{
  text_eq, ◌==◌, ℕ, Bool, true, false, not, ◌&&◌, ◌||◌, Option, none, some, List, [], ◌∷◌, Text,
  codes, if◌then◌else◌, or_else, is_some, select,
}
use open_rtc.Protocol.{
  Envelope, EnvelopeFields, MessageType, join, leave, presence, is_envelope, narrow,
  create_envelope,
}
use open_rtc.Protocol.Values.{
  Js, Fields, end, field, undefined, obj, str, is_defined, is_text, truthy, js_field,
}
use open_rtc.Server.Types.{Participant, StoredSignal, SignalDelivery}
use open_rtc.Server.Errors.{participant_not_found, invalid_envelope}
use open_rtc.Server.Store
use open_rtc.Server.World.{
  M, ◌>>=◌, ◌>>◌, return, throw, throw_if, present, query, write, update, require_room,
}
use open_rtc.Server.Membership.{ParticipantInput}

abbrev pub is_join : MessageType → Bool
is_join join = true
is_join _ = false

abbrev pub is_leave : MessageType → Bool
is_leave leave = true
is_leave _ = false

-- The types that go to everyone in the room.
abbrev pub is_announcement : MessageType → Bool
is_announcement join = true
is_announcement leave = true
is_announcement presence = true
is_announcement _ = false

-- members.find((m) => m.participantId === target)
unfoldable pub find_member : Js → List Participant → List Participant
find_member target [] = []
find_member target (m ∷ ms) =
    if is_text m.participant_id target then m ∷ [] else find_member target ms

unfoldable pub recipients_of : Envelope → List Participant → List Participant
unfolding find_member
recipients_of e members =
    if is_announcement e.type
    then members
    else if truthy e.target_sender_id
    then find_member e.target_sender_id members
    else select (λ m. not (m.participant_id == e.sender_id)) members

-- The sender of anything but a `join` is a participant, whose last sign of life is noted.
unfoldable pub check_sender : Envelope → ℕ → M (Unit {0})
check_sender e now = if is_join e.type then return tt else (do
  found ← query (Store.get_participant e.room_id e.sender_id)
  participant ← present found (participant_not_found e.room_id e.sender_id)
  if is_leave e.type
      then return tt
      else write (Store.put_participant (record participant { last_seen_at = now })))

unfoldable pub relay : Envelope → ℕ → M SignalDelivery
relay e now = do
  room ← require_room e.room_id
  check_sender e now
  stored ← update (Store.put_signal e.room_id e now)
  members ← query (Store.list_participants e.room_id)
  return (record { envelope = stored.envelope; recipients = recipients_of e members })

unfoldable pub handle_signal : Js → ℕ → M SignalDelivery
handle_signal value now = do
  e ←
      present (if is_envelope value then narrow value else none)
        (invalid_envelope (codes "Envelope failed protocol validation (see protocol/schema.json)"))
  relay e now

abbrev pub text_field : Text → Option Text → Fields → Fields
text_field k none fs = fs
text_field k (some s) fs = field k (str s) fs

unfoldable pub build_join_envelope : ℕ → Text → ParticipantInput → Envelope
build_join_envelope now room_id p = create_envelope now join (record {
  room_id = room_id;
  sender_id = p.participant_id;
  session_id = p.session_id;
  ts = none;
  seq = none;
  target_sender_id = undefined;
  payload = obj (
      text_field (codes "displayName") p.display_name (js_field (codes "metadata") p.metadata end));
})

unfoldable pub build_leave_envelope : ℕ → Text → Participant → Option Text → Envelope
build_leave_envelope now room_id p reason = create_envelope now leave (record {
  room_id = room_id;
  sender_id = p.participant_id;
  session_id = p.session_id;
  ts = none;
  seq = none;
  target_sender_id = undefined;
  payload = elim reason [ none ↦ undefined | some r ↦ obj (field (codes "reason") (str r) end) ];
})
