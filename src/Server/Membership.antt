-- ===== src/Server/Membership.antt =====
-- packages/server/src/core.ts: joining and leaving a room.
--
-- `now` is `nowMs(opts.now)`.
pub mod Admission
pub mod Roster
pub mod Acceptance
pub mod Refusals
pub mod Departure
pub mod Banned
mod Tests
use open_rtc.Base.{
  text_eq, ◌==◌, ℕ, ◌≤◌, Bool, true, false, not, ◌&&◌, ◌||◌, ◌++◌, Option, none, some, List, [],
  ◌∷◌, Text, codes, text_beq, if◌then◌else◌, or_else, is_some, length, leb, select,
}
use open_rtc.Protocol
use open_rtc.Protocol.{
  Envelope, MessageType, join, leave, presence, is_envelope, narrow, create_envelope,
}
use open_rtc.Protocol.Values.{
  Js, Fields, end, field, undefined, obj, str, is_defined, is_text, truthy,
}
use open_rtc.Server.Types.{
  RoomState, open_room, closed_room, RoomPolicy, Room, Participant, StoredSignal, SignalDelivery,
  JoinResult, LeaveResult,
}
use open_rtc.Server.Errors.{
  ServerError, room_closed, room_full, participant_not_found, participant_already_joined, forbidden,
  invalid_envelope,
}
use open_rtc.Server.Store
use open_rtc.Server.World.{
  World, M, ◌>>=◌, ◌>>◌, return, throw, throw_if, present, query, write, update, run, change,
  require_room,
}
use open_rtc.Server.Waiting.{is_banned, enqueue_lobby}
use open_rtc.Server.Rooms.{get_room_policy, either_of}

pub record ParticipantInput : Type 0 where
  pub participant_id : Text
  pub session_id : Text
  pub display_name : Option Text
  pub metadata : Js

pub record JoinRoomOptions : Type 0 where
  pub upsert : Bool
  pub actor_role : Option Text
  pub is_moderator : Bool

abbrev pub is_closed : RoomState → Bool
is_closed open_room = false
is_closed closed_room = true

abbrev pub is_privileged : JoinRoomOptions → Bool
is_privileged opts =
    elim opts.actor_role [ none ↦ false | some r ↦ text_beq r (codes "admin") ] || opts.is_moderator

-- The participants of a locked room come in by the lobby.
unfoldable pub check_lock :
    Text → Text → RoomPolicy → Option Participant → JoinRoomOptions → ℕ → M (Unit {0})
check_lock room_id participant_id policy existing opts now =
    if or_else policy.locked false && not (is_some existing) && not (is_privileged opts)
    then (do
      change (enqueue_lobby room_id participant_id now)
      throw (forbidden (codes "Room " ++ room_id ++ codes " is locked - added to lobby")))
    else return tt

unfoldable pub check_capacity : Text → Option ℕ → Option Participant → M (Unit {0})
check_capacity room_id none existing = return tt
check_capacity room_id (some cap) (some p) = return tt
check_capacity room_id (some cap) none = do
  members ← query (Store.list_participants room_id)
  throw_if (leb cap (length members)) (room_full room_id)

unfoldable pub joined : Text → ParticipantInput → Option Participant → ℕ → Participant
joined room_id input existing now = record {
  room_id = room_id;
  participant_id = input.participant_id;
  session_id = input.session_id;
  display_name = input.display_name;
  joined_at = elim existing [ none ↦ now | some p ↦ p.joined_at ];
  last_seen_at = now;
  metadata = input.metadata;
}

unfoldable pub join_room : Text → ParticipantInput → JoinRoomOptions → ℕ → M JoinResult
join_room room_id input opts now = do
  room ← require_room room_id
  throw_if (is_closed room.state) (room_closed room_id)
  banned ← run (is_banned room_id input.participant_id now)
  throw_if banned (
      forbidden
        (codes "Participant " ++ input.participant_id ++ codes " is banned from room " ++ room_id))
  let policy = get_room_policy room
  existing ← query (Store.get_participant room_id input.participant_id)
  check_lock room_id input.participant_id policy existing opts now
  throw_if (is_some existing && not opts.upsert)
      (participant_already_joined room_id input.participant_id)
  check_capacity room_id (either_of policy.max_participants room.max_participants) existing
  let participant = joined room_id input existing now
  write (Store.put_participant participant)
  write (Store.put_room (record room { updated_at = now }))
  participants ← query (Store.list_participants room_id)
  return (record { room = room; participant = participant; participants = participants })

-- The `leave` envelope, stored and addressed to those who stay.
unfoldable pub store_leave : Text → Option Envelope → ℕ → M (Option SignalDelivery)
store_leave room_id none now = return none
store_leave room_id (some envelope) now = do
  stored ← update (Store.put_signal room_id envelope now)
  recipients ← query (Store.list_participants room_id)
  return (some (record { envelope = stored.envelope; recipients = recipients }))

unfoldable pub leave_room : Text → Text → Option Envelope → ℕ → M LeaveResult
leave_room room_id participant_id envelope now = do
  room ← require_room room_id
  existing ← query (Store.get_participant room_id participant_id)
  throw_if (not (is_some existing)) (participant_not_found room_id participant_id)
  write (Store.delete_participant room_id participant_id)
  write (Store.put_room (record room { updated_at = now }))
  delivery ← store_leave room_id envelope now
  participants ← query (Store.list_participants room_id)
  return (record { room = room; participants = participants; delivery = delivery })
