-- ===== src/Server/Rooms.antt =====
-- packages/server/src/core.ts: the life cycle of rooms, their policies, and moderation.
--
-- `now` is `nowMs(opts.now)`, and the room id that `createRoom` generates is an argument.
pub mod Moderation
use open_rtc.Base.{
  text_eq, ◌==◌, ℕ, ◌+◌, ◌≤◌, ◌<◌, Bool, true, false, not, ◌&&◌, ◌||◌, Option, none, some, List, [],
  ◌∷◌, Text, codes, if◌then◌else◌, or_else, is_some, length, ltb,
}
use open_rtc.Base.JsMap
use open_rtc.Base.JsMap.{JsMap}
use open_rtc.Protocol.Values.{
  Js, Fields, end, field, undefined, bool, num, str, obj, prop, set_field, is_object, is_array,
  is_defined, truthy, js_field,
}
use open_rtc.Server.Types.{
  RoomState, open_room, closed_room, RoomPolicy, Room, Participant, StoredSignal, BanEntry,
}
use open_rtc.Server.Errors.{
  ServerError, room_already_exists, participant_not_found, invalid_request,
}
use open_rtc.Server.Store
use open_rtc.Server.World.{
  World, M, ◌>>=◌, ◌>>◌, return, throw, throw_if, present, query, write, change, require_room,
}

pub record CreateRoomOptions : Type 0 where
  pub room_id : Option Text
  pub max_participants : Option ℕ
  pub metadata : Js
  pub policy : Option RoomPolicy

unfoldable pub create_room : CreateRoomOptions → Text → ℕ → M Room
unfolding Store.get_room Store.put_room
create_room opts generated_id now = do
  let room_id = or_else opts.room_id generated_id
  existing ← query (Store.get_room room_id)
  throw_if (is_some existing) (room_already_exists room_id)
  let room : Room = record {
    room_id = room_id;
    created_at = now;
    updated_at = now;
    state = open_room;
    max_participants = opts.max_participants;
    metadata = opts.metadata;
    policy = opts.policy;
  }
  write (Store.put_room room)
  return room

unfoldable pub get_room : Text → M Room
unfolding require_room
get_room room_id = require_room room_id

unfoldable pub close_room : Text → ℕ → M Room
unfolding require_room Store.put_room
close_room room_id now = do
  room ← require_room room_id
  let updated : Room = record room { state = closed_room; updated_at = now }
  write (Store.put_room updated)
  return updated

read_bool : Js → Option Bool
read_bool (bool b) = some b
read_bool _ = none

-- A field that is only tested in conditions.
read_flag : Js → Option Bool
read_flag v = if is_defined v then some (truthy v) else none

read_num : Js → Option ℕ
read_num (num n) = some n
read_num _ = none

-- A policy object read by its fields. `allowRecording` is only compared with `false`, and a
-- `maxParticipants` that is not a number is left out.
unfoldable pub read_policy : Js → RoomPolicy
unfolding read_bool read_flag read_num prop
read_policy v = record {
  locked = read_flag (prop (codes "locked") v);
  allow_recording = read_bool (prop (codes "allowRecording") v);
  allowed_codecs = prop (codes "allowedCodecs") v;
  moderator_ids = prop (codes "moderatorIds") v;
  e2ee_required = read_flag (prop (codes "e2eeRequired") v);
  max_participants = read_num (prop (codes "maxParticipants") v);
}

abbrev pub empty_policy : RoomPolicy
empty_policy = record {
  locked = none;
  allow_recording = none;
  allowed_codecs = undefined;
  moderator_ids = undefined;
  e2ee_required = none;
  max_participants = none;
}

unfoldable pub get_room_policy : Room → RoomPolicy
unfolding read_policy prop
get_room_policy room = elim room.policy [
  | some p ↦ p
  | none ↦
      let meta_policy = prop (codes "policy") room.metadata in
      if is_object meta_policy then read_policy meta_policy else empty_policy
]

abbrev pub either_of : {A : Type 0} → Option A → Option A → Option A
either_of none b = b
either_of (some a) b = some a

abbrev pub defined_or : Js → Js → Js
defined_or v w = if is_defined v then v else w

-- { ...current, ...patch }
unfoldable pub merge_policy : RoomPolicy → RoomPolicy → RoomPolicy
merge_policy current patch = record {
  locked = either_of patch.locked current.locked;
  allow_recording = either_of patch.allow_recording current.allow_recording;
  allowed_codecs = defined_or patch.allowed_codecs current.allowed_codecs;
  moderator_ids = defined_or patch.moderator_ids current.moderator_ids;
  e2ee_required = either_of patch.e2ee_required current.e2ee_required;
  max_participants = either_of patch.max_participants current.max_participants;
}

abbrev bool_field : Text → Option Bool → Fields → Fields
bool_field k none fs = fs
bool_field k (some b) fs = field k (bool b) fs

abbrev num_field : Text → Option ℕ → Fields → Fields
num_field k none fs = fs
num_field k (some n) fs = field k (num n) fs

-- The policy as the object that goes into the metadata.
unfoldable pub policy_to_js : RoomPolicy → Js
policy_to_js p = obj (
    bool_field (codes "locked") p.locked (
      bool_field (codes "allowRecording") p.allow_recording (
        js_field (codes "allowedCodecs") p.allowed_codecs (
          js_field (codes "moderatorIds") p.moderator_ids (
            bool_field (codes "e2eeRequired") p.e2ee_required
              (num_field (codes "maxParticipants") p.max_participants end))))))

unfoldable pub sync_metadata : RoomPolicy → Js → Js
unfolding policy_to_js set_field
sync_metadata next (obj fs) = obj (set_field (codes "policy") (policy_to_js next) fs)
sync_metadata next v = v

unfoldable pub update_room_policy : Text → RoomPolicy → ℕ → M Room
unfolding require_room get_room_policy merge_policy sync_metadata Store.put_room
update_room_policy room_id patch now = do
  room ← require_room room_id
  let next = merge_policy (get_room_policy room) patch
  throw_if (is_defined next.allowed_codecs && not (is_array next.allowed_codecs))
      (invalid_request (codes "policy.allowedCodecs must be an array"))
  throw_if (is_defined next.moderator_ids && not (is_array next.moderator_ids))
      (invalid_request (codes "policy.moderatorIds must be an array"))
  let updated : Room = record room {
    policy = some next;
    updated_at = now;
    metadata = sync_metadata next room.metadata;
  }
  write (Store.put_room updated)
  return updated

pub data ModerationAction : Type 0 where
  kick mute lock unlock ban unban : ModerationAction

pub record Moderated : Type 0 where
  pub room : Room
  pub kicked : Option Text
  pub banned : Option Text

-- `if (!targetId) throw …`: an absent or an empty target.
abbrev pub require_target : Option Text → Text → M Text
require_target none message = throw (invalid_request message)
require_target (some []) message = throw (invalid_request message)
require_target (some (c ∷ cs)) message = return (c ∷ cs)

-- `banTtlMs ? t + banTtlMs : undefined`, dropped again by `expiresAt ? … : {}` when it is 0.
abbrev pub ban_expiry : ℕ → Option ℕ → Option ℕ
ban_expiry now none = none
ban_expiry now (some ttl) = if ltb 0 ttl then some (now + ttl) else none

unfoldable pub add_ban : Text → BanEntry → World → World
add_ban room_id entry w =
    let m = or_else (JsMap.get room_id w.ban_store) [] in
    record w { ban_store = JsMap.set room_id (JsMap.set entry.participant_id entry m) w.ban_store }

unfoldable pub remove_ban : Text → Text → World → World
remove_ban room_id participant_id w = elim (JsMap.get room_id w.ban_store) [
  | none ↦ w
  | some m ↦ record w { ban_store = JsMap.set room_id (JsMap.delete participant_id m) w.ban_store }
]

unfoldable pub moderate : Text → Room → ModerationAction → Option Text → Option ℕ → ℕ → M Moderated
unfolding update_room_policy add_ban remove_ban Store.get_participant Store.delete_participant
    Store.put_room
moderate room_id room lock target_id ban_ttl now = do
  updated ← update_room_policy room_id (record empty_policy { locked = some true }) now
  return (record { room = updated; kicked = none; banned = none })
moderate room_id room unlock target_id ban_ttl now = do
  updated ← update_room_policy room_id (record empty_policy { locked = some false }) now
  return (record { room = updated; kicked = none; banned = none })
moderate room_id room kick target_id ban_ttl now = do
  target ← require_target target_id (codes "kick requires targetId")
  existing ← query (Store.get_participant room_id target)
  throw_if (not (is_some existing)) (participant_not_found room_id target)
  write (Store.delete_participant room_id target)
  let updated : Room = record room { updated_at = now }
  write (Store.put_room updated)
  return (record { room = updated; kicked = some target; banned = none })
moderate room_id room mute target_id ban_ttl now = do
  target ← require_target target_id (codes "mute requires targetId")
  existing ← query (Store.get_participant room_id target)
  throw_if (not (is_some existing)) (participant_not_found room_id target)
  return (record { room = room; kicked = none; banned = none })
moderate room_id room ban target_id ban_ttl now = do
  target ← require_target target_id (codes "ban requires targetId")
  let entry : BanEntry = record {
    participant_id = target;
    banned_at = now;
    expires_at = ban_expiry now ban_ttl;
  }
  change (add_ban room_id entry)
  existing ← query (Store.get_participant room_id target)
  write (if is_some existing then Store.delete_participant room_id target else λ s. s)
  let updated : Room = record room { updated_at = now }
  write (Store.put_room updated)
  return (record { room = updated; kicked = some target; banned = some target })
moderate room_id room unban target_id ban_ttl now = do
  target ← require_target target_id (codes "unban requires targetId")
  change (remove_ban room_id target)
  return (record { room = room; kicked = none; banned = none })

unfoldable pub moderate_room : Text → ModerationAction → Option Text → Option ℕ → ℕ → M Moderated
unfolding require_room moderate
moderate_room room_id action target_id ban_ttl now = do
  room ← require_room room_id
  moderate room_id room action target_id ban_ttl now

pub record RoomSnapshot : Type 0 where
  pub room : Room
  pub participants : List Participant
  pub signal_count : ℕ

unfoldable pub get_room_state : Text → M RoomSnapshot
unfolding require_room
get_room_state room_id = do
  room ← require_room room_id
  participants ← query (Store.list_participants room_id)
  signals ← query (Store.list_signals room_id 0)
  return (record { room = room; participants = participants; signal_count = length signals })

unfoldable pub list_participants : Text → M (List Participant)
unfolding require_room
list_participants room_id = do room ← require_room room_id; query (Store.list_participants room_id)

unfoldable pub list_signals : Text → ℕ → M (List StoredSignal)
unfolding require_room
list_signals room_id since = do
  room ← require_room room_id
  query (Store.list_signals room_id since)
