-- ===== src/Server/Membership/Tests.antt =====
-- The membership theorems at a room with one member and two places.
use open_rtc.Base.{
  ◌≡◌, ◌≤◌, refl, true, false, none, some, [], ◌∷◌, codes, max, length, ◌↔◌, ◌++◌, text_eq,
}
use open_rtc.Base.JsMap
use open_rtc.Protocol.Values.{undefined}
use open_rtc.Server.Types.{Participant, JoinResult, LeaveResult}
use open_rtc.Server.Errors.{forbidden, room_full}
use open_rtc.Server.Store
use open_rtc.Server.Store.{InMemoryStore}
use open_rtc.Server.Demo.{room_id, ann, room_with, world_with}
use open_rtc.Server.World.{
  World, ok, err, proceed, query, write, return, throw, throw_if, present, run, change,
  require_room,
}
use open_rtc.Server.Waiting.{is_banned, enqueue_lobby, admit_lobby}
use open_rtc.Server.Rooms.{
  get_room_policy, empty_policy, either_of, ban, moderate, moderate_room, Moderated,
}
use open_rtc.Server.Membership.{
  ParticipantInput, JoinRoomOptions, check_lock, check_capacity, joined, join_room, leave_room,
}
use open_rtc.Server.Membership.Acceptance.{MayJoin, join_room-accepts_iff}
use open_rtc.Server.Membership.Roster.{IsIn, join_room-IsIn, join_room-fits}
use open_rtc.Server.Membership.Refusals.{join_room-refused, admit_lobby-join_room}
use open_rtc.Server.Membership.Departure.{Departed, leave_room-Departed}
use open_rtc.Server.Membership.Banned.{ban-join_room}

abbrev free : World
free = world_with empty_policy

abbrev locked : World
locked = world_with (record empty_policy { locked = some true })

abbrev full : World
full = world_with (record empty_policy { max_participants = some 1 })

abbrev bob : ParticipantInput
bob = record {
  participant_id = codes "b";
  session_id = codes "t";
  display_name = none;
  metadata = undefined;
}

abbrev plain : JoinRoomOptions
plain = record { upsert = false; actor_role = none; is_moderator = false }

abbrev bob_in : Participant
bob_in = record {
  room_id = room_id;
  participant_id = codes "b";
  session_id = codes "t";
  display_name = none;
  joined_at = 5;
  last_seen_at = 5;
  metadata = undefined;
}

abbrev both : JoinResult
both = record {
  room = room_with empty_policy;
  participant = bob_in;
  participants = ann ∷ bob_in ∷ [];
}

bob_joins : join_room room_id bob plain 5 free ≡ (ok both, (join_room room_id bob plain 5 free).1)
unfolding join_room require_room proceed query write run return throw_if present check_lock
    check_capacity joined Store.get_room Store.get_participant Store.list_participants
    Store.put_participant Store.put_room is_banned get_room_policy JsMap.get JsMap.set
bob_joins = refl

full_refuses : join_room room_id bob plain 5 full ≡ (err (room_full room_id), full)
unfolding join_room require_room proceed query write run return throw_if present check_lock
    check_capacity joined Store.get_room Store.get_participant Store.list_participants
    Store.put_participant Store.put_room is_banned get_room_policy JsMap.get JsMap.set
full_refuses = refl

join_room-accepts_iff_example :
    ((r : JoinResult) × (w' : World) × (join_room room_id bob plain 5 free ≡ (ok r, w')))
    ↔ MayJoin room_id bob plain 5 free
join_room-accepts_iff_example = join_room-accepts_iff room_id bob plain 5 free

join_room-IsIn_example :
    IsIn room_id bob 5 free.store (join_room room_id bob plain 5 free).1.store both
join_room-IsIn_example =
    join_room-IsIn room_id bob plain 5 free (join_room room_id bob plain 5 free).1 both bob_joins

join_room-fits_example :
    length both.participants ≤ max 2 (length (Store.list_participants room_id free.store))
unfolding get_room_policy
join_room-fits_example =
    join_room-fits room_id bob plain 5 free (join_room room_id bob plain 5 free).1 both 2 bob_joins
      two
  where
    two :
        either_of
          (get_room_policy (room_with empty_policy)).max_participants
          (room_with empty_policy).max_participants
        ≡ some 2
    two = refl

join_room-refused_example : full.store ≡ full.store
join_room-refused_example =
    join_room-refused room_id bob plain 5 full full (room_full room_id) full_refuses

leave_room-Departed_example :
    (r : LeaveResult) × (w' : World) × (leave_room room_id (codes "a") none 7 free ≡ (ok r, w'))
    × Departed room_id (codes "a") none free.store w'.store r
unfolding Store.get_room Store.get_participant JsMap.get
leave_room-Departed_example =
    leave_room-Departed room_id (codes "a") none 7 free (room_with empty_policy) ann refl refl

abbrev banned_bob : Moderated
banned_bob = record {
  room = record (room_with empty_policy) { updated_at = 3 };
  kicked = some (codes "b");
  banned = some (codes "b");
}

bob_banned :
    moderate_room room_id ban (some (98 ∷ [])) (some 10) 3 free
    ≡ (ok banned_bob, (moderate_room room_id ban (some (98 ∷ [])) (some 10) 3 free).1)
unfolding moderate_room moderate require_room proceed query write change return throw_if present
    Store.get_room Store.get_participant JsMap.get
bob_banned = refl

ban-join_room_example :
    (join_room room_id bob plain 5
      (moderate_room room_id ban (some (98 ∷ [])) (some 10) 3 free).1).0
    ≡ err
        (forbidden (codes "Participant " ++ codes "b" ++ codes " is banned from room " ++ room_id))
unfolding Store.get_room JsMap.get
ban-join_room_example =
    ban-join_room room_id 98 [] (some 10) 3 5 free
      (moderate_room room_id ban (some (98 ∷ [])) (some 10) 3 free).1 (room_with empty_policy)
      banned_bob bob plain refl refl refl bob_banned refl refl

admit_lobby-join_room_example :
    (join_room room_id bob plain 6
      (admit_lobby room_id (codes "b") (join_room room_id bob plain 5 locked).1).1).0
    ≡ err (forbidden (codes "Room " ++ room_id ++ codes " is locked - added to lobby"))
unfolding join_room require_room proceed query write run return throw throw_if present check_lock
    change enqueue_lobby Store.get_room Store.get_participant is_banned get_room_policy JsMap.get
    JsMap.set
admit_lobby-join_room_example =
    admit_lobby-join_room room_id bob plain 6 (join_room room_id bob plain 5 locked).1
      (room_with (record empty_policy { locked = some true })) refl refl refl refl refl refl
