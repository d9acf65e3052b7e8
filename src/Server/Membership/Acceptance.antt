-- ===== src/Server/Membership/Acceptance.antt =====
-- `joinRoom`: the exact conditions of success.
use open_rtc.Base.{
  ◌≡◌, refl, sym, subst, ◌↔◌, false, not, ◌&&◌, ℕ, ◌<◌, length, Option, none, some, Text, is_some,
  or_else, arith, leb,
}
use open_rtc.Server.Types.{Room, RoomPolicy, Participant, JoinResult}
use open_rtc.Server.Store
use open_rtc.Server.Store.{InMemoryStore}
use open_rtc.Server.World.{
  World, ok, proceed, return, throw_if, present, query, write, run, require_room,
}
use open_rtc.Server.Waiting.{is_banned}
use open_rtc.Server.Rooms.{get_room_policy, either_of}
use open_rtc.Server.Membership.{
  ParticipantInput, JoinRoomOptions, is_privileged, check_lock, check_capacity, joined, join_room,
}
use open_rtc.Server.Membership.Admission.{join_room-Admitted, Admissible, is_banned-store}

check_lock_open :
    (room_id participant_id : Text) (policy : RoomPolicy) (existing : Option Participant)
    (opts : JoinRoomOptions) (now : ℕ) (w : World)
    → (or_else policy.locked false && not (is_some existing) && not (is_privileged opts) ≡ false)
    → check_lock room_id participant_id policy existing opts now w ≡ (ok tt, w)
unfolding check_lock return
check_lock_open room_id participant_id policy existing opts now w free = rw free refl

check_capacity_free :
    (room_id : Text) (cap : Option ℕ) (existing : Option Participant) (w : World)
    → ((c : ℕ)
        → cap ≡ some c
        → existing ≡ none
        → length (Store.list_participants room_id w.store) < c)
    → check_capacity room_id cap existing w ≡ (ok tt, w)
unfolding check_capacity return proceed query throw_if
check_capacity_free room_id none existing w h = refl
check_capacity_free room_id (some c) (some p) w h = refl
check_capacity_free room_id (some c) none w h =
    let free : leb c (length (Store.list_participants room_id w.store)) ≡ false =
      ground (arith, h c refl refl) in
    rw free refl

-- Who may join: the room exists, the participant is not banned, and is admissible.
pub record MayJoin (room_id : Text) (input : ParticipantInput) (opts : JoinRoomOptions) (now : ℕ)
    (w : World) : Type 0 where
  pub room : Room
  pub found : Store.get_room room_id w.store ≡ some room
  pub not_banned : (is_banned room_id input.participant_id now w).0 ≡ false
  pub admissible :
      Admissible room input opts
        (Store.get_participant room_id input.participant_id w.store)
        (length (Store.list_participants room_id w.store))

join_room-accepts :
    (room_id : Text) (input : ParticipantInput) (opts : JoinRoomOptions) (now : ℕ) (w : World)
    → MayJoin room_id input opts now w
    → (r : JoinResult) × (w' : World) × (join_room room_id input opts now w ≡ (ok r, w'))
unfolding join_room require_room proceed query write run return throw_if present
join_room-accepts room_id input opts now w m =
    let v : World = (is_banned room_id input.participant_id now w).1 in
    let same : v.store ≡ w.store = is_banned-store room_id input.participant_id now w in
    let a =
      subst
        (λ s.
          Admissible m.room input opts (Store.get_participant room_id input.participant_id s)
            (length (Store.list_participants room_id s)))
        (sym same) m.admissible in
    let lock =
      check_lock_open room_id input.participant_id (get_room_policy m.room)
        (Store.get_participant room_id input.participant_id v.store) opts now v a.unlocked in
    let cap =
      check_capacity_free room_id
        (either_of (get_room_policy m.room).max_participants m.room.max_participants)
        (Store.get_participant room_id input.participant_id v.store) v a.fits in
    let p = joined room_id input (Store.get_participant room_id input.participant_id v.store) now in
    let s' =
      Store.put_room (record m.room { updated_at = now }) (Store.put_participant p v.store) in
    (
      record { room = m.room; participant = p; participants = Store.list_participants room_id s' },
      record v { store = s' },
      rw (m.found, a.is_open, m.not_banned, lock, a.fresh, cap) refl,
    )

-- Joining succeeds exactly for those who may join.
pub join_room-accepts_iff :
    (room_id : Text) (input : ParticipantInput) (opts : JoinRoomOptions) (now : ℕ) (w : World)
    → ((r : JoinResult) × (w' : World) × (join_room room_id input opts now w ≡ (ok r, w')))
      ↔ MayJoin room_id input opts now w
join_room-accepts_iff room_id input opts now w = (
  λ (r, w', h).
      let a = join_room-Admitted room_id input opts now w w' r h in
      record {
        room = r.room;
        found = a.found;
        not_banned = a.not_banned;
        admissible = a.admissible;
      },
  join_room-accepts room_id input opts now w,
)
