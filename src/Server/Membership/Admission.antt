-- ===== src/Server/Membership/Admission.antt =====
-- `joinRoom`: when it lets a participant in, and the store that it leaves.
use open_rtc.Base.{
  ◌≡◌, refl, ap, subst, Bool, true, false, not, ◌&&◌, ℕ, ◌<◌, length, Option, none, some, Text,
  or_else, is_some, leb, leb→gt, arith, if◌then◌else◌,
}
use open_rtc.Server.Types.{RoomPolicy, Room, Participant, JoinResult}
use open_rtc.Server.Errors.{ServerError}
use open_rtc.Server.Store
use open_rtc.Server.Store.{InMemoryStore}
use open_rtc.Server.World.{
  World, ok, M, proceed, return, throw, query, write, run, ◌>>◌, change, require_room,
}
use open_rtc.Server.World.Runs.{ok-throw_if, ok-present, ok_inj}
use open_rtc.Server.Waiting.{is_banned}
use open_rtc.Server.Rooms.{get_room_policy, either_of}
use open_rtc.Server.Membership.{
  ParticipantInput, JoinRoomOptions, is_closed, is_privileged, check_lock, check_capacity, joined,
  join_room,
}

pub is_banned-store :
    (room_id participant_id : Text) (now : ℕ) (w : World)
    → (is_banned room_id participant_id now w).1.store ≡ w.store
unfolding is_banned
is_banned-store room_id participant_id now w = ground arith

-- The conditions under which a participant may come in.
pub record Admissible (room : Room) (input : ParticipantInput) (opts : JoinRoomOptions)
    (existing : Option Participant) (members : ℕ) : Type 0 where
  pub is_open : is_closed room.state ≡ false
  pub unlocked :
      or_else (get_room_policy room).locked false
        && not (is_some existing)
        && not (is_privileged opts)
      ≡ false
  pub fresh : is_some existing && not opts.upsert ≡ false
  pub fits :
      (cap : ℕ)
      → either_of (get_room_policy room).max_participants room.max_participants ≡ some cap
      → existing ≡ none
      → members < cap

locked_out :
    {B : Type 0} (t : Bool) (effect : World → World) (e : ServerError) (f : Unit {0} → M B) (b : B)
    (w w' : World)
    → proceed f ((if t then (change effect >> throw e) else return tt) w) ≡ (ok b, w')
    → (t ≡ false) × (f tt w ≡ (ok b, w'))
unfolding proceed change throw return
locked_out true effect e f b w w' h = absurd (cc h)
locked_out false effect e f b w w' h = (refl, h)

ok-check_lock :
    {B : Type 0} (room_id participant_id : Text) (policy : RoomPolicy)
    (existing : Option Participant) (opts : JoinRoomOptions) (now : ℕ) (f : Unit {0} → M B) (b : B)
    (w w' : World)
    → proceed f (check_lock room_id participant_id policy existing opts now w) ≡ (ok b, w')
    → (or_else policy.locked false && not (is_some existing) && not (is_privileged opts) ≡ false)
      × (f tt w ≡ (ok b, w'))
unfolding check_lock
ok-check_lock room_id participant_id policy existing opts now f b w w' h =
    locked_out _ _ _ f b w w' h

ok-check_capacity :
    {B : Type 0} (room_id : Text) (cap : Option ℕ) (existing : Option Participant)
    (f : Unit {0} → M B) (b : B) (w w' : World)
    → proceed f (check_capacity room_id cap existing w) ≡ (ok b, w')
    → ((c : ℕ)
        → cap ≡ some c
        → existing ≡ none
        → length (Store.list_participants room_id w.store) < c)
      × (f tt w ≡ (ok b, w'))
unfolding check_capacity proceed query return
ok-check_capacity room_id none existing f b w w' h = (λ c q n. absurd (cc q), h)
ok-check_capacity room_id (some cap) (some p) f b w w' h = (λ c q n. absurd (cc n), h)
ok-check_capacity room_id (some cap) none f b w w' h =
    let (free, rest) =
      ok-throw_if (leb cap (length (Store.list_participants room_id w.store))) _ f b w w' h in
    (
      λ c q n.
          subst (λ z. length (Store.list_participants room_id w.store) < z) (cc q)
            (leb→gt cap _ free),
      rest,
    )

-- A participant comes in when the conditions hold, and the store is the old one with its record.
pub record Admitted (room_id : Text) (input : ParticipantInput) (opts : JoinRoomOptions) (now : ℕ)
    (w w' : World) (r : JoinResult) : Type 0 where
  pub found : Store.get_room room_id w.store ≡ some r.room
  pub not_banned : (is_banned room_id input.participant_id now w).0 ≡ false
  pub admissible :
      Admissible r.room input opts
        (Store.get_participant room_id input.participant_id w.store)
        (length (Store.list_participants room_id w.store))
  pub participant :
      r.participant
      ≡ joined room_id input (Store.get_participant room_id input.participant_id w.store) now
  pub store :
      w'.store
      ≡ Store.put_room
          (record r.room { updated_at = now })
          (Store.put_participant r.participant w.store)
  pub participants : r.participants ≡ Store.list_participants room_id w'.store

pub join_room-Admitted :
    (room_id : Text) (input : ParticipantInput) (opts : JoinRoomOptions) (now : ℕ) (w w' : World)
    (r : JoinResult)
    → join_room room_id input opts now w ≡ (ok r, w')
    → Admitted room_id input opts now w w' r
unfolding join_room require_room proceed query write run return
join_room-Admitted room_id input opts now w w' r h =
    let (room, found, h1) = ok-present _ _ _ r w w' h in
    let (is_open, h2) = ok-throw_if _ _ _ r w w' h1 in
    let v : World = (is_banned room_id input.participant_id now w).1 in
    let same : v.store ≡ w.store = is_banned-store room_id input.participant_id now w in
    let (not_banned, h3) = ok-throw_if _ _ _ r v w' h2 in
    let (unlocked, h4) = ok-check_lock _ _ _ _ _ _ _ r v w' h3 in
    let (fresh, h5) = ok-throw_if _ _ _ r v w' h4 in
    let (fits, h6) = ok-check_capacity _ _ _ _ r v w' h5 in
    let (result, world) = ok_inj _ r _ w' h6 in
    subst (λ (z : JoinResult × World). Admitted room_id input opts now w z.1 z.0)
      (λ i. (result i, world i))
      (record {
        found = found;
        not_banned = not_banned;
        admissible =
            subst
              (λ s.
                Admissible room input opts (Store.get_participant room_id input.participant_id s)
                  (length (Store.list_participants room_id s)))
              same (record { is_open = is_open; unlocked = unlocked; fresh = fresh; fits = fits });
        participant =
            ap
              (λ s. joined room_id input (Store.get_participant room_id input.participant_id s) now)
              same;
        store =
            ap
              (λ s.
                Store.put_room (record room { updated_at = now })
                  (Store.put_participant
                    (joined room_id input
                      (Store.get_participant room_id input.participant_id v.store) now)
                    s))
              same;
        participants = refl;
      })
