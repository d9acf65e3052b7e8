-- ===== src/Server/Membership/Roster.antt =====
-- `joinRoom`: the roster after a participant came in.
use open_rtc.Base.{
  ◌≡◌, refl, ap, ◌∙◌, inl, inr, false, ℕ, ◌≤◌, ◌+◌, length, ◌==◌, text_eq, eq_iff, Option-cases,
  Bool-cases, Option, some, Text, is_some, arith, max, if◌then◌else◌, ◌∷◌, [],
}
use open_rtc.Base.JsMap
use open_rtc.Server.Types.{Room, Participant, JoinResult}
use open_rtc.Server.Store
use open_rtc.Server.Store.{InMemoryStore, key}
use open_rtc.Server.Store.Roster.Lists.{length-list_participants_put}
use open_rtc.Server.World.{World, ok}
use open_rtc.Server.Rooms.{get_room_policy, either_of}
use open_rtc.Server.Membership.{ParticipantInput, JoinRoomOptions, joined, join_room}
use open_rtc.Server.Membership.Admission.{join_room-Admitted}

-- Two participants of a room have different keys.
pub key_inj : (room_id p q : Text) → key room_id p ≡ key room_id q → p ≡ q
unfolding key
key_inj [] p q h = cc h
key_inj (c ∷ room_id) p q h =
    let tail : key room_id p ≡ key room_id q = cc h in key_inj room_id p q tail

-- The participants that the room record does not touch.
pub put_room-participants :
    (room_id : Text) (room : Room) (s : InMemoryStore)
    → Store.list_participants room_id (Store.put_room room s) ≡ Store.list_participants room_id s
unfolding Store.list_participants Store.put_room
put_room-participants room_id room s = refl

pub put_room-participant :
    (room_id p : Text) (room : Room) (s : InMemoryStore)
    → Store.get_participant room_id p (Store.put_room room s) ≡ Store.get_participant room_id p s
unfolding Store.get_participant Store.put_room
put_room-participant room_id p room s = refl

joined-room_id :
    (room_id : Text) (input : ParticipantInput) (existing : Option Participant) (now : ℕ)
    → (joined room_id input existing now).room_id ≡ room_id
unfolding joined
joined-room_id room_id input existing now = refl

joined-participant_id :
    (room_id : Text) (input : ParticipantInput) (existing : Option Participant) (now : ℕ)
    → (joined room_id input existing now).participant_id ≡ input.participant_id
unfolding joined
joined-participant_id room_id input existing now = refl

-- What is in the store of a room after a participant came in.
pub record IsIn (room_id : Text) (input : ParticipantInput) (now : ℕ) (s s' : InMemoryStore)
    (r : JoinResult) : Type 0 where
  pub member : Store.get_participant room_id input.participant_id s' ≡ some r.participant
  pub first_join :
      (p : Participant)
      → Store.get_participant room_id input.participant_id s ≡ some p
      → r.participant.joined_at ≡ p.joined_at
  pub others :
      (q : Text)
      → (input.participant_id == q) ≡ false
      → Store.get_participant room_id q s' ≡ Store.get_participant room_id q s
  pub size : length r.participants ≡ (
      if is_some (Store.get_participant room_id input.participant_id s)
      then length (Store.list_participants room_id s)
      else length (Store.list_participants room_id s) + 1)

pub different_keys :
    (room_id p q : Text) → (p == q) ≡ false → (key room_id p == key room_id q) ≡ false
different_keys room_id p q ne = elim (Bool-cases (key room_id p == key room_id q)) [
  | inl same ↦
      absurd (
        cc ((eq_iff p q).1 (key_inj room_id p q ((eq_iff (key room_id p) (key room_id q)).0 same))))
  | inr miss ↦ miss
]

-- A joined participant is found afterwards, keeps the time of a first join, leaves the others
-- alone, and makes the roster longer by one if it is new.
pub join_room-IsIn :
    (room_id : Text) (input : ParticipantInput) (opts : JoinRoomOptions) (now : ℕ) (w w' : World)
    (r : JoinResult)
    → join_room room_id input opts now w ≡ (ok r, w')
    → IsIn room_id input now w.store w'.store r
unfolding joined Store.get_participant Store.put_participant Store.put_room
join_room-IsIn room_id input opts now w w' r h =
    let a = join_room-Admitted room_id input opts now w w' r h in
    let p = joined room_id input (Store.get_participant room_id input.participant_id w.store) now in
    let s' =
      Store.put_room (record r.room { updated_at = now }) (Store.put_participant p w.store) in
    let stored : w'.store ≡ s' =
      a.store
      ∙ ap
          (λ z.
            Store.put_room (record r.room { updated_at = now }) (Store.put_participant z w.store))
          a.participant in
    record {
      member =
          rw (stored, a.participant)
            (JsMap.get-set_self (key room_id input.participant_id) p w.store.participants);
      first_join = λ q e. rw (a.participant, e) refl;
      others = λ q ne. rw stored (
          JsMap.get-set_ne (key room_id input.participant_id) (key room_id q) p w.store.participants
            (different_keys room_id input.participant_id q ne));
      size =
          rw (a.participants, stored)
            (ap length (
                put_room-participants room_id (record r.room { updated_at = now })
                  (Store.put_participant p w.store))
              ∙ length-list_participants_put p w.store);
    }

-- A join keeps the roster within the room's limit, or no larger than it was.
pub join_room-fits :
    (room_id : Text) (input : ParticipantInput) (opts : JoinRoomOptions) (now : ℕ) (w w' : World)
    (r : JoinResult) (cap : ℕ)
    → join_room room_id input opts now w ≡ (ok r, w')
    → either_of (get_room_policy r.room).max_participants r.room.max_participants ≡ some cap
    → length r.participants ≤ max cap (length (Store.list_participants room_id w.store))
join_room-fits room_id input opts now w w' r cap h limit =
    let a = join_room-Admitted room_id input opts now w w' r h in
    let size = (join_room-IsIn room_id input opts now w w' r h).size in
    elim (Option-cases (Store.get_participant room_id input.participant_id w.store)) [
      | inl new ↦
          let room_left = a.admissible.fits cap limit new in ground (arith, size, room_left, new)
      | inr (p, old) ↦ ground (arith, size, old)
    ]
