-- ===== src/Server/Membership/Refusals.antt =====
-- `joinRoom` that throws: what it leaves, and the lobby of a locked room.
use open_rtc.Base.{
  ◌≡◌, refl, sym, ap, ◌∙◌, ◌⊎◌, inl, inr, Bool, true, false, ℕ, Option-cases, Option, none, some,
  Text, codes, or_else, ◌++◌, [], if◌then◌else◌, text_eq,
}
use open_rtc.Base.JsMap
use open_rtc.Server.Types.{Room, RoomPolicy, Participant}
use open_rtc.Server.Errors.{ServerError, forbidden}
use open_rtc.Server.Store
use open_rtc.Server.Store.{InMemoryStore}
use open_rtc.Server.World.{
  World, Result, err, M, proceed, ◌>>◌, return, throw, throw_if, present, query, write, run, change,
  require_room,
}
use open_rtc.Server.World.Runs.{err-throw_if, err-present}
use open_rtc.Server.Waiting.{is_banned, enqueue_lobby, list_lobby_waiting, admit_lobby}
use open_rtc.Server.Waiting.Bans.{is_banned-ban_of}
use open_rtc.Server.Rooms.{get_room_policy}
use open_rtc.Server.Membership.{
  ParticipantInput, JoinRoomOptions, is_closed, is_privileged, check_lock, check_capacity,
  join_room,
}
use open_rtc.Server.Membership.Admission.{is_banned-store}

-- A run that throws was stopped by a guard that leaves the store alone, or behind it.
throw_if_store :
    {B : Type 0} (t : Bool) (d : ServerError) (f : Unit {0} → M B) (e : ServerError) (w w' : World)
    → proceed f (throw_if t d w) ≡ (err e, w')
    → (w'.store ≡ w.store) ⊎ (f tt w ≡ (err e, w'))
throw_if_store t d f e w w' h = elim (err-throw_if t d f e w w' h) [
  | inl (_, _, same) ↦ inl (ap (λ z. z.store) (sym same))
  | inr (_, rest) ↦ inr rest
]

locked_store :
    {B : Type 0} (t : Bool) (room_id participant_id : Text) (now : ℕ) (d : ServerError)
    (f : Unit {0} → M B) (e : ServerError) (w w' : World)
    → proceed f (
        (if t then (change (enqueue_lobby room_id participant_id now) >> throw d) else return tt) w)
      ≡ (err e, w')
    → (w'.store ≡ w.store) ⊎ (f tt w ≡ (err e, w'))
unfolding proceed change throw return enqueue_lobby
locked_store true room_id participant_id now d f e w w' h =
    inl (ap (λ (z : Result _ × World). z.1.store) (sym h))
locked_store false room_id participant_id now d f e w w' h = inr h

check_lock_store :
    {B : Type 0} (room_id participant_id : Text) (policy : RoomPolicy)
    (existing : Option Participant) (opts : JoinRoomOptions) (now : ℕ) (f : Unit {0} → M B)
    (e : ServerError) (w w' : World)
    → proceed f (check_lock room_id participant_id policy existing opts now w) ≡ (err e, w')
    → (w'.store ≡ w.store) ⊎ (f tt w ≡ (err e, w'))
unfolding check_lock
check_lock_store room_id participant_id policy existing opts now f e w w' h =
    locked_store _ _ _ _ _ f e w w' h

check_capacity_store :
    {B : Type 0} (room_id : Text) (cap : Option ℕ) (existing : Option Participant)
    (f : Unit {0} → M B) (e : ServerError) (w w' : World)
    → proceed f (check_capacity room_id cap existing w) ≡ (err e, w')
    → (w'.store ≡ w.store) ⊎ (f tt w ≡ (err e, w'))
unfolding check_capacity proceed query return
check_capacity_store room_id none existing f e w w' h = inr h
check_capacity_store room_id (some cap) (some p) f e w w' h = inr h
check_capacity_store room_id (some cap) none f e w w' h = throw_if_store _ _ f e w w' h

-- A join that throws leaves the store as it was: nobody comes in, and no room changes.
pub join_room-refused :
    (room_id : Text) (input : ParticipantInput) (opts : JoinRoomOptions) (now : ℕ) (w w' : World)
    (e : ServerError)
    → join_room room_id input opts now w ≡ (err e, w')
    → w'.store ≡ w.store
unfolding join_room require_room proceed query write run return
join_room-refused room_id input opts now w w' e h =
    let v : World = (is_banned room_id input.participant_id now w).1 in
    let same : v.store ≡ w.store = is_banned-store room_id input.participant_id now w in
    elim (err-present _ _ _ e w w' h) [
      | inl (_, _, stopped) ↦ ap (λ z. z.store) (sym stopped)
      | inr (room, _, h1) ↦ elim (throw_if_store _ _ _ e w w' h1) [
        | inl kept ↦ kept
        | inr h2 ↦ elim (throw_if_store _ _ _ e v w' h2) [
          | inl kept ↦ kept ∙ same
          | inr h3 ↦ elim (check_lock_store _ _ _ _ _ _ _ e v w' h3) [
            | inl kept ↦ kept ∙ same
            | inr h4 ↦ elim (throw_if_store _ _ _ e v w' h4) [
              | inl kept ↦ kept ∙ same
              | inr h5 ↦ elim (check_capacity_store _ _ _ _ e v w' h5) [
                | inl kept ↦ kept ∙ same
                | inr h6 ↦ absurd (cc h6)
              ]
            ]
          ]
        ]
      ]
    ]

-- A newcomer without privileges who asks for a locked room waits in its lobby.
pub join_room-lobby :
    (room_id : Text) (input : ParticipantInput) (opts : JoinRoomOptions) (now : ℕ) (w : World)
    (room : Room)
    → Store.get_room room_id w.store ≡ some room
    → is_closed room.state ≡ false
    → (is_banned room_id input.participant_id now w).0 ≡ false
    → (get_room_policy room).locked ≡ some true
    → Store.get_participant room_id input.participant_id w.store ≡ none
    → is_privileged opts ≡ false
    → ((join_room room_id input opts now w).0
        ≡ err (forbidden (codes "Room " ++ room_id ++ codes " is locked - added to lobby")))
      × (JsMap.get input.participant_id
            (list_lobby_waiting room_id (join_room room_id input opts now w).1)
          ≡ some now)
unfolding join_room require_room proceed query write run return throw_if present check_lock throw
    change list_lobby_waiting enqueue_lobby
join_room-lobby room_id input opts now w room found is_open not_banned locked new plain =
    let v : World = (is_banned room_id input.participant_id now w).1 in
    let same : v.store ≡ w.store = is_banned-store room_id input.participant_id now w in
    let lobby = or_else (JsMap.get room_id v.lobby_store) [] in
    let absent : Store.get_participant room_id input.participant_id v.store ≡ none =
      ap (Store.get_participant room_id input.participant_id) same ∙ new in
    rw (found, is_open, not_banned, locked, absent, plain)
      (
        refl,
        rw (JsMap.get-set_self room_id (JsMap.set input.participant_id now lobby) v.lobby_store)
            (JsMap.get-set_self input.participant_id now lobby),
      )

-- A newcomer without privileges whom the lobby admits is refused by the locked room again.
pub admit_lobby-join_room :
    (room_id : Text) (input : ParticipantInput) (opts : JoinRoomOptions) (now : ℕ) (w : World)
    (room : Room)
    → Store.get_room room_id w.store ≡ some room
    → is_closed room.state ≡ false
    → (is_banned room_id input.participant_id now w).0 ≡ false
    → (get_room_policy room).locked ≡ some true
    → Store.get_participant room_id input.participant_id w.store ≡ none
    → is_privileged opts ≡ false
    → (join_room room_id input opts now (admit_lobby room_id input.participant_id w).1).0
      ≡ err (forbidden (codes "Room " ++ room_id ++ codes " is locked - added to lobby"))
unfolding admit_lobby
admit_lobby-join_room room_id input opts now w room found is_open not_banned locked new plain =
    elim (Option-cases (JsMap.get room_id w.lobby_store)) [
      | inl empty ↦
          rw (admit_lobby, empty)
            (join_room-lobby room_id input opts now w room found is_open not_banned locked new
              plain).0
      | inr (m, waiting) ↦
          let w1 : World = record w {
            lobby_store = JsMap.set room_id (JsMap.delete input.participant_id m) w.lobby_store;
          } in
          rw (admit_lobby, waiting)
            (join_room-lobby room_id input opts now w1 room found is_open
              (is_banned-ban_of room_id input.participant_id now w1
                ∙ sym (is_banned-ban_of room_id input.participant_id now w)
                ∙ not_banned)
              locked new plain).0
    ]
