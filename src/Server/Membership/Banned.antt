-- ===== src/Server/Membership/Banned.antt =====
-- A `joinRoom` after a `moderateRoom` that bans the participant.
use open_rtc.Base.{
  ◌≡◌, refl, sym, ap, subst, ◌∙◌, true, false, ℕ, Option, some, Text, codes, ◌∷◌, ◌++◌,
}
use open_rtc.Server.Types.{Room}
use open_rtc.Server.Errors.{forbidden}
use open_rtc.Server.Store
use open_rtc.Server.World.{World, ok, err, proceed, query, run, throw_if, present, require_room}
use open_rtc.Server.Waiting.{is_banned}
use open_rtc.Server.Rooms.{ban, moderate_room, Moderated}
use open_rtc.Server.Rooms.Moderation.{holds, Banned, moderate_room-Banned}
use open_rtc.Server.Membership.{ParticipantInput, JoinRoomOptions, is_closed, join_room}

join_room-banned :
    (room_id : Text) (input : ParticipantInput) (opts : JoinRoomOptions) (now : ℕ) (w : World)
    (room : Room)
    → Store.get_room room_id w.store ≡ some room
    → is_closed room.state ≡ false
    → (is_banned room_id input.participant_id now w).0 ≡ true
    → (join_room room_id input opts now w).0
      ≡ err (
          forbidden (
            codes "Participant "
            ++ input.participant_id
            ++ codes " is banned from room "
            ++ room_id))
unfolding join_room require_room proceed query run throw_if present
join_room-banned room_id input opts now w room found is_open banned =
    rw (found, is_open, banned) refl

-- After a ban, the participant cannot join the open room while the ban holds, with whatever
-- options it comes; the room is the one that the store has under its id.
pub ban-join_room :
    (room_id : Text) (c : ℕ) (cs : Text) (ttl : Option ℕ) (t now : ℕ) (w w' : World) (room : Room)
    (m : Moderated) (input : ParticipantInput) (opts : JoinRoomOptions)
    → Store.get_room room_id w.store ≡ some room
    → room.room_id ≡ room_id
    → is_closed room.state ≡ false
    → moderate_room room_id ban (some (c ∷ cs)) ttl t w ≡ (ok m, w')
    → input.participant_id ≡ c ∷ cs
    → holds t ttl now ≡ true
    → (join_room room_id input opts now w').0
      ≡ err (
          forbidden (
            codes "Participant "
            ++ input.participant_id
            ++ codes " is banned from room "
            ++ room_id))
ban-join_room room_id c cs ttl t now w w' room m input opts found own is_open h target in_force =
    let (m1, w1, runs, _, _, b) = moderate_room-Banned room_id c cs ttl t w room found in
    let same : w1 ≡ w' = ap (λ p. p.1) (sym runs ∙ h) in
    let b' : Banned room_id (c ∷ cs) room ttl t w' =
      subst (Banned room_id (c ∷ cs) room ttl t) same b in
    let there : Store.get_room room_id w'.store ≡ some (record room { updated_at = t }) =
      subst (λ z. Store.get_room z w'.store ≡ some (record room { updated_at = t })) own b'.there in
    join_room-banned room_id input opts now w' (record room { updated_at = t }) there is_open
      (ap (λ z. (is_banned room_id z now w').0) target ∙ b'.banned now ∙ in_force)
