-- ===== src/Server/Membership/Departure.antt =====
-- `leaveRoom`: when it succeeds, and what it leaves.
use open_rtc.Base.{text_eq, ◌==◌, eq_self, ◌≡◌, refl, ◌∙◌, false, ℕ, Option, none, some, Text, List}
use open_rtc.Base.JsMap
use open_rtc.Protocol.{Envelope}
use open_rtc.Server.Types.{Room, Participant, LeaveResult, SignalDelivery}
use open_rtc.Server.Store
use open_rtc.Server.Store.{InMemoryStore, key}
use open_rtc.Server.World.{
  World, Result, ok, proceed, return, throw_if, present, query, write, update, require_room,
}
use open_rtc.Server.Membership.{store_leave, leave_room}
use open_rtc.Server.Membership.Roster.{different_keys}

abbrev left_store : Text → Text → Room → Option Envelope → ℕ → InMemoryStore → InMemoryStore
left_store room_id participant_id room none now s =
    Store.put_room (record room { updated_at = now })
      (Store.delete_participant room_id participant_id s)
left_store room_id participant_id room (some e) now s =
    (Store.put_signal room_id e now (
      Store.put_room (record room { updated_at = now })
        (Store.delete_participant room_id participant_id s))).1

abbrev told_by : Option Envelope → List Participant → Option SignalDelivery
told_by none recipients = none
told_by (some e) recipients = some (record { envelope = e; recipients = recipients })

left : Text → Text → Room → Option Envelope → ℕ → World → Result LeaveResult × World
left room_id participant_id room envelope now w =
    let s = left_store room_id participant_id room envelope now w.store in
    let roster = Store.list_participants room_id s in
    (
      ok (record { room = room; participants = roster; delivery = told_by envelope roster }),
      record w { store = s },
    )

leave_room-left :
    (room_id participant_id : Text) (envelope : Option Envelope) (now : ℕ) (w : World) (room : Room)
    (p : Participant)
    → Store.get_room room_id w.store ≡ some room
    → Store.get_participant room_id participant_id w.store ≡ some p
    → leave_room room_id participant_id envelope now w
      ≡ left room_id participant_id room envelope now w
unfolding leave_room require_room proceed query write return throw_if present update store_leave
    left Store.put_signal
leave_room-left room_id participant_id none now w room p found was_in = rw (found, was_in) refl
leave_room-left room_id participant_id (some e) now w room p found was_in = rw (found, was_in) refl

-- What a participant that leaves leaves behind.
pub record Departed (room_id participant_id : Text) (envelope : Option Envelope)
    (s s' : InMemoryStore) (r : LeaveResult) : Type 0 where
  pub gone : Store.get_participant room_id participant_id s' ≡ none
  pub others :
      (q : Text)
      → (participant_id == q) ≡ false
      → Store.get_participant room_id q s' ≡ Store.get_participant room_id q s
  pub roster : r.participants ≡ Store.list_participants room_id s'
  pub told : r.delivery ≡ told_by envelope r.participants

left_store-participants :
    (room_id participant_id q : Text) (room : Room) (envelope : Option Envelope) (now : ℕ)
    (s : InMemoryStore)
    → Store.get_participant room_id q (left_store room_id participant_id room envelope now s)
      ≡ JsMap.get (key room_id q) (JsMap.delete (key room_id participant_id) s.participants)
unfolding Store.put_signal Store.put_room Store.delete_participant Store.get_participant
left_store-participants room_id participant_id q room none now s = refl
left_store-participants room_id participant_id q room (some e) now s = refl

-- A member can always leave: it is not found afterwards, the others are as before, and the `leave`
-- envelope, if there is one, is addressed to exactly those who stay.
pub leave_room-Departed :
    (room_id participant_id : Text) (envelope : Option Envelope) (now : ℕ) (w : World) (room : Room)
    (p : Participant)
    → Store.get_room room_id w.store ≡ some room
    → Store.get_participant room_id participant_id w.store ≡ some p
    → (r : LeaveResult) × (w' : World) × (leave_room room_id participant_id envelope now w
        ≡ (ok r, w'))
      × Departed room_id participant_id envelope w.store w'.store r
unfolding left Store.get_participant
leave_room-Departed room_id participant_id envelope now w room p found was_in =
    let s' = left_store room_id participant_id room envelope now w.store in
    let roster = Store.list_participants room_id s' in
    let k = key room_id participant_id in
    (
      record { room = room; participants = roster; delivery = told_by envelope roster },
      record w { store = s' },
      leave_room-left room_id participant_id envelope now w room p found was_in,
      record {
        gone =
            left_store-participants room_id participant_id participant_id room envelope now w.store
            ∙ JsMap.get-delete k k w.store.participants
            ∙ rw (eq_self k) refl;
        others = λ q ne.
            left_store-participants room_id participant_id q room envelope now w.store
            ∙ JsMap.get-delete k (key room_id q) w.store.participants
            ∙ rw (different_keys room_id participant_id q ne) refl;
        roster = refl;
        told = refl;
      },
    )
