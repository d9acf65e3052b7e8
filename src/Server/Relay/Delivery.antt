-- ===== src/Server/Relay/Delivery.antt =====
-- `handleSignal` on a store: what it checks, what it stores, and to whom the envelope goes.
use open_rtc.Base.{
  text_eq, ℕ, ◌≡◌, refl, sym, ap, subst, ◌∙◌, ◌⊎◌, inl, inr, ◌↔◌, Bool, true, false, Option-cases,
  Bool-cases, none, some, Text, [], ◌∷◌, ◌++◌, In, if◌then◌else◌, is_some, or_else,
}
use open_rtc.Base.JsMap
use open_rtc.Protocol.{Envelope, is_envelope, narrow}
use open_rtc.Protocol.Values.{Js}
use open_rtc.Server.Types.{Room, Participant, StoredSignal, SignalDelivery}
use open_rtc.Server.Errors.{participant_not_found}
use open_rtc.Server.Store
use open_rtc.Server.Store.{InMemoryStore, key}
use open_rtc.Base.Keys.{IsPlain}
use open_rtc.Server.Store.Roster.Lists.{IsRoster, list_participants-In, put_participant-IsRoster}
use open_rtc.Server.Store.SignalLog.{log}
use open_rtc.Server.World.{
  World, ok, M, ◌>>=◌, proceed, query, write, update, return, present, require_room,
}
use open_rtc.Server.World.Runs.{ok-present, ok_inj}
use open_rtc.Server.Relay.{is_join, is_leave, recipients_of, check_sender, relay, handle_signal}
use open_rtc.Server.Relay.Recipients.{
  Addressed, IsNamed, recipients_of-Addressed, Addressed-recipients_of,
}

-- What the check of the sender establishes, and keeps.
record Checked (joins : Bool) (e : Envelope) (s s' : InMemoryStore) : Type 0 where
  sender : joins ≡ false → is_some (Store.get_participant e.room_id e.sender_id s) ≡ true
  roster : IsRoster s → IsRoster s'
  signals : s'.signals ≡ s.signals
  seqs : s'.signal_seqs ≡ s.signal_seqs

get_participant-IsPlain :
    (room_id participant_id : Text) (p : Participant) (s : InMemoryStore)
    → IsRoster s
    → Store.get_participant room_id participant_id s ≡ some p
    → IsPlain p.room_id
unfolding Store.get_participant
get_participant-IsPlain room_id participant_id p s r found =
    (JsMap.get-All _ (key room_id participant_id) p s.participants r.keyed found).1

checked :
    {B : Type 0} (joins leaves : Bool) (e : Envelope) (now : ℕ) (f : Unit {0} → M B) (b : B)
    (w w' : World)
    → proceed f (
        (if joins then return tt else (do
          found ← query (Store.get_participant e.room_id e.sender_id)
          participant ← present found (participant_not_found e.room_id e.sender_id)
          if leaves
              then return tt
              else write (Store.put_participant (record participant { last_seen_at = now }))))
          w)
      ≡ (ok b, w')
    → (v : World) × Checked joins e w.store v.store × (f tt v ≡ (ok b, w'))
unfolding proceed query write return present Store.put_participant
checked true leaves e now f b w w' h =
    (w, record { sender = λ q. absurd (cc q); roster = λ r. r; signals = refl; seqs = refl }, h)
checked {B = B} false leaves e now f b w w' h =
    elim (Option-cases (Store.get_participant e.room_id e.sender_id w.store)) [
      | inl absent ↦ absurd (cc (rw absent at h))
      | inr (p, found) ↦ known leaves p found (rw found at h)
    ]
  where
    known :
        (l : Bool) (p : Participant)
        → Store.get_participant e.room_id e.sender_id w.store ≡ some p
        → proceed f (
            (if l
                then return tt
                else write (Store.put_participant (record p { last_seen_at = now })))
              w)
          ≡ (ok b, w')
        → (v : World) × Checked false e w.store v.store × (f tt v ≡ (ok b, w'))
    known true p found h =
        (w, record { sender = λ q. rw found refl; roster = λ r. r; signals = refl; seqs = refl }, h)
    known false p found h =
        let seen : Participant = record p { last_seen_at = now } in
        (
          record w { store = Store.put_participant seen w.store },
          record {
            sender = λ q. rw found refl;
            roster = λ r.
                put_participant-IsRoster seen w.store
                  (get_participant-IsPlain e.room_id e.sender_id p w.store r found) r;
            signals = refl;
            seqs = refl;
          },
          h,
        )

ok-check_sender :
    {B : Type 0} (e : Envelope) (now : ℕ) (f : Unit {0} → M B) (b : B) (w w' : World)
    → proceed f (check_sender e now w) ≡ (ok b, w')
    → (v : World) × Checked (is_join e.type) e w.store v.store × (f tt v ≡ (ok b, w'))
unfolding check_sender
ok-check_sender e now f b w w' h = checked (is_join e.type) (is_leave e.type) e now f b w w' h

-- A delivered envelope: it passed the checks, it is the last one in the room's log, and it goes to
-- exactly those members of the room for whom it is.
pub record Delivered (value : Js) (s s' : InMemoryStore) (d : SignalDelivery) : Type 0 where
  pub valid : is_envelope value ≡ true
  pub typed : narrow value ≡ some d.envelope
  pub sender :
      is_join d.envelope.type ≡ false
      → is_some (Store.get_participant d.envelope.room_id d.envelope.sender_id s) ≡ true
  pub logged :
      (x : StoredSignal) × (x.envelope ≡ d.envelope)
      × (log d.envelope.room_id s' ≡ log d.envelope.room_id s ++ x ∷ [])
  pub recipients :
      (m : Participant)
      → In m d.recipients ↔ (
          (m.room_id ≡ d.envelope.room_id)
          × (Store.get_participant d.envelope.room_id m.participant_id s' ≡ some m)
          × Addressed d.envelope m)

pub put_signal-log :
    (room_id : Text) (e : Envelope) (now : ℕ) (s : InMemoryStore)
    → (x : StoredSignal) × (x.envelope ≡ e)
      × (log room_id (Store.put_signal room_id e now s).1 ≡ log room_id s ++ x ∷ [])
unfolding Store.put_signal
put_signal-log room_id e now s =
    let x = (Store.put_signal room_id e now s).0 in
    (x, refl, rw (JsMap.get-set_self room_id (log room_id s ++ x ∷ []) s.signals) refl)

list_participants-IsNamed :
    (room_id : Text) (s : InMemoryStore)
    → IsPlain room_id
    → IsRoster s
    → IsNamed (Store.list_participants room_id s)
list_participants-IsNamed room_id s plain r x y i j same =
    let (_, found_x) = (list_participants-In room_id x s plain r).0 i in
    let (_, found_y) = (list_participants-In room_id y s plain r).0 j in
    let found : some x ≡ some y =
      sym found_x ∙ ap (λ z. Store.get_participant room_id z s) same ∙ found_y in
    cc found

put_signal-IsRoster :
    (room_id : Text) (e : Envelope) (now : ℕ) (s : InMemoryStore)
    → IsRoster s
    → IsRoster (Store.put_signal room_id e now s).1
unfolding Store.put_signal
put_signal-IsRoster room_id e now s r = record { unique = r.unique; keyed = r.keyed }

-- A value that is relayed is a valid envelope, of a sender in the room unless it joins; the
-- envelope is the last one in the log of its room, and its recipients are exactly the members of
-- the room for whom it is: all of them, the target, or all but the sender.
pub handle_signal-Delivered :
    (value : Js) (now : ℕ) (w w' : World) (d : SignalDelivery)
    → IsRoster w.store
    → ((e : Envelope) → narrow value ≡ some e → IsPlain e.room_id)
    → handle_signal value now w ≡ (ok d, w')
    → Delivered value w.store w'.store d
unfolding handle_signal relay require_room proceed query write update return Store.put_signal
handle_signal-Delivered value now w w' d roster plain h =
    let (e, typed, h1) = ok-present _ _ _ d w w' h in
    let (valid, narrowed) = checked_value value e typed in
    let (room, found, h2) = ok-present _ _ _ d w w' h1 in
    let (v, c, h3) = ok-check_sender e now _ d w w' h2 in
    let (result, world) = ok_inj _ d _ w' h3 in
    let s' = (Store.put_signal e.room_id e now v.store).1 in
    let r' : IsRoster s' = put_signal-IsRoster e.room_id e now v.store (c.roster roster) in
    let members = Store.list_participants e.room_id s' in
    let (x, same, appended) = put_signal-log e.room_id e now v.store in
    subst (λ (z : SignalDelivery × World). Delivered value w.store z.1.store z.0)
      (λ i. (result i, world i))
      (record {
        valid = valid;
        typed = narrowed;
        sender = c.sender;
        logged =
            (x, same, appended ∙ ap (λ z. or_else (JsMap.get e.room_id z) [] ++ x ∷ []) c.signals);
        recipients = λ m. (
          λ i.
              let (there, addressed) = recipients_of-Addressed e members m i in
              let (room_of, got) =
                (list_participants-In e.room_id m s' (plain e narrowed) r').0 there in
              (room_of, got, addressed),
          λ (room_of, got, addressed).
              Addressed-recipients_of e members m
                (list_participants-IsNamed e.room_id s' (plain e narrowed) r')
                ((list_participants-In e.room_id m s' (plain e narrowed) r').1 (room_of, got))
                addressed,
        );
      })
  where
    checked_value :
        (value : Js) (e : Envelope)
        → (if is_envelope value then narrow value else none) ≡ some e
        → (is_envelope value ≡ true) × (narrow value ≡ some e)
    checked_value value e h = elim (Bool-cases (is_envelope value)) [
      | inl valid ↦ (valid, rw valid at h)
      | inr invalid ↦ absurd (cc (rw invalid at h))
    ]

check_sender_passes :
    (e : Envelope) (now : ℕ) (w : World)
    → ((is_join e.type ≡ true)
        ⊎ ((p : Participant) × (Store.get_participant e.room_id e.sender_id w.store ≡ some p)))
    → (v : World) × (check_sender e now w ≡ (ok tt, v))
unfolding check_sender proceed query write return present
check_sender_passes e now w (inl joins) = (w, rw joins refl)
check_sender_passes e now w (inr (p, member)) = elim (Bool-cases (is_join e.type)) [
  | inl joins ↦ (w, rw joins refl)
  | inr stays ↦ elim (Bool-cases (is_leave e.type)) [
    | inl leaves ↦ (w, rw (stays, member, leaves) refl)
    | inr other ↦ (
      record w { store = Store.put_participant (record p { last_seen_at = now }) w.store },
      rw (stays, member, other) refl,
    )
  ]
]

-- A valid envelope for a room that exists, from a member of the room or to join it, is delivered.
pub handle_signal-delivers :
    (value : Js) (now : ℕ) (w : World) (e : Envelope) (room : Room)
    → is_envelope value ≡ true
    → narrow value ≡ some e
    → Store.get_room e.room_id w.store ≡ some room
    → ((is_join e.type ≡ true)
        ⊎ ((p : Participant) × (Store.get_participant e.room_id e.sender_id w.store ≡ some p)))
    → (d : SignalDelivery) × (w' : World) × (handle_signal value now w ≡ (ok d, w'))
unfolding handle_signal relay require_room proceed query write update return present
    Store.put_signal
handle_signal-delivers value now w e room valid typed found allowed =
    let (v, passed) = check_sender_passes e now w allowed in
    let s' = (Store.put_signal e.room_id e now v.store).1 in
    (
      record { envelope = e; recipients = recipients_of e (Store.list_participants e.room_id s') },
      record v { store = s' },
      rw (valid, typed, found, passed) refl,
    )
