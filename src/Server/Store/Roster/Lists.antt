-- ===== src/Server/Store/Roster/Lists.antt =====
-- What `putParticipant` and `deleteParticipant` keep, and what `listParticipants` returns.
use open_rtc.Base.{
  nat_eq, text_eq, ◌+◌, ◌≤◌, ◌≡◌, refl, sym, ap, subst, ◌∙◌, inl, inr, ◌↔◌, Bool, true, false,
  Bool-cases, some, List, [], ◌∷◌, Text, All, All-map, In, arith, length, select, is_some,
  if◌then◌else◌,
}
use open_rtc.Base.JsMap
use open_rtc.Base.JsMap.{JsMap}
use open_rtc.Base.JsMap.Members.{
  All-In, In-select, select-In, In-map, map-In, length-map, In-get, get-In, length-select-set,
}
use open_rtc.Server.Types.{Participant}
use open_rtc.Server.Store.{
  InMemoryStore, key, starts_with, get_participant, put_participant, delete_participant,
  joined_before, insert_participant, sort_participants, list_participants,
}
use open_rtc.Server.Store.Roster.{length-sort, In-sort, starts_with_same, starts_with_plain}
use open_rtc.Base.Keys.{IsPlain}

-- Each participant once, under its own key, in a room whose id has no separator.
pub record IsRoster (s : InMemoryStore) : Type 0 where
  pub unique : JsMap.Unique s.participants
  pub keyed :
      All (λ e. (e.0 ≡ key e.1.room_id e.1.participant_id) × IsPlain e.1.room_id) s.participants

pub put_participant-IsRoster :
    (p : Participant) (s : InMemoryStore)
    → IsPlain p.room_id
    → IsRoster s
    → IsRoster (put_participant p s)
unfolding put_participant
put_participant-IsRoster p s plain r = record {
  unique = JsMap.Unique-set (key p.room_id p.participant_id) p s.participants r.unique;
  keyed = JsMap.All-set _ (key p.room_id p.participant_id) p s.participants (refl, plain) r.keyed;
}

pub delete_participant-IsRoster :
    (room_id participant_id : Text) (s : InMemoryStore)
    → IsRoster s
    → IsRoster (delete_participant room_id participant_id s)
unfolding delete_participant
delete_participant-IsRoster room_id participant_id s r = record {
  unique = JsMap.Unique-delete (key room_id participant_id) s.participants r.unique;
  keyed = JsMap.All-delete _ (key room_id participant_id) s.participants r.keyed;
}

-- The roster of a room has exactly the participants that a lookup in the room finds.
pub list_participants-In :
    (room_id : Text) (p : Participant) (s : InMemoryStore)
    → IsPlain room_id
    → IsRoster s
    → In p (list_participants room_id s)
      ↔ ((p.room_id ≡ room_id) × (get_participant room_id p.participant_id s ≡ some p))
unfolding list_participants get_participant
list_participants-In room_id p s plain r =
    let test : Text × Participant → Bool = λ e. starts_with e.0 (key room_id []) in
    let (out, into) = In-sort s.collate p (JsMap.values (select test s.participants)) in
    (
      λ i.
          let (e, there, same) =
            In-map (λ (e : Text × Participant). e.1) p (select test s.participants) (out i) in
          let (member, starts) = In-select test e s.participants there in
          let (own, its) = All-In _ e s.participants r.keyed member in
          let q =
            starts_with_plain e.1.room_id room_id e.1.participant_id its plain
              (subst (λ z. starts_with z (key room_id []) ≡ true) own starts) in
          let found : JsMap.get (key room_id e.1.participant_id) s.participants ≡ some e.1 =
            subst (λ z. JsMap.get z s.participants ≡ some e.1)
              (own ∙ ap (λ z. key z e.1.participant_id) q)
              (In-get e.0 e.1 s.participants r.unique member) in
          subst
            (λ (z : Participant).
              (z.room_id ≡ room_id) × (get_participant room_id z.participant_id s ≡ some z))
            (sym same) (q, found),
      λ h. into (
          map-In (λ (e : Text × Participant). e.1) (key room_id p.participant_id, p)
            (select test s.participants)
            (select-In test (key room_id p.participant_id, p) s.participants
              (get-In (key room_id p.participant_id) p s.participants h.1)
              (starts_with_same room_id p.participant_id))),
    )

length-list_participants :
    (room_id : Text) (s : InMemoryStore)
    → length (list_participants room_id s)
      ≡ length (select (λ e. starts_with e.0 (key room_id [])) s.participants)
unfolding list_participants
length-list_participants room_id s =
    let kept =
      select (λ (e : Text × Participant). starts_with e.0 (key room_id [])) s.participants in
    length-sort s.collate (JsMap.values kept) ∙ length-map (λ (e : Text × Participant). e.1) kept

-- A participant is added to the roster of its room exactly when it is new there.
pub length-list_participants_put :
    (p : Participant) (s : InMemoryStore)
    → length (list_participants p.room_id (put_participant p s)) ≡ (
        if is_some (get_participant p.room_id p.participant_id s)
        then length (list_participants p.room_id s)
        else length (list_participants p.room_id s) + 1)
unfolding put_participant get_participant
length-list_participants_put p s =
    let k = key p.room_id p.participant_id in
    let test : Text → Bool = λ j. starts_with j (key p.room_id []) in
    let starts : test k ≡ true = starts_with_same p.room_id p.participant_id in
    let entries = length-select-set test k p s.participants in
    ground (
      arith,
      entries,
      starts,
      length-list_participants p.room_id (put_participant p s),
      length-list_participants p.room_id s,
    )

-- The roster is in the order of joining.
abbrev pub Ordered : List Participant → Type 0
Ordered [] = Unit
Ordered (p ∷ ps) = All (λ q. p.joined_at ≤ q.joined_at) ps × Ordered ps

All-insert :
    (c : Text → Text → Bool) (Q : Participant → Type 0) (p : Participant) (ps : List Participant)
    → Q p
    → All Q ps
    → All Q (insert_participant c p ps)
unfolding insert_participant
All-insert c Q p [] h a = (h, tt)
All-insert c Q p (q ∷ qs) h a = elim (Bool-cases (joined_before c p q)) [
  | inl before ↦ rw before (h, a)
  | inr after ↦ rw after (a.0, All-insert c Q p qs h a.1)
]

before_le :
    (c : Text → Text → Bool) (p q : Participant)
    → joined_before c p q ≡ true
    → p.joined_at ≤ q.joined_at
unfolding joined_before
before_le c p q h = ground arith

after_le :
    (c : Text → Text → Bool) (p q : Participant)
    → joined_before c p q ≡ false
    → q.joined_at ≤ p.joined_at
unfolding joined_before
after_le c p q h = ground arith

insert-Ordered :
    (c : Text → Text → Bool) (p : Participant) (ps : List Participant)
    → Ordered ps
    → Ordered (insert_participant c p ps)
unfolding insert_participant
insert-Ordered c p [] o = (tt, tt)
insert-Ordered c p (q ∷ qs) o = elim (Bool-cases (joined_before c p q)) [
  | inl before ↦
      let le : p.joined_at ≤ q.joined_at = before_le c p q before in
      rw before ((le, All-map _ _ qs (λ r h. omega arith) o.0), o)
  | inr after ↦ rw after (All-insert c _ p qs (after_le c p q after) o.0, insert-Ordered c p qs o.1)
]

sort-Ordered : (c : Text → Text → Bool) (ps : List Participant) → Ordered (sort_participants c ps)
unfolding sort_participants
sort-Ordered c [] = tt
sort-Ordered c (p ∷ ps) = insert-Ordered c p (sort_participants c ps) (sort-Ordered c ps)

pub list_participants-Ordered :
    (room_id : Text) (s : InMemoryStore) → Ordered (list_participants room_id s)
unfolding list_participants
list_participants-Ordered room_id s =
    sort-Ordered s.collate
      (JsMap.values (select (λ e. starts_with e.0 (key room_id [])) s.participants))
