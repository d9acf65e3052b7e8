-- ===== src/Server/Relay/Recipients.antt =====
-- packages/server/src/core.ts, `handleSignal`: to whom an envelope goes.
use open_rtc.Base.{
  text_eq, ◌==◌, eq_iff, ◌≡◌, ◌≢◌, refl, sym, ap, subst, ◌∙◌, inl, inr, Bool, true, false, not,
  Bool-cases, List, Text, [], ◌∷◌, In, if◌then◌else◌, arith, select,
}
use open_rtc.Base.JsMap.Members.{In-select, select-In}
use open_rtc.Protocol.{Envelope}
use open_rtc.Protocol.Values.{Js, str, undefined, null, bool, num, arr, obj, is_text, truthy}
use open_rtc.Server.Types.{Participant}
use open_rtc.Server.Relay.{is_announcement, find_member, recipients_of}

find_member-In :
    (target : Js) (m : Participant) (ms : List Participant)
    → In m (find_member target ms)
    → In m ms × (is_text m.participant_id target ≡ true)
unfolding find_member
find_member-In target m [] i = absurd i
find_member-In target m (x ∷ ms) i =
    cases (is_text x.participant_id target) refl i (find_member-In target m ms)
  where
    cases :
        (b : Bool)
        → is_text x.participant_id target ≡ b
        → In m (if b then x ∷ [] else find_member target ms)
        → (In m (find_member target ms) → In m ms × (is_text m.participant_id target ≡ true))
        → In m (x ∷ ms) × (is_text m.participant_id target ≡ true)
    cases true hit (inl q) rest = (inl q, ap (λ z. is_text z.participant_id target) q ∙ hit)
    cases true hit (inr none_left) rest = absurd none_left
    cases false miss j rest = let (k, t) = rest j in (inr k, t)

-- Whom an envelope is for, by its type and its target.
abbrev pub Addressed : Envelope → Participant → Type 0
Addressed e m =
    if is_announcement e.type
    then Unit
    else if truthy e.target_sender_id
    then (is_text m.participant_id e.target_sender_id ≡ true)
    else (m.participant_id ≢ e.sender_id)

-- The first match of a target that a member has.
find_member-first :
    (target : Js) (m : Participant) (ms : List Participant)
    → In m ms
    → is_text m.participant_id target ≡ true
    → (x : Participant) × In x (find_member target ms)
unfolding find_member
find_member-first target m [] i hit = absurd i
find_member-first target m (x ∷ ms) i hit = elim (Bool-cases (is_text x.participant_id target)) [
  | inl here ↦ rw here (x, inl refl)
  | inr miss ↦ elim i [
    | inl q ↦
        let wrong : is_text x.participant_id target ≡ true =
          sym (ap (λ (z : Participant). is_text z.participant_id target) q) ∙ hit in
        absurd (ground (arith, wrong, miss))
    | inr j ↦ rw miss (find_member-first target m ms j hit)
  ]
]

chosen_member :
    (everyone one : Bool) (e : Envelope) (members : List Participant) (m : Participant)
    → In m (
        if everyone
        then members
        else if one
        then find_member e.target_sender_id members
        else select (λ x. not (x.participant_id == e.sender_id)) members)
    → In m members
      × (if everyone
          then Unit
          else if one
          then (is_text m.participant_id e.target_sender_id ≡ true)
          else (m.participant_id ≢ e.sender_id))
chosen_member true one e members m i = (i, tt)
chosen_member false true e members m i = find_member-In e.target_sender_id m members i
chosen_member false false e members m i =
    let (there, other) = In-select (λ x. not (x.participant_id == e.sender_id)) m members i in
    (
      there,
      λ q.
          let hit : (m.participant_id == e.sender_id) ≡ true =
            (eq_iff m.participant_id e.sender_id).1 q in
          ground (arith, hit, other),
    )

-- Every recipient is a member for whom the envelope is.
pub recipients_of-Addressed :
    (e : Envelope) (members : List Participant) (m : Participant)
    → In m (recipients_of e members)
    → In m members × Addressed e m
unfolding recipients_of
recipients_of-Addressed e members m i =
    chosen_member (is_announcement e.type) (truthy e.target_sender_id) e members m i

-- Members with the same id are the same.
abbrev pub IsNamed : List Participant → Type 0
IsNamed ms = (x y : Participant) → In x ms → In y ms → x.participant_id ≡ y.participant_id → x ≡ y

is_text_same :
    (a b : Text) (target : Js) → is_text a target ≡ true → is_text b target ≡ true → a ≡ b
is_text_same a b (str t) p q = (eq_iff a t).0 p ∙ sym ((eq_iff b t).0 q)
is_text_same a b undefined p q = absurd (cc p)
is_text_same a b null p q = absurd (cc p)
is_text_same a b (bool _) p q = absurd (cc p)
is_text_same a b (num _) p q = absurd (cc p)
is_text_same a b (arr _) p q = absurd (cc p)
is_text_same a b (obj _) p q = absurd (cc p)

member_chosen :
    (everyone one : Bool) (e : Envelope) (members : List Participant) (m : Participant)
    → IsNamed members
    → In m members
    → (if everyone
        then Unit
        else if one
        then (is_text m.participant_id e.target_sender_id ≡ true)
        else (m.participant_id ≢ e.sender_id))
    → In m (
        if everyone
        then members
        else if one
        then find_member e.target_sender_id members
        else select (λ x. not (x.participant_id == e.sender_id)) members)
member_chosen true one e members m named i a = i
member_chosen false true e members m named i a =
    let (x, first) = find_member-first e.target_sender_id m members i a in
    let (there, hit) = find_member-In e.target_sender_id x members first in
    let same =
      named x m there i (is_text_same x.participant_id m.participant_id e.target_sender_id hit a) in
    subst (λ z. In z (find_member e.target_sender_id members)) same first
member_chosen false false e members m named i a =
    select-In (λ x. not (x.participant_id == e.sender_id)) m members i
      (elim (Bool-cases (m.participant_id == e.sender_id)) [
        | inl same ↦ absurd (a ((eq_iff m.participant_id e.sender_id).0 same))
        | inr ne ↦ rw ne refl
      ])

-- Every member for whom the envelope is receives it.
pub Addressed-recipients_of :
    (e : Envelope) (members : List Participant) (m : Participant)
    → IsNamed members
    → In m members
    → Addressed e m
    → In m (recipients_of e members)
unfolding recipients_of
Addressed-recipients_of e members m named i a =
    member_chosen (is_announcement e.type) (truthy e.target_sender_id) e members m named i a
