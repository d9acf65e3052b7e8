-- ===== src/Server/Store/Roster.antt =====
-- The participants of a room: `listParticipants` against the map of all participants.
pub mod Lists
use open_rtc.Base.{
  nat_eq, text_eq, ◌==◌, eq_iff, ℕ, ◌+◌, ◌≤◌, ◌<◌, ◌≡◌, ◌≢◌, refl, sym, ap, subst, ◌∙◌, ◌⊎◌, inl,
  inr, ◌↔◌, Bool, true, false, Bool-cases, Option-cases, ◌++◌, Option, none, some, List, [], ◌∷◌,
  Text, All, In, arith, length, select, nat_beq, nat_beq_iff, map, is_some, if◌then◌else◌, ltb,
  tests,
}
use open_rtc.Base.Keys.{IsPlain}
use open_rtc.Base.JsMap
use open_rtc.Base.JsMap.{JsMap}
use open_rtc.Base.JsMap.Members.{
  All-In, In-select, select-In, In-map, map-In, length-map, In-get, get-In, length-select-set,
}
use open_rtc.Server.Types.{Participant}
use open_rtc.Server.Store.{
  InMemoryStore, key, starts_with, get_participant, put_participant, delete_participant,
  joined_before, insert_participant, sort_participants, list_participants,
}

pub length-insert :
    (c : Text → Text → Bool) (p : Participant) (ps : List Participant)
    → length (insert_participant c p ps) ≡ length ps + 1
unfolding insert_participant
length-insert c p [] = refl
length-insert c p (q ∷ qs) = ground (arith, length-insert c p qs)

pub length-sort :
    (c : Text → Text → Bool) (ps : List Participant) → length (sort_participants c ps) ≡ length ps
unfolding sort_participants
length-sort c [] = refl
length-sort c (p ∷ ps) =
    ground (arith, length-insert c p (sort_participants c ps), length-sort c ps)

-- Sorting keeps the members.
pub In-insert :
    (c : Text → Text → Bool) (x p : Participant) (ps : List Participant)
    → In x (insert_participant c p ps) ↔ ((x ≡ p) ⊎ In x ps)
unfolding insert_participant
In-insert c x p [] = (λ i. i, λ i. i)
In-insert c x p (q ∷ qs) = elim (Bool-cases (joined_before c p q)) [
  | inl before ↦ rw before (λ i. i, λ i. i)
  | inr after ↦
      let (out, into) = In-insert c x p qs in
      rw after (
        λ i. elim i [
          | inl e ↦ inr (inl e)
          | inr j ↦ elim (out j) [ inl e ↦ inl e | inr k ↦ inr (inr k) ]
        ],
        λ i. elim i [
          | inl e ↦ inr (into (inl e))
          | inr j ↦ elim j [ inl e ↦ inl e | inr k ↦ inr (into (inr k)) ]
        ],
      )
]

pub In-sort :
    (c : Text → Text → Bool) (x : Participant) (ps : List Participant)
    → In x (sort_participants c ps) ↔ In x ps
unfolding sort_participants
In-sort c x [] = (λ i. i, λ i. i)
In-sort c x (p ∷ ps) =
    let (out, into) = In-sort c x ps in
    let (from, to) = In-insert c x p (sort_participants c ps) in
    (
      λ i. elim (from i) [ inl e ↦ inl e | inr j ↦ inr (out j) ],
      λ i. elim i [ inl e ↦ to (inl e) | inr j ↦ to (inr (into j)) ],
    )

pub starts_with_same : (r p : Text) → starts_with (key r p) (key r []) ≡ true
unfolding starts_with key
starts_with_same [] p = refl
starts_with_same (c ∷ r) p = ground (arith, starts_with_same r p)

pub starts_with_plain :
    (r q p : Text) → IsPlain r → IsPlain q → starts_with (key r p) (key q []) ≡ true → r ≡ q
unfolding starts_with key
starts_with_plain [] [] p a b h = refl
starts_with_plain [] (d ∷ q) p a b h = absurd (b.0 (ground arith))
starts_with_plain (c ∷ r) [] p a b h = absurd (a.0 (ground arith))
starts_with_plain (c ∷ r) (d ∷ q) p a b h =
    let head : c ≡ d = ground arith in
    let tail : starts_with (key r p) (key q []) ≡ true = ground arith in
    λ i. head i ∷ starts_with_plain r q p a.1 b.1 tail i
