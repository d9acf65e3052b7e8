-- ===== src/Server/Sockets/Members.antt =====
-- The sets of sockets and the registrations, behind RoomHub.attach and RoomHub.detach
-- (packages/server/src/ws.ts).
use open_rtc.Base.{
  ℕ, ◌≡◌, refl, ap, subst, true, false, not, ◌&&◌, ◌||◌, ◌++◌, Bool-cases, Option-cases, inl, inr,
  Option, none, some, List, [], ◌∷◌, Text, text_eq, nat_eq, nat_beq, nat_beq_iff, text_beq,
  text_beq_iff, text_beq_self, if◌then◌else◌, or_else, arith,
}
use open_rtc.Base.JsMap
use open_rtc.Base.JsMap.{JsMap}
use open_rtc.Base.JsSet
use open_rtc.Server.Auth.{is_empty}
use open_rtc.Server.Sockets.{SocketMeta, RoomHub, attach, detach, is_nil, meta_for}
use open_rtc.Server.Sockets.Handling.{entered}

-- The set of a room.
abbrev pub members_of : Text → RoomHub → List ℕ
members_of room hub = or_else (JsMap.get room hub.rooms) []

has-append : (i j : ℕ) (xs : List ℕ) → JsSet.has i (xs ++ j ∷ []) ≡ (nat_beq j i || JsSet.has i xs)
unfolding JsSet.has
has-append i j [] = refl
has-append i j (x ∷ xs) = ground (arith, has-append i j xs)

has-add : (i j : ℕ) (xs : List ℕ) → JsSet.has i (JsSet.add j xs) ≡ (nat_beq j i || JsSet.has i xs)
unfolding JsSet.add
has-add i j xs = elim (Bool-cases (JsSet.has j xs)) [
  | inr new ↦ rw (JsSet.add, new) (has-append i j xs)
  | inl old ↦ elim (Bool-cases (nat_beq j i)) [
    | inr other ↦ rw (JsSet.add, old, other) refl
    | inl same ↦
        let here = subst (λ x. JsSet.has x xs ≡ true) ((nat_beq_iff j i).0 same) old in
        rw (JsSet.add, old, same) here
  ]
]

has-delete :
    (i j : ℕ) (xs : List ℕ)
    → JsSet.has i (JsSet.delete j xs) ≡ (not (nat_beq j i) && JsSet.has i xs)
unfolding JsSet.delete JsSet.has
has-delete i j [] = ground arith
has-delete i j (x ∷ xs) =
    ground (arith, has-delete i j xs, nat_beq_iff x j, nat_beq_iff x i, nat_beq_iff j i)

delete_nothing : (j : ℕ) → JsSet.delete j [] ≡ []
unfolding JsSet.delete
delete_nothing j = refl

nothing_left : (xs : List ℕ) → is_nil xs ≡ true → xs ≡ []
nothing_left [] h = refl
nothing_left (x ∷ xs) h = absurd (cc h)

module _ (room : Text) (j : ℕ) (hub : RoomHub) where
  members_of-attach :
      (there sender session : Text)
      → members_of there (attach room j sender session hub)
        ≡ (if text_beq room there then JsSet.add j (members_of there hub) else members_of there hub)
  unfolding attach
  members_of-attach there sender session = ground (
    arith,
    JsMap.get-set room there (JsSet.add j (members_of room hub)) hub.rooms,
    text_beq_iff room there,
  )

  detach_self : members_of room (detach room j hub) ≡ JsSet.delete j (members_of room hub)
  unfolding detach
  detach_self = elim (Option-cases (JsMap.get room hub.rooms)) [
    | inl nothing ↦ ground (arith, nothing, delete_nothing j)
    | inr (set, held) ↦ ground (
      arith,
      held,
      text_beq_self room,
      nothing_left (JsSet.delete j set),
      JsMap.get-set room room (JsSet.delete j set) hub.rooms,
      JsMap.get-delete room room hub.rooms,
    )
  ]

  detach_other :
      (there : Text)
      → text_beq room there ≡ false
      → members_of there (detach room j hub) ≡ members_of there hub
  unfolding detach
  detach_other there other = elim (Option-cases (JsMap.get room hub.rooms)) [
    | inl nothing ↦ rw (detach, nothing) refl
    | inr (set, held) ↦ ground (
      arith,
      held,
      other,
      JsMap.get-set room there (JsSet.delete j set) hub.rooms,
      JsMap.get-delete room there hub.rooms,
    )
  ]

pub some_inj : {x y : SocketMeta} → ◌≡◌ {A = Option SocketMeta} (some x) (some y) → x ≡ y
some_inj h = cc h

pub entered-none :
    (o : Option SocketMeta) (m : SocketMeta)
    → entered o ≡ none
    → o ≡ some m
    → is_empty m.room_id ≡ true
entered-none none m h q = absurd (cc q)
entered-none (some x) m h q = ground (arith, ap (λ (o : Option SocketMeta). entered o) q)

pub entered-some :
    (o : Option SocketMeta) (m : SocketMeta)
    → entered o ≡ some m
    → (o ≡ some m) × (is_empty m.room_id ≡ false)
entered-some none m h = absurd (cc h)
entered-some (some x) m h = elim (Bool-cases (is_empty x.room_id)) [
  | inl nameless ↦ absurd (ground (arith, nameless, h))
  | inr named ↦
      let is : x ≡ m = ground (arith, named, h) in
      (ap some is, subst (λ (y : SocketMeta). is_empty y.room_id ≡ false) is named)
]

module _ (room : Text) (j : ℕ) (hub : RoomHub) where
  pub has-attach :
      (sender session there : Text) (i : ℕ)
      → JsSet.has i (members_of there (attach room j sender session hub))
        ≡ ((text_beq room there && nat_beq j i) || JsSet.has i (members_of there hub))
  has-attach sender session there i = elim (Bool-cases (text_beq room there)) [
    | inl same ↦ ground (
      arith,
      same,
      members_of-attach room j hub there sender session,
      has-add i j (members_of there hub),
    )
    | inr other ↦ ground (arith, other, members_of-attach room j hub there sender session)
  ]

  pub has-detach :
      (there : Text) (i : ℕ)
      → JsSet.has i (members_of there (detach room j hub))
        ≡ (not (text_beq room there && nat_beq j i) && JsSet.has i (members_of there hub))
  has-detach there i = elim (Bool-cases (text_beq room there)) [
    | inl same ↦
        subst
          (λ (x : Text).
            JsSet.has i (members_of x (detach room j hub))
            ≡ (not (text_beq room x && nat_beq j i) && JsSet.has i (members_of x hub)))
          ((text_beq_iff room there).0 same)
          (ground (
            arith,
            text_beq_self room,
            detach_self room j hub,
            has-delete i j (members_of room hub),
          ))
    | inr other ↦ ground (arith, other, detach_other room j hub there other)
  ]

  pub meta_for-attach :
      (sender session : Text) (i : ℕ)
      → meta_for i (attach room j sender session hub) ≡ (
          if nat_beq j i
          then some (record { room_id = room; sender_id = sender; session_id = session })
          else meta_for i hub)
  unfolding attach
  meta_for-attach sender session i = JsMap.get-set j i _ hub.metas

  pub meta_for-detach :
      (i : ℕ) → meta_for i (detach room j hub) ≡ (if nat_beq j i then none else meta_for i hub)
  unfolding detach
  meta_for-detach i = JsMap.get-delete j i hub.metas
