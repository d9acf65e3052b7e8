-- ===== src/Server/Sockets/Registry.antt =====
-- The two maps of RoomHub (packages/server/src/ws.ts) agree.
use open_rtc.Base.{
  ℕ, ◌≡◌, sym, ap, ◌∙◌, true, false, Bool-cases, inl, inr, none, some, Text, text_eq, nat_eq,
  nat_beq, nat_beq_iff, text_beq, text_beq_iff, arith,
}
use open_rtc.Base.JsSet
use open_rtc.Server.Auth.{is_empty}
use open_rtc.Server.Sockets.{SocketMeta, RoomHub, attach, detach, meta_for, Services, Gateway}
use open_rtc.Server.Sockets.Handling.{entered, handle_message, on_close}
use open_rtc.Server.Sockets.Changes.{
  Change, kept, attached, detached, handle_message-Change, on_close-Change,
}
use open_rtc.Server.Sockets.Members.{
  members_of, some_inj, entered-none, entered-some, has-attach, has-detach, meta_for-attach,
  meta_for-detach,
}

-- A socket is in the set of a room if and only if it is registered for the room; the room without
-- a name is left out.
pub record IsRegistry (hub : RoomHub) : Type 0 where
  pub registered :
      (room : Text) (i : ℕ)
      → is_empty room ≡ false
      → JsSet.has i (members_of room hub) ≡ true
      → (m : SocketMeta) × (meta_for i hub ≡ some m) × (m.room_id ≡ room)
  pub listed :
      (i : ℕ) (m : SocketMeta)
      → meta_for i hub ≡ some m
      → JsSet.has i (members_of m.room_id hub) ≡ true

attach-IsRegistry :
    (room : Text) (j : ℕ) (sender session : Text) (hub : RoomHub)
    → entered (meta_for j hub) ≡ none
    → IsRegistry hub
    → IsRegistry (attach room j sender session hub)
attach-IsRegistry room j sender session hub outside h =
    let entry : SocketMeta = record { room_id = room; sender_id = sender; session_id = session } in
    record {
      registered = λ there i named inside.
          let or_old = sym (has-attach room j hub sender session there i) ∙ inside in
          let now_meta = meta_for-attach room j hub sender session i in
          elim (Bool-cases (nat_beq j i)) [
            | inr other ↦
                let old : JsSet.has i (members_of there hub) ≡ true =
                  ground (arith, other, or_old) in
                let (m, at, is) = h.registered there i named old in
                (m, now_meta ∙ ground (arith, other, at), is)
            | inl same ↦ elim (Bool-cases (text_beq room there)) [
              | inl here ↦
                  (entry, now_meta ∙ ground (arith, same), (text_beq_iff room there).0 here)
              | inr elsewhere ↦
                  let old : JsSet.has i (members_of there hub) ≡ true =
                    ground (arith, elsewhere, or_old) in
                  let (m, at, is) = h.registered there i named old in
                  let mine = ap (λ x. meta_for x hub) ((nat_beq_iff j i).0 same) ∙ at in
                  let nameless = entered-none (meta_for j hub) m outside mine in
                  absurd (ground (arith, named, sym (ap is_empty is) ∙ nameless))
            ]
          ];
      listed = λ i m at.
          let now_meta = sym (meta_for-attach room j hub sender session i) ∙ at in
          has-attach room j hub sender session m.room_id i ∙ (elim (Bool-cases (nat_beq j i)) [
            | inl same ↦
                let is : entry ≡ m = ground (arith, same, now_meta) in
                let rooms : room ≡ m.room_id = ap (λ (x : SocketMeta). x.room_id) is in
                ground (arith, same, text_beq_iff room m.room_id, rooms)
            | inr other ↦
                let old = h.listed i m (ground (arith, other, now_meta)) in
                ground (arith, other, old)
          ]);
    }

detach-IsRegistry :
    (m : SocketMeta) (j : ℕ) (hub : RoomHub)
    → entered (meta_for j hub) ≡ some m
    → IsRegistry hub
    → IsRegistry (detach m.room_id j hub)
detach-IsRegistry m j hub inside h =
    let (mine, known) = entered-some (meta_for j hub) m inside in
    record {
      registered = λ there i named within.
          let still = sym (has-detach m.room_id j hub there i) ∙ within in
          let old : JsSet.has i (members_of there hub) ≡ true = ground (arith, still) in
          let (n, at, is) = h.registered there i named old in
          elim (Bool-cases (nat_beq j i)) [
            | inr other ↦ (n, meta_for-detach m.room_id j hub i ∙ ground (arith, other, at), is)
            | inl same ↦
                let ours = sym mine ∙ ap (λ x. meta_for x hub) ((nat_beq_iff j i).0 same) ∙ at in
                let rooms : m.room_id ≡ there =
                  ap (λ (x : SocketMeta). x.room_id) (some_inj ours) ∙ is in
                absurd (ground (arith, same, still, text_beq_iff m.room_id there, rooms))
          ];
      listed = λ i n at.
          let now_meta = sym (meta_for-detach m.room_id j hub i) ∙ at in
          let other : nat_beq j i ≡ false = ground (arith, now_meta) in
          let old = h.listed i n (ground (arith, other, now_meta)) in
          has-detach m.room_id j hub n.room_id i ∙ ground (arith, other, old);
    }

Change-IsRegistry :
    (s : Services) (now j : ℕ) (g : Gateway) (hub : RoomHub)
    → Change s now j g hub
    → IsRegistry g.hub
    → IsRegistry hub
Change-IsRegistry s now j g _ kept h = h
Change-IsRegistry s now j g _ (attached e outside let_in) h =
    attach-IsRegistry e.room_id j e.sender_id e.session_id g.hub outside h
Change-IsRegistry s now j g _ (detached m inside) h = detach-IsRegistry m j g.hub inside h

-- A message of a socket, whatever it says, and its close keep the two maps of the hub in agreement: a
-- socket is in the set of a room that has a name just when it is registered for it.
pub handlers-IsRegistry :
    (s : Services) (now j : ℕ) (raw : Text) (g : Gateway)
    → IsRegistry g.hub
    → IsRegistry (handle_message s now j raw g).hub × IsRegistry (on_close now j g).hub
handlers-IsRegistry s now j raw g h = (
  Change-IsRegistry s now j g _ (handle_message-Change s now j g raw) h,
  Change-IsRegistry s now j g _ (on_close-Change s now j g) h,
)
