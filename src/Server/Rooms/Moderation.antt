-- ===== src/Server/Rooms/Moderation.antt =====
-- The action `ban` of `moderateRoom`: the ban that it records, and the roster.
use open_rtc.Base.{
  text_eq, eq_self, ℕ, zero, suc, ◌+◌, ◌≡◌, refl, ap, ◌∙◌, Bool, true, not, Option-cases, inl, inr,
  Option, none, some, Text, or_else, is_some, [], ◌∷◌, if◌then◌else◌, arith, ltb,
}
use open_rtc.Base.JsMap
use open_rtc.Server.Types.{Room, BanEntry}
use open_rtc.Server.Store
use open_rtc.Server.Store.{InMemoryStore, has_expired, key}
use open_rtc.Server.World.{
  World, ok, proceed, query, write, change, return, throw_if, present, require_room,
}
use open_rtc.Server.Waiting.{is_banned}
use open_rtc.Server.Waiting.Bans.{ban_of, is_banned-ban_of}
use open_rtc.Server.Rooms.{ban, Moderated, moderate, moderate_room, add_ban, ban_expiry}

-- Whether a ban of time `t` still holds `now`: without a time to live, or with 0, it does for ever.
abbrev pub holds : ℕ → Option ℕ → ℕ → Bool
holds t none now = true
holds t (some zero) now = true
holds t (some (suc d)) now = ltb now (t + suc d)

ban_expiry-holds :
    (t : ℕ) (ttl : Option ℕ) (now : ℕ) (id : Text)
    → not (
        has_expired now
          (record { participant_id = id; banned_at = t; expires_at = ban_expiry t ttl }))
      ≡ holds t ttl now
unfolding has_expired
ban_expiry-holds t none now id = refl
ban_expiry-holds t (some zero) now id = refl
ban_expiry-holds t (some (suc d)) now id = ground arith

add_ban-ban_of :
    (room_id : Text) (e : BanEntry) (w : World)
    → ban_of room_id e.participant_id (add_ban room_id e w) ≡ some e
unfolding add_ban
add_ban-ban_of room_id e w =
    let m = or_else (JsMap.get room_id w.ban_store) [] in
    rw (JsMap.get-set_self room_id (JsMap.set e.participant_id e m) w.ban_store)
      (JsMap.get-set_self e.participant_id e m)

-- The store behind a ban.
abbrev banned_store : Text → Text → Room → ℕ → InMemoryStore → InMemoryStore
banned_store room_id target room t s =
    Store.put_room (record room { updated_at = t })
      ((if is_some (Store.get_participant room_id target s)
          then Store.delete_participant room_id target
          else λ s. s)
        s)

banned_store-gone :
    (room_id target : Text) (room : Room) (t : ℕ) (s : InMemoryStore)
    → Store.get_participant room_id target (banned_store room_id target room t s) ≡ none
unfolding Store.get_participant Store.put_room Store.delete_participant
banned_store-gone room_id target room t s =
    elim (Option-cases (JsMap.get (key room_id target) s.participants)) [
      | inl absent ↦ rw absent absent
      | inr (p, found) ↦ rw found (
          JsMap.get-delete (key room_id target) (key room_id target) s.participants
          ∙ rw (eq_self (key room_id target)) refl)
    ]

banned_store-room :
    (room_id target : Text) (room : Room) (t : ℕ) (s : InMemoryStore)
    → Store.get_room room.room_id (banned_store room_id target room t s)
      ≡ some (record room { updated_at = t })
unfolding Store.get_room Store.put_room
banned_store-room room_id target room t s =
    let at : Room = record room { updated_at = t } in
    let s' =
      (if is_some (Store.get_participant room_id target s)
          then Store.delete_participant room_id target
          else λ s. s)
        s in
    JsMap.get-set_self room.room_id at s'.rooms

is_banned-holds :
    (room_id id : Text) (t : ℕ) (ttl : Option ℕ) (now : ℕ) (w w' : World)
    → w'.ban_store
      ≡ (add_ban room_id
          (record { participant_id = id; banned_at = t; expires_at = ban_expiry t ttl })
          w).ban_store
    → (is_banned room_id id now w').0 ≡ holds t ttl now
is_banned-holds room_id id t ttl now w w' same =
    let e : BanEntry = record {
      participant_id = id;
      banned_at = t;
      expires_at = ban_expiry t ttl;
    } in
    let entry : ban_of room_id id w' ≡ some e =
      ap (λ b. JsMap.get id (or_else (JsMap.get room_id b) [])) same ∙ add_ban-ban_of room_id e w in
    is_banned-ban_of room_id id now w' ∙ rw entry (ban_expiry-holds t ttl now id)

pub record Banned (room_id target : Text) (room : Room) (ttl : Option ℕ) (t : ℕ) (w' : World)
    : Type 0 where
  pub gone : Store.get_participant room_id target w'.store ≡ none
  pub banned : (now : ℕ) → (is_banned room_id target now w').0 ≡ holds t ttl now
  pub there : Store.get_room room.room_id w'.store ≡ some (record room { updated_at = t })

-- A ban of a named participant always succeeds: the participant is out of the room, and banned
-- until the time to live is over, or for ever.
pub moderate_room-Banned :
    (room_id : Text) (c : ℕ) (cs : Text) (ttl : Option ℕ) (t : ℕ) (w : World) (room : Room)
    → Store.get_room room_id w.store ≡ some room
    → (m : Moderated) × (w' : World) × (moderate_room room_id ban (some (c ∷ cs)) ttl t w
        ≡ (ok m, w'))
      × (m.kicked ≡ some (c ∷ cs))
      × (m.banned ≡ some (c ∷ cs))
      × Banned room_id (c ∷ cs) room ttl t w'
unfolding moderate_room moderate require_room proceed query write change return throw_if present
moderate_room-Banned room_id c cs ttl t w room found =
    let e : BanEntry = record {
      participant_id = c ∷ cs;
      banned_at = t;
      expires_at = ban_expiry t ttl;
    } in
    let w' : World = record (add_ban room_id e w) {
      store = banned_store room_id (c ∷ cs) room t w.store;
    } in
    (
      record {
        room = record room { updated_at = t };
        kicked = some (c ∷ cs);
        banned = some (c ∷ cs);
      },
      w',
      rw found refl,
      refl,
      refl,
      record {
        gone = banned_store-gone room_id (c ∷ cs) room t w.store;
        banned = λ now. is_banned-holds room_id (c ∷ cs) t ttl now w w' refl;
        there = banned_store-room room_id (c ∷ cs) room t w.store;
      },
    )
