-- ===== src/Server/Waiting/Bans.antt =====
-- The bans of the module: who is banned after `addBan` and `removeBan`.
use open_rtc.Base.{
  text_eq, ℕ, ◌≡◌, refl, false, not, Option-cases, Bool-cases, inl, inr, Option, none, some, Text,
  or_else, [],
}
use open_rtc.Base.JsMap
use open_rtc.Server.Types.{BanEntry}
use open_rtc.Server.Store.{has_expired}
use open_rtc.Server.World.{World}
use open_rtc.Server.Waiting.{is_banned}

-- The module's own record of a ban.
abbrev pub ban_of : Text → Text → World → Option BanEntry
ban_of room_id participant_id w =
    JsMap.get participant_id (or_else (JsMap.get room_id w.ban_store) [])

-- A participant is banned exactly while its entry has not expired.
pub is_banned-ban_of :
    (room_id participant_id : Text) (now : ℕ) (w : World)
    → (is_banned room_id participant_id now w).0
      ≡ elim (ban_of room_id participant_id w) [ none ↦ false | some e ↦ not (has_expired now e) ]
unfolding is_banned JsMap.get
is_banned-ban_of room_id participant_id now w =
    elim (Option-cases (JsMap.get room_id w.ban_store)) [
      | inl absent ↦ rw (absent, is_banned) refl
      | inr (m, found) ↦ elim (Option-cases (JsMap.get participant_id m)) [
        | inl free ↦ rw (found, is_banned, free) refl
        | inr (e, entry) ↦ elim (Bool-cases (has_expired now e)) [
          | inl over ↦ rw (found, is_banned, entry, over) refl
          | inr holds ↦ rw (found, is_banned, entry, holds) refl
        ]
      ]
    ]
