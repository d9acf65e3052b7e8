-- ===== src/Transport/Presence/Tests.antt =====
-- The sweeper's theorems at two peers.
use open_rtc.Base.{◌≡◌, refl, [], ◌∷◌, codes, text_eq, eq_iff, true, false}
use open_rtc.Transport.Presence.{PresenceSweeper, sweep}
use open_rtc.Transport.Presence.Stale.{IsTracked}

abbrev peers : PresenceSweeper
peers = record { last_seen = (codes "a", 2) ∷ (codes "b", 8) ∷ []; timeout_ms = 5 }

peers-IsTracked : IsTracked peers
peers-IsTracked = (
  (λ q. let e : false ≡ true = (eq_iff (codes "b") (codes "a")).1 q in absurd (cc e), tt),
  (tt, tt),
)

one_stale : (sweep 9 peers).0 ≡ codes "a" ∷ []
unfolding sweep
one_stale = refl
