-- ===== src/Quality/Controller/Tick/Severity.antt =====
-- packages/quality/src/adaptive-quality-controller.ts: a tick under severe congestion.
use open_rtc.Base.{
  ℕ, ◌-◌, ◌≤◌, ◌≡◌, refl, sym, subst, true, Bool-cases, inl, inr, some, codes, arith, max, ltb,
  ltb→ge,
}
use open_rtc.Quality.Tiers.{QualityTier, find_tier, tier_index, last_tier, tier_or, rank}
use open_rtc.Quality.Controller.{RtcStatsSnapshot, Controller, tiers, is_severe, evaluate_severe}
use open_rtc.Quality.Controller.Tick.{evaluate, apply, capture_cpu_baselines, tick}

-- The tier to which severe congestion leads: audio only, or the lowest one.
abbrev pub floor_tier : Controller → QualityTier
floor_tier c = tier_or (find_tier (tiers c) (codes "audio-only")) (last_tier c.top c.rest)

abbrev pub place : Controller → QualityTier → ℕ
place c t = rank (tier_index (tiers c) t.id)

severe_floor :
    (ts : ℕ) (c : Controller)
    → place c (floor_tier c) ≤ place c (apply ts (evaluate_severe c)).current
unfolding evaluate_severe apply
severe_floor ts c = elim (Bool-cases (ltb (place c c.current) (place c (floor_tier c)))) [
  | inl above ↦ rw (evaluate_severe, above) (omega arith)
  | inr below ↦
      rw (evaluate_severe, below) (ltb→ge (place c c.current) (place c (floor_tier c)) below)
]

-- After the first tick, severe congestion leaves no tier above audio only, at once.
pub tick-severe :
    (s : RtcStatsSnapshot) (c : Controller) (last : ℕ)
    → c.last_ts ≡ some last
    → is_severe s c.config ≡ true
    → place c (floor_tier c) ≤ place c (tick s c).1.current
unfolding tick capture_cpu_baselines evaluate
tick-severe s c last later severe =
    let c' : Controller = record c { last_ts = some s.ts } in
    let now : (tick s c).1
        ≡ capture_cpu_baselines s (apply s.ts (evaluate s (max (s.ts - last) 1) c')) =
      rw (tick, later) refl in
    let drop : evaluate s (max (s.ts - last) 1) c' ≡ evaluate_severe c' =
      rw (evaluate, severe) refl in
    subst (λ (z : Controller). place c (floor_tier c) ≤ place c z.current) (sym now)
      (subst (λ z. place c (floor_tier c) ≤ place c (apply s.ts z).current) (sym drop)
        (severe_floor s.ts c'))
