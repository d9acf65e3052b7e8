-- ===== src/Quality/Controller/Tick.antt =====
-- packages/quality/src/adaptive-quality-controller.ts: `evaluate`, `tick`, `setTier`.
pub mod Ladder
pub mod Hysteresis
pub mod Severity
mod Tests
use open_rtc.Base.{
  ℕ, zero, suc, ◌+◌, ◌-◌, ◌*◌, ◌≤◌, ◌<◌, Bool, true, false, not, ◌&&◌, ◌||◌, ◌++◌, Option, none,
  some, List, [], ◌∷◌, Text, codes, text_beq, leb, ltb, if◌then◌else◌, or_else, is_some, max,
}
use open_rtc.Quality.Tiers.{
  QualityTier, Ratio, find_tier, tier_index, next_higher_tier, rank, initial_tier_for_score,
}
use open_rtc.Quality.Controller.{
  RtcStatsSnapshot, Config, Controller, tiers, WarningReason, network, device, recovery, manual,
  Action, downgrade, upgrade, set_to, nothing, Decision, noop, move, is_severe, is_network_bad,
  cpu_pressure, headroom_ok, climb, evaluate_severe, evaluate_network, evaluate_cpu,
}

-- The index of the device's cap, if the snapshot has a score.
unfoldable pub device_cap : RtcStatsSnapshot → Controller → Option QualityTier
device_cap s c = elim s.device_score [
  | none ↦ none
  | some sc ↦ some (initial_tier_for_score sc c.top c.rest)
]

unfoldable pub device_index : RtcStatsSnapshot → Controller → Option ℕ
unfolding device_cap
device_index s c = elim (device_cap s c) [ none ↦ none | some t ↦ tier_index (tiers c) t.id ]

abbrev pub max_index : Option Text → List QualityTier → ℕ
max_index none ts = 0
max_index (some []) ts = 0
max_index (some (i ∷ id)) ts = or_else (tier_index ts (i ∷ id)) 0

-- The highest tier that an upgrade may reach.
unfoldable pub min_allowed : RtcStatsSnapshot → Controller → ℕ
unfolding device_index
min_allowed s c = max (max_index c.max_tier_id (tiers c)) (or_else (device_index s c) 0)

-- 5. Upgrade.
unfoldable pub evaluate_upgrade : RtcStatsSnapshot → Controller → Decision × Controller
unfolding min_allowed
evaluate_upgrade s c =
    let since = or_else c.stable_since s.ts in
    let waiting = record c { stable_since = some since } in
    if leb (since + c.config.upgrade_stable_ms) s.ts
      && headroom_ok s c.current c.config
      && ltb (min_allowed s c + 1) (rank (tier_index (tiers c) c.current.id))
    then elim (next_higher_tier (tiers c) c.current.id) [
      | none ↦ (noop none c, waiting)
      | some first ↦
          let higher = climb (c.config.max_upgrade_steps - 1) (tiers c) first in
          if leb (min_allowed s c + 1) (rank (tier_index (tiers c) higher.id))
          then (move upgrade recovery higher, record c { stable_since = some s.ts })
          else (noop none c, waiting)
    ]
    else (noop none c, waiting)

-- 4. The device's cap, or an upgrade.
unfoldable pub evaluate_device : RtcStatsSnapshot → Controller → Decision × Controller
unfolding device_cap device_index evaluate_upgrade
evaluate_device s c = elim (device_cap s c) [
  | none ↦ evaluate_upgrade s c
  | some t ↦
      if ltb (rank (tier_index (tiers c) c.current.id)) (rank (device_index s c))
      then (move downgrade device t, c)
      else evaluate_upgrade s c
]

unfoldable pub evaluate : RtcStatsSnapshot → ℕ → Controller → Decision × Controller
unfolding evaluate_severe evaluate_network evaluate_cpu evaluate_device
evaluate s dt c =
    if is_severe s c.config
    then evaluate_severe c
    else if is_network_bad s c.current c.config
    then evaluate_network c
    else (let calm = record c { network_bad_ticks = 0 } in
        if cpu_pressure s dt calm
        then evaluate_cpu calm
        else evaluate_device s (record calm { cpu_ticks = 0 }))

unfoldable pub capture_cpu_baselines : RtcStatsSnapshot → Controller → Controller
capture_cpu_baselines s c = record c {
  last_encode_time = elim s.total_encode_time_ms [ none ↦ c.last_encode_time | some t ↦ some t ];
  last_cpu_duration = elim s.quality_limitation_durations_ms [
    | none ↦ c.last_cpu_duration
    | some none ↦ c.last_cpu_duration
    | some (some t) ↦ some t
  ];
}

-- What a changed decision does to the state.
unfoldable pub apply : ℕ → Decision × Controller → Controller
apply ts (d, c) =
    if d.changed
    then record c { current = d.tier; stable_since = none; network_bad_ticks = 0; cpu_ticks = 0 }
    else record c { stable_since = some (or_else c.stable_since ts) }

unfoldable pub tick : RtcStatsSnapshot → Controller → Decision × Controller
unfolding evaluate apply capture_cpu_baselines
tick s c = elim c.last_ts [
  | none ↦ (
    noop none c,
    capture_cpu_baselines s (record c { last_ts = some s.ts; stable_since = some s.ts }),
  )
  | some last ↦
      let result = evaluate s (max (s.ts - last) 1) (record c { last_ts = some s.ts }) in
      (result.0, capture_cpu_baselines s (apply s.ts result))
]

-- `none` stands for the error about an unknown tier.
unfoldable pub set_tier : Text → WarningReason → Controller → Option (Decision × Controller)
set_tier tier_id reason c = elim (find_tier (tiers c) tier_id) [
  | none ↦ none
  | some t ↦
      if text_beq t.id c.current.id
      then some (noop (some reason) c, c)
      else some (move set_to reason t, record c { current = t; stable_since = none })
]
