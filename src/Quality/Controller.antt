-- ===== src/Quality/Controller.antt =====
-- packages/quality/src/adaptive-quality-controller.ts: the controller's decisions.
--
-- The ladder is not empty: `top ∷ rest`. Times and bit rates are natural, fractions are ratios of
-- naturals, compared exactly. A change hands on its event; the direction and the snapshot that the
-- event carries besides are the caller's own values.
pub mod Tick
use open_rtc.Base.{
  ℕ, zero, suc, ◌+◌, ◌-◌, ◌*◌, ◌≤◌, ◌<◌, Bool, true, false, not, ◌&&◌, ◌||◌, Option, none, some,
  List, [], ◌∷◌, Text, codes, text_beq, leb, ltb, if◌then◌else◌, or_else, is_some, max,
}
use open_rtc.Quality.Tiers.{
  QualityTier, Ratio, above, find_tier, tier_index, next_lower_tier, next_higher_tier, rank,
  last_tier, tier_or, initial_tier_for_score,
}

pub data LimitationReason : Type 0 where
  no_limit cpu bandwidth other : LimitationReason

pub record RtcStatsSnapshot : Type 0 where
  pub ts : ℕ
  pub rtt_ms : Option ℕ
  pub available_outgoing_bitrate_bps : Option ℕ
  pub loss_rate : Option Ratio
  pub quality_limitation_reason : Option LimitationReason
  pub quality_limitation_durations_ms : Option (Option ℕ)
  pub total_encode_time_ms : Option ℕ
  pub device_score : Option Ratio

pub record Config : Type 0 where
  pub downgrade_rtt_ms : ℕ
  pub downgrade_loss_rate : Ratio
  pub downgrade_bitrate_headroom : Ratio
  pub instant_downgrade_ticks : ℕ
  pub severe_rtt_ms : ℕ
  pub severe_bitrate_kbps : ℕ
  pub cpu_ticks_to_downgrade : ℕ
  pub cpu_encode_duty_threshold : Ratio
  pub cpu_duration_fraction : Ratio
  pub upgrade_stable_ms : ℕ
  pub upgrade_bitrate_headroom : Ratio
  pub max_upgrade_steps : ℕ

abbrev pub defaults : Config
defaults = record {
  downgrade_rtt_ms = 400;
  downgrade_loss_rate = record { num = 5; den = 100 };
  downgrade_bitrate_headroom = record { num = 115; den = 100 };
  instant_downgrade_ticks = 2;
  severe_rtt_ms = 800;
  severe_bitrate_kbps = 150;
  cpu_ticks_to_downgrade = 2;
  cpu_encode_duty_threshold = record { num = 75; den = 100 };
  cpu_duration_fraction = record { num = 1; den = 2 };
  upgrade_stable_ms = 10000;
  upgrade_bitrate_headroom = record { num = 125; den = 100 };
  max_upgrade_steps = 1;
}

pub record Controller : Type 0 where
  pub top : QualityTier
  pub rest : List QualityTier
  pub config : Config
  pub initial_tier_id : Option Text
  pub max_tier_id : Option Text
  pub current : QualityTier
  pub last_ts : Option ℕ
  pub last_encode_time : Option ℕ
  pub last_cpu_duration : Option ℕ
  pub stable_since : Option ℕ
  pub network_bad_ticks : ℕ
  pub cpu_ticks : ℕ

abbrev pub tiers : Controller → List QualityTier
tiers c = c.top ∷ c.rest

pub data WarningReason : Type 0 where
  network cpu_load device recovery manual : WarningReason

pub data Action : Type 0 where
  nothing downgrade upgrade set_to : Action

pub record Decision : Type 0 where
  pub action : Action
  pub changed : Bool
  pub reason : Option WarningReason
  pub tier : QualityTier

abbrev pub noop : Option WarningReason → Controller → Decision
noop reason c = record { action = nothing; changed = false; reason = reason; tier = c.current }

abbrev pub move : Action → WarningReason → QualityTier → Decision
move action reason tier = record {
  action = action;
  changed = true;
  reason = some reason;
  tier = tier;
}

abbrev pub exceeds : Option ℕ → ℕ → Bool
exceeds none limit = false
exceeds (some n) limit = ltb limit n

unfoldable pub is_severe : RtcStatsSnapshot → Config → Bool
is_severe s k = exceeds s.rtt_ms k.severe_rtt_ms || elim s.available_outgoing_bitrate_bps [
  | none ↦ false
  | some b ↦ ltb b (k.severe_bitrate_kbps * 1000)
]

-- bps / 1000 against required * headroom
unfoldable pub is_network_bad : RtcStatsSnapshot → QualityTier → Config → Bool
is_network_bad s tier k =
    elim s.available_outgoing_bitrate_bps [
      | none ↦ false
      | some b ↦
          ltb (b * k.downgrade_bitrate_headroom.den)
            (tier.required_bitrate_kbps * 1000 * k.downgrade_bitrate_headroom.num)
    ]
    || exceeds s.rtt_ms k.downgrade_rtt_ms
    || elim s.loss_rate [ none ↦ false | some l ↦ above l.num l.den k.downgrade_loss_rate ]

abbrev pub is_cpu : Option LimitationReason → Bool
is_cpu (some cpu) = true
is_cpu _ = false

unfoldable pub cpu_pressure : RtcStatsSnapshot → ℕ → Controller → Bool
cpu_pressure s dt c =
    is_cpu s.quality_limitation_reason
    || elim s.quality_limitation_durations_ms [
      | none ↦ false
      | some spent ↦ elim c.last_cpu_duration [
        | none ↦ false
        | some last ↦
            ltb last (or_else spent 0)
            && above (or_else spent 0 - last) dt c.config.cpu_duration_fraction
      ]
    ]
    || elim s.total_encode_time_ms [
      | none ↦ false
      | some total ↦ elim c.last_encode_time [
        | none ↦ false
        | some last ↦ above (total - last) dt c.config.cpu_encode_duty_threshold
      ]
    ]

unfoldable pub headroom_ok : RtcStatsSnapshot → QualityTier → Config → Bool
headroom_ok s tier k = elim s.available_outgoing_bitrate_bps [
  | none ↦ true
  | some b ↦
      ltb (tier.required_bitrate_kbps * 1000 * k.upgrade_bitrate_headroom.num)
        (b * k.upgrade_bitrate_headroom.den)
]

-- The steps of an upgrade after the first one.
unfoldable pub climb : ℕ → List QualityTier → QualityTier → QualityTier
climb zero tiers t = t
climb (suc n) tiers t = elim (next_higher_tier tiers t.id) [ none ↦ t | some u ↦ climb n tiers u ]

-- 1. Severe congestion.
unfoldable pub evaluate_severe : Controller → Decision × Controller
evaluate_severe c =
    let audio_only = tier_or (find_tier (tiers c) (codes "audio-only")) (last_tier c.top c.rest) in
    if ltb (rank (tier_index (tiers c) c.current.id)) (rank (tier_index (tiers c) audio_only.id))
    then (move downgrade network audio_only, c)
    else (noop none c, c)

-- 2. Network congestion.
unfoldable pub evaluate_network : Controller → Decision × Controller
evaluate_network c =
    let bad = record c { network_bad_ticks = c.network_bad_ticks + 1; cpu_ticks = 0 } in
    if leb c.config.instant_downgrade_ticks (c.network_bad_ticks + 1)
    then elim (next_lower_tier (tiers c) c.current.id) [
      | none ↦ (noop (some network) c, bad)
      | some lower ↦ (move downgrade network lower, record bad { network_bad_ticks = 0 })
    ]
    else (noop (some network) c, bad)

-- 3. CPU pressure.
unfoldable pub evaluate_cpu : Controller → Decision × Controller
evaluate_cpu c =
    let hot = record c { cpu_ticks = c.cpu_ticks + 1 } in
    if leb c.config.cpu_ticks_to_downgrade (c.cpu_ticks + 1)
    then elim (next_lower_tier (tiers c) c.current.id) [
      | none ↦ (noop (some cpu_load) c, hot)
      | some lower ↦ (move downgrade cpu_load lower, record hot { cpu_ticks = 0 })
    ]
    else (noop (some cpu_load) c, hot)
