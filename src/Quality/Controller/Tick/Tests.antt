-- ===== src/Quality/Controller/Tick/Tests.antt =====
-- The controller at a ladder of three tiers.
use open_rtc.Base.{
  ℕ, ◌+◌, ◌≤◌, ◌≡◌, refl, true, false, none, some, [], ◌∷◌, Text, codes, arith, text_eq,
}
use open_rtc.Quality.Tiers.{QualityTier, find_tier, tier_index, next_higher_tier, before_index}
use open_rtc.Quality.Controller.{
  RtcStatsSnapshot, Controller, defaults, is_severe, is_network_bad, cpu_pressure, headroom_ok,
  climb, evaluate_severe,
}
use open_rtc.Quality.Controller.Tick.{
  device_cap, device_index, min_allowed, evaluate_upgrade, evaluate_device, evaluate, apply,
  capture_cpu_baselines, tick,
}
use open_rtc.Quality.Controller.Tick.Hysteresis.{run, upgrade_stable}
use open_rtc.Quality.Controller.Tick.Severity.{floor_tier, place, tick-severe}

abbrev tier : Text → ℕ → QualityTier
tier id kbps = record {
  id = id;
  label = id;
  width = 0;
  height = 0;
  max_framerate = 30;
  max_bitrate_kbps = kbps;
  required_bitrate_kbps = kbps;
  simulcast_layer = none;
  degradation_preference = none;
  audio_only = false;
}

abbrev video : Controller
video = record {
  top = tier (codes "h") 900;
  rest = tier (codes "l") 200 ∷ tier (codes "audio-only") 0 ∷ [];
  config = defaults;
  initial_tier_id = none;
  max_tier_id = none;
  current = tier (codes "h") 900;
  last_ts = some 0;
  last_encode_time = none;
  last_cpu_duration = none;
  stable_since = some 0;
  network_bad_ticks = 0;
  cpu_ticks = 0;
}

abbrev at : ℕ → ℕ → RtcStatsSnapshot
at ts rtt = record {
  ts = ts;
  rtt_ms = some rtt;
  available_outgoing_bitrate_bps = none;
  loss_rate = none;
  quality_limitation_reason = none;
  quality_limitation_durations_ms = none;
  total_encode_time_ms = none;
  device_score = none;
}

-- Congestion at 1000 drops the video; it comes back, one tier, after ten good seconds.
abbrev dropped : Controller
dropped = (tick (at 1000 900) video).1

dropped_lem : dropped.current.id ≡ codes "audio-only"
unfolding tick evaluate evaluate_severe apply capture_cpu_baselines is_severe find_tier tier_index
dropped_lem = refl

upgrade_stable_example :
    (1000 + 10000 ≤ 12000)
    × (headroom_ok (at 12000 20) (run (at 2000 20 ∷ []) dropped).current defaults ≡ true)
unfolding run tick evaluate evaluate_severe evaluate_device evaluate_upgrade apply
    capture_cpu_baselines is_severe is_network_bad cpu_pressure find_tier tier_index
    next_higher_tier before_index climb headroom_ok device_cap device_index min_allowed
upgrade_stable_example =
    upgrade_stable (at 1000 900) (at 2000 20 ∷ []) (at 12000 20) video refl (omega arith, tt)
      (omega arith) refl

tick-severe_example :
    place video (floor_tier video) ≤ place video (tick (at 1000 900) video).1.current
unfolding is_severe
tick-severe_example = tick-severe (at 1000 900) video 0 refl refl
