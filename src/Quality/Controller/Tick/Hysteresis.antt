-- ===== src/Quality/Controller/Tick/Hysteresis.antt =====
-- packages/quality/src/adaptive-quality-controller.ts: the stable time before an upgrade.
use open_rtc.Base.{
  ℕ, ◌+◌, ◌-◌, ◌≤◌, ◌≡◌, refl, subst, ◌∙◌, Bool, true, false, Bool-cases, Option-cases, inl, inr,
  none, some, List, [], ◌∷◌, All, ltb, arith, or_else, max,
}
use open_rtc.Quality.Tiers.{tier_index, rank}
use open_rtc.Quality.Controller.{
  RtcStatsSnapshot, Controller, tiers, Action, upgrade, Decision, is_severe, is_network_bad,
  cpu_pressure, headroom_ok, evaluate_severe, evaluate_network, evaluate_cpu,
}
use open_rtc.Quality.Controller.Tick.Ladder.{tick-config}
use open_rtc.Quality.Controller.Tick.{
  device_cap, device_index, evaluate_upgrade, evaluate_device, evaluate, apply,
  capture_cpu_baselines, tick,
}

abbrev pub is_upgrade : Action → Bool
is_upgrade upgrade = true
is_upgrade _ = false

severe_lem : (c : Controller) → is_upgrade (evaluate_severe c).0.action ≡ false
unfolding evaluate_severe
severe_lem c = ground arith

network_lem : (c : Controller) → is_upgrade (evaluate_network c).0.action ≡ false
unfolding evaluate_network
network_lem c = ground arith

cpu_lem : (c : Controller) → is_upgrade (evaluate_cpu c).0.action ≡ false
unfolding evaluate_cpu
cpu_lem c = ground arith

-- The wait, and the bandwidth, of an upgrade.
pub record Earned (s : RtcStatsSnapshot) (c : Controller) : Type 0 where
  pub waited : or_else c.stable_since s.ts + c.config.upgrade_stable_ms ≤ s.ts
  pub headroom : headroom_ok s c.current c.config ≡ true

upgrade_lem :
    (s : RtcStatsSnapshot) (c : Controller)
    → is_upgrade (evaluate_upgrade s c).0.action ≡ true
    → Earned s c
unfolding evaluate_upgrade
upgrade_lem s c h = record { waited = ground arith; headroom = ground arith }

device_lem :
    (s : RtcStatsSnapshot) (c : Controller)
    → is_upgrade (evaluate_device s c).0.action ≡ true
    → Earned s c
unfolding evaluate_device
device_lem s c h = elim (Option-cases (device_cap s c)) [
  | inl free ↦ upgrade_lem s c (rw (evaluate_device, free) at h)
  | inr (t, capped) ↦
      elim (Bool-cases (ltb (rank (tier_index (tiers c) c.current.id)) (rank (device_index s c)))) [
        | inl lower ↦ absurd (cc (rw (evaluate_device, capped, lower) at h))
        | inr fits ↦ upgrade_lem s c (rw (evaluate_device, capped, fits) at h)
      ]
]

-- An upgrade comes only when the network is good and the encoder keeps up.
pub record Calm (s : RtcStatsSnapshot) (dt : ℕ) (c : Controller) : Type 0 where
  pub not_severe : is_severe s c.config ≡ false
  pub network_good : is_network_bad s c.current c.config ≡ false
  pub earned : Earned s c

evaluate_lem :
    (s : RtcStatsSnapshot) (dt : ℕ) (c : Controller)
    → is_upgrade (evaluate s dt c).0.action ≡ true
    → Calm s dt c
unfolding evaluate
evaluate_lem s dt c h = elim (Bool-cases (is_severe s c.config)) [
  | inl severe ↦ absurd (ground (arith, severe_lem c, rw (evaluate, severe) at h))
  | inr mild ↦ elim (Bool-cases (is_network_bad s c.current c.config)) [
    | inl bad ↦ absurd (ground (arith, network_lem c, rw (evaluate, mild, bad) at h))
    | inr good ↦
        let calm : Controller = record c { network_bad_ticks = 0 } in
        elim (Bool-cases (cpu_pressure s dt calm)) [
          | inl hot ↦ absurd (ground (arith, cpu_lem calm, rw (evaluate, mild, good, hot) at h))
          | inr cool ↦
              let e =
                device_lem s (record calm { cpu_ticks = 0 })
                  (rw (evaluate, mild, good, cool) at h) in
              record {
                not_severe = mild;
                network_good = good;
                earned = record { waited = e.waited; headroom = e.headroom };
              }
        ]
  ]
]

-- No stable time begins before `l`.
abbrev pub Since : ℕ → Controller → Type 0
Since l c = l ≤ or_else c.stable_since l

severe-Since : (l : ℕ) (c : Controller) → Since l c → Since l (evaluate_severe c).1
unfolding evaluate_severe
severe-Since l c h = ground arith

network-Since : (l : ℕ) (c : Controller) → Since l c → Since l (evaluate_network c).1
unfolding evaluate_network
network-Since l c h = ground arith

cpu-Since : (l : ℕ) (c : Controller) → Since l c → Since l (evaluate_cpu c).1
unfolding evaluate_cpu
cpu-Since l c h = ground arith

upgrade-Since :
    (l : ℕ) (s : RtcStatsSnapshot) (c : Controller)
    → l ≤ s.ts
    → Since l c
    → Since l (evaluate_upgrade s c).1
unfolding evaluate_upgrade
upgrade-Since l s c le h = ground arith

device-Since :
    (l : ℕ) (s : RtcStatsSnapshot) (c : Controller)
    → l ≤ s.ts
    → Since l c
    → Since l (evaluate_device s c).1
unfolding evaluate_device
device-Since l s c le h = ground (arith, upgrade-Since l s c le h)

evaluate-Since :
    (l : ℕ) (s : RtcStatsSnapshot) (dt : ℕ) (c : Controller)
    → l ≤ s.ts
    → Since l c
    → Since l (evaluate s dt c).1
unfolding evaluate
evaluate-Since l s dt c le h =
    let calm : Controller = record c { network_bad_ticks = 0 } in
    let cool : Controller = record calm { cpu_ticks = 0 } in
    ground (
      arith,
      severe-Since l c h,
      network-Since l c h,
      cpu-Since l calm h,
      device-Since l s cool le h,
    )

apply-Since :
    (l : ℕ) (ts : ℕ) (r : Decision × Controller) → l ≤ ts → Since l r.1 → Since l (apply ts r)
unfolding apply
apply-Since l ts (d, c) le h = ground arith

-- The stable time that a tick leaves begins no earlier than that before it, or than the tick.
tick-Since :
    (l : ℕ) (s : RtcStatsSnapshot) (c : Controller) → l ≤ s.ts → Since l c → Since l (tick s c).1
unfolding tick capture_cpu_baselines
tick-Since l s c le h = elim (Option-cases c.last_ts) [
  | inl first ↦ rw (tick, first) le
  | inr (last, later) ↦
      let dt = max (s.ts - last) 1 in
      let c' : Controller = record c { last_ts = some s.ts } in
      rw (tick, later) (apply-Since l s.ts (evaluate s dt c') le (evaluate-Since l s dt c' le h))
]

apply-none :
    (ts : ℕ) (r : Decision × Controller) → r.0.changed ≡ true → (apply ts r).stable_since ≡ none
unfolding apply
apply-none ts (d, c) h = rw h refl

change-Since :
    (s : RtcStatsSnapshot) (c : Controller) → (tick s c).0.changed ≡ true → Since s.ts (tick s c).1
unfolding tick capture_cpu_baselines
change-Since s c h = elim (Option-cases c.last_ts) [
  | inl first ↦ absurd (cc (rw (tick, first) at h))
  | inr (last, later) ↦
      let dt = max (s.ts - last) 1 in
      let c' : Controller = record c { last_ts = some s.ts } in
      let fresh = apply-none s.ts (evaluate s dt c') (rw (tick, later) at h) in
      rw (tick, later, fresh) (omega arith)
]

unfoldable pub run : List RtcStatsSnapshot → Controller → Controller
unfolding tick
run [] c = c
run (s ∷ ss) c = run ss (tick s c).1

run-Since :
    (l : ℕ) (ss : List RtcStatsSnapshot) (c : Controller)
    → All (λ s. l ≤ s.ts) ss
    → Since l c
    → Since l (run ss c)
unfolding run
run-Since l [] c le h = h
run-Since l (s ∷ ss) c le h = run-Since l ss (tick s c).1 le.1 (tick-Since l s c le.0 h)

run-config : (ss : List RtcStatsSnapshot) (c : Controller) → (run ss c).config ≡ c.config
unfolding run
run-config [] c = refl
run-config (s ∷ ss) c = run-config ss (tick s c).1 ∙ tick-config s c

tick-Earned :
    (s : RtcStatsSnapshot) (c : Controller) → is_upgrade (tick s c).0.action ≡ true → Earned s c
unfolding tick
tick-Earned s c h = elim (Option-cases c.last_ts) [
  | inl first ↦ absurd (cc (rw (tick, first) at h))
  | inr (last, later) ↦
      let dt = max (s.ts - last) 1 in
      let c' : Controller = record c { last_ts = some s.ts } in
      let e = (evaluate_lem s dt c' (rw (tick, later) at h)).earned in
      record { waited = e.waited; headroom = e.headroom }
]

-- After a change of the tier, whatever snapshots follow in the order of time, an upgrade comes no
-- earlier than the stable time after the change, and only with the bandwidth that it wants.
pub upgrade_stable :
    (first : RtcStatsSnapshot) (between : List RtcStatsSnapshot) (s : RtcStatsSnapshot)
    (c : Controller)
    → (tick first c).0.changed ≡ true
    → All (λ x. first.ts ≤ x.ts) between
    → first.ts ≤ s.ts
    → is_upgrade (tick s (run between (tick first c).1)).0.action ≡ true
    → (first.ts + c.config.upgrade_stable_ms ≤ s.ts)
      × (headroom_ok s (run between (tick first c).1).current c.config ≡ true)
upgrade_stable first between s c changed later le up =
    let c' = run between (tick first c).1 in
    let e = tick-Earned s c' up in
    let since : Since first.ts c' =
      run-Since first.ts between (tick first c).1 later (change-Since first c changed) in
    let same : c'.config ≡ c.config = run-config between (tick first c).1 ∙ tick-config first c in
    let waited : or_else c'.stable_since s.ts + c.config.upgrade_stable_ms ≤ s.ts =
      subst (λ k. or_else c'.stable_since s.ts + k.upgrade_stable_ms ≤ s.ts) same e.waited in
    (
      ground (arith, waited, since, le),
      subst (λ k. headroom_ok s c'.current k ≡ true) same e.headroom,
    )
