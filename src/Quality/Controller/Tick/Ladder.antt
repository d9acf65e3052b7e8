-- ===== src/Quality/Controller/Tick/Ladder.antt =====
-- What a tick keeps: the configuration, and a current tier of the ladder.
use open_rtc.Base.{
  ℕ, zero, suc, ◌+◌, ◌-◌, ◌≡◌, refl, sym, subst, ◌∙◌, true, false, ◌&&◌, Bool-cases, Option-cases,
  inl, inr, none, some, List, In, arith, codes, if◌then◌else◌, or_else, max, leb, ltb,
}
use open_rtc.Quality.Tiers.{
  QualityTier, find_tier, tier_index, next_lower_tier, next_higher_tier, last_tier, tier_or,
  initial_tier_for_score, rank,
}
use open_rtc.Quality.Tiers.Members.{
  next_lower_tier-In, next_higher_tier-In, last_tier-In, tier_or-In, initial_tier_for_score-In,
}
use open_rtc.Quality.Controller.{
  RtcStatsSnapshot, Controller, tiers, Decision, is_severe, is_network_bad, cpu_pressure,
  headroom_ok, climb, evaluate_severe, evaluate_network, evaluate_cpu,
}
use open_rtc.Quality.Controller.Tick.{
  device_cap, device_index, min_allowed, evaluate_upgrade, evaluate_device, evaluate, apply,
  capture_cpu_baselines, tick,
}

severe-config : (c : Controller) → (evaluate_severe c).1.config ≡ c.config
unfolding evaluate_severe
severe-config c = ground arith

network-config : (c : Controller) → (evaluate_network c).1.config ≡ c.config
unfolding evaluate_network
network-config c = ground arith

cpu-config : (c : Controller) → (evaluate_cpu c).1.config ≡ c.config
unfolding evaluate_cpu
cpu-config c = ground arith

upgrade-config :
    (s : RtcStatsSnapshot) (c : Controller) → (evaluate_upgrade s c).1.config ≡ c.config
unfolding evaluate_upgrade
upgrade-config s c = ground arith

device-config : (s : RtcStatsSnapshot) (c : Controller) → (evaluate_device s c).1.config ≡ c.config
unfolding evaluate_device
device-config s c = ground (arith, upgrade-config s c)

evaluate-config :
    (s : RtcStatsSnapshot) (dt : ℕ) (c : Controller) → (evaluate s dt c).1.config ≡ c.config
unfolding evaluate
evaluate-config s dt c =
    let calm : Controller = record c { network_bad_ticks = 0 } in
    ground (
      arith,
      severe-config c,
      network-config c,
      cpu-config calm,
      device-config s (record calm { cpu_ticks = 0 }),
    )

apply-config : (ts : ℕ) (r : Decision × Controller) → (apply ts r).config ≡ r.1.config
unfolding apply
apply-config ts (d, c) = ground arith

pub tick-config : (s : RtcStatsSnapshot) (c : Controller) → (tick s c).1.config ≡ c.config
unfolding tick capture_cpu_baselines
tick-config s c = elim (Option-cases c.last_ts) [
  | inl first ↦ rw (tick, first) refl
  | inr (last, later) ↦
      let dt = max (s.ts - last) 1 in
      let c' : Controller = record c { last_ts = some s.ts } in
      rw (tick, later) (apply-config s.ts (evaluate s dt c') ∙ evaluate-config s dt c')
]

climb-In : (n : ℕ) (ts : List QualityTier) (t : QualityTier) → In t ts → In (climb n ts t) ts
unfolding climb
climb-In zero ts t i = i
climb-In (suc n) ts t i = elim (Option-cases (next_higher_tier ts t.id)) [
  | inl at_top ↦ rw (climb, at_top) i
  | inr (u, above) ↦ rw (climb, above) (climb-In n ts u (next_higher_tier-In ts t.id u above))
]

-- What a decision is about: a tier of the ladder, which stays, as does the current tier.
record Stays (c : Controller) (r : Decision × Controller) : Type 0 where
  ladder : tiers r.1 ≡ tiers c
  kept : r.1.current ≡ c.current
  there : In r.0.tier (tiers c)

abbrev pub IsOnLadder : Controller → Type 0
IsOnLadder c = In c.current (tiers c)

device_cap-In :
    (s : RtcStatsSnapshot) (c : Controller) (t : QualityTier)
    → device_cap s c ≡ some t
    → In t (tiers c)
unfolding device_cap
device_cap-In s c t h = elim (Option-cases s.device_score) [
  | inl absent ↦ absurd (cc (rw (device_cap, absent) at h))
  | inr (score, given) ↦
      let same : some (initial_tier_for_score score c.top c.rest) ≡ some t =
        rw (device_cap, given) at h in
      let cap : initial_tier_for_score score c.top c.rest ≡ t = cc same in
      subst (λ z. In z (tiers c)) cap (initial_tier_for_score-In score c.top c.rest)
]

severe-Stays : (c : Controller) → IsOnLadder c → Stays c (evaluate_severe c)
unfolding evaluate_severe
severe-Stays c i =
    let audio_only = tier_or (find_tier (tiers c) (codes "audio-only")) (last_tier c.top c.rest) in
    let at =
      tier_or-In (tiers c) (codes "audio-only") (last_tier c.top c.rest)
        (last_tier-In c.top c.rest) in
    elim (Bool-cases (
      ltb (rank (tier_index (tiers c) c.current.id)) (rank (tier_index (tiers c) audio_only.id)))) [
        | inl above ↦
            rw (evaluate_severe, above) (record { ladder = refl; kept = refl; there = at })
        | inr below ↦ rw (evaluate_severe, below) (record { ladder = refl; kept = refl; there = i })
      ]

network-Stays : (c : Controller) → IsOnLadder c → Stays c (evaluate_network c)
unfolding evaluate_network
network-Stays c i =
    elim (Bool-cases (leb c.config.instant_downgrade_ticks (c.network_bad_ticks + 1))) [
      | inr early ↦ rw (evaluate_network, early) (record { ladder = refl; kept = refl; there = i })
      | inl due ↦ elim (Option-cases (next_lower_tier (tiers c) c.current.id)) [
        | inl bottom ↦
            rw (evaluate_network, due, bottom) (record { ladder = refl; kept = refl; there = i })
        | inr (t, lower) ↦
            rw (evaluate_network, due, lower)
              (record {
                ladder = refl;
                kept = refl;
                there = next_lower_tier-In (tiers c) c.current.id t lower;
              })
      ]
    ]

cpu-Stays : (c : Controller) → IsOnLadder c → Stays c (evaluate_cpu c)
unfolding evaluate_cpu
cpu-Stays c i = elim (Bool-cases (leb c.config.cpu_ticks_to_downgrade (c.cpu_ticks + 1))) [
  | inr early ↦ rw (evaluate_cpu, early) (record { ladder = refl; kept = refl; there = i })
  | inl due ↦ elim (Option-cases (next_lower_tier (tiers c) c.current.id)) [
    | inl bottom ↦ rw (evaluate_cpu, due, bottom) (record { ladder = refl; kept = refl; there = i })
    | inr (t, lower) ↦
        rw (evaluate_cpu, due, lower)
          (record {
            ladder = refl;
            kept = refl;
            there = next_lower_tier-In (tiers c) c.current.id t lower;
          })
  ]
]

upgrade-Stays :
    (s : RtcStatsSnapshot) (c : Controller) → IsOnLadder c → Stays c (evaluate_upgrade s c)
unfolding evaluate_upgrade
upgrade-Stays s c i =
    elim (Bool-cases (
      leb (or_else c.stable_since s.ts + c.config.upgrade_stable_ms) s.ts
      && headroom_ok s c.current c.config
      && ltb (min_allowed s c + 1) (rank (tier_index (tiers c) c.current.id)))) [
        | inr early ↦
            rw (evaluate_upgrade, early) (record { ladder = refl; kept = refl; there = i })
        | inl due ↦ elim (Option-cases (next_higher_tier (tiers c) c.current.id)) [
          | inl top ↦
              rw (evaluate_upgrade, due, top) (record { ladder = refl; kept = refl; there = i })
          | inr (t, higher) ↦
              let u = climb (c.config.max_upgrade_steps - 1) (tiers c) t in
              let at =
                climb-In (c.config.max_upgrade_steps - 1) (tiers c) t
                  (next_higher_tier-In (tiers c) c.current.id t higher) in
              elim (Bool-cases (leb (min_allowed s c + 1) (rank (tier_index (tiers c) u.id)))) [
                | inl allowed ↦
                    rw (evaluate_upgrade, due, higher, allowed)
                      (record { ladder = refl; kept = refl; there = at })
                | inr capped ↦
                    rw (evaluate_upgrade, due, higher, capped)
                      (record { ladder = refl; kept = refl; there = i })
              ]
        ]
      ]

device-Stays :
    (s : RtcStatsSnapshot) (c : Controller) → IsOnLadder c → Stays c (evaluate_device s c)
unfolding evaluate_device
device-Stays s c i = elim (Option-cases (device_cap s c)) [
  | inl free ↦ rw (evaluate_device, free) (upgrade-Stays s c i)
  | inr (t, capped) ↦
      elim (Bool-cases (ltb (rank (tier_index (tiers c) c.current.id)) (rank (device_index s c)))) [
        | inl lower ↦
            rw (evaluate_device, capped, lower)
              (record { ladder = refl; kept = refl; there = device_cap-In s c t capped })
        | inr fits ↦ rw (evaluate_device, capped, fits) (upgrade-Stays s c i)
      ]
]

evaluate-Stays :
    (s : RtcStatsSnapshot) (dt : ℕ) (c : Controller) → IsOnLadder c → Stays c (evaluate s dt c)
unfolding evaluate
evaluate-Stays s dt c i = elim (Bool-cases (is_severe s c.config)) [
  | inl severe ↦ rw (evaluate, severe) (severe-Stays c i)
  | inr mild ↦ elim (Bool-cases (is_network_bad s c.current c.config)) [
    | inl bad ↦ rw (evaluate, mild, bad) (network-Stays c i)
    | inr good ↦
        let calm : Controller = record c { network_bad_ticks = 0 } in
        let cool : Controller = record calm { cpu_ticks = 0 } in
        elim (Bool-cases (cpu_pressure s dt calm)) [
          | inl hot ↦
              (let r = cpu-Stays calm i in
                rw (evaluate, mild, good, hot)
                  (record { ladder = r.ladder; kept = r.kept; there = r.there }))
          | inr quiet ↦
              (let r = device-Stays s cool i in
                rw (evaluate, mild, good, quiet)
                  (record { ladder = r.ladder; kept = r.kept; there = r.there }))
        ]
  ]
]

apply-IsOnLadder :
    (ts : ℕ) (c : Controller) (r : Decision × Controller)
    → IsOnLadder c
    → Stays c r
    → IsOnLadder (apply ts r)
unfolding apply
apply-IsOnLadder ts c (d, c') i r =
    elim d.changed
      as (λ b. IsOnLadder (
        if b
        then record c' {
          current = d.tier;
          stable_since = none;
          network_bad_ticks = 0;
          cpu_ticks = 0;
        }
        else record c' { stable_since = some (or_else c'.stable_since ts) })) [
          | true ↦ subst (In d.tier) (sym r.ladder) r.there
          | false ↦
              subst (λ t. In t (tiers c')) (sym r.kept) (subst (In c.current) (sym r.ladder) i)
        ]

-- A tick leaves the current tier on the ladder.
pub tick-IsOnLadder :
    (s : RtcStatsSnapshot) (c : Controller) → IsOnLadder c → IsOnLadder (tick s c).1
unfolding tick capture_cpu_baselines
tick-IsOnLadder s c i = elim (Option-cases c.last_ts) [
  | inl first ↦
      let now : (tick s c).1
          ≡ capture_cpu_baselines s (record c { last_ts = some s.ts; stable_since = some s.ts }) =
        rw (tick, first) refl in
      subst IsOnLadder (sym now) i
  | inr (last, later) ↦
      let c' : Controller = record c { last_ts = some s.ts } in
      let r = evaluate s (max (s.ts - last) 1) c' in
      let now : (tick s c).1 ≡ capture_cpu_baselines s (apply s.ts r) = rw (tick, later) refl in
      subst IsOnLadder (sym now)
        (apply-IsOnLadder s.ts c' r i (evaluate-Stays s (max (s.ts - last) 1) c' i))
]
