-- ===== src/Quality/Tiers.antt =====
-- packages/quality/src/tiers.ts and initialTierForScore of device-capability.ts: the ladder of tiers,
-- the highest one first. A score is a ratio of naturals.
pub mod Members
use open_rtc.Base.{
  ℕ, zero, suc, ◌+◌, ◌*◌, ◌<◌, Bool, true, false, Option, none, some, List, [], ◌∷◌, Text, codes,
  text_beq, leb, ltb, if◌then◌else◌, get_elem?, length,
}

pub record QualityTier : Type 0 where
  pub id : Text
  pub label : Text
  pub width : ℕ
  pub height : ℕ
  pub max_framerate : ℕ
  pub max_bitrate_kbps : ℕ
  pub required_bitrate_kbps : ℕ
  pub simulcast_layer : Option ℕ
  pub degradation_preference : Option Text
  pub audio_only : Bool

pub record Ratio : Type 0 where
  pub num : ℕ
  pub den : ℕ

-- a / b > r, for a positive b.
abbrev pub above : ℕ → ℕ → Ratio → Bool
above a b r = ltb (r.num * b) (a * r.den)

-- r >= p / q
abbrev pub at_least : Ratio → ℕ → ℕ → Bool
at_least r p q = leb (p * r.den) (r.num * q)

unfoldable pub find_tier : List QualityTier → Text → Option QualityTier
find_tier [] id = none
find_tier (t ∷ ts) id = if text_beq t.id id then some t else find_tier ts id

next_index : Option ℕ → Option ℕ
next_index none = none
next_index (some i) = some (suc i)

-- The index, with `none` for -1.
unfoldable pub tier_index : List QualityTier → Text → Option ℕ
unfolding next_index
tier_index [] id = none
tier_index (t ∷ ts) id = if text_beq t.id id then some 0 else next_index (tier_index ts id)

unfoldable pub next_lower_tier : List QualityTier → Text → Option QualityTier
unfolding tier_index
next_lower_tier tiers id = elim (tier_index tiers id) [
  | none ↦ none
  | some i ↦ get_elem? tiers (suc i)
]

unfoldable pub before_index : List QualityTier → ℕ → Option QualityTier
before_index tiers zero = none
before_index tiers (suc i) = get_elem? tiers i

unfoldable pub next_higher_tier : List QualityTier → Text → Option QualityTier
unfolding tier_index before_index
next_higher_tier tiers id = elim (tier_index tiers id) [
  | none ↦ none
  | some i ↦ before_index tiers i
]

-- An index to compare: -1 comes first.
abbrev pub rank : Option ℕ → ℕ
rank none = 0
rank (some i) = suc i

abbrev pub last_tier : QualityTier → List QualityTier → QualityTier
last_tier t [] = t
last_tier t (u ∷ us) = last_tier u us

abbrev pub tier_or : Option QualityTier → QualityTier → QualityTier
tier_or none t = t
tier_or (some u) t = u

-- The ladder is `top ∷ rest`.
unfoldable pub initial_tier_for_score : Ratio → QualityTier → List QualityTier → QualityTier
unfolding find_tier
initial_tier_for_score score top rest =
    if at_least score 75 100
    then top
    else if at_least score 55 100
    then tier_or (find_tier (top ∷ rest) (codes "720p@30")) top
    else if at_least score 35 100
    then tier_or (find_tier (top ∷ rest) (codes "480p@30")) top
    else if at_least score 20 100
    then tier_or (find_tier (top ∷ rest) (codes "360p@15")) top
    else tier_or (find_tier (top ∷ rest) (codes "audio-only")) (last_tier top rest)
