-- ===== src/Quality/Tiers/Members.antt =====
-- packages/quality/src/tiers.ts: the tiers that its functions return, as members of the ladder.
use open_rtc.Base.{
  ℕ, zero, suc, ◌≡◌, refl, sym, Bool, true, false, Bool-cases, Option-cases, inl, inr, some, List,
  [], ◌∷◌, Text, In, codes, if◌then◌else◌, text_beq, get_elem?,
}
use open_rtc.Quality.Tiers.{
  QualityTier, Ratio, find_tier, tier_index, next_lower_tier, before_index, next_higher_tier,
  last_tier, tier_or, initial_tier_for_score,
}

get_elem?-In : (ts : List QualityTier) (i : ℕ) (t : QualityTier) → get_elem? ts i ≡ some t → In t ts
get_elem?-In [] i t h = absurd (cc h)
get_elem?-In (u ∷ ts) zero t h = inl (cc (sym h))
get_elem?-In (u ∷ ts) (suc i) t h = inr (get_elem?-In ts i t h)

pub find_tier-In :
    (ts : List QualityTier) (id : Text) (t : QualityTier) → find_tier ts id ≡ some t → In t ts
unfolding find_tier
find_tier-In [] id t h = absurd (cc h)
find_tier-In (u ∷ ts) id t h = elim (Bool-cases (text_beq u.id id)) [
  | inl hit ↦ inl (let same : some u ≡ some t = rw hit at h in cc (sym same))
  | inr miss ↦ inr (find_tier-In ts id t (rw miss at h))
]

pub next_lower_tier-In :
    (ts : List QualityTier) (id : Text) (t : QualityTier) → next_lower_tier ts id ≡ some t → In t ts
unfolding next_lower_tier
next_lower_tier-In ts id t h = elim (Option-cases (tier_index ts id)) [
  | inl absent ↦ absurd (cc (rw (next_lower_tier, absent) at h))
  | inr (i, found) ↦ get_elem?-In ts (suc i) t (rw (next_lower_tier, found) at h)
]

before_index-In :
    (ts : List QualityTier) (i : ℕ) (t : QualityTier) → before_index ts i ≡ some t → In t ts
unfolding before_index
before_index-In ts zero t h = absurd (cc h)
before_index-In ts (suc i) t h = get_elem?-In ts i t h

pub next_higher_tier-In :
    (ts : List QualityTier) (id : Text) (t : QualityTier)
    → next_higher_tier ts id ≡ some t
    → In t ts
unfolding next_higher_tier
next_higher_tier-In ts id t h = elim (Option-cases (tier_index ts id)) [
  | inl absent ↦ absurd (cc (rw (next_higher_tier, absent) at h))
  | inr (i, found) ↦ before_index-In ts i t (rw (next_higher_tier, found) at h)
]

pub last_tier-In : (t : QualityTier) (ts : List QualityTier) → In (last_tier t ts) (t ∷ ts)
last_tier-In t [] = inl refl
last_tier-In t (u ∷ us) = inr (last_tier-In u us)

pub tier_or-In :
    (ts : List QualityTier) (id : Text) (t : QualityTier)
    → In t ts
    → In (tier_or (find_tier ts id) t) ts
tier_or-In ts id t i = elim (Option-cases (find_tier ts id)) [
  | inl absent ↦ rw absent i
  | inr (u, found) ↦ rw found (find_tier-In ts id u found)
]

if-In :
    (b : Bool) (t u : QualityTier) (ts : List QualityTier)
    → In t ts
    → In u ts
    → In (if b then t else u) ts
if-In true t u ts i j = i
if-In false t u ts i j = j

pub initial_tier_for_score-In :
    (score : Ratio) (top : QualityTier) (rest : List QualityTier)
    → In (initial_tier_for_score score top rest) (top ∷ rest)
unfolding initial_tier_for_score
initial_tier_for_score-In score top rest =
    let ts = top ∷ rest in
    let named : (id : Text) → In (tier_or (find_tier ts id) top) ts =
      λ id. tier_or-In ts id top (inl refl) in
    if-In _ _ _ ts (inl refl) (
      if-In _ _ _ ts (named (codes "720p@30")) (
        if-In _ _ _ ts (named (codes "480p@30")) (
          if-In _ _ _ ts (named (codes "360p@15"))
            (tier_or-In ts (codes "audio-only") (last_tier top rest) (last_tier-In top rest)))))
