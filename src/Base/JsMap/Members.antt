-- ===== src/Base/JsMap/Members.antt =====
-- The entries of a map against its lookups, and the number of entries that a test selects.
use open_rtc.Base.Tests.{Bool-cases, if◌then◌else◌}
use open_rtc.Base.Lists.{length, select, All, In}
use open_rtc.Base.Eq.{Comparable, ◌==◌, eq_iff}
use Prim.Native.Nat.{◌+◌}
use mathlib.Core.Path.{sym, subst, ap, ◌≡◌, ◌∙◌, refl}
use mathlib.Core.Bool.{Bool, true, false}
use mathlib.Core.Logic.{◌≢◌, inl, inr}
use mathlib.Core.Option.{some}
use mathlib.Core.List.{List, [], ◌∷◌, map}
use native.Mathlib.Omega.{arith}
use open_rtc.Base.JsMap.{JsMap, Unique, get, set, has}

pub All-In : {A : Type 0} (P : A → Type 0) (a : A) (xs : List A) → All P xs → In a xs → P a
All-In P a [] h i = absurd i
All-In P a (x ∷ xs) h (inl q) = subst P (sym q) h.0
All-In P a (x ∷ xs) h (inr i) = All-In P a xs h.1 i

-- What the filter keeps.
pub In-select :
    {A : Type 0} (p : A → Bool) (a : A) (xs : List A) → In a (select p xs) → In a xs × (p a ≡ true)
In-select {A = A} p a [] i = absurd i
In-select {A = A} p a (x ∷ xs) i = cases (p x) refl i (In-select p a xs)
  where
    cases :
        (b : Bool)
        → p x ≡ b
        → In a (if b then x ∷ select p xs else select p xs)
        → (In a (select p xs) → In a xs × (p a ≡ true))
        → In a (x ∷ xs) × (p a ≡ true)
    cases true kept (inl q) rest = (inl q, ap p q ∙ kept)
    cases true kept (inr j) rest = let (k, t) = rest j in (inr k, t)
    cases false dropped j rest = let (k, t) = rest j in (inr k, t)

pub select-In :
    {A : Type 0} (p : A → Bool) (a : A) (xs : List A) → In a xs → p a ≡ true → In a (select p xs)
select-In p a [] i t = absurd i
select-In p a (x ∷ xs) (inl q) t = let kept : p x ≡ true = sym (ap p q) ∙ t in rw kept (inl q)
select-In p a (x ∷ xs) (inr i) t = elim (Bool-cases (p x)) [
  | inl kept ↦ rw kept (inr (select-In p a xs i t))
  | inr dropped ↦ rw dropped (select-In p a xs i t)
]

pub In-map :
    {A B : Type 0} (f : A → B) (b : B) (xs : List A)
    → In b (map f xs)
    → (a : A) × In a xs × (b ≡ f a)
In-map f b [] i = absurd i
In-map f b (x ∷ xs) (inl q) = (x, inl refl, q)
In-map f b (x ∷ xs) (inr i) = let (a, j, q) = In-map f b xs i in (a, inr j, q)

pub map-In : {A B : Type 0} (f : A → B) (a : A) (xs : List A) → In a xs → In (f a) (map f xs)
map-In f a [] i = absurd i
map-In f a (x ∷ xs) (inl q) = inl (ap f q)
map-In f a (x ∷ xs) (inr i) = inr (map-In f a xs i)

pub length-map : {A B : Type 0} (f : A → B) (xs : List A) → length (map f xs) ≡ length xs
length-map f [] = refl
length-map f (x ∷ xs) = omega (arith, length-map f xs)

module _ {K V : Type 0} ⦃c : Comparable K⦄ where
  pub In-get : (k : K) (v : V) (m : JsMap K V) → Unique m → In (k, v) m → get k m ≡ some v
  unfolding get
  In-get k v [] u h = absurd h
  In-get k v ((j, w) ∷ m) u (inl q) =
      let keys_eq : k ≡ j = ap (λ (e : K × V). e.0) q in
      let hit : (j == k) ≡ true = (eq_iff j k).1 (sym keys_eq) in
      rw hit (ap (λ (e : K × V). some e.1) (sym q))
  In-get k v ((j, w) ∷ m) u (inr i) = elim (Bool-cases (j == k)) [
    | inl hit ↦ absurd (All-In (λ e. e.0 ≢ j) (k, v) m u.0 i (sym ((eq_iff j k).0 hit)))
    | inr miss ↦ rw miss (In-get k v m u.1 i)
  ]

  pub get-In : (k : K) (v : V) (m : JsMap K V) → get k m ≡ some v → In (k, v) m
  unfolding get
  get-In k v [] h = absurd (cc)
  get-In k v ((j, w) ∷ m) h = elim (Bool-cases (j == k)) [
    | inl hit ↦
        let value : some w ≡ some v = sym (rw hit refl) ∙ h in
        let same : v ≡ w = cc value in inl (λ i. (sym ((eq_iff j k).0 hit) i, same i))
    | inr miss ↦ inr (get-In k v m (sym (rw miss refl) ∙ h))
  ]

  -- How many of the entries satisfy a test on the key, after a write.
  pub length-select-set :
      (p : K → Bool) (k : K) (v : V) (m : JsMap K V)
      → length (select (λ e. p e.0) (set k v m)) ≡ (
          if p k
          then (if has k m
              then length (select (λ e. p e.0) m)
              else length (select (λ e. p e.0) m) + 1)
          else length (select (λ e. p e.0) m))
  unfolding get set
  length-select-set p k v [] = ground arith
  length-select-set p k v ((j, w) ∷ m) = elim (Bool-cases (j == k)) [
    | inl hit ↦ let same : p j ≡ p k = ap p ((eq_iff j k).0 hit) in rw hit (ground (arith, same))
    | inr miss ↦ rw miss (ground (arith, length-select-set p k v m))
  ]
