-- ===== src/Base/Counting.antt =====
-- Counting lists of distinct numbers.
use Prim.Native.Nat.{ℕ, zero, suc, ◌+◌, ◌≤◌, ◌<◌}
use mathlib.Core.Path.{◌≡◌, refl, sym, ap}
use mathlib.Core.Logic.{◌≢◌, ◌⊎◌, inl, inr}
use mathlib.Core.Bool.{not}
use mathlib.Core.List.{List, [], ◌∷◌}
use native.Mathlib.Omega.{arith}
use open_rtc.Base.Tests.{Bool-cases, nat_beq, nat_beq_iff}
use open_rtc.Base.Lists.{length, All, All-map, All-select, select, In}
use open_rtc.Base.JsMap.{JsMap, Unique, keys}

-- No number twice.
abbrev pub Differ : List ℕ → Type 0
Differ [] = Unit
Differ (x ∷ xs) = All (λ y. y ≢ x) xs × Differ xs

abbrev without : ℕ → List ℕ → List ℕ
without n = select λ x. not (nat_beq x n)

without-Differ : (n : ℕ) (xs : List ℕ) → Differ xs → Differ (without n xs)
without-Differ n [] d = tt
without-Differ n (x ∷ xs) d = elim (Bool-cases (nat_beq x n)) [
  | inl hit ↦ rw hit (without-Differ n xs d.1)
  | inr miss ↦ rw miss (All-select (λ y. y ≢ x) _ xs d.0, without-Differ n xs d.1)
]

without-absent : (n : ℕ) (xs : List ℕ) → All (λ y. y ≢ n) xs → length (without n xs) ≡ length xs
without-absent n [] h = refl
without-absent n (x ∷ xs) h = ground (arith, without-absent n xs)

length-le-without : (n : ℕ) (xs : List ℕ) → Differ xs → length xs ≤ length (without n xs) + 1
length-le-without n [] d = omega arith
length-le-without n (x ∷ xs) d = elim (Bool-cases (nat_beq x n)) [
  | inl hit ↦ rw hit (
      omega (
        arith,
        without-absent n xs (
            All-map (λ y. y ≢ x) (λ y. y ≢ n) xs (λ y h. omega (arith, (nat_beq_iff x n).0 hit))
              d.0),
      ))
  | inr miss ↦ rw miss (omega (arith, length-le-without n xs d.1))
]

without-below : (n : ℕ) (xs : List ℕ) → All (λ x. x < suc n) xs → All (λ x. x < n) (without n xs)
without-below n [] h = tt
without-below n (x ∷ xs) h = elim (Bool-cases (nat_beq x n)) [
  | inl hit ↦ rw hit (without-below n xs h.1)
  | inr miss ↦ rw miss (ground arith, without-below n xs h.1)
]

-- At most `n` distinct numbers lie below `n`.
pub length-le_of_below : (n : ℕ) (xs : List ℕ) → Differ xs → All (λ x. x < n) xs → length xs ≤ n
length-le_of_below zero [] d h = omega arith
length-le_of_below zero (x ∷ xs) d h = absurd (omega arith)
length-le_of_below (suc n) xs d h = omega (
  arith,
  length-le-without n xs d,
  length-le_of_below n (without n xs) (without-Differ n xs d) (without-below n xs h),
)

length-without-le : (n : ℕ) (xs : List ℕ) → length (without n xs) ≤ length xs
length-without-le n [] = omega arith
length-without-le n (x ∷ xs) = ground (arith, length-without-le n xs)

length-without-lt : (n : ℕ) (xs : List ℕ) → In n xs → length (without n xs) < length xs
length-without-lt n [] h = absurd h
length-without-lt n (x ∷ xs) h = ground (arith, length-without-le n xs, length-without-lt n xs)

In-without : (i n : ℕ) (xs : List ℕ) → i ≢ n → In i xs → In i (without n xs)
In-without i n [] ne h = absurd h
In-without i n (x ∷ xs) ne h = elim (Bool-cases (nat_beq x n)) [
  | inl hit ↦ rw hit (elim h [
    | inl e ↦ absurd (ne (omega (arith, (nat_beq_iff x n).0 hit)))
    | inr t ↦ In-without i n xs ne t
  ])
  | inr miss ↦ rw miss (elim h [ inl e ↦ inl e | inr t ↦ inr (In-without i n xs ne t) ])
]

-- A list that holds every number below `n` has `n` members or more.
pub le-length_of_all : (n : ℕ) (xs : List ℕ) → ((i : ℕ) → i < n → In i xs) → n ≤ length xs
le-length_of_all zero xs h = omega arith
le-length_of_all (suc n) xs h = omega (
  arith,
  length-without-lt n xs (h n (omega arith)),
  le-length_of_all n (without n xs) (λ i lt. In-without i n xs (omega arith) (h i (omega arith))),
)

pub In-or_not : (i : ℕ) (xs : List ℕ) → In i xs ⊎ All (λ y. y ≢ i) xs
In-or_not i [] = inr tt
In-or_not i (x ∷ xs) = elim (Bool-cases (nat_beq x i)) [
  | inl hit ↦ inl (inl (sym ((nat_beq_iff x i).0 hit)))
  | inr miss ↦ elim (In-or_not i xs) [ inl t ↦ inl (inr t) | inr f ↦ inr (ground arith, f) ]
]

-- `n` distinct numbers below `n` are all of them.
pub all_of_length :
    (n : ℕ) (xs : List ℕ)
    → Differ xs
    → All (λ x. x < n) xs
    → n ≤ length xs
    → (i : ℕ) → i < n
    → In i xs
all_of_length n xs d h l i lt = elim (In-or_not i xs) [
  | inl t ↦ t
  | inr f ↦ absurd (omega (arith, length-le_of_below n (i ∷ xs) (f, d) (lt, h)))
]

module _ {ℓ} {V : Type ℓ} where
  pub keys-All : (P : ℕ → Type 0) (m : JsMap ℕ V) → All (λ e. P e.0) m → All P (keys m)
  keys-All P [] h = tt
  keys-All P (e ∷ m) h = (h.0, keys-All P m h.1)

  pub keys-Differ : (m : JsMap ℕ V) → Unique m → Differ (keys m)
  keys-Differ [] u = tt
  keys-Differ (e ∷ m) u = (keys-All (λ y. y ≢ e.0) m u.0, keys-Differ m u.1)

  pub length-keys : (m : JsMap ℕ V) → length (keys m) ≡ length m
  length-keys [] = refl
  length-keys (e ∷ m) = ap suc (length-keys m)
