-- ===== src/Base/Eq.antt =====
-- Equality tests as an interface, and texts.
use Prim.Native.Nat.{ℕ}
use Prim.Native.Char.{code}
use Prim.Native.String.{String}
use mathlib.Core.Path.{◌≡◌, refl, subst}
use mathlib.Core.Logic.{◌↔◌}
use mathlib.Core.Bool.{Bool, true, false, ◌&&◌}
use mathlib.Core.List.{List, [], ◌∷◌}
use native.Mathlib.Omega.{arith}
use open_rtc.Base.Tests.{nat_beq, nat_beq_iff}

pub record Comparable {ℓ} (K : Type ℓ) : Type ℓ where
  pub equals : K → K → Bool
  pub sound : (j k : K) → equals j k ≡ true → j ≡ k
  pub self : (k : K) → equals k k ≡ true

-- `===`
infix 50 ◌==◌
abbrev pub ◌==◌ {ℓ} : {K : Type ℓ} ⦃c : Comparable K⦄ → K → K → Bool
◌==◌ ⦃c⦄ j k = c.equals j k

pub eq_self {ℓ} : {K : Type ℓ} ⦃c : Comparable K⦄ (k : K) → (k == k) ≡ true
eq_self ⦃c⦄ k = c.self k

pub eq_iff {ℓ} : {K : Type ℓ} ⦃c : Comparable K⦄ (j k : K) → ((j == k) ≡ true) ↔ (j ≡ k)
eq_iff ⦃c⦄ j k = (c.sound j k, λ e. subst (λ x. c.equals j x ≡ true) e (c.self j))

pub nat_beq_sound : (m n : ℕ) → nat_beq m n ≡ true → m ≡ n
nat_beq_sound m n = (nat_beq_iff m n).0

pub nat_beq_self : (n : ℕ) → nat_beq n n ≡ true
nat_beq_self n = (nat_beq_iff n n).1 refl

instance abbrev pub nat_eq : Comparable ℕ
nat_eq = record { equals = nat_beq; sound = nat_beq_sound; self = nat_beq_self }

-- A JavaScript string: its code units.
abbrev pub Text : Type 0
Text = List ℕ

abbrev pub codes : String → Text
codes String.[] = []
codes (String.◌∷◌ ch rest) = code ch ∷ codes rest

abbrev pub text_beq : Text → Text → Bool
text_beq [] [] = true
text_beq [] (y ∷ ys) = false
text_beq (x ∷ xs) [] = false
text_beq (x ∷ xs) (y ∷ ys) = nat_beq x y && text_beq xs ys

pub text_beq_iff : (s t : Text) → (text_beq s t ≡ true) ↔ (s ≡ t)
text_beq_iff [] [] = ground arith
text_beq_iff [] (y ∷ ys) = ground arith
text_beq_iff (x ∷ xs) [] = ground arith
text_beq_iff (x ∷ xs) (y ∷ ys) = ground (arith, text_beq_iff xs ys)

pub text_beq_sound : (s t : Text) → text_beq s t ≡ true → s ≡ t
text_beq_sound s t = (text_beq_iff s t).0

pub text_beq_self : (s : Text) → text_beq s s ≡ true
text_beq_self s = (text_beq_iff s s).1 refl

instance abbrev pub text_eq : Comparable Text
text_eq = record { equals = text_beq; sound = text_beq_sound; self = text_beq_self }
