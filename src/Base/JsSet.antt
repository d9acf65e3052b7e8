-- ===== src/Base/JsSet.antt =====
-- A JavaScript `Set`: members in insertion order, each once.
use mathlib.Core.Path.{◌≡◌, sym, subst}
use mathlib.Core.Logic.{◌↔◌, ◌⊎◌, inl, inr}
use mathlib.Core.Bool.{Bool, true, false, not, ◌||◌}
use mathlib.Core.List.{List, [], ◌∷◌, ◌++◌}
use native.Mathlib.Omega.{arith}
use open_rtc.Base.Tests.{if◌then◌else◌, Bool-cases}
use open_rtc.Base.Lists.{In, Distinct, select}
use open_rtc.Base.Eq.{Comparable, ◌==◌, eq_iff}

module _ {A : Type 0} ⦃c : Comparable A⦄ where
  unfoldable pub has : A → List A → Bool
  has a [] = false
  has a (x ∷ xs) = (x == a) || has a xs

  unfoldable pub add : A → List A → List A
  unfolding has
  add a xs = if has a xs then xs else xs ++ a ∷ []

  unfoldable pub delete : A → List A → List A
  delete a = select λ x. not (x == a)

  pub has-In : (a : A) (xs : List A) → has a xs ≡ true → In a xs
  unfolding has
  has-In a [] h = absurd (cc)
  has-In a (x ∷ xs) h = elim (Bool-cases (x == a)) [
    | inl hit ↦ inl (sym ((eq_iff x a).0 hit))
    | inr miss ↦ inr (has-In a xs (ground (arith, miss)))
  ]

  pub In-has : (a : A) (xs : List A) → In a xs → has a xs ≡ true
  unfolding has
  In-has a [] h = absurd h
  In-has a (x ∷ xs) (inl q) = ground (arith, eq_iff x a)
  In-has a (x ∷ xs) (inr i) = ground (arith, In-has a xs i)

  pub In-append_right : (a : A) (xs ys : List A) → In a ys → In a (xs ++ ys)
  In-append_right a [] ys i = i
  In-append_right a (x ∷ xs) ys i = inr (In-append_right a xs ys i)

  pub In-append_left : (a : A) (xs ys : List A) → In a xs → In a (xs ++ ys)
  In-append_left a [] ys i = absurd i
  In-append_left a (x ∷ xs) ys (inl q) = inl q
  In-append_left a (x ∷ xs) ys (inr i) = inr (In-append_left a xs ys i)

  pub In-append : (a : A) (xs ys : List A) → In a (xs ++ ys) → In a xs ⊎ In a ys
  In-append a [] ys i = inr i
  In-append a (x ∷ xs) ys (inl q) = inl (inl q)
  In-append a (x ∷ xs) ys (inr i) = elim (In-append a xs ys i) [
    | inl l ↦ inl (inr l)
    | inr r ↦ inr r
  ]

  -- The members after an insertion: those before it, and the new one.
  pub In-add : (a b : A) (xs : List A) → In b (add a xs) ↔ (In b xs ⊎ (b ≡ a))
  unfolding add
  In-add a b xs = elim (Bool-cases (has a xs)) [
    | inl old ↦ rw old (
      λ i. inl i,
      λ d. elim d [ inl i ↦ i | inr q ↦ subst (λ z. In z xs) (sym q) (has-In a xs old) ],
    )
    | inr new ↦ rw new (
      λ i. elim (In-append b xs (a ∷ []) i) [
        | inl l ↦ inl l
        | inr r ↦ elim r [ inl q ↦ inr q | inr no_more ↦ absurd no_more ]
      ],
      λ d. elim d [
        | inl i ↦ In-append_left b xs (a ∷ []) i
        | inr q ↦ In-append_right b xs (a ∷ []) (inl q)
      ],
    )
  ]

  Distinct-append : (a : A) (xs : List A) → Distinct xs → ¬ In a xs → Distinct (xs ++ a ∷ [])
  Distinct-append a [] d n = (λ i. i, tt)
  Distinct-append a (x ∷ xs) d n = (
    λ i. elim (In-append x xs (a ∷ []) i) [
      | inl l ↦ d.0 l
      | inr r ↦ elim r [ inl q ↦ n (inl (sym q)) | inr nothing ↦ nothing ]
    ],
    Distinct-append a xs d.1 (λ i. n (inr i)),
  )

  -- A set stays without repetitions.
  pub Distinct-add : (a : A) (xs : List A) → Distinct xs → Distinct (add a xs)
  unfolding add
  Distinct-add a xs d = elim (Bool-cases (has a xs)) [
    | inl old ↦ rw old d
    | inr new ↦ rw new (Distinct-append a xs d (λ i. absurd (ground (arith, In-has a xs i))))
  ]
