-- ===== src/Base/JsMap.antt =====
-- A JavaScript `Map`: entries in insertion order, a key at most once. `set` on a present key keeps
-- its place.
pub mod Members
use Prim.Native.Nat.{ℕ, ◌+◌, ◌≤◌, ◌<◌}
use mathlib.Core.Path.{sym, subst, ◌≡◌, refl}
use mathlib.Core.Bool.{Bool, false}
use mathlib.Core.Logic.{◌≢◌, inl, inr}
use mathlib.Core.Option.{Option, none, some}
use mathlib.Core.List.{List, [], ◌∷◌, map}
use native.Mathlib.Omega.{arith}
use open_rtc.Base.Tests.{Bool-cases, if◌then◌else◌, is_some}
use open_rtc.Base.Lists.{length, All, All-select, select}
use open_rtc.Base.Eq.{Comparable, ◌==◌, eq_iff, eq_self}

abbrev pub JsMap {ℓ κ} : Type ℓ → Type κ → Type (ℓ ⊔ κ)
JsMap K V = List (K × V)

module _ {ℓ κ} {K : Type ℓ} {V : Type κ} where
  abbrev pub keys : JsMap K V → List K
  keys = map λ e. e.0

  abbrev pub values : JsMap K V → List V
  values = map λ e. e.1

  abbrev pub size : JsMap K V → ℕ
  size = length

  -- No key twice.
  abbrev pub Unique : JsMap K V → Type (ℓ ⊔ κ)
  Unique [] = Unit
  Unique ((k, v) ∷ m) = All (λ e. e.0 ≢ k) m × Unique m

  pub All_of_empty {ι} : (P : K × V → Type ι) (m : JsMap K V) → size m ≤ 0 → All P m
  All_of_empty P [] h = tt
  All_of_empty P (x ∷ m) h = absurd (omega arith)

  module _ ⦃c : Comparable K⦄ where
    unfoldable pub get : K → JsMap K V → Option V
    get k [] = none
    get k ((j, v) ∷ m) = if j == k then some v else get k m

    abbrev pub has : K → JsMap K V → Bool
    has k m = is_some (get k m)

    unfoldable pub set : K → V → JsMap K V → JsMap K V
    set k v [] = (k, v) ∷ []
    set k v ((j, w) ∷ m) = if j == k then (j, v) ∷ m else (j, w) ∷ set k v m

    unfoldable pub delete : K → JsMap K V → JsMap K V
    delete k [] = []
    delete k ((j, v) ∷ m) = if j == k then delete k m else (j, v) ∷ delete k m

    pub get-set :
        (k j : K) (v : V) (m : JsMap K V) → get j (set k v m) ≡ (if k == j then some v else get j m)
    unfolding get set
    get-set k j v [] = refl
    get-set k j v ((i, w) ∷ m) = ground (arith, eq_iff k j, eq_iff i k, eq_iff i j, get-set k j v m)

    pub get-set_self : (k : K) (v : V) (m : JsMap K V) → get k (set k v m) ≡ some v
    get-set_self k v m = rw (get-set k k v m, eq_self k)

    pub get-set_ne :
        (k j : K) (v : V) (m : JsMap K V) → (k == j) ≡ false → get j (set k v m) ≡ get j m
    get-set_ne k j v m h = rw (get-set k j v m, h)

    pub get-delete :
        (k j : K) (m : JsMap K V) → get j (delete k m) ≡ (if k == j then none else get j m)
    unfolding get delete
    get-delete k j [] = ground arith
    get-delete k j ((i, w) ∷ m) =
        ground (arith, eq_iff k j, eq_iff i k, eq_iff i j, get-delete k j m)

    -- What holds of every entry holds of the entry that is read.
    pub get-All {ι} :
        (P : K × V → Type ι) (k : K) (v : V) (m : JsMap K V) → All P m → get k m ≡ some v → P (k, v)
    unfolding get
    get-All P k v [] h g = absurd (cc)
    get-All P k v ((j, w) ∷ m) h g = elim (Bool-cases (j == k)) [
      | inl hit ↦
          let same : j ≡ k = (eq_iff j k).0 hit in
          let value : w ≡ v = ground (arith, hit) in
          subst (λ x. P (x, v)) same (subst (λ x. P (j, x)) value h.0)
      | inr miss ↦ get-All P k v m h.1 (ground (arith, miss))
    ]

    pub All-set {ι} :
        (P : K × V → Type ι) (k : K) (v : V) (m : JsMap K V)
        → P (k, v)
        → All P m
        → All P (set k v m)
    unfolding set
    All-set P k v [] p h = (p, tt)
    All-set P k v ((j, w) ∷ m) p h = elim (Bool-cases (j == k)) [
      | inl hit ↦ rw hit (subst (λ x. P (x, v)) (sym ((eq_iff j k).0 hit)) p, h.1)
      | inr miss ↦ rw miss (h.0, All-set P k v m p h.1)
    ]

    pub All-delete {ι} : (P : K × V → Type ι) (k : K) (m : JsMap K V) → All P m → All P (delete k m)
    unfolding delete
    All-delete P k [] h = tt
    All-delete P k ((j, w) ∷ m) h = elim (Bool-cases (j == k)) [
      | inl hit ↦ rw hit (All-delete P k m h.1)
      | inr miss ↦ rw miss (h.0, All-delete P k m h.1)
    ]

    pub delete-ne : (k : K) (m : JsMap K V) → All (λ e. e.0 ≢ k) (delete k m)
    unfolding delete
    delete-ne k [] = tt
    delete-ne k ((j, w) ∷ m) = elim (Bool-cases (j == k)) [
      | inl hit ↦ rw hit (delete-ne k m)
      | inr miss ↦ rw miss (λ e. cc ((eq_iff j k).1 e), delete-ne k m)
    ]

    pub ne_of_get-none : (k : K) (m : JsMap K V) → get k m ≡ none → All (λ e. e.0 ≢ k) m
    unfolding get
    ne_of_get-none k [] g = tt
    ne_of_get-none k ((j, w) ∷ m) g = elim (Bool-cases (j == k)) [
      | inl hit ↦ absurd (ground (arith, hit))
      | inr miss ↦ (λ e. cc ((eq_iff j k).1 e), ne_of_get-none k m (ground (arith, miss)))
    ]

    pub size-delete-le : (k : K) (m : JsMap K V) → size (delete k m) ≤ size m
    unfolding delete
    size-delete-le k [] = omega arith
    size-delete-le k ((j, w) ∷ m) = ground (arith, size-delete-le k m)

    pub size-delete-lt :
        (k : K) (m : JsMap K V) (v : V) → get k m ≡ some v → size (delete k m) < size m
    unfolding get delete
    size-delete-lt k [] v g = absurd (cc)
    size-delete-lt k ((j, w) ∷ m) v g = ground (arith, size-delete-le k m, size-delete-lt k m v)

    -- A write adds an entry exactly when the key is new.
    pub size-set :
        (k : K) (v : V) (m : JsMap K V)
        → size (set k v m) ≡ (if has k m then size m else size m + 1)
    unfolding get set
    size-set k v [] = omega arith
    size-set k v ((j, w) ∷ m) = ground (arith, size-set k v m)

    pub Unique-delete : (k : K) (m : JsMap K V) → Unique m → Unique (delete k m)
    unfolding delete
    Unique-delete k [] u = tt
    Unique-delete k ((j, w) ∷ m) u = elim (Bool-cases (j == k)) [
      | inl hit ↦ rw hit (Unique-delete k m u.1)
      | inr miss ↦ rw miss (All-delete (λ e. e.0 ≢ j) k m u.0, Unique-delete k m u.1)
    ]

    pub Unique-set : (k : K) (v : V) (m : JsMap K V) → Unique m → Unique (set k v m)
    unfolding set
    Unique-set k v [] u = (tt, tt)
    Unique-set k v ((j, w) ∷ m) u = elim (Bool-cases (j == k)) [
      | inl hit ↦ rw hit u
      | inr miss ↦ rw miss (
        All-set (λ e. e.0 ≢ j) k v m (λ q. cc ((eq_iff j k).1 (sym q))) u.0,
        Unique-set k v m u.1,
      )
    ]

    pub get-none_of_ne : (k : K) (m : JsMap K V) → All (λ e. e.0 ≢ k) m → get k m ≡ none
    unfolding get
    get-none_of_ne k [] h = refl
    get-none_of_ne k ((j, w) ∷ m) h = ground (arith, eq_iff j k, get-none_of_ne k m)

    get-select_head :
        (p : K × V → Bool) (j : K) (w : V) (m : JsMap K V)
        → All (λ e. e.0 ≢ j) m
        → get j (if p (j, w) then (j, w) ∷ select p m else select p m)
          ≡ (if p (j, w) then some w else none)
    unfolding get
    get-select_head p j w m h = elim (Bool-cases (p (j, w))) [
      | inl keep ↦ rw (keep, eq_self j)
      | inr drop ↦ rw drop (get-none_of_ne j (select p m) (All-select (λ e. e.0 ≢ j) p m h))
    ]

    -- Dropping entries by a test drops what a key reads exactly when its entry fails the test.
    pub get-select :
        (p : K × V → Bool) (k : K) (m : JsMap K V)
        → Unique m
        → get k (select p m)
          ≡ elim (get k m) [ none ↦ none | some v ↦ if p (k, v) then some v else none ]
    unfolding get
    get-select p k [] u = refl
    get-select p k ((j, w) ∷ m) u = elim (Bool-cases (j == k)) [
      | inl hit ↦ rw hit (
          subst (λ y. get y (select p ((j, w) ∷ m)) ≡ (if p (y, w) then some w else none))
            ((eq_iff j k).0 hit) (get-select_head p j w m u.0))
      | inr miss ↦ ground (arith, miss, get-select p k m u.1)
    ]
