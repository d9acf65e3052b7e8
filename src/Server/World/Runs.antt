-- ===== src/Server/World/Runs.antt =====
-- The calls of packages/server/src/core.ts by their guards: runs that succeed, and runs that throw.
use open_rtc.Base.{◌≡◌, refl, ap, subst, ◌⊎◌, inl, inr, Bool, true, false, Option, none, some}
use open_rtc.Server.Errors.{ServerError}
use open_rtc.Server.World.{World, Result, ok, err, M, proceed, throw_if, present}

pub ok-bind :
    {A B : Type 0} (m : M A) (f : A → M B) (b : B) (w w' : World)
    → proceed f (m w) ≡ (ok b, w')
    → (a : A) × (v : World) × (m w ≡ (ok a, v)) × (f a v ≡ (ok b, w'))
unfolding proceed
ok-bind {A = A} {B = B} m f b w w' h = cases (m w) refl h
  where
    cases :
        (p : Result A × World)
        → m w ≡ p
        → proceed f p ≡ (ok b, w')
        → (a : A) × (v : World) × (m w ≡ (ok a, v)) × (f a v ≡ (ok b, w'))
    cases (ok a, v) q h = (a, v, q, h)
    cases (err e, v) q h = absurd (cc h)

pub err-bind :
    {A B : Type 0} (m : M A) (f : A → M B) (e : ServerError) (w w' : World)
    → proceed f (m w) ≡ (err e, w')
    → (m w ≡ (err e, w')) ⊎ ((a : A) × (v : World) × (m w ≡ (ok a, v)) × (f a v ≡ (err e, w')))
unfolding proceed
err-bind {A = A} {B = B} m f e w w' h = cases (m w) refl h
  where
    cases :
        (p : Result A × World)
        → m w ≡ p
        → proceed f p ≡ (err e, w')
        → (m w ≡ (err e, w')) ⊎ ((a : A) × (v : World) × (m w ≡ (ok a, v)) × (f a v ≡ (err e, w')))
    cases (ok a, v) q h = inr (a, v, q, h)
    cases (err d, v) q h =
        let same : d ≡ e = cc h in
        let world : v ≡ w' = ap (λ p. p.1) h in
        inl (subst (λ (z : ServerError × World). m w ≡ (err z.0, z.1)) (λ i. (same i, world i)) q)

pub ok-throw_if :
    {B : Type 0} (t : Bool) (e : ServerError) (f : Unit {0} → M B) (b : B) (w w' : World)
    → proceed f (throw_if t e w) ≡ (ok b, w')
    → (t ≡ false) × (f tt w ≡ (ok b, w'))
unfolding throw_if proceed
ok-throw_if true e f b w w' h = absurd (cc h)
ok-throw_if false e f b w w' h = (refl, h)

pub ok-present :
    {A B : Type 0} (o : Option A) (e : ServerError) (f : A → M B) (b : B) (w w' : World)
    → proceed f (present o e w) ≡ (ok b, w')
    → (a : A) × (o ≡ some a) × (f a w ≡ (ok b, w'))
unfolding present proceed
ok-present none e f b w w' h = absurd (cc h)
ok-present (some a) e f b w w' h = (a, refl, h)

-- A run that throws was stopped at the guard, or behind it.
pub err-throw_if :
    {B : Type 0} (t : Bool) (d : ServerError) (f : Unit {0} → M B) (e : ServerError) (w w' : World)
    → proceed f (throw_if t d w) ≡ (err e, w')
    → ((t ≡ true) × (d ≡ e) × (w ≡ w')) ⊎ ((t ≡ false) × (f tt w ≡ (err e, w')))
unfolding throw_if proceed
err-throw_if true d f e w w' h = inl (refl, cc h, ap (λ p. p.1) h)
err-throw_if false d f e w w' h = inr (refl, h)

pub err-present :
    {A B : Type 0} (o : Option A) (d : ServerError) (f : A → M B) (e : ServerError) (w w' : World)
    → proceed f (present o d w) ≡ (err e, w')
    → ((o ≡ none) × (d ≡ e) × (w ≡ w')) ⊎ ((a : A) × (o ≡ some a) × (f a w ≡ (err e, w')))
unfolding present proceed
err-present none d f e w w' h = inl (refl, cc h, ap (λ p. p.1) h)
err-present (some a) d f e w w' h = inr (a, refl, h)

pub ok_inj :
    {A : Type 0} (a b : A) (w w' : World)
    → ◌≡◌ {A = Result A × World} (ok a, w) (ok b, w')
    → (a ≡ b) × (w ≡ w')
ok_inj a b w w' h = (cc h, ap (λ p. p.1) h)
