-- ===== src/Base/Keys.antt =====
-- Keys that join two ids with a NUL character.
use mathlib.Core.Path.{◌≡◌, refl}
use mathlib.Core.Logic.{◌≢◌}
use mathlib.Core.Bool.{true}
use mathlib.Core.List.{[], ◌∷◌, ◌++◌}
use native.Mathlib.Omega.{arith}
use open_rtc.Base.Lists.{All}
use open_rtc.Base.Eq.{Text, text_beq, text_beq_iff}

-- An id without the separator.
abbrev pub IsPlain : Text → Type 0
IsPlain = All λ c. c ≢ 0

-- Two joined keys with plain first parts are equal only if their parts are.
pub key_parts :
    (r q p s : Text)
    → IsPlain r
    → IsPlain q
    → text_beq (r ++ 0 ∷ p) (q ++ 0 ∷ s) ≡ true
    → (r ≡ q) × (p ≡ s)
key_parts [] [] p s a b h = (refl, (text_beq_iff p s).0 (ground arith))
key_parts [] (d ∷ q) p s a b h = absurd (b.0 (ground arith))
key_parts (c ∷ r) [] p s a b h = absurd (a.0 (ground arith))
key_parts (c ∷ r) (d ∷ q) p s a b h =
    let head : c ≡ d = ground arith in
    let tail : text_beq (r ++ 0 ∷ p) (q ++ 0 ∷ s) ≡ true = ground arith in
    let (e, f) = key_parts r q p s a.1 b.1 tail in (λ i. head i ∷ e i, f)

-- The keys of two members of one place are equal only if the members are.
pub key_member : (r p s : Text) → text_beq (r ++ 0 ∷ p) (r ++ 0 ∷ s) ≡ true → p ≡ s
key_member [] p s h = (text_beq_iff p s).0 (ground arith)
key_member (c ∷ r) p s h = key_member r p s (ground arith)
