-- ===== src/Transport/Reconnecting/Pace.antt =====
-- The effects of a reconnection: what they count for, and in which rhythm joins and delays come.
use open_rtc.Base.{
  ℕ, ◌+◌, ◌*◌, ◌^◌, min, ◌≤◌, ◌≡◌, refl, sym, ap, ◌∙◌, Bool, true, false, none, some, List, [], ◌∷◌,
  ◌++◌, append_assoc, append-nil, All, arith, or_else,
}
use open_rtc.Protocol.{Envelope}
use open_rtc.Transport.Reconnecting.{
  join_inner, leave_inner, emit_inner, presence_inner, dispose_inner, Effect, asked, changed,
  delayed, fetched, handed, ReconnectingOptions, ReconnectingTransport, backoff, replay,
}

-- What an effect counts for: a join asked of the inner transport, one that succeeded, a time waited.
abbrev pub join_count : Effect → ℕ
join_count (asked (join_inner _ _) _) = 1
join_count _ = 0

abbrev pub is_success : Effect → ℕ
is_success (asked (join_inner _ _) none) = 1
is_success _ = 0

abbrev pub pause : Effect → ℕ
pause (delayed ms) = ms
pause _ = 0

unfoldable pub total : (Effect → ℕ) → List Effect → ℕ
total f [] = 0
total f (x ∷ xs) = f x + total f xs

-- The longest delay of a transport.
abbrev pub cap : ReconnectingOptions → ℕ
cap opts = or_else opts.max_backoff_ms 10000

pub backoff-le : (opts : ReconnectingOptions) (attempt : ℕ) → backoff opts attempt ≤ cap opts
unfolding backoff
backoff-le opts attempt = omega arith

-- The rhythm of the attempts from a number on, where the flag says whether the next join has been
-- waited for. Each join has one delay before it, which grows by the factor with each attempt and is
-- at most the cap, and behind a join that succeeded there is no other.
abbrev pub Paced : ReconnectingOptions → ℕ → Bool → List Effect → Type 0
Paced opts attempt waited [] = Unit
Paced opts attempt waited (delayed ms ∷ xs) =
    (waited ≡ false)
    × (ms ≡ min (or_else opts.backoff_ms 300 * or_else opts.backoff_factor 2 ^ attempt) (cap opts))
    × (ms ≤ cap opts)
    × Paced opts attempt true xs
Paced opts attempt waited (asked (join_inner room self) none ∷ xs) =
    (waited ≡ true) × (total join_count xs ≡ 0) × Paced opts (attempt + 1) false xs
Paced opts attempt waited (asked (join_inner room self) (some e) ∷ xs) =
    (waited ≡ true) × Paced opts (attempt + 1) false xs
Paced opts attempt waited (asked leave_inner answer ∷ xs) = Paced opts attempt waited xs
Paced opts attempt waited (asked (emit_inner e) answer ∷ xs) = Paced opts attempt waited xs
Paced opts attempt waited (asked (presence_inner p v) answer ∷ xs) = Paced opts attempt waited xs
Paced opts attempt waited (asked dispose_inner answer ∷ xs) = Paced opts attempt waited xs
Paced opts attempt waited (changed state n ∷ xs) = Paced opts attempt waited xs
Paced opts attempt waited (fetched room since ∷ xs) = Paced opts attempt waited xs
Paced opts attempt waited (handed e ∷ xs) = Paced opts attempt waited xs

-- Effects that neither wait nor ask the inner transport.
abbrev pub IsQuiet : Effect → Type 0
IsQuiet (asked c answer) = ⊥
IsQuiet (delayed ms) = ⊥
IsQuiet (changed state n) = Unit
IsQuiet (fetched room since) = Unit
IsQuiet (handed e) = Unit

pub quiet-Paced :
    (opts : ReconnectingOptions) (attempt : ℕ) (waited : Bool) (xs : List Effect)
    → All IsQuiet xs
    → Paced opts attempt waited xs
quiet-Paced opts attempt waited [] q = tt
quiet-Paced opts attempt waited (changed state n ∷ xs) q = quiet-Paced opts attempt waited xs q.1
quiet-Paced opts attempt waited (fetched room since ∷ xs) q = quiet-Paced opts attempt waited xs q.1
quiet-Paced opts attempt waited (handed e ∷ xs) q = quiet-Paced opts attempt waited xs q.1
quiet-Paced opts attempt waited (asked c answer ∷ xs) q = absurd q.0
quiet-Paced opts attempt waited (delayed ms ∷ xs) q = absurd q.0

pub quiet-total :
    (xs : List Effect)
    → All IsQuiet xs
    → (total join_count xs ≡ 0) × (total is_success xs ≡ 0) × (total pause xs ≡ 0)
unfolding total
quiet-total [] q = (refl, refl, refl)
quiet-total (changed state n ∷ xs) q =
    let (a, b, c) = quiet-total xs q.1 in (omega (arith, a), omega (arith, b), omega (arith, c))
quiet-total (fetched room since ∷ xs) q =
    let (a, b, c) = quiet-total xs q.1 in (omega (arith, a), omega (arith, b), omega (arith, c))
quiet-total (handed e ∷ xs) q =
    let (a, b, c) = quiet-total xs q.1 in (omega (arith, a), omega (arith, b), omega (arith, c))
quiet-total (asked c answer ∷ xs) q = absurd q.0
quiet-total (delayed ms ∷ xs) q = absurd q.0

-- Nothing but quiet effects behind those before.
abbrev pub Silent : List Effect → List Effect → Type 0
Silent before after = (new : List Effect) × (after ≡ before ++ new) × All IsQuiet new

pub Silent-none : (x : List Effect) → Silent x x
Silent-none x = ([], sym (append-nil x), tt)

All-append : (xs ys : List Effect) → All IsQuiet xs → All IsQuiet ys → All IsQuiet (xs ++ ys)
All-append [] ys p q = q
All-append (x ∷ xs) ys p q = (p.0, All-append xs ys p.1 q)

pub Silent-then : (x y z : List Effect) → Silent x y → Silent y z → Silent x z
Silent-then x y z (xs, p, a) (ys, q, b) =
    (xs ++ ys, q ∙ ap (λ t. t ++ ys) p ∙ append_assoc x xs ys, All-append xs ys a b)

pub Silent-log : (x : List Effect) (e : Effect) → IsQuiet e → Silent x (x ++ e ∷ [])
Silent-log x e q = (e ∷ [], refl, (q, tt))

pub replay-Silent :
    (missed : List Envelope) (t : ReconnectingTransport) → Silent t.trace (replay missed t).trace
unfolding replay
replay-Silent [] t = Silent-none t.trace
replay-Silent (e ∷ missed) t =
    Silent-then t.trace _ _ (Silent-log t.trace (handed e) tt) (replay-Silent missed _)

pub replay-bound :
    (missed : List Envelope) (t : ReconnectingTransport) → (replay missed t).bound ≡ t.bound
unfolding replay
replay-bound [] t = refl
replay-bound (e ∷ missed) t = replay-bound missed _

-- Four effects behind those before.
pub snoc_four :
    (x : List Effect) (a b c d : Effect) (rest : List Effect)
    → ((((x ++ a ∷ []) ++ b ∷ []) ++ c ∷ []) ++ d ∷ []) ++ rest ≡ x ++ (a ∷ b ∷ c ∷ d ∷ rest)
snoc_four [] a b c d rest = refl
snoc_four (y ∷ x) a b c d rest = ap (λ t. y ∷ t) (snoc_four x a b c d rest)
