-- ===== src/Transport/Composite/Dedup.antt =====
-- The merge of two paths against the engine's ordered message buffer.
use open_rtc.Base.{
  ℕ, zero, suc, ◌+◌, ◌<◌, ◌≡◌, refl, ap, ◌∙◌, Bool, true, false, Bool-cases, Option-cases, inl, inr,
  List, [], ◌∷◌, ◌++◌, Text, text_eq, leb, if◌then◌else◌, arith,
}
use open_rtc.Base.JsMap
use open_rtc.Base.JsMap.{JsMap}
use open_rtc.Protocol.{Envelope}
use open_rtc.Engine.Ordering.{OrderedMessageBuffer, accept}
use open_rtc.Transport.Composite.{CompositeTransport, seen_key, is_new, receive_times, receive}

-- Envelopes that arrive one after the other, on whatever path.
unfoldable pub receive_all : List Envelope → CompositeTransport → List Envelope × CompositeTransport
receive_all [] c = ([], c)
receive_all (e ∷ es) c = let r = receive e c in let s = receive_all es r.1 in (r.0 ++ s.0, s.1)

-- The envelope with its session and its sender as one session.
unfoldable pub relabel : Envelope → Envelope
unfolding seen_key
relabel e = record e { session_id = seen_key e }

-- The envelopes that the ordered message buffer accepts under their new labels.
unfoldable pub accepted : List Envelope → OrderedMessageBuffer → List Envelope
unfolding relabel
accepted [] b = []
accepted (e ∷ es) b =
    let r = accept (relabel e) b in if r.0 then e ∷ accepted es r.1 else accepted es r.1

is_new-accept :
    (e : Envelope) (b : OrderedMessageBuffer)
    → ((is_new e b.last_seq).0 ≡ (accept (relabel e) b).0)
      × ((is_new e b.last_seq).1 ≡ (accept (relabel e) b).1.last_seq)
unfolding is_new accept relabel
is_new-accept e b = elim (Option-cases (JsMap.get (seen_key e) b.last_seq)) [
  | inl fresh ↦ rw (is_new, accept, fresh) (refl, refl)
  | inr (n, known) ↦ elim (Bool-cases (leb e.seq n)) [
    | inr new ↦ rw (is_new, accept, known, new) (refl, refl)
    | inl old ↦ elim (Bool-cases (leb n (e.seq + b.max_backward_gap))) [
      | inl close ↦ rw (is_new, accept, known, old, close) (refl, refl)
      | inr far ↦ rw (is_new, accept, known, old, far) (refl, refl)
    ]
  ]
]

leb_self : (n : ℕ) → leb n n ≡ true
leb_self n = ground arith

-- An envelope is new only once.
again :
    (e : Envelope) (seen : JsMap Text ℕ) → is_new e (is_new e seen).1 ≡ (false, (is_new e seen).1)
unfolding is_new
again e seen = elim (Option-cases (JsMap.get (seen_key e) seen)) [
  | inl fresh ↦
      simp (is_new, fresh, JsMap.get-set_self (seen_key e) e.seq seen, leb_self e.seq) refl
  | inr (n, known) ↦ elim (Bool-cases (leb e.seq n)) [
    | inl old ↦ simp (is_new, known, old) refl
    | inr new ↦
        simp (is_new, known, new, JsMap.get-set_self (seen_key e) e.seq seen, leb_self e.seq) refl
  ]
]

stale_times :
    (n : ℕ) (e : Envelope) (seen : JsMap Text ℕ)
    → is_new e seen ≡ (false, seen)
    → receive_times n e seen ≡ ([], seen)
unfolding receive_times
stale_times zero e seen old = refl
stale_times (suc n) e seen old =
    ap
      (λ (r : Bool × JsMap Text ℕ). (
        if r.0 then e ∷ (receive_times n e r.1).0 else (receive_times n e r.1).0,
        (receive_times n e r.1).1,
      ))
      old
    ∙ stale_times n e seen old

-- More subscriptions deliver no more.
times_once :
    (n : ℕ) (e : Envelope) (seen : JsMap Text ℕ)
    → receive_times (suc n) e seen ≡ (if (is_new e seen).0 then e ∷ [] else [], (is_new e seen).1)
unfolding receive_times
times_once n e seen =
    ap (λ (r : List Envelope × JsMap Text ℕ). (if (is_new e seen).0 then e ∷ r.0 else r.0, r.1))
      (stale_times n e (is_new e seen).1 (again e seen))

receive_one :
    (e : Envelope) (c : CompositeTransport) (n : ℕ)
    → c.subscriptions ≡ suc n
    → receive e c
      ≡ (if (is_new e c.seen).0 then e ∷ [] else [], record c { seen = (is_new e c.seen).1 })
unfolding receive
receive_one e c n subs =
    ap (λ m. ((receive_times m e c.seen).0, record c { seen = (receive_times m e c.seen).1 })) subs
    ∙ ap (λ (r : List Envelope × JsMap Text ℕ). (r.0, record c { seen = r.1 }))
        (times_once n e c.seen)

successor : (m : ℕ) → 0 < m → (n : ℕ) × (m ≡ suc n)
successor zero h = absurd (omega arith)
successor (suc n) h = (n, refl)

put :
    (p q : Bool) (e : Envelope) (xs ys : List Envelope)
    → p ≡ q
    → xs ≡ ys
    → ((if p then e ∷ [] else []) ++ xs) ≡ (if q then e ∷ ys else ys)
put p q e xs ys same rest = ground arith

-- Equivalence: a composite transport that is subscribed to its two transports, once or more often,
-- hands on the envelopes that the engine's ordered message buffer accepts when session and sender
-- together are the session, however the two paths interleave and repeat them.
pub receive_all-accepted :
    (es : List Envelope) (c : CompositeTransport) (b : OrderedMessageBuffer)
    → c.seen ≡ b.last_seq
    → 0 < c.subscriptions
    → (receive_all es c).0 ≡ accepted es b
unfolding receive_all accepted receive
receive_all-accepted [] c b same bound = refl
receive_all-accepted (e ∷ es) c b same bound =
    let (n, subs) = successor c.subscriptions bound in
    let (now, later) = is_new-accept e b in
    let flag : (is_new e c.seen).0 ≡ (accept (relabel e) b).0 =
      ap (λ m. (is_new e m).0) same ∙ now in
    let map : (is_new e c.seen).1 ≡ (accept (relabel e) b).1.last_seq =
      ap (λ m. (is_new e m).1) same ∙ later in
    let one = receive_one e c n subs in
    let rest =
      receive_all-accepted es (record c { seen = (is_new e c.seen).1 }) (accept (relabel e) b).1 map
        bound in
    ap (λ (r : List Envelope × CompositeTransport). r.0 ++ (receive_all es r.1).0) one
    ∙ put (is_new e c.seen).0 (accept (relabel e) b).0 e _ _ flag rest
