-- ===== src/Engine/Ordering/Latest.antt =====
-- Which envelopes the buffer accepts, in terms of the envelopes before.
use open_rtc.Base.{
  ℕ, ◌+◌, ◌≤◌, ◌<◌, ◌≡◌, ◌≢◌, refl, subst, ◌↔◌, inl, inr, true, false, Bool-cases, Option-cases,
  Option, none, some, List, [], ◌∷◌, Text, text_eq, ◌==◌, eq_iff, All, All-map, In, leb, leb→le,
  leb→gt, arith,
}
use open_rtc.Base.JsMap
use open_rtc.Base.JsMap.{JsMap}
use open_rtc.Base.JsMap.Members.{All-In}
use open_rtc.Protocol.{Envelope}
use open_rtc.Engine.Ordering.{OrderedMessageBuffer, init, accept}

-- The buffer after some envelopes, the latest one first.
unfoldable pub after : List Envelope → OrderedMessageBuffer → OrderedMessageBuffer
after [] b = b
after (e ∷ earlier) b = (accept e (after earlier b)).1

-- What the buffer knows of a session: its largest number so far.
abbrev Knows : Text → List Envelope → Option ℕ → Type 0
Knows k earlier none = All (λ h. h.session_id ≢ k) earlier
Knows k earlier (some n) =
    All (λ h. h.session_id ≡ k → h.seq ≤ n) earlier
    × (h : Envelope) × In h earlier
    × (h.session_id ≡ k)
    × (h.seq ≡ n)

accept_fresh :
    (e : Envelope) (b : OrderedMessageBuffer)
    → JsMap.get e.session_id b.last_seq ≡ none
    → accept e b ≡ (true, record b { last_seq = JsMap.set e.session_id e.seq b.last_seq })
unfolding accept
accept_fresh e b fresh = rw (accept, fresh) refl

accept_stale :
    (e : Envelope) (b : OrderedMessageBuffer) (n : ℕ)
    → JsMap.get e.session_id b.last_seq ≡ some n
    → leb e.seq n ≡ true
    → accept e b ≡ (false, b)
unfolding accept
accept_stale e b n known old = elim (Bool-cases (leb n (e.seq + b.max_backward_gap))) [
  | inl close ↦ rw (accept, known, old, close) refl
  | inr far ↦ rw (accept, known, old, far) refl
]

accept_newer :
    (e : Envelope) (b : OrderedMessageBuffer) (n : ℕ)
    → JsMap.get e.session_id b.last_seq ≡ some n
    → leb e.seq n ≡ false
    → accept e b ≡ (true, record b { last_seq = JsMap.set e.session_id e.seq b.last_seq })
unfolding accept
accept_newer e b n known new = rw (accept, known, new) refl

-- The entry of a session whose envelopes are all below a new one.
Knows-new :
    (e : Envelope) (earlier : List Envelope)
    → All (λ h. h.session_id ≡ e.session_id → h.seq < e.seq) earlier
    → Knows e.session_id (e ∷ earlier) (some e.seq)
Knows-new e earlier below = (
  (λ q. omega arith, All-map _ _ earlier (λ h f q. omega (arith, f q)) below),
  e,
  inl refl,
  refl,
  refl,
)

-- The decision on an envelope, and the entry of its session afterwards.
decide :
    (e : Envelope) (b : OrderedMessageBuffer) (earlier : List Envelope)
    → Knows e.session_id earlier (JsMap.get e.session_id b.last_seq)
    → (((accept e b).0 ≡ true) ↔ All (λ h. h.session_id ≡ e.session_id → h.seq < e.seq) earlier)
      × Knows e.session_id (e ∷ earlier) (JsMap.get e.session_id (accept e b).1.last_seq)
decide e b earlier k = elim (Option-cases (JsMap.get e.session_id b.last_seq)) [
  | inl fresh ↦
      let unseen : Knows e.session_id earlier none = rw fresh at k in
      let below : All (λ h. h.session_id ≡ e.session_id → h.seq < e.seq) earlier =
        All-map _ _ earlier (λ h other q. absurd (other q)) unseen in
      rw (accept_fresh e b fresh, JsMap.get-set_self e.session_id e.seq b.last_seq)
        ((λ _. below, λ _. refl), Knows-new e earlier below)
  | inr (n, known) ↦
      let (bound, h, there, its, largest) : Knows e.session_id earlier (some n) = rw known at k in
      elim (Bool-cases (leb e.seq n)) [
        | inl old ↦
            let le : e.seq ≤ n = leb→le e.seq n old in
            rw (accept_stale e b n known old, known)
              (
                (
                  λ q. absurd (cc q),
                  λ below.
                      let lt : h.seq < e.seq =
                        All-In (λ x. x.session_id ≡ e.session_id → x.seq < e.seq) h earlier below
                          there its in
                      absurd (omega (arith, le, lt, largest)),
                ),
                ((λ _. le, bound), h, inr there, its, largest),
              )
        | inr new ↦
            let lt : n < e.seq = leb→gt e.seq n new in
            let below : All (λ x. x.session_id ≡ e.session_id → x.seq < e.seq) earlier =
              All-map _ _ earlier (λ x f q. omega (arith, f q, lt)) bound in
            rw (accept_newer e b n known new, JsMap.get-set_self e.session_id e.seq b.last_seq)
              ((λ _. below, λ _. refl), Knows-new e earlier below)
      ]
]

accept_other :
    (e : Envelope) (b : OrderedMessageBuffer) (k : Text)
    → (e.session_id == k) ≡ false
    → JsMap.get k (accept e b).1.last_seq ≡ JsMap.get k b.last_seq
accept_other e b k ne = elim (Option-cases (JsMap.get e.session_id b.last_seq)) [
  | inl fresh ↦ rw (accept_fresh e b fresh) (JsMap.get-set_ne e.session_id k e.seq b.last_seq ne)
  | inr (n, known) ↦ elim (Bool-cases (leb e.seq n)) [
    | inl old ↦ rw (accept_stale e b n known old) refl
    | inr new ↦
        rw (accept_newer e b n known new) (JsMap.get-set_ne e.session_id k e.seq b.last_seq ne)
  ]
]

-- An envelope of another session changes nothing for this one.
Knows-other :
    (e : Envelope) (earlier : List Envelope) (k : Text) (o : Option ℕ)
    → e.session_id ≢ k
    → Knows k earlier o
    → Knows k (e ∷ earlier) o
Knows-other e earlier k none ne h = (ne, h)
Knows-other e earlier k (some n) ne (bound, h, there, its, largest) =
    ((λ q. absurd (ne q), bound), h, inr there, its, largest)

after-Knows :
    (gap : Option ℕ) (earlier : List Envelope) (k : Text)
    → Knows k earlier (JsMap.get k (after earlier (init gap)).last_seq)
unfolding after init JsMap.get
after-Knows gap [] k = tt
after-Knows gap (e ∷ earlier) k = elim (Bool-cases (e.session_id == k)) [
  | inl same ↦
      subst (λ z. Knows z (e ∷ earlier) (JsMap.get z (after (e ∷ earlier) (init gap)).last_seq))
        ((eq_iff e.session_id k).0 same)
        (decide e (after earlier (init gap)) earlier (after-Knows gap earlier e.session_id)).1
  | inr ne ↦
      let b = after earlier (init gap) in
      rw (accept_other e b k ne) (
        Knows-other e earlier k (JsMap.get k b.last_seq) (λ q. cc ((eq_iff e.session_id k).1 q))
          (after-Knows gap earlier k))
]

-- After any envelopes, the next one is accepted exactly when its number is above those of all
-- envelopes of its session before it, whatever the backward gap.
pub accept_iff :
    (gap : Option ℕ) (earlier : List Envelope) (e : Envelope)
    → ((accept e (after earlier (init gap))).0 ≡ true)
      ↔ All (λ h. h.session_id ≡ e.session_id → h.seq < e.seq) earlier
accept_iff gap earlier e =
    (decide e (after earlier (init gap)) earlier (after-Knows gap earlier e.session_id)).0
