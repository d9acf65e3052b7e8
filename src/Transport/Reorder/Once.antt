-- ===== src/Transport/Reorder/Once.antt =====
-- packages/transport/src/internal/reorder.ts: streams of many senders whose numbers lie in the window.
use open_rtc.Base.{
  ltb, ltb→ge, ltb→lt, ℕ, ◌+◌, ◌≤◌, ◌<◌, ◌≡◌, refl, sym, subst, inl, inr, Bool, true, false,
  Bool-cases, Option-cases, none, some, List, [], ◌∷◌, map, All, All-map, In, select, select-eq-nil,
  select-eq_self, select-append, arith, nat_eq, text_eq, ◌==◌, eq_iff, eq_self, Text, if◌then◌else◌,
}
use open_rtc.Base.JsMap
use open_rtc.Base.JsMap.{JsMap}
use open_rtc.Protocol.{Envelope, MessageType}
use open_rtc.Transport.Reorder.Drain.{Consecutive, From}
use open_rtc.Transport.Reorder.Complete.{Consecutive-append, Known, IsLow, push_sender-Advances}
use open_rtc.Transport.Reorder.Streams.{
  mine, mine_other, expected, expected-set, Sound, IsReady, init-IsReady, find_sender-Sound,
  push_sender-Keeps, push_at, deliver_all,
}
use open_rtc.Transport.Reorder.{
  SenderState, ReorderBuffer, ReorderOptions, Released, init, push_sender, find_sender, push,
}

-- What the buffer holds for `x`.
held : Text → ReorderBuffer → JsMap ℕ Envelope
held x b = elim (JsMap.get x b.senders) [ none ↦ [] | some s ↦ s.buffer ]

held-set :
    (x k : Text) (s : SenderState) (b : ReorderBuffer)
    → held x (record b { senders = JsMap.set k s b.senders })
      ≡ (if k == x then s.buffer else held x b)
unfolding held
held-set x k s b = ground (arith, JsMap.get-set k x s b.senders)

find_sender-held :
    (now : ℕ) (e : Envelope) (b : ReorderBuffer)
    → e.seq < b.max_gap
    → ((find_sender now e b).next ≡ expected e.sender_id b)
      × ((find_sender now e b).buffer ≡ held e.sender_id b)
unfolding find_sender expected held
find_sender-held now e b h = ground arith

-- The effect of one push on the sender `x`.
record Step (gap : ℕ) (ordered : MessageType → Bool) (x : Text) (e : Envelope) (b : ReorderBuffer)
    (r : List Envelope × ReorderBuffer) : Type 0 where
  consecutive : Consecutive (expected x b) (select (mine x ordered) r.0) (expected x r.1)
  low : IsLow gap (held x r.1)
  known : (n : ℕ) → Known n (expected x b) (held x b) → Known n (expected x r.1) (held x r.1)
  arrived : mine x ordered e ≡ true → Known e.seq (expected x r.1) (held x r.1)

-- A push that concerns others changes nothing for `x`.
Step-other :
    (gap : ℕ) (ordered : MessageType → Bool) (x : Text) (e : Envelope) (b : ReorderBuffer)
    (out : List Envelope) (b' : ReorderBuffer)
    → IsLow gap (held x b)
    → mine x ordered e ≡ false
    → All (λ m. mine x ordered m ≡ false) out
    → expected x b' ≡ expected x b
    → held x b' ≡ held x b
    → Step gap ordered x e b (out, b')
Step-other gap ordered x e b out b' low other none_mine same_next same_held = record {
  consecutive = rw (select-eq-nil (mine x ordered) out none_mine) (sym same_next);
  low = rw same_held low;
  known = λ n k. rw (same_next, same_held) k;
  arrived = λ m. absurd (cc);
}

module _ (now : ℕ) (e : Envelope) (b : ReorderBuffer) (ready : IsReady b)
    (kind : b.ordered e.type ≡ true) where
  r : Released
  r = push_sender b.max_gap now e (find_sender now e b)

  after : ReorderBuffer
  unfolding r
  after = record b { senders = JsMap.set e.sender_id r.state b.senders }

  kept : All (λ m. mine e.sender_id b.ordered m ≡ true) r.out
  unfolding r
  kept =
      (push_sender-Keeps (λ m. mine e.sender_id b.ordered m ≡ true) b.max_gap now e
        (find_sender now e b) (rw (eq_self e.sender_id) kind) (find_sender-Sound now e b ready).1).0

  Step-own :
      IsLow b.max_gap (held e.sender_id b)
      → e.seq < b.max_gap
      → Step b.max_gap b.ordered e.sender_id e b (r.out, after)
  unfolding r after
  Step-own low h =
      let (same_next, same_held) = find_sender-held now e b h in
      let s = find_sender now e b in
      let v = (find_sender-Sound now e b ready).0 in
      let a = push_sender-Advances b.max_gap now e s v (rw same_held low) h in
      let x = e.sender_id in
      let next_eq : expected x after ≡ r.state.next = rw (expected-set x x r.state b, eq_self x) in
      let held_eq : held x after ≡ r.state.buffer = rw (held-set x x r.state b, eq_self x) in
      record {
        consecutive =
            rw (select-eq_self (mine x b.ordered) r.out kept, next_eq, ← same_next) a.consecutive;
        low = rw held_eq a.low;
        known = λ n k. rw (next_eq, held_eq) (a.known n (rw (same_next, same_held) k));
        arrived = λ _. rw (next_eq, held_eq) a.arrived;
      }

push-Step :
    (x : Text) (now : ℕ) (e : Envelope) (b : ReorderBuffer)
    → IsReady b
    → IsLow b.max_gap (held x b)
    → (mine x b.ordered e ≡ true → e.seq < b.max_gap)
    → Step b.max_gap b.ordered x e b (push now e b)
unfolding push after r
push-Step x now e b ready low h = elim (Bool-cases (b.ordered e.type)) [
  | inr other ↦ rw other (
      Step-other b.max_gap b.ordered x e b (e ∷ []) b low (ground arith) (ground arith, tt) refl
        refl)
  | inl kind ↦ rw kind (elim (Bool-cases (e.sender_id == x)) [
    | inl same ↦
        let eq = (eq_iff e.sender_id x).0 same in
        subst (λ y. Step b.max_gap b.ordered y e b (out kind, b' kind)) eq
          (Step-own now e b ready kind (subst (λ y. IsLow b.max_gap (held y b)) (sym eq) low)
            (h (ground arith)))
    | inr other ↦
        Step-other b.max_gap b.ordered x e b (out kind) (b' kind) low (ground arith)
          (All-map (λ m. mine e.sender_id b.ordered m ≡ true) (λ m. mine x b.ordered m ≡ false)
            (out kind) (λ m. mine_other x e.sender_id b.ordered m other) (kept now e b ready kind))
          (rw (expected-set x e.sender_id (r now e b ready kind).state b, other))
          (rw (held-set x e.sender_id (r now e b ready kind).state b, other))
  ])
]
  where
    out : b.ordered e.type ≡ true → List Envelope
    out kind = (r now e b ready kind).out

    b' : b.ordered e.type ≡ true → ReorderBuffer
    b' kind = after now e b ready kind

push-Step_at :
    (gap : ℕ) (ordered : MessageType → Bool) (x : Text) (now : ℕ) (e : Envelope) (b : ReorderBuffer)
    → b.max_gap ≡ gap
    → b.ordered ≡ ordered
    → All (Sound gap ordered) b.senders
    → IsLow gap (held x b)
    → (mine x ordered e ≡ true → e.seq < gap)
    → Step gap ordered x e b (push now e b)
push-Step_at gap ordered x now e b g o ready low h =
    subst (λ k. Step k ordered x e b (push now e b)) g
      (subst (λ k. Step b.max_gap k x e b (push now e b)) o
        (push-Step x now e b
          (subst (λ k. All (Sound k b.ordered) b.senders) (sym g)
            (subst (λ k. All (Sound gap k) b.senders) (sym o) ready))
          (subst (λ k. IsLow k (held x b)) (sym g) low)
          (λ m. subst (λ k. e.seq < k) (sym g) (h (subst (λ k. mine x k e ≡ true) o m)))))

-- The frames of ordered kinds that `x` sends, as they arrive.
abbrev pub arrivals : Text → (MessageType → Bool) → List (ℕ × Envelope) → List Envelope
arrivals x ordered es = select (mine x ordered) (map (λ p. p.1) es)

record Run (gap : ℕ) (ordered : MessageType → Bool) (x : Text) (es : List (ℕ × Envelope))
    (b : ReorderBuffer) (r : List Envelope × ReorderBuffer) : Type 0 where
  consecutive : Consecutive (expected x b) (select (mine x ordered) r.0) (expected x r.1)
  known : (n : ℕ) → Known n (expected x b) (held x b) → Known n (expected x r.1) (held x r.1)
  arrived : All (λ e. Known e.seq (expected x r.1) (held x r.1)) (arrivals x ordered es)
  ready : All (Sound gap ordered) r.1.senders

low_head :
    (gap : ℕ) (p : Envelope → Bool) (e : Envelope) (es : List Envelope)
    → All (λ m. m.seq < gap) (select p (e ∷ es))
    → (p e ≡ true → e.seq < gap) × All (λ m. m.seq < gap) (select p es)
low_head gap p e es h = elim (Bool-cases (p e)) [
  | inl hit ↦ let h' = rw hit at h in (λ _. h'.0, h'.1)
  | inr miss ↦ (λ m. absurd (cc), rw miss at h)
]

deliver_all-Run :
    (gap : ℕ) (ordered : MessageType → Bool) (x : Text) (es : List (ℕ × Envelope))
    (b : ReorderBuffer)
    → b.max_gap ≡ gap
    → b.ordered ≡ ordered
    → All (Sound gap ordered) b.senders
    → IsLow gap (held x b)
    → All (λ e. e.seq < gap) (arrivals x ordered es)
    → Run gap ordered x es b (deliver_all es b)
unfolding deliver_all
deliver_all-Run gap ordered x [] b g o ready low h = record {
  consecutive = refl;
  known = λ n k. k;
  arrived = tt;
  ready = ready;
}
deliver_all-Run gap ordered x ((now, e) ∷ es) b g o ready low h =
    let (own, others) = low_head gap (mine x ordered) e (map (λ p. p.1) es) h in
    let step = push-Step_at gap ordered x now e b g o ready low own in
    let pushed = push_at gap ordered x now e b g o ready in
    let b' = (push now e b).1 in
    let rest =
      deliver_all-Run gap ordered x es b' pushed.same_gap pushed.same_kinds pushed.ready step.low
        others in
    record {
      consecutive = rw (select-append (mine x ordered) (push now e b).0 (deliver_all es b').0) (
          Consecutive-append (expected x b) (expected x b') _
            (select (mine x ordered) (push now e b).0) _ step.consecutive rest.consecutive);
      known = λ n k. rest.known n (step.known n k);
      arrived = elim (Bool-cases (mine x ordered e)) [
        | inl hit ↦ rw hit (rest.known e.seq (step.arrived hit), rest.arrived)
        | inr miss ↦ rw miss rest.arrived
      ];
      ready = rest.ready;
    }

-- A frame that is missing is not held.
missing :
    (gap : ℕ) (ordered : MessageType → Bool) (x : Text) (b : ReorderBuffer)
    → All (Sound gap ordered) b.senders
    → JsMap.has (expected x b) (held x b) ≡ false
unfolding expected held JsMap.get
missing gap ordered x b ready = elim (Option-cases (JsMap.get x b.senders)) [
  | inl absent ↦ rw (absent, expected, held) refl
  | inr (s, found) ↦
      let v = (JsMap.get-All (Sound gap ordered) x s b.senders ready found).0 in
      rw (found, expected, held)
        (elim (Option-cases (JsMap.get s.next s.buffer)) [
          | inl e ↦ rw e refl
          | inr (m, e) ↦
              absurd
                (omega (arith, (JsMap.get-All (From (s.next + 1)) s.next m s.buffer v.entries e).0))
        ])
]

arrival-Known :
    (next : ℕ) (buffer : JsMap ℕ Envelope) (n : ℕ) (es : List Envelope)
    → All (λ e. Known e.seq next buffer) es
    → In n (map (λ e. e.seq) es)
    → Known n next buffer
arrival-Known next buffer n [] h i = absurd i
arrival-Known next buffer n (e ∷ es) h (inl q) = subst (λ k. Known k next buffer) (sym q) h.0
arrival-Known next buffer n (e ∷ es) h (inr i) = arrival-Known next buffer n es h.1 i

-- When the frames of ordered kinds of one sender carry numbers below `max_gap`, a fresh buffer
-- delivers them as 0, 1, 2, … without a gap or a repetition, in whatever order and however often
-- they arrive among those of other senders; and once all numbers below `n` have arrived, all of
-- them have been delivered.
pub deliver_all-Consecutive :
    (opts : ReorderOptions) (x : Text) (es : List (ℕ × Envelope)) (n : ℕ)
    → All (λ e. e.seq < (init opts).max_gap) (arrivals x (init opts).ordered es)
    → ((i : ℕ) → i < n → In i (map (λ e. e.seq) (arrivals x (init opts).ordered es)))
    → (k : ℕ) × Consecutive 0 (select (mine x (init opts).ordered) (deliver_all es (init opts)).0) k
      × (n ≤ k)
unfolding expected held init JsMap.get
deliver_all-Consecutive opts x es n low all =
    let b = init opts in
    let run = deliver_all-Run b.max_gap b.ordered x es b refl refl (init-IsReady opts) tt low in
    let b' = (deliver_all es b).1 in
    (
      expected x b',
      run.consecutive,
      elim (Bool-cases (ltb (expected x b') n)) [
        | inr enough ↦ ltb→ge (expected x b') n enough
        | inl short ↦
            elim (arrival-Known (expected x b') (held x b') (expected x b')
              (arrivals x b.ordered es) run.arrived
              (all (expected x b') (ltb→lt (expected x b') n short))) [
                | inl below ↦ absurd (omega arith)
                | inr there ↦ absurd (cc (missing b.max_gap b.ordered x b' run.ready))
              ]
      ],
    )
