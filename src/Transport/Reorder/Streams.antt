-- ===== src/Transport/Reorder/Streams.antt =====
-- Many senders: the buffer as a whole, over any sequence of pushes.
use open_rtc.Base.{
  ltb, ℕ, ◌-◌, zero, suc, ◌+◌, ◌≤◌, ◌≡◌, refl, sym, subst, inl, inr, Bool, true, false, ◌&&◌,
  Bool-cases, Option-cases, none, some, List, [], ◌∷◌, ◌++◌, All, All-map, All-append, select,
  select-eq-nil, select-eq_self, select-append, arith, nat_eq, text_eq, ◌==◌, eq_iff, eq_self, Text,
  if◌then◌else◌,
}
use open_rtc.Base.JsMap
use open_rtc.Base.JsMap.{JsMap}
use open_rtc.Protocol.{Envelope, MessageType}
use open_rtc.Transport.Reorder.Cases.{push_sender_cases, filled}
use open_rtc.Transport.Reorder.Drain.{taken}
use open_rtc.Transport.Reorder.Order.{
  Ascends, Ascends-append, IsValid, Delivers, push_sender-Delivers, All-sort_by_key,
}
use open_rtc.Transport.Reorder.{
  largest, SenderState, ReorderBuffer, ReorderOptions, Released, init, drain, flush_gap,
  push_sender, find_sender, push,
}

module _ (P : Envelope → Type 0) where
  abbrev pub Holds : ℕ × Envelope → Type 0
  Holds e = P e.1

  All-values : (m : JsMap ℕ Envelope) → All Holds m → All P (JsMap.values m)
  All-values [] h = tt
  All-values (e ∷ m) h = (h.0, All-values m h.1)

  -- What holds of the buffered frames holds of those that a loop releases and of those it leaves.
  abbrev pub Keeps : Released → Type 0
  Keeps r = All P r.out × All Holds r.state.buffer

  drain-Keeps : (fuel : ℕ) (s : SenderState) → All Holds s.buffer → Keeps (drain fuel s)
  unfolding drain
  drain-Keeps zero s h = (tt, h)
  drain-Keeps (suc fuel) s h = elim (Option-cases (JsMap.get s.next s.buffer)) [
    | inl e ↦ rw (e, drain) (tt, h)
    | inr (m, e) ↦
        let rest = drain-Keeps fuel (taken s) (JsMap.All-delete Holds s.next s.buffer h) in
        rw (e, drain) ((JsMap.get-All Holds s.next m s.buffer h e, rest.0), rest.1)
  ]

  flush_gap-Keeps :
      (gap now : ℕ) (s : SenderState) (out : List Envelope) (m : JsMap ℕ Envelope)
      → s.buffer ≡ m
      → All P out
      → All Holds m
      → Keeps (flush_gap gap now s out m)
  unfolding flush_gap
  flush_gap-Keeps gap now s out [] b o h = (o, subst (All Holds) (sym b) h)
  flush_gap-Keeps gap now s out ((k, e) ∷ m) b o h =
      elim (Bool-cases (ltb gap (largest k m + 1 - s.next))) [
        | inl far ↦
            rw far (All-append P out _ o (All-values _ (All-sort_by_key Holds ((k, e) ∷ m) h)), tt)
        | inr near ↦ rw near (o, subst (All Holds) (sym b) h)
      ]

  pub push_sender-Keeps :
      (gap now : ℕ) (e : Envelope) (s : SenderState)
      → P e
      → All Holds s.buffer
      → Keeps (push_sender gap now e s)
  push_sender-Keeps gap now e s p h =
      push_sender_cases now e s gap Keeps (λ _. (tt, h))
        λ _ _.
          let d = drain-Keeps _ (filled now e s) (JsMap.All-set Holds e.seq e s.buffer p h) in
          flush_gap-Keeps gap now _ _ _ refl d.0 d.1

-- The frames that the buffer orders for the sender `x`.
abbrev pub mine : Text → (MessageType → Bool) → Envelope → Bool
mine x ordered e = (e.sender_id == x) && ordered e.type

-- What the buffer expects of `x`.
unfoldable pub expected : Text → ReorderBuffer → ℕ
expected x b = elim (JsMap.get x b.senders) [ none ↦ 0 | some s ↦ s.next ]

-- Each sender's state is valid and holds frames of that sender alone.
abbrev pub Sound : ℕ → (MessageType → Bool) → Text × SenderState → Type 0
Sound gap ordered e = IsValid gap e.1 × All (Holds (λ m. mine e.0 ordered m ≡ true)) e.1.buffer

abbrev pub IsReady : ReorderBuffer → Type 0
IsReady b = All (Sound b.max_gap b.ordered) b.senders

pub init-IsReady : (opts : ReorderOptions) → IsReady (init opts)
unfolding init
init-IsReady opts = tt

pub find_sender-Sound :
    (now : ℕ) (e : Envelope) (b : ReorderBuffer)
    → IsReady b
    → Sound b.max_gap b.ordered (e.sender_id, find_sender now e b)
unfolding find_sender
find_sender-Sound now e b r = elim (Option-cases (JsMap.get e.sender_id b.senders)) [
  | inl none_yet ↦
      rw (none_yet, find_sender) (record { entries = tt; window = tt; unique = tt }, tt)
  | inr (s, found) ↦
      rw (found, find_sender)
        (JsMap.get-All (Sound b.max_gap b.ordered) e.sender_id s b.senders r found)
]

expected-find_sender :
    (now : ℕ) (e : Envelope) (b : ReorderBuffer)
    → expected e.sender_id b ≤ (find_sender now e b).next
unfolding expected find_sender
expected-find_sender now e b = ground arith

pub mine_other :
    (x y : Text) (ordered : MessageType → Bool) (m : Envelope)
    → (y == x) ≡ false
    → mine y ordered m ≡ true
    → mine x ordered m ≡ false
mine_other x y ordered m ne h =
    ground (arith, eq_iff m.sender_id y, eq_iff m.sender_id x, eq_iff y x)

pub expected-set :
    (x k : Text) (s : SenderState) (b : ReorderBuffer)
    → expected x (record b { senders = JsMap.set k s b.senders })
      ≡ (if k == x then s.next else expected x b)
unfolding expected
expected-set x k s b = ground (arith, JsMap.get-set k x s b.senders)

-- One push, from what the buffer expected of `x` to what it expects then.
pub record Pushed (gap : ℕ) (ordered : MessageType → Bool) (x : Text) (lo : ℕ)
    (r : List Envelope × ReorderBuffer) : Type 0 where
  pub ready : All (Sound gap ordered) r.1.senders
  pub ascends : Ascends lo (select (mine x ordered) r.0) (expected x r.1)
  pub same_gap : r.1.max_gap ≡ gap
  pub same_kinds : r.1.ordered ≡ ordered

push_ordered :
    (x : Text) (now : ℕ) (e : Envelope) (b : ReorderBuffer)
    → IsReady b
    → b.ordered e.type ≡ true
    → let r = push_sender b.max_gap now e (find_sender now e b) in
      Pushed b.max_gap b.ordered x
        (expected x b)
        (r.out, record b { senders = JsMap.set e.sender_id r.state b.senders })
push_ordered x now e b ready kind = record {
  ready =
      JsMap.All-set (Sound b.max_gap b.ordered) e.sender_id r.state b.senders
        (delivers.valid, kept.1) ready;
  ascends = elim (Bool-cases (e.sender_id == x)) [
    | inl same ↦
        rw (expected-set x e.sender_id r.state b, same)
          (subst (λ y. Ascends (expected y b) (select (mine y b.ordered) r.out) r.state.next)
            ((eq_iff e.sender_id x).0 same) own)
    | inr other ↦
        rw
          (
            expected-set x e.sender_id r.state b,
            other,
            select-eq-nil (mine x b.ordered) r.out (
                All-map (λ m. mine e.sender_id b.ordered m ≡ true) (λ m. mine x b.ordered m ≡ false)
                  r.out (λ m. mine_other x e.sender_id b.ordered m other) kept.0),
          )
          (omega arith)
  ];
  same_gap = refl;
  same_kinds = refl;
}
  where
    s : SenderState
    s = find_sender now e b

    r : Released
    r = push_sender b.max_gap now e s

    sound : Sound b.max_gap b.ordered (e.sender_id, s)
    sound = find_sender-Sound now e b ready

    delivers : Delivers b.max_gap s.next r
    delivers = push_sender-Delivers b.max_gap now e s sound.0

    kept :
        All (λ m. mine e.sender_id b.ordered m ≡ true) r.out
        × All (Holds (λ m. mine e.sender_id b.ordered m ≡ true)) r.state.buffer
    kept =
        push_sender-Keeps (λ m. mine e.sender_id b.ordered m ≡ true) b.max_gap now e s
          (rw (eq_self e.sender_id) kind) sound.1

    own : Ascends (expected e.sender_id b) (select (mine e.sender_id b.ordered) r.out) r.state.next
    own = rw (select-eq_self (mine e.sender_id b.ordered) r.out kept.0) (
        Ascends-append (expected e.sender_id b) s.next r.state.next [] r.out
          (expected-find_sender now e b) delivers.ascends)

push-Pushed :
    (x : Text) (now : ℕ) (e : Envelope) (b : ReorderBuffer)
    → IsReady b
    → Pushed b.max_gap b.ordered x (expected x b) (push now e b)
unfolding push
push-Pushed x now e b ready = elim (Bool-cases (b.ordered e.type)) [
  | inl kind ↦ rw kind (push_ordered x now e b ready kind)
  | inr other ↦ rw other (record {
    ready = ready;
    ascends = rw (select-eq-nil (mine x b.ordered) (e ∷ []) (ground arith, tt)) (omega arith);
    same_gap = refl;
    same_kinds = refl;
  })
]

pub push_at :
    (gap : ℕ) (ordered : MessageType → Bool) (x : Text) (now : ℕ) (e : Envelope) (b : ReorderBuffer)
    → b.max_gap ≡ gap
    → b.ordered ≡ ordered
    → All (Sound gap ordered) b.senders
    → Pushed gap ordered x (expected x b) (push now e b)
push_at gap ordered x now e b g o ready =
    subst (λ k. Pushed k ordered x (expected x b) (push now e b)) g
      (subst (λ k. Pushed b.max_gap k x (expected x b) (push now e b)) o
        (push-Pushed x now e b (
          subst (λ k. All (Sound k b.ordered) b.senders) (sym g)
            (subst (λ k. All (Sound gap k) b.senders) (sym o) ready))))

-- The frames that reach the callbacks in a sequence of pushes, each at its time.
unfoldable pub deliver_all : List (ℕ × Envelope) → ReorderBuffer → List Envelope × ReorderBuffer
deliver_all [] b = ([], b)
deliver_all ((now, e) ∷ es) b =
    let (out, b') = push now e b in let (later, b'') = deliver_all es b' in (out ++ later, b'')

deliver_all-Pushed :
    (gap : ℕ) (ordered : MessageType → Bool) (x : Text) (es : List (ℕ × Envelope))
    (b : ReorderBuffer)
    → b.max_gap ≡ gap
    → b.ordered ≡ ordered
    → All (Sound gap ordered) b.senders
    → Pushed gap ordered x (expected x b) (deliver_all es b)
unfolding deliver_all
deliver_all-Pushed gap ordered x [] b g o ready = record {
  ready = ready;
  ascends = omega arith;
  same_gap = g;
  same_kinds = o;
}
deliver_all-Pushed gap ordered x ((now, e) ∷ es) b g o ready =
    let step = push_at gap ordered x now e b g o ready in
    let b' = (push now e b).1 in
    let rest = deliver_all-Pushed gap ordered x es b' step.same_gap step.same_kinds step.ready in
    record {
      ready = rest.ready;
      ascends = rw (select-append (mine x ordered) (push now e b).0 (deliver_all es b').0) (
          Ascends-append (expected x b) (expected x b') _ (select (mine x ordered) (push now e b).0)
            _ step.ascends rest.ascends);
      same_gap = rest.same_gap;
      same_kinds = rest.same_kinds;
    }

-- Whatever the arrival order, and whatever frames are repeated or lost, the frames of ordered kinds
-- that a fresh buffer delivers for one sender, among those of all other senders, come with strictly
-- ascending `seq`: none out of order, none twice. It holds of every sequence of pushes between two
-- sweeps.
pub deliver_all-Ascends :
    (opts : ReorderOptions) (x : Text) (es : List (ℕ × Envelope))
    → Ascends 0
        (select (mine x (init opts).ordered) (deliver_all es (init opts)).0)
        (expected x (deliver_all es (init opts)).1)
deliver_all-Ascends opts x es =
    Ascends-append 0 (expected x (init opts)) _ [] _ (omega arith)
      (deliver_all-Pushed (init opts).max_gap (init opts).ordered x es (init opts) refl refl
        (init-IsReady opts)).ascends
