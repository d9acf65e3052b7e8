-- ===== src/Transport/Reorder/Order.antt =====
-- packages/transport/src/internal/reorder.ts, `push`: the order of the frames released for one sender.
use open_rtc.Base.{
  ℕ, ◌+◌, ◌-◌, ◌≤◌, ◌<◌, ◌≡◌, refl, sym, subst, ◌≢◌, inl, inr, Bool-cases, List, [], ◌∷◌, ◌++◌, All,
  All-map, All-zip, arith, nat_eq, ltb, leb, tests, ltb→ge, false, max,
}
use open_rtc.Base.JsMap
use open_rtc.Base.JsMap.{JsMap}
use open_rtc.Protocol.{Envelope}
use open_rtc.Transport.Reorder.Cases.{push_sender_cases, filled, drained}
use open_rtc.Transport.Reorder.Drain.{
  Consecutive, From, drain-Consecutive, drain-From, drain-Unique,
}
use open_rtc.Transport.Reorder.{
  SenderState, Released, largest, insert_by_key, sort_by_key, flush_gap, push_sender,
}

-- Strictly ascending numbers from `lo` up to below `hi`.
abbrev pub Ascends : ℕ → List Envelope → ℕ → Type 0
Ascends lo [] hi = lo ≤ hi
Ascends lo (e ∷ es) hi = (lo ≤ e.seq) × Ascends (e.seq + 1) es hi

pub Ascends-append :
    (lo mid hi : ℕ) (xs ys : List Envelope)
    → Ascends lo xs mid
    → Ascends mid ys hi
    → Ascends lo (xs ++ ys) hi
Ascends-append lo mid hi [] [] a b = omega arith
Ascends-append lo mid hi [] (y ∷ ys) a b = (omega arith, b.1)
Ascends-append lo mid hi (x ∷ xs) ys a b = (a.0, Ascends-append (x.seq + 1) mid hi xs ys a.1 b)

Consecutive-Ascends : (lo hi : ℕ) (xs : List Envelope) → Consecutive lo xs hi → Ascends lo xs hi
Consecutive-Ascends lo hi [] c = omega arith
Consecutive-Ascends lo hi (x ∷ xs) c =
    (omega arith, rw c.0 (Consecutive-Ascends (lo + 1) hi xs c.1))

-- The same of the keys of a buffer.
abbrev Rising : ℕ → JsMap ℕ Envelope → ℕ → Type 0
Rising lo [] hi = lo ≤ hi
Rising lo (e ∷ m) hi = (lo ≤ e.0) × Rising (e.0 + 1) m hi

insert_by_key-Rising :
    (lo hi : ℕ) (e : ℕ × Envelope) (m : JsMap ℕ Envelope)
    → lo ≤ e.0
    → e.0 < hi
    → All (λ f. f.0 ≢ e.0) m
    → Rising lo m hi
    → Rising lo (insert_by_key e m) hi
unfolding insert_by_key
insert_by_key-Rising lo hi e [] l h n r = (l, omega arith)
insert_by_key-Rising lo hi e (f ∷ m) l h n r = elim (Bool-cases (leb e.0 f.0)) [
  | inl before ↦ rw before (l, (omega tests, r.1))
  | inr after ↦ rw after (r.0, insert_by_key-Rising (f.0 + 1) hi e m (omega tests) h n.1 r.1)
]

All-insert_by_key :
    (P : ℕ × Envelope → Type 0) (e : ℕ × Envelope) (m : JsMap ℕ Envelope)
    → P e
    → All P m
    → All P (insert_by_key e m)
unfolding insert_by_key
All-insert_by_key P e [] p h = (p, tt)
All-insert_by_key P e (f ∷ m) p h = elim (Bool-cases (leb e.0 f.0)) [
  | inl before ↦ rw before (p, h)
  | inr after ↦ rw after (h.0, All-insert_by_key P e m p h.1)
]

pub All-sort_by_key :
    (P : ℕ × Envelope → Type 0) (m : JsMap ℕ Envelope) → All P m → All P (sort_by_key m)
unfolding sort_by_key
All-sort_by_key P [] h = tt
All-sort_by_key P (e ∷ m) h = All-insert_by_key P e (sort_by_key m) h.0 (All-sort_by_key P m h.1)

sort_by_key-Rising :
    (lo hi : ℕ) (m : JsMap ℕ Envelope)
    → lo ≤ hi
    → JsMap.Unique m
    → All (λ e. (lo ≤ e.0) × (e.0 < hi)) m
    → Rising lo (sort_by_key m) hi
unfolding sort_by_key
sort_by_key-Rising lo hi [] l u h = l
sort_by_key-Rising lo hi (e ∷ m) l u h =
    insert_by_key-Rising lo hi e (sort_by_key m) h.0.0 h.0.1
      (All-sort_by_key (λ f. f.0 ≢ e.0) m u.0) (sort_by_key-Rising lo hi m l u.1 h.1)

Rising-Ascends :
    (lo hi : ℕ) (m : JsMap ℕ Envelope)
    → All (λ e. e.1.seq ≡ e.0) m
    → Rising lo m hi
    → Ascends lo (JsMap.values m) hi
Rising-Ascends lo hi [] h r = r
Rising-Ascends lo hi (e ∷ m) h r = (omega arith, rw h.0 (Rising-Ascends (e.0 + 1) hi m h.1 r.1))

largest-le : (k : ℕ) (m : JsMap ℕ Envelope) → k ≤ largest k m
unfolding largest
largest-le k [] = omega arith
largest-le k ((j, e) ∷ m) = omega (arith, largest-le (max k j) m)

largest-All : (k : ℕ) (m : JsMap ℕ Envelope) → All (λ e. e.0 ≤ largest k m) m
unfolding largest
largest-All k [] = tt
largest-All k ((j, e) ∷ m) = (omega (arith, largest-le (max k j) m), largest-All (max k j) m)

-- A sender's state between two pushes: the next frame is missing, and the buffered frames stand
-- under their own numbers, each once, within the window of `max_gap`.
pub record IsValid (gap : ℕ) (s : SenderState) : Type 0 where
  pub entries : All (From (s.next + 1)) s.buffer
  pub window : All (λ e. e.0 < s.next + gap) s.buffer
  pub unique : JsMap.Unique s.buffer

-- What a push does to a sender from `lo` on.
pub record Delivers (gap lo : ℕ) (r : Released) : Type 0 where
  pub ascends : Ascends lo r.out r.state.next
  pub valid : IsValid gap r.state

flush_gap-Delivers :
    (gap now lo : ℕ) (s : SenderState) (out : List Envelope) (m : JsMap ℕ Envelope)
    → s.buffer ≡ m
    → Ascends lo out s.next
    → All (From (s.next + 1)) m
    → JsMap.Unique m
    → Delivers gap lo (flush_gap gap now s out m)
unfolding flush_gap
flush_gap-Delivers gap now lo s out [] b a f u = record {
  ascends = a;
  valid = record {
    entries = subst (All (From (s.next + 1))) (sym b) tt;
    window = subst (All (λ e. e.0 < s.next + gap)) (sym b) tt;
    unique = subst JsMap.Unique (sym b) tt;
  };
}
flush_gap-Delivers gap now lo s out ((k, e) ∷ m) b a f u =
    elim (Bool-cases (ltb gap (top + 1 - s.next))) [
      | inl far ↦ rw far (record {
        ascends = Ascends-append lo s.next (top + 1) out (JsMap.values (sort_by_key all)) a (
            Rising-Ascends s.next (top + 1) (sort_by_key all)
              (All-sort_by_key (λ x. x.1.seq ≡ x.0) all own)
              (sort_by_key-Rising s.next (top + 1) all (omega (arith, f.0.0, largest-le k m)) u
                bounds));
        valid = record { entries = tt; window = tt; unique = tt };
      })
      | inr near ↦ rw near (record {
        ascends = a;
        valid = record {
          entries = subst (All (From (s.next + 1))) (sym b) f;
          window = subst (All (λ x. x.0 < s.next + gap)) (sym b) (
              All-map (λ x. (s.next ≤ x.0) × (x.0 < top + 1)) (λ x. x.0 < s.next + gap) all
                (λ x h. omega (arith, ltb→ge gap (top + 1 - s.next) near)) bounds);
          unique = subst JsMap.Unique (sym b) u;
        };
      })
    ]
  where
    all : JsMap ℕ Envelope
    all = (k, e) ∷ m

    top : ℕ
    top = largest k m

    own : All (λ (x : ℕ × Envelope). x.1.seq ≡ x.0) all
    own = All-map (From (s.next + 1)) (λ x. x.1.seq ≡ x.0) all (λ x h. h.1) f

    bounds : All (λ (x : ℕ × Envelope). (s.next ≤ x.0) × (x.0 < top + 1)) all
    bounds =
        All-zip (From (s.next + 1)) (λ x. x.0 ≤ top) (λ x. (s.next ≤ x.0) × (x.0 < top + 1)) all
          (λ x p q. (omega arith, omega arith)) f (largest-le k m, largest-All k m)

-- A push releases strictly ascending numbers, none below what the sender's state expects, and
-- leaves the state valid.
pub push_sender-Delivers :
    (gap now : ℕ) (e : Envelope) (s : SenderState)
    → IsValid gap s
    → Delivers gap s.next (push_sender gap now e s)
push_sender-Delivers gap now e s v =
    push_sender_cases now e s gap (Delivers gap s.next)
      (λ _. record {
        ascends = omega arith;
        valid = record { entries = v.entries; window = v.window; unique = v.unique };
      })
      (λ new fresh.
        flush_gap-Delivers gap now s.next (drained now e s).state (drained now e s).out
          (drained now e s).state.buffer refl
          (Consecutive-Ascends s.next _ _ (drain-Consecutive _ (filled now e s) (filled-From new)))
          (drain-From _ (filled now e s) (omega arith) (filled-From new))
          (drain-Unique _ (filled now e s) (JsMap.Unique-set e.seq e s.buffer v.unique)))
  where
    filled-From : ltb e.seq s.next ≡ false → All (From s.next) (filled now e s).buffer
    filled-From new =
        JsMap.All-set (From s.next) e.seq e s.buffer (ltb→ge e.seq s.next new, refl)
          (All-map (From (s.next + 1)) (From s.next) s.buffer (λ x h. (omega arith, h.1)) v.entries)
