-- ===== src/Transport/Reorder/Drain.antt =====
-- packages/transport/src/internal/reorder.ts: the loop of `push`.
use open_rtc.Base.{
  ℕ, zero, suc, ◌+◌, ◌≤◌, ◌≡◌, refl, ◌≢◌, inl, inr, Option-cases, List, [], ◌∷◌, All, All-zip,
  arith, nat_eq,
}
use open_rtc.Base.JsMap
use open_rtc.Base.JsMap.{JsMap}
use open_rtc.Protocol.{Envelope}
use open_rtc.Transport.Reorder.{SenderState, drain}

-- Frames that carry the numbers lo, lo + 1, …, hi - 1 in this order.
abbrev pub Consecutive : ℕ → List Envelope → ℕ → Type 0
Consecutive lo [] hi = lo ≡ hi
Consecutive lo (e ∷ es) hi = (e.seq ≡ lo) × Consecutive (lo + 1) es hi

-- A buffered frame stands under its own number, which is `lo` or more.
abbrev pub From : ℕ → ℕ × Envelope → Type 0
From lo e = (lo ≤ e.0) × (e.1.seq ≡ e.0)

-- The state after one round.
abbrev pub taken : SenderState → SenderState
taken s = record s { next = s.next + 1; buffer = JsMap.delete s.next s.buffer }

From-suc :
    (lo : ℕ) (m : JsMap ℕ Envelope)
    → All (From lo) m
    → All (λ e. e.0 ≢ lo) m
    → All (From (lo + 1)) m
From-suc lo m h n =
    All-zip (From lo) (λ e. e.0 ≢ lo) (From (lo + 1)) m (λ x p q. (omega arith, p.1)) h n

-- The loop keeps what its frames have in common.
pub All-drain :
    (P : ℕ × Envelope → Type 0) (fuel : ℕ) (s : SenderState)
    → All P s.buffer
    → All P (drain fuel s).state.buffer
unfolding drain
All-drain P zero s h = h
All-drain P (suc fuel) s h = elim (Option-cases (JsMap.get s.next s.buffer)) [
  | inl e ↦ rw (e, drain) h
  | inr (m, e) ↦ rw (e, drain) (All-drain P fuel (taken s) (JsMap.All-delete P s.next s.buffer h))
]

pub drain-Consecutive :
    (fuel : ℕ) (s : SenderState)
    → All (From s.next) s.buffer
    → Consecutive s.next (drain fuel s).out (drain fuel s).state.next
unfolding drain
drain-Consecutive zero s h = refl
drain-Consecutive (suc fuel) s h = elim (Option-cases (JsMap.get s.next s.buffer)) [
  | inl e ↦ rw (e, drain) refl
  | inr (m, e) ↦
      rw (e, drain)
        (
          (JsMap.get-All (From s.next) s.next m s.buffer h e).1,
          drain-Consecutive fuel (taken s) (
              From-suc s.next _ (JsMap.All-delete (From s.next) s.next s.buffer h)
                (JsMap.delete-ne s.next s.buffer)),
        )
]

-- With a round for each buffered frame the loop stops by its test: what is left lies beyond the
-- frame that is missing.
pub drain-From :
    (fuel : ℕ) (s : SenderState)
    → JsMap.size s.buffer ≤ fuel
    → All (From s.next) s.buffer
    → All (From ((drain fuel s).state.next + 1)) (drain fuel s).state.buffer
unfolding drain
drain-From zero s f h = JsMap.All_of_empty (From (s.next + 1)) s.buffer f
drain-From (suc fuel) s f h = elim (Option-cases (JsMap.get s.next s.buffer)) [
  | inl e ↦ rw (e, drain) (From-suc s.next s.buffer h (JsMap.ne_of_get-none s.next s.buffer e))
  | inr (m, e) ↦
      rw (e, drain)
        (drain-From fuel (taken s) (omega (arith, JsMap.size-delete-lt s.next s.buffer m e)) (
          From-suc s.next _ (JsMap.All-delete (From s.next) s.next s.buffer h)
            (JsMap.delete-ne s.next s.buffer)))
]

pub drain-next-le : (fuel : ℕ) (s : SenderState) → s.next ≤ (drain fuel s).state.next
unfolding drain
drain-next-le zero s = omega arith
drain-next-le (suc fuel) s = elim (Option-cases (JsMap.get s.next s.buffer)) [
  | inl e ↦ rw (e, drain) (omega arith)
  | inr (m, e) ↦ rw (e, drain) (omega (arith, drain-next-le fuel (taken s)))
]

pub drain-Unique :
    (fuel : ℕ) (s : SenderState) → JsMap.Unique s.buffer → JsMap.Unique (drain fuel s).state.buffer
unfolding drain
drain-Unique zero s u = u
drain-Unique (suc fuel) s u = elim (Option-cases (JsMap.get s.next s.buffer)) [
  | inl e ↦ rw (e, drain) u
  | inr (m, e) ↦ rw (e, drain) (drain-Unique fuel (taken s) (JsMap.Unique-delete s.next s.buffer u))
]
