-- ===== src/Transport/Reorder/Complete.antt =====
-- packages/transport/src/internal/reorder.ts, `push` for one sender inside the window: the frames
-- released and the frames held.
use open_rtc.Base.{
  ℕ, zero, suc, ◌+◌, ◌<◌, ◌≡◌, refl, sym, subst, ◌⊎◌, inl, inr, true, false, Option-cases, List, [],
  ◌∷◌, ◌++◌, All, All-map, arith, nat_eq, eq_iff, ltb, max,
}
use open_rtc.Base.JsMap
use open_rtc.Base.JsMap.{JsMap}
use open_rtc.Protocol.{Envelope}
use open_rtc.Transport.Reorder.Cases.{push_sender_cases, filled, drained}
use open_rtc.Transport.Reorder.Drain.{Consecutive, From, taken, All-drain, drain-Consecutive}
use open_rtc.Transport.Reorder.Order.{IsValid}
use open_rtc.Transport.Reorder.{SenderState, Released, drain, largest, flush_gap, push_sender}

pub Consecutive-append :
    (lo mid hi : ℕ) (xs ys : List Envelope)
    → Consecutive lo xs mid
    → Consecutive mid ys hi
    → Consecutive lo (xs ++ ys) hi
Consecutive-append lo mid hi [] ys a b = subst (λ k. Consecutive k ys hi) (sym a) b
Consecutive-append lo mid hi (x ∷ xs) ys a b = (a.0, Consecutive-append (lo + 1) mid hi xs ys a.1 b)

-- Released already, or held.
abbrev pub Known : ℕ → ℕ → JsMap ℕ Envelope → Type 0
Known n next buffer = (n < next) ⊎ (JsMap.has n buffer ≡ true)

abbrev pub IsLow : ℕ → JsMap ℕ Envelope → Type 0
IsLow gap = All λ e. e.0 < gap

drain-Known :
    (fuel : ℕ) (s : SenderState) (n : ℕ)
    → Known n s.next s.buffer
    → Known n (drain fuel s).state.next (drain fuel s).state.buffer
unfolding drain
drain-Known zero s n h = h
drain-Known (suc fuel) s n h = elim (Option-cases (JsMap.get s.next s.buffer)) [
  | inl e ↦ rw (e, drain) h
  | inr (m, e) ↦ rw (e, drain) (drain-Known fuel (taken s) n after)
]
  where
    after : Known n (taken s).next (taken s).buffer
    after = ground (arith, JsMap.get-delete s.next n s.buffer, eq_iff s.next n)

largest-lt : (gap k : ℕ) (m : JsMap ℕ Envelope) → k < gap → IsLow gap m → largest k m < gap
unfolding largest
largest-lt gap k [] h l = h
largest-lt gap k ((j, e) ∷ m) h l = largest-lt gap (max k j) m (omega arith) l.1

flush_gap-low :
    (gap now : ℕ) (s : SenderState) (out : List Envelope) (m : JsMap ℕ Envelope)
    → IsLow gap m
    → flush_gap gap now s out m ≡ record { out = out; state = s }
unfolding flush_gap
flush_gap-low gap now s out [] l = refl
flush_gap-low gap now s out ((k, e) ∷ m) l = ground (arith, largest-lt gap k m)

-- What a push does to a sender whose numbers stay low.
pub record Advances (gap : ℕ) (e : Envelope) (s : SenderState) (r : Released) : Type 0 where
  pub consecutive : Consecutive s.next r.out r.state.next
  pub low : IsLow gap r.state.buffer
  pub known : (n : ℕ) → Known n s.next s.buffer → Known n r.state.next r.state.buffer
  pub arrived : Known e.seq r.state.next r.state.buffer

pub push_sender-Advances :
    (gap now : ℕ) (e : Envelope) (s : SenderState)
    → IsValid gap s
    → IsLow gap s.buffer
    → e.seq < gap
    → Advances gap e s (push_sender gap now e s)
push_sender-Advances gap now e s v l h =
    push_sender_cases now e s gap (Advances gap e s)
      (λ why. record { consecutive = refl; low = l; known = λ n k. k; arrived = ground arith })
      λ new fresh.
        rw
          (flush_gap-low gap now (drained now e s).state (drained now e s).out
            (drained now e s).state.buffer
            (All-drain (λ x. x.0 < gap) _ (filled now e s) filled_low))
          (record {
            consecutive = drain-Consecutive _ (filled now e s) (filled-From new);
            low = All-drain (λ x. x.0 < gap) _ (filled now e s) filled_low;
            known = λ n k. drain-Known _ (filled now e s) n (filled-Known n k);
            arrived =
                drain-Known _ (filled now e s) e.seq
                  (inr (ground (arith, JsMap.get-set e.seq e.seq e s.buffer)));
          })
  where
    filled_low : IsLow gap (filled now e s).buffer
    filled_low = JsMap.All-set (λ x. x.0 < gap) e.seq e s.buffer h l

    filled-From : ltb e.seq s.next ≡ false → All (From s.next) (filled now e s).buffer
    filled-From new =
        JsMap.All-set (From s.next) e.seq e s.buffer (ground arith, refl)
          (All-map (From (s.next + 1)) (From s.next) s.buffer (λ x h. (omega arith, h.1)) v.entries)

    filled-Known : (n : ℕ) → Known n s.next s.buffer → Known n s.next (filled now e s).buffer
    filled-Known n k = ground (arith, JsMap.get-set e.seq n e s.buffer)
