-- ===== src/Transport/Reorder/Stalls.antt =====
-- packages/transport/src/internal/reorder.ts: the anchor of a sender's position. A sender's `seq`
-- counts its frames of every kind (packages/core/src/room.ts, `nextSeq`), those of ordered kinds
-- move `next`, and a sweep drops the position.
use open_rtc.Base.{
  ℕ, ◌-◌, ◌<◌, ◌≡◌, refl, ap, true, false, none, some, List, [], ◌∷◌, ◌++◌, map, All, arith, nat_eq,
  text_eq, leb,
}
use open_rtc.Base.JsMap
use open_rtc.Base.JsMap.{JsMap}
use open_rtc.Protocol.{Envelope}
use open_rtc.Transport.Reorder.Streams.{deliver_all}
use open_rtc.Transport.Reorder.{
  SenderState, ReorderBuffer, ReorderOptions, init, drain, flush_gap, largest, push_sender,
  find_sender, push, sweep,
}

-- The first ordered frame of a sender waits for number 0, unless it is 0 or beyond the window.
push_first :
    (now : ℕ) (e : Envelope) (b : ReorderBuffer)
    → JsMap.get e.sender_id b.senders ≡ none
    → b.ordered e.type ≡ true
    → 0 < e.seq
    → e.seq < b.max_gap
    → (push now e b).0 ≡ []
unfolding push push_sender find_sender drain flush_gap largest JsMap.get JsMap.set
push_first now e b absent kind h low = ground arith

deliver_all_passes :
    (es : List (ℕ × Envelope)) (now : ℕ) (e : Envelope) (b : ReorderBuffer)
    → All (λ p. b.ordered p.1.type ≡ false) es
    → (push now e b).0 ≡ []
    → (deliver_all (es ++ (now, e) ∷ []) b).0 ≡ map (λ p. p.1) es
unfolding deliver_all push
deliver_all_passes [] now e b h stuck = rw stuck
deliver_all_passes ((t, m) ∷ es) now e b h stuck =
    rw h.0 (ap (◌∷◌ m) (deliver_all_passes es now e b h.1 stuck))

-- In a stream that arrives in order, but where frames of other kinds come first, the first ordered
-- frame is not delivered: the buffer waits for numbers that those other frames carried. So it is for
-- each number above 0 and below `max_gap`.
pub in_order_stall :
    (opts : ReorderOptions) (es : List (ℕ × Envelope)) (now : ℕ) (e : Envelope)
    → All (λ p. (init opts).ordered p.1.type ≡ false) es
    → (init opts).ordered e.type ≡ true
    → 0 < e.seq
    → e.seq < (init opts).max_gap
    → (deliver_all (es ++ (now, e) ∷ []) (init opts)).0 ≡ map (λ p. p.1) es
unfolding init JsMap.get
in_order_stall opts es now e others kind h low =
    deliver_all_passes es now e (init opts) others (push_first now e (init opts) refl kind h low)

-- A sweep that finds a sender idle for longer than the timeout forgets its position, so the very
-- next ordered frame of its stream is held back, if its number lies above 0 and below `max_gap`.
pub sweep_stall :
    (b : ReorderBuffer) (s : SenderState) (now later : ℕ) (e : Envelope)
    → JsMap.Unique b.senders
    → JsMap.get e.sender_id b.senders ≡ some s
    → b.timeout_ms < now - s.last_activity
    → b.ordered e.type ≡ true
    → e.seq ≡ s.next
    → 0 < s.next
    → s.next < b.max_gap
    → (push later e (sweep now b)).0 ≡ []
unfolding sweep
sweep_stall b s now later e u found idle kind next h low =
    push_first later e (sweep now b)
      (rw
        (
          JsMap.get-select (λ p. leb (now - p.1.last_activity) b.timeout_ms) e.sender_id b.senders
              u,
          found,
        )
        (ground arith))
      kind (omega arith) (omega arith)
