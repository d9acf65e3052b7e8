-- ===== src/Transport/Reorder/Cases.antt =====
-- `push` for one sender, by its early returns.
use open_rtc.Base.{ℕ, ◌≡◌, ◌⊎◌, inl, inr, true, false, Bool-cases, [], nat_eq, ltb}
use open_rtc.Base.JsMap
use open_rtc.Protocol.{Envelope}
use open_rtc.Transport.Reorder.{SenderState, Released, drain, flush_gap, push_sender}

module _ (now : ℕ) (e : Envelope) (s : SenderState) where
  abbrev pub touched : SenderState
  touched = record s { last_activity = now }

  abbrev pub filled : SenderState
  filled = record s { buffer = JsMap.set e.seq e s.buffer; last_activity = now }

  abbrev pub drained : Released
  drained = drain (JsMap.size filled.buffer) filled

  -- A frame is dropped as old or as held already; any other is stored, and then the loop and the
  -- flush run.
  pub push_sender_cases {ℓ} :
      (gap : ℕ) (Q : Released → Type ℓ)
      → ((ltb e.seq s.next ≡ true) ⊎ (JsMap.has e.seq s.buffer ≡ true)
          → Q (record { out = []; state = touched }))
      → (ltb e.seq s.next ≡ false
          → JsMap.has e.seq s.buffer ≡ false
          → Q (flush_gap gap now drained.state drained.out drained.state.buffer))
      → Q (push_sender gap now e s)
  unfolding push_sender
  push_sender_cases gap Q dropped kept = elim (Bool-cases (ltb e.seq s.next)) [
    | inl old ↦ rw old (dropped (inl old))
    | inr new ↦ elim (Bool-cases (JsMap.has e.seq s.buffer)) [
      | inl held ↦ rw (new, held) (dropped (inr held))
      | inr fresh ↦ rw (new, fresh) (kept new fresh)
    ]
  ]
