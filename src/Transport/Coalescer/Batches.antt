-- ===== src/Transport/Coalescer/Batches.antt =====
-- packages/transport/src/internal/iceCoalescer.ts: runs of the coalescer.
use open_rtc.Base.{
  ℕ, ◌<◌, ◌≡◌, refl, sym, ap, subst, ◌∙◌, true, false, Bool-cases, inl, inr, List, [], ◌∷◌, ◌++◌,
  flatten, append_assoc, append-nil, leb, length, arith, if◌then◌else◌,
}
use open_rtc.Protocol.{Envelope}
use open_rtc.Transport.Coalescer.{IceCoalescer, init, flush_queue, flush, settled, push, fire}

-- What happens to a coalescer: an envelope is pushed, the timer fires, a caller flushes, or the
-- running `onFlush` ends.
pub data Event : Type 0 where
  pushed : Envelope → Event
  fired flush_called flush_ended : Event

unfoldable pub step : Event → IceCoalescer → IceCoalescer
step (pushed e) c = push e c
step fired c = fire c
step flush_called c = flush c
step flush_ended c = settled c

unfoldable pub run : List Event → IceCoalescer → IceCoalescer
run [] c = c
run (v ∷ events) c = run events (step v c)

-- The envelopes pushed, in order.
abbrev pub pushes : List Event → List Envelope
pushes [] = []
pushes (pushed e ∷ events) = e ∷ pushes events
pushes (fired ∷ events) = pushes events
pushes (flush_called ∷ events) = pushes events
pushes (flush_ended ∷ events) = pushes events

-- Only timers, and ends of a batch.
abbrev pub IsTimers : List Event → Type 0
IsTimers [] = Unit
IsTimers (pushed e ∷ events) = ⊥
IsTimers (fired ∷ events) = IsTimers events
IsTimers (flush_called ∷ events) = ⊥
IsTimers (flush_ended ∷ events) = IsTimers events

-- The envelopes handed on, then those that wait.
abbrev pub content : IceCoalescer → List Envelope
content c = flatten c.flushed ++ c.queue

flatten-snoc :
    (bs : List (List Envelope)) (b : List Envelope) → flatten (bs ++ b ∷ []) ≡ flatten bs ++ b
unfolding mathlib.Core.List.flatten
flatten-snoc [] b = append-nil b
flatten-snoc (x ∷ bs) b = ap (◌++◌ x) (flatten-snoc bs b) ∙ sym (append_assoc x (flatten bs) b)

flush_queue-content :
    (q : List Envelope) (c : IceCoalescer) → q ≡ c.queue → content (flush_queue q c) ≡ content c
unfolding flush_queue
flush_queue-content [] c h = refl
flush_queue-content (e ∷ items) c h =
    append-nil (flatten (c.flushed ++ (e ∷ items) ∷ []))
    ∙ flatten-snoc c.flushed (e ∷ items)
    ∙ ap (◌++◌ (flatten c.flushed)) h

flush-content : (c : IceCoalescer) → content (flush c) ≡ content c
unfolding flush
flush-content c =
    elim c.flushing as (λ b. content (if b then c else flush_queue c.queue c) ≡ content c) [
      | true ↦ refl
      | false ↦ flush_queue-content c.queue c refl
    ]

fire-content : (c : IceCoalescer) → content (fire c) ≡ content c
unfolding fire
fire-content c = elim (Bool-cases c.timer) [
  | inl set ↦ rw set (flush-content (record c { timer = false }))
  | inr unset ↦ rw unset refl
]

push-content : (e : Envelope) (c : IceCoalescer) → content (push e c) ≡ content c ++ e ∷ []
unfolding push
push-content e c = elim (Bool-cases (leb c.max_items (length (c.queue ++ e ∷ [])))) [
  | inl full ↦ rw full (
      flush-content (record c { queue = c.queue ++ e ∷ [] })
      ∙ sym (append_assoc (flatten c.flushed) c.queue (e ∷ [])))
  | inr room ↦ rw room (sym (append_assoc (flatten c.flushed) c.queue (e ∷ [])))
]

step-content : (v : Event) (c : IceCoalescer) → content (step v c) ≡ content c ++ pushes (v ∷ [])
unfolding step settled
step-content (pushed e) c = push-content e c
step-content fired c = fire-content c ∙ sym (append-nil (content c))
step-content flush_called c = flush-content c ∙ sym (append-nil (content c))
step-content flush_ended c = sym (append-nil (content c))

pushes-cons :
    (v : Event) (events : List Event) → pushes (v ∷ events) ≡ pushes (v ∷ []) ++ pushes events
pushes-cons (pushed e) events = refl
pushes-cons fired events = refl
pushes-cons flush_called events = refl
pushes-cons flush_ended events = refl

run-content_from :
    (events : List Event) (c : IceCoalescer) → content (run events c) ≡ content c ++ pushes events
unfolding run
run-content_from [] c = sym (append-nil (content c))
run-content_from (v ∷ events) c =
    run-content_from events (step v c)
    ∙ ap (λ z. z ++ pushes events) (step-content v c)
    ∙ append_assoc (content c) (pushes (v ∷ [])) (pushes events)
    ∙ ap (◌++◌ (content c)) (sym (pushes-cons v events))

-- Whatever happens, short of `dispose`, the batches handed on and then the queue hold exactly the
-- envelopes pushed, in their order: none is lost, repeated or overtaken.
pub run-content :
    (max_items : ℕ) (events : List Event) → content (run events (init max_items)) ≡ pushes events
unfolding init mathlib.Core.List.flatten
run-content max_items events = run-content_from events (init max_items)

fire_unset : (c : IceCoalescer) → c.timer ≡ false → fire c ≡ c
unfolding fire
fire_unset c unset =
    subst (λ b. (if b then flush (record c { timer = false }) else c) ≡ c) (sym unset) refl

flush_busy : (c : IceCoalescer) → c.flushing ≡ true → flush c ≡ c
unfolding flush
flush_busy c busy = subst (λ b. (if b then c else flush_queue c.queue c) ≡ c) (sym busy) refl

push_in_flight :
    (e : Envelope) (c : IceCoalescer)
    → c.queue ≡ []
    → 1 < c.max_items
    → push e c ≡ record c { queue = e ∷ []; timer = true }
unfolding push
push_in_flight e c empty more =
    let room : leb c.max_items 1 ≡ false = ground arith in
    subst
      (λ q.
        (if leb c.max_items (length (q ++ e ∷ []))
          then flush (record c { queue = q ++ e ∷ [] })
          else record c { queue = q ++ e ∷ []; timer = true })
        ≡ record c { queue = e ∷ []; timer = true })
      (sym empty) (rw room refl)

-- Timers that are not set, and ends of batches, leave the queue alone.
waits-queue :
    (waits : List Event) (c : IceCoalescer)
    → IsTimers waits
    → c.timer ≡ false
    → (run waits c).queue ≡ c.queue
unfolding run step settled
waits-queue [] c t unset = refl
waits-queue (fired ∷ waits) c t unset =
    ap (λ z. (run waits z).queue) (fire_unset c unset) ∙ waits-queue waits c t unset
waits-queue (flush_ended ∷ waits) c t unset =
    waits-queue waits (record c { flushing = false }) t unset
waits-queue (pushed e ∷ waits) c t unset = absurd t
waits-queue (flush_called ∷ waits) c t unset = absurd t

-- An envelope pushed while a batch is in flight, whose timer fires before the batch has ended,
-- stays in the queue with no timer set: neither the end of the batch nor a timer hands it on.
pub in_flight_stall :
    (e : Envelope) (c : IceCoalescer) (waits : List Event)
    → c.flushing ≡ true
    → c.queue ≡ []
    → 1 < c.max_items
    → IsTimers waits
    → (run (pushed e ∷ fired ∷ flush_ended ∷ waits) c).queue ≡ e ∷ []
unfolding run step settled fire
in_flight_stall e c waits busy empty more timers =
    let waiting : IceCoalescer = record c { queue = e ∷ []; timer = false } in
    let fired_too_soon : fire (push e c) ≡ waiting =
      ap fire (push_in_flight e c empty more) ∙ flush_busy waiting busy in
    ap (λ z. (run waits (settled z)).queue) fired_too_soon
    ∙ waits-queue waits (settled waiting) timers refl
