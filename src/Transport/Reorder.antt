-- ===== src/Transport/Reorder.antt =====
-- packages/transport/src/internal/reorder.ts: the per-sender `seq` buffer over inbound envelopes.
--
-- `Date.now()` is an argument of each call. The `while` loop of `push` runs on fuel, one round for
-- each buffered frame (`Reorder.Drain`).
pub mod Cases
pub mod Drain
pub mod Order
pub mod Complete
pub mod Streams
pub mod Once
pub mod Stalls
mod Tests
use open_rtc.Base.{
  nat_eq, text_eq, ℕ, zero, suc, ◌+◌, ◌-◌, ◌≤◌, ◌<◌, Bool, true, false, ◌||◌, ◌++◌, Option, none,
  some, List, [], ◌∷◌, Text, codes, ltb, leb, if◌then◌else◌, max, or_else, select,
}
use open_rtc.Base.JsMap
use open_rtc.Base.JsMap.{JsMap}
use open_rtc.Protocol.{Envelope, MessageType, offer, answer, sfu}

pub record SenderState : Type 0 where
  pub next : ℕ
  pub buffer : JsMap ℕ Envelope
  pub last_activity : ℕ

pub record ReorderBuffer : Type 0 where
  pub senders : JsMap Text SenderState
  pub ordered : MessageType → Bool
  pub max_gap : ℕ
  pub timeout_ms : ℕ

-- `DEFAULT_ORDERED_KINDS.has`
unfoldable pub default_ordered_kinds : MessageType → Bool
default_ordered_kinds offer = true
default_ordered_kinds answer = true
default_ordered_kinds sfu = true
default_ordered_kinds _ = false

-- The options as the constructor takes them.
pub record ReorderOptions : Type 0 where
  pub ordered_kinds : Option (MessageType → Bool)
  pub max_gap : Option ℕ
  pub timeout_ms : Option ℕ

unfoldable pub init : ReorderOptions → ReorderBuffer
unfolding default_ordered_kinds
init opts = record {
  senders = [];
  ordered = or_else opts.ordered_kinds default_ordered_kinds;
  max_gap = or_else opts.max_gap 64;
  timeout_ms = or_else opts.timeout_ms 2000;
}

-- What a loop or a call has released, with the sender's state behind it.
pub record Released : Type 0 where
  pub out : List Envelope
  pub state : SenderState

-- while (s.buffer.has(s.next)) { … }
unfoldable pub drain : ℕ → SenderState → Released
unfolding JsMap.get JsMap.delete
drain zero s = record { out = []; state = s }
drain (suc fuel) s = elim (JsMap.get s.next s.buffer) [
  | none ↦ record { out = []; state = s }
  | some m ↦
      let r = drain fuel (record s { next = s.next + 1; buffer = JsMap.delete s.next s.buffer }) in
      record { out = m ∷ r.out; state = r.state }
]

-- Math.max(...s.buffer.keys()), of a buffer that holds something.
unfoldable pub largest : ℕ → JsMap ℕ Envelope → ℕ
largest k [] = k
largest k ((j, _) ∷ m) = largest (max k j) m

-- [...s.buffer.keys()].sort((a, b) => a - b), with the frame at each key: insertion by key.
unfoldable pub insert_by_key : ℕ × Envelope → JsMap ℕ Envelope → JsMap ℕ Envelope
insert_by_key e [] = e ∷ []
insert_by_key e (f ∷ m) = if leb e.0 f.0 then e ∷ f ∷ m else f ∷ insert_by_key e m

unfoldable pub sort_by_key : JsMap ℕ Envelope → JsMap ℕ Envelope
unfolding insert_by_key
sort_by_key [] = []
sort_by_key (e ∷ m) = insert_by_key e (sort_by_key m)

-- The flush after the loop. An empty buffer has no gap: `largest` is `s.next - 1` there.
unfoldable pub flush_gap : ℕ → ℕ → SenderState → List Envelope → JsMap ℕ Envelope → Released
unfolding largest sort_by_key
flush_gap max_gap now s out [] = record { out = out; state = s }
flush_gap max_gap now s out ((k, e) ∷ m) =
    if ltb max_gap (largest k m + 1 - s.next)
    then record {
      out = out ++ JsMap.values (sort_by_key ((k, e) ∷ m));
      state = record { next = largest k m + 1; buffer = []; last_activity = now };
    }
    else record { out = out; state = s }

-- The body of `push` from the update of `lastActivity` on.
unfoldable pub push_sender : ℕ → ℕ → Envelope → SenderState → Released
unfolding drain flush_gap JsMap.get JsMap.set
push_sender max_gap now envelope s =
    let touched = record s { last_activity = now } in
    if ltb envelope.seq s.next
    then record { out = []; state = touched }
    else if JsMap.has envelope.seq s.buffer
    then record { out = []; state = touched }
    else (let stored = JsMap.set envelope.seq envelope s.buffer in
        let drained = drain (JsMap.size stored) (record touched { buffer = stored }) in
        flush_gap max_gap now drained.state drained.out drained.state.buffer)

-- The state of a sender, fresh if it has none.
unfoldable pub find_sender : ℕ → Envelope → ReorderBuffer → SenderState
unfolding JsMap.get
find_sender now envelope b = or_else (JsMap.get envelope.sender_id b.senders) (record {
  next = if leb envelope.seq b.max_gap then 0 else envelope.seq;
  buffer = [];
  last_activity = now;
})

unfoldable pub push : ℕ → Envelope → ReorderBuffer → List Envelope × ReorderBuffer
unfolding push_sender find_sender JsMap.set
push now envelope b =
    if b.ordered envelope.type
    then (let r = push_sender b.max_gap now envelope (find_sender now envelope b) in
        (r.out, record b { senders = JsMap.set envelope.sender_id r.state b.senders }))
    else (envelope ∷ [], b)

unfoldable pub sweep : ℕ → ReorderBuffer → ReorderBuffer
sweep now b = record b {
  senders = select (λ e. leb (now - e.1.last_activity) b.timeout_ms) b.senders;
}

unfoldable pub reset : ReorderBuffer → ReorderBuffer
reset b = record b { senders = [] }

unfoldable pub buffered_count : JsMap Text SenderState → ℕ
buffered_count [] = 0
buffered_count ((_, s) ∷ m) = JsMap.size s.buffer + buffered_count m

unfoldable pub sender_count : ReorderBuffer → ℕ
sender_count b = JsMap.size b.senders
