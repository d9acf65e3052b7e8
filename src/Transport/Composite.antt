-- ===== src/Transport/Composite.antt =====
-- packages/transport/src/composite.ts: `CompositeTransport`, two transports in place of one.
--
-- The two transports are a parameter, `Paths`: what a call of one answers may depend on all that was
-- asked before. An operation runs to its end before the next. Callbacks do not throw; the envelopes
-- that they get are the result of `receive`.
pub mod Dedup
mod Tests
use open_rtc.Base.{
  ℕ, zero, suc, ◌+◌, max, Bool, true, false, ◌++◌, Option, none, some, List, [], ◌∷◌, Text, text_eq,
  codes, leb, if◌then◌else◌, or_else,
}
use open_rtc.Base.JsMap
use open_rtc.Base.JsMap.{JsMap}
use open_rtc.Protocol.{Envelope}
use open_rtc.Protocol.Values.{Js}

pub data Way : Type 0 where
  primary fallback : Way

-- The calls of an inner transport.
pub data Method : Type 0 where
  join_call : Text → Text → Method
  leave_call : Method
  emit_envelope : Envelope → Method
  publish_presence : Text → Js → Method
  dispose_it : Method

-- What the transport asks for, and the calls of `onFallback`.
pub data Effect : Type 0 where
  asked : Way → Method → Effect
  fell_back : Text → Envelope → Effect

-- `none`, or the error that the call threw.
abbrev pub Paths : Type 0
Paths = List Effect → Way → Method → Option Text

-- `subscriptions` counts the callbacks that each inner transport has of this one.
pub record CompositeTransport : Type 0 where
  pub max_payload_bytes : ℕ
  pub seen : JsMap Text ℕ
  pub subscriptions : ℕ
  pub room_id : Option Text
  pub self : Option Text
  pub trace : List Effect

-- The constructor, on the limits of the two transports.
unfoldable pub new : Option ℕ → Option ℕ → CompositeTransport
new p f = record {
  max_payload_bytes = max (or_else p 16777216) (or_else f 16777216);
  seen = [];
  subscriptions = 0;
  room_id = none;
  self = none;
  trace = [];
}

-- `${envelope.sessionId}:${envelope.senderId}`, with the code of the colon.
unfoldable pub seen_key : Envelope → Text
seen_key e = e.session_id ++ 58 ∷ e.sender_id

-- `isNew`, and the map behind it.
unfoldable pub is_new : Envelope → JsMap Text ℕ → Bool × JsMap Text ℕ
unfolding seen_key
is_new e seen = elim (JsMap.get (seen_key e) seen) [
  | none ↦ (true, JsMap.set (seen_key e) e.seq seen)
  | some last ↦ if leb e.seq last then (false, seen) else (true, JsMap.set (seen_key e) e.seq seen)
]

-- The callbacks for one envelope of an inner transport.
unfoldable pub receive_times : ℕ → Envelope → JsMap Text ℕ → List Envelope × JsMap Text ℕ
unfolding is_new
receive_times zero e seen = ([], seen)
receive_times (suc n) e seen =
    let r = is_new e seen in
    let rest = receive_times n e r.1 in (if r.0 then e ∷ rest.0 else rest.0, rest.1)

unfoldable pub receive : Envelope → CompositeTransport → List Envelope × CompositeTransport
unfolding receive_times
receive e c = let r = receive_times c.subscriptions e c.seen in (r.0, record c { seen = r.1 })

abbrev log : Effect → CompositeTransport → CompositeTransport
log x c = record c { trace = c.trace ++ x ∷ [] }

module _ (paths : Paths) where
  -- A call of an inner transport.
  unfoldable pub ask : Way → Method → CompositeTransport → Option Text × CompositeTransport
  ask p m c = (paths c.trace p m, log (asked p m) c)

  unfoldable pub subscribe : CompositeTransport → CompositeTransport
  subscribe c = record c { subscriptions = c.subscriptions + 1 }

  unfoldable pub join : Text → Text → CompositeTransport → Option Text × CompositeTransport
  unfolding ask subscribe
  join room id c =
      let first =
        ask primary (join_call room id) (record c { room_id = some room; self = some id }) in
      let second = ask fallback (join_call room id) first.1 in
      elim first.0 [
        | none ↦ (none, subscribe second.1)
        | some e ↦ elim second.0 [ none ↦ (none, subscribe second.1) | some _ ↦ (some e, second.1) ]
      ]

  -- `Promise.allSettled` of the same call on both.
  unfoldable pub ask_both : Method → CompositeTransport → CompositeTransport
  unfolding ask
  ask_both m c = (ask fallback m (ask primary m c).1).1

  unfoldable pub leave : CompositeTransport → CompositeTransport
  unfolding ask_both
  leave c = record (ask_both leave_call (record c { subscriptions = 0; seen = [] })) {
    room_id = none;
    self = none;
  }

  unfoldable pub emit : Envelope → CompositeTransport → Option Text × CompositeTransport
  unfolding ask
  emit e c =
      let first = ask primary (emit_envelope e) c in
      elim first.0 [
        | none ↦ (none, first.1)
        | some err ↦ ask fallback (emit_envelope e) (log (fell_back err e) first.1)
      ]

  unfoldable pub set_presence : Text → Js → CompositeTransport → CompositeTransport
  unfolding ask_both
  set_presence state metadata c = ask_both (publish_presence state metadata) c

  unfoldable pub dispose : CompositeTransport → CompositeTransport
  unfolding ask_both
  dispose c = ask_both dispose_it (record c { subscriptions = 0 })
