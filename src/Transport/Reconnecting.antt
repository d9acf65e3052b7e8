-- ===== src/Transport/Reconnecting.antt =====
-- packages/transport/src/reconnecting.ts: `ReconnectingTransport`, which joins again by itself.
--
-- The inner transport and `fetchSignals` are parameters: what they answer may depend on all that was
-- done before. An operation runs to its end before the next. Callbacks do not throw. The delays and
-- the backoff factor are whole numbers.
pub mod Pace
pub mod Attempts
mod Tests
use open_rtc.Base.{
  ℕ, zero, suc, ◌+◌, ◌*◌, ◌^◌, min, Bool, true, false, not, ◌&&◌, ◌||◌, ◌++◌, Option, none, some,
  List, [], ◌∷◌, Text, ltb, length, if◌then◌else◌, or_else, is_some,
}
use open_rtc.Protocol.{Envelope}
use open_rtc.Protocol.Values.{Js}

pub data ReconnectState : Type 0 where
  reconnecting reconnected failed : ReconnectState

-- The calls of the inner transport.
pub data Call : Type 0 where
  join_inner : Option Text → Option Text → Call
  leave_inner : Call
  emit_inner : Envelope → Call
  presence_inner : Text → Js → Call
  dispose_inner : Call

-- What the transport does: a call with its answer, a change of state for the hook, a delay, a fetch
-- since a number, and an envelope handed to the callbacks.
pub data Effect : Type 0 where
  asked : Call → Option Text → Effect
  changed : ReconnectState → ℕ → Effect
  delayed : ℕ → Effect
  fetched : Option Text → Option ℕ → Effect
  handed : Envelope → Effect

-- `inner` answers with the error that a call threw; a fetch that throws is `none`.
pub record Surroundings : Type 0 where
  pub inner : List Effect → Call → Option Text
  pub fetch_signals : Option (List Effect → Option Text → Option ℕ → Option (List Envelope))

pub record ReconnectingOptions : Type 0 where
  pub max_attempts : Option ℕ
  pub backoff_ms : Option ℕ
  pub backoff_factor : Option ℕ
  pub max_backoff_ms : Option ℕ

-- `last_seq` is `none` for -1, and `bound` says whether the inner transport's callbacks are set.
pub record ReconnectingTransport : Type 0 where
  pub opts : ReconnectingOptions
  pub room_id : Option Text
  pub self : Option Text
  pub last_seq : Option ℕ
  pub bound : Bool
  pub is_reconnecting : Bool
  pub closed : Bool
  pub trace : List Effect

pub data Outcome : Type 0 where
  done : Outcome
  threw : Text → Outcome
  attempts_exceeded : Outcome

abbrev pub Act : Type 0
Act = ReconnectingTransport → Outcome × ReconnectingTransport

unfoldable pub new : ReconnectingOptions → ReconnectingTransport
new opts = record {
  opts = opts;
  room_id = none;
  self = none;
  last_seq = none;
  bound = false;
  is_reconnecting = false;
  closed = false;
  trace = [];
}

abbrev pub log : Effect → ReconnectingTransport → ReconnectingTransport
log x t = record t { trace = t.trace ++ x ∷ [] }

-- `if (e.seq > this.lastSeq) this.lastSeq = e.seq`
unfoldable pub raise : ℕ → Option ℕ → Option ℕ
raise seq none = some seq
raise seq (some last) = if ltb last seq then some seq else some last

unfoldable pub bind_inner : ReconnectingTransport → ReconnectingTransport
bind_inner t = record t { bound = true }

-- An envelope of the inner transport, if its callbacks are set.
unfoldable pub receive : Envelope → ReconnectingTransport → ReconnectingTransport
unfolding raise
receive e t = if t.bound then log (handed e) (record t { last_seq = raise e.seq t.last_seq }) else t

-- A string in a condition.
unfoldable pub truthy_id : Option Text → Bool
truthy_id none = false
truthy_id (some s) = ltb 0 (length s)

-- The delay before an attempt.
unfoldable pub backoff : ReconnectingOptions → ℕ → ℕ
backoff opts attempt =
    min (or_else opts.backoff_ms 300 * or_else opts.backoff_factor 2 ^ attempt)
      (or_else opts.max_backoff_ms 10000)

-- The loop over the missed envelopes.
unfoldable pub replay : List Envelope → ReconnectingTransport → ReconnectingTransport
unfolding raise
replay [] t = t
replay (e ∷ missed) t =
    replay missed (log (handed e) (record t { last_seq = raise e.seq t.last_seq }))

module _ (around : Surroundings) where
  unfoldable pub ask : Call → ReconnectingTransport → Option Text × ReconnectingTransport
  ask c t = let answer = around.inner t.trace c in (answer, log (asked c answer) t)

  unfoldable pub outcome_of : Option Text × ReconnectingTransport → Outcome × ReconnectingTransport
  outcome_of (none, t) = (done, t)
  outcome_of (some e, t) = (threw e, t)

  unfoldable pub join : Text → Text → Act
  unfolding ask bind_inner
  join room id t =
      let r =
        ask (join_inner (some room) (some id))
          (record t { room_id = some room; self = some id; closed = false }) in
      elim r.0 [ none ↦ (done, bind_inner r.1) | some e ↦ (threw e, r.1) ]

  unfoldable pub leave : Act
  unfolding ask
  leave t =
      let r = ask leave_inner (record t { closed = true; bound = false }) in
      elim r.0 [
        | none ↦ (done, record (r.1) { room_id = none; self = none })
        | some e ↦ (threw e, r.1)
      ]

  -- The optional replay.
  unfoldable pub catch_up : ReconnectingTransport → ReconnectingTransport
  unfolding replay
  catch_up t = elim around.fetch_signals [
    | none ↦ t
    | some fetch ↦
        let t' = log (fetched t.room_id t.last_seq) t in
        elim (fetch t.trace t.room_id t.last_seq) [ none ↦ t' | some missed ↦ replay missed t' ]
  ]

  -- An attempt, up to the answer of the inner `join`.
  unfoldable pub attempt_join : ℕ → ReconnectingTransport → Option Text × ReconnectingTransport
  unfolding ask backoff
  attempt_join attempt t =
      let waiting = log (delayed (backoff t.opts attempt)) (log (changed reconnecting attempt) t) in
      let left = (ask leave_inner waiting).1 in ask (join_inner left.room_id left.self) left

  -- The rest of an attempt whose `join` succeeded.
  unfoldable pub settle : ℕ → ReconnectingTransport → ReconnectingTransport
  unfolding bind_inner catch_up
  settle attempt t = record (log (changed reconnected attempt) (catch_up (bind_inner t))) {
    is_reconnecting = false;
  }

  -- The loop, with the number of attempts that are left.
  unfoldable pub attempts : ℕ → ℕ → Act
  unfolding attempt_join settle
  attempts zero attempt t =
      (attempts_exceeded, record (log (changed failed attempt) t) { is_reconnecting = false })
  attempts (suc left) attempt t =
      let r = attempt_join attempt t in
      elim r.0 [ none ↦ (done, settle attempt r.1) | some _ ↦ attempts left (attempt + 1) r.1 ]

  unfoldable pub do_reconnect : Act
  unfolding attempts
  do_reconnect t =
      if t.is_reconnecting
      then (done, t)
      else attempts (or_else (t.opts).max_attempts 5) 0 (record t { is_reconnecting = true })

  -- The retry behind a reconnection.
  unfoldable pub retry :
      Envelope → Outcome × ReconnectingTransport → Outcome × ReconnectingTransport
  unfolding ask outcome_of
  retry e (done, t) = outcome_of (ask (emit_inner e) t)
  retry e (threw x, t) = (threw x, t)
  retry e (attempts_exceeded, t) = (attempts_exceeded, t)

  unfoldable pub emit : Envelope → Act
  unfolding raise ask retry do_reconnect truthy_id
  emit e t =
      let r = ask (emit_inner e) (record t { last_seq = raise e.seq t.last_seq }) in
      elim r.0 [
        | none ↦ (done, r.1)
        | some x ↦
            if (r.1).closed || not (truthy_id (r.1).room_id) || not (is_some (r.1).self)
            then (threw x, r.1)
            else retry e (do_reconnect r.1)
      ]

  unfoldable pub set_presence : Text → Js → Act
  unfolding ask outcome_of
  set_presence state metadata t = outcome_of (ask (presence_inner state metadata) t)

  unfoldable pub dispose : Act
  unfolding ask outcome_of
  dispose t = outcome_of (ask dispose_inner (record t { closed = true; bound = false }))
