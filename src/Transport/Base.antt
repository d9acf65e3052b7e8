-- ===== src/Transport/Base.antt =====
-- packages/transport/src/base.ts: `BaseSignalingTransport`, the plumbing that every adapter shares.
--
-- The adapter's hooks are a parameter: what a hook answers may depend on all the calls before it.
-- `JSON` is one too. An operation runs to its end before the next. Callbacks do not throw; what they
-- are called with is the result of `deliver_frame`, `deliver_presence` and `sweep_tick`.
pub mod Lifecycle
pub mod Delivery
mod Tests
use open_rtc.Base.{
  ℕ, ◌+◌, ◌-◌, max, min, Bool, true, false, not, ◌&&◌, ◌++◌, Option, none, some, List, [], ◌∷◌, map,
  Text, text_eq, text_beq, ltb, if◌then◌else◌, or_else, is_some,
}
use open_rtc.Protocol.{Envelope, MessageType, ice, is_envelope, narrow, to_js}
use open_rtc.Protocol.Values.{Js}
use open_rtc.Transport.Chunker
use open_rtc.Transport.Chunker.{ChunkFrame, ChunkAssembler, chunk, utf8_size, encode_chunks}
use open_rtc.Transport.Coalescer
use open_rtc.Transport.Coalescer.{IceCoalescer}
use open_rtc.Transport.Presence
use open_rtc.Transport.Presence.{PresenceSweeper}
use open_rtc.Transport.Reorder
use open_rtc.Transport.Reorder.{ReorderBuffer}

-- A frame on the wire: a chunk, or any other decoded value.
pub data Wire : Type 0 where
  whole : Js → Wire
  part : ChunkFrame → Wire

-- The calls of `BackendHooks`.
pub data Hook : Type 0 where
  do_join : Text → Text → Hook
  do_leave : Hook
  do_send_frame : Wire → Hook
  do_set_presence : Text → Js → Hook
  do_dispose : Hook

pub data Error : Type 0 where
  transport_disposed : Error
  already_in_room : Text → Error
  not_joined : Error
  wrong_room : Text → Text → Error
  hook_failed : Text → Error

pub data Outcome : Type 0 where
  done : Outcome
  threw : Error → Outcome

pub record Surroundings : Type 0 where
  pub hook : List Hook → Hook → Option Text
  pub stringify : Js → List ℕ
  pub parse : List ℕ → Option Js

pub record BaseOptions : Type 0 where
  pub reorder : Option Bool
  pub reorder_kinds : Option (MessageType → Bool)
  pub chunk_max_bytes : Option ℕ
  pub heartbeat_ms : Option ℕ
  pub presence_timeout_ms : Option ℕ
  pub coalesce_ice_ms : Option ℕ

-- `heartbeat` says whether it runs, `sweep_timer` the interval, and `calls` what was asked of the
-- hooks, oldest first.
pub record BaseTransport : Type 0 where
  pub max_payload_bytes : ℕ
  pub opts : BaseOptions
  pub current_room : Option Text
  pub self : Option Text
  pub last_presence : Option (Text × Js)
  pub disposed : Bool
  pub assembler : ChunkAssembler
  pub reorder : ReorderBuffer
  pub heartbeat : Option Bool
  pub sweeper : Option PresenceSweeper
  pub sweep_timer : Option ℕ
  pub coalescer : Option IceCoalescer
  pub calls : List Hook

abbrev positive : Option ℕ → ℕ → Bool
positive ms default = ltb 0 (or_else ms default)

unfoldable pub init : ℕ → BaseOptions → BaseTransport
init max_payload_bytes opts = record {
  max_payload_bytes = max_payload_bytes;
  opts = opts;
  current_room = none;
  self = none;
  last_presence = none;
  disposed = false;
  assembler = Chunker.init none none;
  reorder = Reorder.init (record {
    ordered_kinds = if or_else opts.reorder true then opts.reorder_kinds else some (λ kind. false);
    max_gap = none;
    timeout_ms = none;
  });
  heartbeat = if positive opts.heartbeat_ms 5000 then some false else none;
  sweeper =
      if positive opts.presence_timeout_ms 30000
      then some (Presence.init (or_else opts.presence_timeout_ms 30000))
      else none;
  sweep_timer = none;
  coalescer = if positive opts.coalesce_ice_ms 0 then some (Coalescer.init 200) else none;
  calls = [];
}

-- A method, which may throw.
abbrev pub Act : Type 0
Act = BaseTransport → Outcome × BaseTransport

unfoldable pub proceed : Act → Outcome × BaseTransport → Outcome × BaseTransport
proceed k (done, b) = k b
proceed k (threw e, b) = (threw e, b)

abbrev pub called : Hook → BaseTransport → BaseTransport
called h b = record b { calls = b.calls ++ h ∷ [] }

abbrev pub set_running : Bool → Option Bool → Option Bool
set_running running none = none
set_running running (some _) = some running

-- `join` behind the call of the hook.
unfoldable pub after_join : Outcome × BaseTransport → Outcome × BaseTransport
after_join (threw e, b) = (threw e, record b { current_room = none; self = none })
after_join (done, b) = (
  done,
  record b {
    heartbeat = set_running true b.heartbeat;
    sweep_timer =
        if is_some b.sweeper
        then some (max 500 (min (or_else (b.opts).presence_timeout_ms 30000) 5000))
        else b.sweep_timer;
  },
)

unfoldable pub after_leave : BaseTransport → BaseTransport
after_leave b = record b {
  current_room = none;
  self = none;
  last_presence = none;
  heartbeat = set_running false b.heartbeat;
  sweep_timer = none;
  sweeper = elim b.sweeper [ none ↦ none | some s ↦ some (Presence.remove_all s) ];
}

-- `chunkMaxBytes`. The result of `Math.max` is at least 7000, whatever is below 1024.
unfoldable pub chunk_max : BaseTransport → Option ℕ
chunk_max b =
    let raw = or_else (b.opts).chunk_max_bytes (max 7000 (b.max_payload_bytes - 1024)) in
    if ltb 0 raw && ltb raw b.max_payload_bytes then some raw else none

-- `utf8Bytes`.
unfoldable pub utf8_bytes : List ℕ → ℕ
utf8_bytes [] = 0
utf8_bytes (c ∷ s) = utf8_size c + utf8_bytes s

unfoldable pub is_ice : MessageType → Bool
is_ice ice = true
is_ice _ = false

-- The envelope of a value, if it is one.
unfoldable pub as_envelope : Js → Option Envelope
as_envelope v = if is_envelope v then narrow v else none

unfoldable pub is_own : Envelope → BaseTransport → Bool
is_own e b = elim b.self [ none ↦ false | some id ↦ text_beq e.sender_id id ]

-- `deliverFrame` behind the validation.
unfoldable pub accept : ℕ → Option Envelope → BaseTransport → List Envelope × BaseTransport
unfolding is_own
accept now none b = ([], b)
accept now (some e) b =
    if is_own e b
    then ([], b)
    else (let r = Reorder.push now e b.reorder in (r.0, record b { reorder = r.1 }))

module _ (around : Surroundings) where
  -- `await` of a hook.
  unfoldable pub run_hook : Hook → Act
  run_hook h b = elim (around.hook b.calls h) [
    | none ↦ (done, called h b)
    | some e ↦ (threw (hook_failed e), called h b)
  ]

  unfoldable pub join : Text → Text → Act
  unfolding run_hook after_join
  join room id b = if b.disposed then (threw transport_disposed, b) else elim b.current_room [
    | some old ↦ (threw (already_in_room old), b)
    | none ↦
        after_join
          (run_hook (do_join room id) (record b { current_room = some room; self = some id }))
  ]

  unfoldable pub leave : Act
  unfolding run_hook after_leave proceed
  leave b = elim b.current_room [
    | none ↦ (done, b)
    | some room ↦ proceed (λ c. (done, after_leave c)) (run_hook do_leave b)
  ]

  -- The frames that `sendFrame` hands to the hook. `chunk_id` is random.
  unfoldable pub frames_of : Text → Js → BaseTransport → List Wire
  unfolding chunk_max utf8_bytes
  frames_of chunk_id frame b = elim (chunk_max b) [
    | none ↦ whole frame ∷ []
    | some size ↦
        let json = around.stringify frame in
        if ltb b.max_payload_bytes (utf8_bytes json)
        then elim (encode_chunks json size none chunk_id) [
          | none ↦ []
          | some parts ↦ map part parts
        ]
        else whole frame ∷ []
  ]

  unfoldable pub send_all : List Wire → Act
  unfolding run_hook proceed
  send_all [] b = (done, b)
  send_all (w ∷ rest) b = proceed (send_all rest) (run_hook (do_send_frame w) b)

  unfoldable pub send_frame : Text → Js → Act
  unfolding frames_of send_all
  send_frame chunk_id frame b = send_all (frames_of chunk_id frame b) b

  -- The flush of the coalescer, on the batch that it hands on.
  unfoldable pub on_flush : List Envelope → Act
  unfolding send_all
  on_flush items = send_all (map (λ e. whole (to_js e)) items)

  unfoldable pub emit : Text → Envelope → Act
  unfolding send_frame is_ice
  emit chunk_id e b = if b.disposed then (threw transport_disposed, b) else elim b.current_room [
    | none ↦ (threw not_joined, b)
    | some room ↦
        if not (text_beq e.room_id room)
        then (threw (wrong_room e.room_id room), b)
        else elim b.coalescer [
          | none ↦ send_frame chunk_id (to_js e) b
          | some c ↦
              if is_ice e.type
              then (done, record b { coalescer = some (Coalescer.push e c) })
              else send_frame chunk_id (to_js e) b
        ]
  ]

  unfoldable pub set_presence : Text → Js → Act
  unfolding run_hook
  set_presence state metadata b =
      if b.disposed then (threw transport_disposed, b) else elim b.current_room [
        | none ↦ (threw not_joined, b)
        | some room ↦
            run_hook (do_set_presence state metadata)
              (record b { last_presence = some (state, metadata) })
      ]

  -- `onBeat`, on a beat of the running heartbeat.
  unfoldable pub beat : Act
  unfolding run_hook
  beat b = elim b.last_presence [
    | none ↦ (done, b)
    | some (state, metadata) ↦
        if is_some b.current_room then run_hook (do_set_presence state metadata) b else (done, b)
  ]

  unfoldable pub dispose : Act
  unfolding run_hook proceed
  dispose b =
      if b.disposed
      then (done, b)
      else proceed
          (λ c. (done, record c { current_room = none; reorder = Reorder.reset c.reorder }))
          (run_hook do_dispose (record b {
            disposed = true;
            heartbeat = set_running false b.heartbeat;
            coalescer = elim b.coalescer [ none ↦ none | some c ↦ some (Coalescer.dispose c) ];
            sweep_timer = none;
          }))

  -- The text of a message whose chunks are all there.
  unfoldable pub accept_text : ℕ → List ℕ → BaseTransport → List Envelope × BaseTransport
  unfolding accept as_envelope
  accept_text now json b = elim (around.parse json) [
    | none ↦ ([], b)
    | some v ↦ accept now (as_envelope v) b
  ]

  unfoldable pub deliver_open : ℕ → Wire → BaseTransport → List Envelope × BaseTransport
  unfolding accept accept_text as_envelope
  deliver_open now (whole v) b = accept now (as_envelope v) b
  deliver_open now (part f) b =
      let r = Chunker.push now (chunk f) b.assembler in
      elim r.0 [
        | none ↦ ([], record b { assembler = r.1 })
        | some json ↦ accept_text now json (record b { assembler = r.1 })
      ]

  unfoldable pub deliver_frame : ℕ → Wire → BaseTransport → List Envelope × BaseTransport
  unfolding deliver_open
  deliver_frame now w b = if b.disposed then ([], b) else deliver_open now w b

-- The presence events that the callbacks get.
unfoldable pub deliver_presence : List Text → BaseTransport → List Text
deliver_presence ids b = if b.disposed then [] else ids

-- The body of the sweep timer: the ids reported as offline.
unfoldable pub sweep_tick : ℕ → BaseTransport → List Text × BaseTransport
unfolding deliver_presence
sweep_tick now b = elim b.sweeper [
  | none ↦ ([], b)
  | some s ↦
      let r = Presence.sweep now s in
      (
        deliver_presence r.0 b,
        record b { sweeper = some r.1; reorder = Reorder.sweep now b.reorder },
      )
]

unfoldable pub touch_presence : Text → ℕ → BaseTransport → BaseTransport
touch_presence id now b = record b {
  sweeper = elim b.sweeper [ none ↦ none | some s ↦ some (Presence.touch id now s) ];
}
