-- ===== src/Engine/Ordering.antt =====
-- packages/core/src/ordering.ts: the buffer that drops repeated and stale envelopes.
pub mod Latest
mod Tests
use open_rtc.Base.{
  ℕ, ◌+◌, Bool, true, false, Option, none, some, List, [], ◌∷◌, Text, text_eq, leb, if◌then◌else◌,
  or_else,
}
use open_rtc.Base.JsMap
use open_rtc.Base.JsMap.{JsMap}
use open_rtc.Protocol.{Envelope}

pub record OrderedMessageBuffer : Type 0 where
  pub last_seq : JsMap Text ℕ
  pub max_backward_gap : ℕ

-- The constructor, with the option `maxBackwardGap`.
unfoldable pub init : Option ℕ → OrderedMessageBuffer
init max_backward_gap = record { last_seq = []; max_backward_gap = or_else max_backward_gap 0 }

unfoldable pub accept : Envelope → OrderedMessageBuffer → Bool × OrderedMessageBuffer
accept e b = elim (JsMap.get e.session_id b.last_seq) [
  | none ↦ (true, record b { last_seq = JsMap.set e.session_id e.seq b.last_seq })
  | some last ↦
      if leb e.seq last
      then (if leb last (e.seq + b.max_backward_gap) then (false, b) else (false, b))
      else (true, record b { last_seq = JsMap.set e.session_id e.seq b.last_seq })
]

unfoldable pub reset : Option Text → OrderedMessageBuffer → OrderedMessageBuffer
reset none b = record b { last_seq = [] }
reset (some session_id) b = record b { last_seq = JsMap.delete session_id b.last_seq }

unfoldable pub last_seq_for : Text → OrderedMessageBuffer → Option ℕ
last_seq_for session_id b = JsMap.get session_id b.last_seq
