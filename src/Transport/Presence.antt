-- ===== src/Transport/Presence.antt =====
-- packages/transport/src/internal/heartbeat.ts: the sweeper of peers that went silent.
--
-- The calls of `onStale` are the list of ids that `sweep` returns, in its order.
pub mod Stale
mod Tests
use open_rtc.Base.{ℕ, ◌+◌, Bool, List, [], Text, text_eq, ltb, not, select, map}
use open_rtc.Base.JsMap
use open_rtc.Base.JsMap.{JsMap}

pub record PresenceSweeper : Type 0 where
  pub last_seen : JsMap Text ℕ
  pub timeout_ms : ℕ

unfoldable pub init : ℕ → PresenceSweeper
init timeout_ms = record { last_seen = []; timeout_ms = timeout_ms }

unfoldable pub touch : Text → ℕ → PresenceSweeper → PresenceSweeper
touch id now p = record p { last_seen = JsMap.set id now p.last_seen }

-- now - seen > timeoutMs
unfoldable pub is_stale : ℕ → ℕ → ℕ → Bool
is_stale now timeout_ms seen = ltb (seen + timeout_ms) now

unfoldable pub sweep : ℕ → PresenceSweeper → List Text × PresenceSweeper
unfolding is_stale
sweep now p = (
  JsMap.keys (select (λ e. is_stale now p.timeout_ms e.1) p.last_seen),
  record p { last_seen = select (λ e. not (is_stale now p.timeout_ms e.1)) p.last_seen },
)

unfoldable pub remove : Text → PresenceSweeper → PresenceSweeper
remove id p = record p { last_seen = JsMap.delete id p.last_seen }

unfoldable pub remove_all : PresenceSweeper → PresenceSweeper
remove_all p = record p { last_seen = [] }
