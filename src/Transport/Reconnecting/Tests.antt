-- ===== src/Transport/Reconnecting/Tests.antt =====
-- A transport whose inner transport comes back at the third attempt.
use open_rtc.Base.{ℕ, ◌≡◌, refl, none, some, List, [], ◌∷◌, Text, codes, Option, ltb, if◌then◌else◌}
use open_rtc.Protocol.{Envelope, chat}
use open_rtc.Protocol.Values.{undefined}
use open_rtc.Transport.Reconnecting
use open_rtc.Transport.Reconnecting.{
  Call, join_inner, emit_inner, leave_inner, Effect, asked, changed, delayed, handed, fetched,
  reconnecting, reconnected, Surroundings, ReconnectingTransport, done, new, do_reconnect, emit,
}
use open_rtc.Transport.Reconnecting.Pace.{join_count, total}
use open_rtc.Transport.Reconnecting.Attempts.{Reconnection, do_reconnect-Reconnection}

abbrev frame : ℕ → Envelope
frame n = record {
  type = chat;
  room_id = codes "r";
  sender_id = codes "a";
  session_id = codes "s";
  ts = 0;
  seq = n;
  target_sender_id = undefined;
  payload = undefined;
}

-- The joins so far.
abbrev count : List Effect → ℕ
unfolding total
count xs = total join_count xs

-- Joins fail twice, sending fails until then, and two envelopes were missed.
abbrev answers : List Effect → Call → Option Text
answers before (join_inner _ _) = if ltb (count before) 2 then some (codes "down") else none
answers before (emit_inner _) = if ltb (count before) 3 then some (codes "lost") else none
answers before _ = none

abbrev flaky : Surroundings
flaky = record {
  inner = answers;
  fetch_signals = some (λ before room since. some (frame 4 ∷ frame 5 ∷ []));
}

abbrev away : ReconnectingTransport
unfolding new
away =
    record (new (record {
      max_attempts = some 4;
      backoff_ms = some 100;
      backoff_factor = none;
      max_backoff_ms = some 150;
    })) { room_id = some (codes "r"); self = some (codes "a"); last_seq = some 3 }

do_reconnect-Reconnection_example : Reconnection flaky 4 0 away (do_reconnect flaky away)
unfolding new
do_reconnect-Reconnection_example = do_reconnect-Reconnection flaky away refl

emit_comes_back : (emit flaky (frame 6) away).0 ≡ done
unfolding emit new do_reconnect Reconnecting.attempts Reconnecting.attempt_join Reconnecting.ask
    Reconnecting.settle Reconnecting.catch_up Reconnecting.replay Reconnecting.bind_inner
    Reconnecting.raise Reconnecting.retry Reconnecting.outcome_of Reconnecting.backoff
    Reconnecting.truthy_id total
emit_comes_back = refl
