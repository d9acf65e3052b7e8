-- ===== src/Transport/Coalescer/Tests.antt =====
-- The coalescer's theorems at concrete runs.
use open_rtc.Base.{ℕ, ◌≡◌, refl, true, false, List, [], ◌∷◌, codes, arith}
use open_rtc.Protocol.{Envelope, ice}
use open_rtc.Protocol.Values.{undefined}
use open_rtc.Transport.Coalescer.{IceCoalescer, init, flush_queue, flush, settled, push, fire}
use open_rtc.Transport.Coalescer.Batches.{
  Event, pushed, fired, flush_ended, step, run, pushes, content, run-content, in_flight_stall,
}

abbrev frame : ℕ → Envelope
frame n = record {
  type = ice;
  room_id = codes "r";
  sender_id = codes "a";
  session_id = codes "s";
  ts = 0;
  seq = n;
  target_sender_id = undefined;
  payload = undefined;
}

abbrev events : List Event
events = pushed (frame 1) ∷ pushed (frame 2) ∷ fired ∷ flush_ended ∷ pushed (frame 3) ∷ []

two_batched : (run events (init 200)).flushed ≡ (frame 1 ∷ frame 2 ∷ []) ∷ []
unfolding run step push fire flush flush_queue settled init
two_batched = refl

run-content_example : content (run events (init 200)) ≡ pushes events
run-content_example = run-content 200 events

abbrev in_flight : IceCoalescer
in_flight = record {
  queue = [];
  timer = false;
  flushing = true;
  max_items = 200;
  flushed = (frame 1 ∷ []) ∷ [];
}

in_flight_stall_example :
    (run (pushed (frame 2) ∷ fired ∷ flush_ended ∷ fired ∷ []) in_flight).queue ≡ frame 2 ∷ []
in_flight_stall_example =
    in_flight_stall (frame 2) in_flight (fired ∷ []) refl refl (omega arith) tt
