-- ===== src/Transport/Composite/Tests.antt =====
-- A composite transport whose primary path fails.
use open_rtc.Base.{ℕ, ◌≡◌, refl, none, some, List, [], ◌∷◌, codes, arith}
use open_rtc.Base.JsMap
use open_rtc.Protocol.{Envelope, chat}
use open_rtc.Protocol.Values.{undefined}
use open_rtc.Engine.Ordering
use open_rtc.Transport.Composite
use open_rtc.Transport.Composite.{
  CompositeTransport, Way, primary, fallback, emit_envelope, asked, fell_back, Paths, new, is_new,
  receive,
}
use open_rtc.Transport.Composite.Dedup.{receive_all, accepted, receive_all-accepted}

abbrev frame : ℕ → Envelope
frame n = record {
  type = chat;
  room_id = codes "r";
  sender_id = codes "a";
  session_id = codes "s";
  ts = 0;
  seq = n;
  target_sender_id = undefined;
  payload = undefined;
}

-- The primary path is down.
abbrev half : Paths
half before primary m = some (codes "down")
half before fallback m = none

abbrev bound : CompositeTransport
unfolding new
bound = record (new none none) { subscriptions = 2 }

-- Both paths carry the frames 1 and 2, and the second path is late.
abbrev merged : List Envelope
merged = frame 1 ∷ frame 2 ∷ frame 1 ∷ frame 2 ∷ frame 3 ∷ []

receive_all-accepted_example : (receive_all merged bound).0 ≡ accepted merged (Ordering.init none)
unfolding new Ordering.init
receive_all-accepted_example =
    receive_all-accepted merged bound (Ordering.init none) refl (omega arith)

merged_once : (receive_all merged bound).0 ≡ frame 1 ∷ frame 2 ∷ frame 3 ∷ []
unfolding receive_all receive Composite.receive_times is_new Composite.seen_key JsMap.get JsMap.set
    new
merged_once = refl

falls_back :
    (Composite.emit half (frame 1) bound).1.trace
    ≡ asked primary (emit_envelope (frame 1))
      ∷ fell_back (codes "down") (frame 1)
      ∷ asked fallback (emit_envelope (frame 1))
      ∷ []
unfolding Composite.emit Composite.ask new
falls_back = refl
