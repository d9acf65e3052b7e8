-- ===== src/Engine/Ordering/Tests.antt =====
-- Runs of the ordered message buffer, and its theorem at a concrete history.
use open_rtc.Base.{ℕ, ◌<◌, ◌≡◌, refl, ◌↔◌, true, false, none, some, List, [], ◌∷◌, Text, codes, All}
use open_rtc.Base.JsMap
use open_rtc.Protocol.{Envelope, offer}
use open_rtc.Protocol.Values.{undefined}
use open_rtc.Engine.Ordering.{init, accept}
use open_rtc.Engine.Ordering.Latest.{after, accept_iff}

abbrev frame : Text → ℕ → Envelope
frame session n = record {
  type = offer;
  room_id = codes "r";
  sender_id = codes "a";
  session_id = session;
  ts = 0;
  seq = n;
  target_sender_id = undefined;
  payload = undefined;
}

abbrev history : List Envelope
history = frame (codes "s") 4 ∷ frame (codes "t") 9 ∷ frame (codes "s") 2 ∷ []

stale : (accept (frame (codes "s") 4) (after history (init (some 3)))).0 ≡ false
unfolding accept after init JsMap.get JsMap.set
stale = refl

newer : (accept (frame (codes "s") 5) (after history (init none))).0 ≡ true
unfolding accept after init JsMap.get JsMap.set
newer = refl

accept_iff_example :
    ((accept (frame (codes "s") 5) (after history (init (some 3)))).0 ≡ true)
    ↔ All (λ h. h.session_id ≡ codes "s" → h.seq < 5) history
accept_iff_example = accept_iff (some 3) history (frame (codes "s") 5)
