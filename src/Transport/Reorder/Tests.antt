-- ===== src/Transport/Reorder/Tests.antt =====
-- Runs of the reorder buffer, and its theorems at concrete streams.
use open_rtc.Base.{ℕ, ◌≤◌, ◌≡◌, refl, List, [], ◌∷◌, map, none, codes, select, arith, In}
use open_rtc.Base.JsMap
use open_rtc.Protocol.{Envelope, MessageType, offer, ice}
use open_rtc.Protocol.Values.{undefined}
use open_rtc.Transport.Reorder.{ReorderBuffer, ReorderOptions, SenderState, init, push, sweep}
use open_rtc.Transport.Reorder.Order.{Ascends}
use open_rtc.Transport.Reorder.Drain.{Consecutive}
use open_rtc.Transport.Reorder.Streams.{mine, expected, deliver_all, deliver_all-Ascends}
use open_rtc.Transport.Reorder.Once.{deliver_all-Consecutive}
use open_rtc.Transport.Reorder.Stalls.{in_order_stall, sweep_stall}

abbrev frame : MessageType → ℕ → Envelope
frame t n = record {
  type = t;
  room_id = codes "r";
  sender_id = codes "a";
  session_id = codes "s";
  ts = 0;
  seq = n;
  target_sender_id = undefined;
  payload = undefined;
}

abbrev defaults : ReorderOptions
defaults = record { ordered_kinds = none; max_gap = none; timeout_ms = none }

-- 2 comes first, 1 twice and last; an `ice` frame passes.
abbrev shuffled : List (ℕ × Envelope)
shuffled =
    (0, frame offer 2)
    ∷ (1, frame ice 9)
    ∷ (2, frame offer 0)
    ∷ (3, frame offer 1)
    ∷ (4, frame offer 1)
    ∷ []

abbrev seqs : List Envelope → List ℕ
seqs = map λ e. e.seq

shuffled_lem : seqs (deliver_all shuffled (init defaults)).0 ≡ 9 ∷ 0 ∷ 1 ∷ 2 ∷ []
unfolding deliver_all push init
shuffled_lem = refl

-- A frame beyond the window flushes what is held, in order.
abbrev lossy : List (ℕ × Envelope)
lossy = (0, frame offer 3) ∷ (1, frame offer 2) ∷ (2, frame offer 64) ∷ []

lossy_lem : seqs (deliver_all lossy (init defaults)).0 ≡ 2 ∷ 3 ∷ 64 ∷ []
unfolding deliver_all push init
lossy_lem = refl

deliver_all-Ascends_example :
    Ascends 0
      (select (mine (codes "a") (init defaults).ordered) (deliver_all lossy (init defaults)).0)
      (expected (codes "a") (deliver_all lossy (init defaults)).1)
deliver_all-Ascends_example = deliver_all-Ascends defaults (codes "a") lossy

below_three : (i : ℕ) → i ≤ 2 → In i (2 ∷ 0 ∷ 1 ∷ 1 ∷ [])
below_three i h = grind arith

deliver_all-Consecutive_example :
    (k : ℕ) × Consecutive 0
      (select (mine (codes "a") (init defaults).ordered) (deliver_all shuffled (init defaults)).0)
      k
    × (3 ≤ k)
unfolding init
deliver_all-Consecutive_example =
    deliver_all-Consecutive defaults (codes "a") shuffled 3 (omega arith)
      (λ i h. below_three i (omega arith))

in_order_stall_example :
    (deliver_all ((0, frame ice 0) ∷ (1, frame offer 1) ∷ []) (init defaults)).0 ≡ frame ice 0 ∷ []
unfolding init
in_order_stall_example =
    in_order_stall defaults ((0, frame ice 0) ∷ []) 1 (frame offer 1) (refl, tt) refl (omega arith)
      (omega arith)

abbrev idle : SenderState
idle = record { next = 5; buffer = []; last_activity = 0 }

abbrev quiet : ReorderBuffer
unfolding init
quiet = record (init defaults) { senders = (codes "a", idle) ∷ [] }

sweep_stall_example : (push 5001 (frame offer 5) (sweep 5000 quiet)).0 ≡ []
unfolding init JsMap.get
sweep_stall_example =
    sweep_stall quiet idle 5000 5001 (frame offer 5) (tt, tt) refl (omega arith) refl refl
      (omega arith) (omega arith)
