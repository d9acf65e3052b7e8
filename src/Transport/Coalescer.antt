-- ===== src/Transport/Coalescer.antt =====
-- packages/transport/src/internal/iceCoalescer.ts: the batching of ICE envelopes.
--
-- The timer is its being set; the batches handed to `onFlush` are a list, in order. `settled` is the
-- end of a call of `onFlush`, whether it fulfils or rejects.
pub mod Batches
mod Tests
use open_rtc.Base.{ℕ, Bool, true, false, List, [], ◌∷◌, ◌++◌, leb, length, if◌then◌else◌}
use open_rtc.Protocol.{Envelope}

pub record IceCoalescer : Type 0 where
  pub queue : List Envelope
  pub timer : Bool
  pub flushing : Bool
  pub max_items : ℕ
  pub flushed : List (List Envelope)

unfoldable pub init : ℕ → IceCoalescer
init max_items = record {
  queue = [];
  timer = false;
  flushing = false;
  max_items = max_items;
  flushed = [];
}

-- The queue becomes a batch, if it is not empty.
unfoldable pub flush_queue : List Envelope → IceCoalescer → IceCoalescer
flush_queue [] c = c
flush_queue (e ∷ items) c = record c {
  queue = [];
  timer = false;
  flushing = true;
  flushed = c.flushed ++ (e ∷ items) ∷ [];
}

-- `flush` up to its wait for `onFlush`.
unfoldable pub flush : IceCoalescer → IceCoalescer
unfolding flush_queue
flush c = if c.flushing then c else flush_queue c.queue c

unfoldable pub settled : IceCoalescer → IceCoalescer
settled c = record c { flushing = false }

unfoldable pub push : Envelope → IceCoalescer → IceCoalescer
unfolding flush
push e c =
    let queue = c.queue ++ e ∷ [] in
    if leb c.max_items (length queue)
    then flush (record c { queue = queue })
    else record c { queue = queue; timer = true }

-- The timer fires, if it is set.
unfoldable pub fire : IceCoalescer → IceCoalescer
unfolding flush
fire c = if c.timer then flush (record c { timer = false }) else c

unfoldable pub dispose : IceCoalescer → IceCoalescer
dispose c = record c { queue = []; timer = false }
