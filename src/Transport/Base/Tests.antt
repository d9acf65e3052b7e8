-- ===== src/Transport/Base/Tests.antt =====
-- Two transports on a backend that takes every frame.
use open_rtc.Base.{◌≡◌, refl, none, some, List, [], ◌∷◌, codes}
use open_rtc.Base.JsMap
use open_rtc.Protocol.{Envelope, chat, to_js}
use open_rtc.Protocol.Values.{undefined}
use open_rtc.Transport.Chunker
use open_rtc.Transport.Base
use open_rtc.Transport.Base.{
  Surroundings, BaseOptions, BaseTransport, Outcome, done, threw, transport_disposed, not_joined,
  already_in_room, emit, init, is_own,
}
use open_rtc.Transport.Base.Delivery.{Transmits, emit-Transmits}
use open_rtc.Transport.Base.Lifecycle.{
  Op, join_op, leave_op, emit_op, dispose_op, Run, idle, outcomes, outcomes-Run,
}

abbrev hello : Envelope
hello = record {
  type = chat;
  room_id = codes "r";
  sender_id = codes "a";
  session_id = codes "s";
  ts = 4;
  seq = 1;
  target_sender_id = undefined;
  payload = undefined;
}

-- A backend that takes every frame, and texts that stand for one object.
abbrev around : Surroundings
around = record {
  hook = λ before h. none;
  stringify = λ v. codes "0123456789";
  parse = λ text. some (to_js hello);
}

-- Chunks of four bytes above eight.
abbrev options : BaseOptions
options = record {
  reorder = none;
  reorder_kinds = none;
  chunk_max_bytes = some 4;
  heartbeat_ms = none;
  presence_timeout_ms = none;
  coalesce_ice_ms = none;
}

abbrev fresh : BaseTransport
unfolding init
fresh = init 8 options

abbrev ann : BaseTransport
ann = record fresh { current_room = some (codes "r"); self = some (codes "a") }

abbrev bob : BaseTransport
bob = record fresh { current_room = some (codes "r"); self = some (codes "b") }

emit-Transmits_example : Transmits around 7 hello ann (emit around (codes "c") hello ann).1 bob
unfolding init is_own Chunker.init JsMap.get
emit-Transmits_example =
    emit-Transmits around 7 (codes "c") hello ann bob refl (λ before w. refl) refl refl refl refl
      refl refl

abbrev calls : List Op
calls =
    emit_op (codes "c") hello
    ∷ join_op (codes "r") (codes "a")
    ∷ join_op (codes "q") (codes "a")
    ∷ emit_op (codes "c") hello
    ∷ leave_op
    ∷ dispose_op
    ∷ join_op (codes "r") (codes "a")
    ∷ []

outcomes-Run_example : Run idle calls (outcomes around calls fresh)
unfolding init
outcomes-Run_example = outcomes-Run around calls fresh

outcomes_run :
    outcomes around calls fresh
    ≡ threw not_joined
      ∷ done
      ∷ threw (already_in_room (codes "r"))
      ∷ done
      ∷ done
      ∷ done
      ∷ threw transport_disposed
      ∷ []
unfolding init Base.join Base.run_hook Base.after_join Base.leave Base.after_leave Base.emit
    Base.send_frame Base.frames_of Base.send_all Base.proceed Base.dispose Base.chunk_max
    Base.utf8_bytes Chunker.encode_chunks Chunker.split_utf8 Chunker.split_loop Chunker.utf8_size
    Chunker.number_parts
outcomes_run = refl
