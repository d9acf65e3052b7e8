-- ===== src/Transport/Base/Lifecycle.antt =====
-- The life of a transport: out of a room, in a room, disposed.
use open_rtc.Base.{
  ◌≡◌, ◌≢◌, refl, sym, ◌∙◌, subst, Bool, true, false, Bool-cases, Option-cases, inl, inr, Option,
  none, some, List, [], ◌∷◌, Text, text_beq, text_beq_iff, arith,
}
use open_rtc.Protocol.{Envelope, to_js}
use open_rtc.Protocol.Values.{Js}
use open_rtc.Transport.Base.{
  Wire, do_join, do_leave, do_send_frame, do_dispose, do_set_presence, transport_disposed,
  already_in_room, not_joined, wrong_room, hook_failed, Outcome, done, threw, Surroundings,
  BaseTransport, called, proceed, run_hook, after_join, join, after_leave, leave, frames_of,
  send_all, send_frame, emit, is_ice, set_presence, dispose,
}

-- What a client sees of the transport.
pub data Phase : Type 0 where
  idle : Phase
  in_room : Text → Phase
  gone : Phase

abbrev pub phase_of : Bool → Option Text → Phase
phase_of true room = gone
phase_of false none = idle
phase_of false (some room) = in_room room

abbrev pub phase : BaseTransport → Phase
phase b = phase_of b.disposed b.current_room

-- The calls of `SignalingTransport`.
pub data Op : Type 0 where
  join_op : Text → Text → Op
  leave_op : Op
  emit_op : Text → Envelope → Op
  presence_op : Text → Js → Op
  dispose_op : Op

abbrev pub run_op : Surroundings → Op → BaseTransport → Outcome × BaseTransport
run_op around (join_op room id) = join around room id
run_op around leave_op = leave around
run_op around (emit_op chunk_id e) = emit around chunk_id e
run_op around (presence_op state metadata) = set_presence around state metadata
run_op around dispose_op = dispose around

-- The contract of a transport: what each call may answer, and where it leads. A call that reaches
-- the backend is done or fails as the backend does.
pub data Allowed : Phase → Op → Outcome → Phase → Type 0 where
  join_done : (room id : Text) → Allowed idle (join_op room id) done (in_room room)
  join_fails : (room id e : Text) → Allowed idle (join_op room id) (threw (hook_failed e)) idle
  join_twice :
      (old room id : Text)
      → Allowed (in_room old) (join_op room id) (threw (already_in_room old)) (in_room old)
  join_late : (room id : Text) → Allowed gone (join_op room id) (threw transport_disposed) gone
  leave_idle : Allowed idle leave_op done idle
  leave_done : (room : Text) → Allowed (in_room room) leave_op done idle
  leave_fails :
      (room e : Text) → Allowed (in_room room) leave_op (threw (hook_failed e)) (in_room room)
  leave_late : (o : Outcome) → Allowed gone leave_op o gone
  emit_idle : (c : Text) (e : Envelope) → Allowed idle (emit_op c e) (threw not_joined) idle
  emit_elsewhere :
      (room c : Text) (e : Envelope)
      → e.room_id ≢ room
      → Allowed (in_room room) (emit_op c e) (threw (wrong_room e.room_id room)) (in_room room)
  emit_done :
      (room c : Text) (e : Envelope)
      → e.room_id ≡ room
      → Allowed (in_room room) (emit_op c e) done (in_room room)
  emit_fails :
      (room c x : Text) (e : Envelope)
      → e.room_id ≡ room
      → Allowed (in_room room) (emit_op c e) (threw (hook_failed x)) (in_room room)
  emit_late : (c : Text) (e : Envelope) → Allowed gone (emit_op c e) (threw transport_disposed) gone
  presence_idle :
      (state : Text) (metadata : Js)
      → Allowed idle (presence_op state metadata) (threw not_joined) idle
  presence_done :
      (room state : Text) (metadata : Js)
      → Allowed (in_room room) (presence_op state metadata) done (in_room room)
  presence_fails :
      (room state e : Text) (metadata : Js)
      → Allowed (in_room room) (presence_op state metadata) (threw (hook_failed e)) (in_room room)
  presence_late :
      (state : Text) (metadata : Js)
      → Allowed gone (presence_op state metadata) (threw transport_disposed) gone
  dispose_done : (p : Phase) → Allowed p dispose_op done gone
  dispose_fails :
      (p : Phase) (e : Text) → p ≢ gone → Allowed p dispose_op (threw (hook_failed e)) gone

phase_of-ne : (room : Option Text) → phase_of false room ≢ gone
phase_of-ne none q = cc
phase_of-ne (some room) q = cc

-- Sending ends well or as the hook fails, and leaves the phase.
data Ends (b : BaseTransport) : Outcome × BaseTransport → Type 0 where
  well : (c : BaseTransport) → phase c ≡ phase b → Ends b (done, c)
  badly : (c : BaseTransport) (e : Text) → phase c ≡ phase b → Ends b (threw (hook_failed e), c)

Ends-same :
    (b d : BaseTransport) (x : Outcome × BaseTransport) → phase b ≡ phase d → Ends b x → Ends d x
Ends-same b d _ q (well c h) = well c (h ∙ q)
Ends-same b d _ q (badly c e h) = badly c e (h ∙ q)

Ends-Allowed :
    (room c : Text) (e : Envelope) (b : BaseTransport) (x : Outcome × BaseTransport)
    → e.room_id ≡ room
    → phase b ≡ in_room room
    → Ends b x
    → Allowed (in_room room) (emit_op c e) x.0 (phase x.1)
Ends-Allowed room c e b _ q at (well d h) =
    subst (λ p. Allowed (in_room room) (emit_op c e) done p) (sym (h ∙ at)) (emit_done room c e q)
Ends-Allowed room c e b _ q at (badly d x h) =
    subst (λ p. Allowed (in_room room) (emit_op c e) (threw (hook_failed x)) p) (sym (h ∙ at))
      (emit_fails room c x e q)

module _ (around : Surroundings) where
  join-Allowed :
      (room id : Text) (b : BaseTransport)
      → Allowed
          (phase b)
          (join_op room id)
          (join around room id b).0
          (phase (join around room id b).1)
  unfolding join run_hook after_join
  join-Allowed room id b = elim (Bool-cases b.disposed) [
    | inl late ↦ simp (join, late) (join_late room id)
    | inr live ↦ elim (Option-cases b.current_room) [
      | inr (old, in_it) ↦ simp (join, live, in_it) (join_twice old room id)
      | inl out ↦ elim (Option-cases (around.hook b.calls (do_join room id))) [
        | inl fine ↦ simp (join, live, out, run_hook, fine, after_join) (join_done room id)
        | inr (e, fails) ↦
            simp (join, live, out, run_hook, fails, after_join) (join_fails room id e)
      ]
    ]
  ]

  leave-Allowed :
      (b : BaseTransport) → Allowed (phase b) leave_op (leave around b).0 (phase (leave around b).1)
  unfolding leave run_hook after_leave proceed
  leave-Allowed b = elim (Bool-cases b.disposed) [
    | inl late ↦ elim (Option-cases b.current_room) [
      | inl out ↦ simp (leave, late, out) (leave_late done)
      | inr (room, in_it) ↦ elim (Option-cases (around.hook b.calls do_leave)) [
        | inl fine ↦ simp (leave, late, in_it, run_hook, fine, after_leave) (leave_late done)
        | inr (e, fails) ↦
            simp (leave, late, in_it, run_hook, fails) (leave_late (threw (hook_failed e)))
      ]
    ]
    | inr live ↦ elim (Option-cases b.current_room) [
      | inl out ↦ simp (leave, live, out) leave_idle
      | inr (room, in_it) ↦ elim (Option-cases (around.hook b.calls do_leave)) [
        | inl fine ↦ simp (leave, live, in_it, run_hook, fine, after_leave) (leave_done room)
        | inr (e, fails) ↦ simp (leave, live, in_it, run_hook, fails) (leave_fails room e)
      ]
    ]
  ]

  send_all-Ends : (ws : List Wire) (b : BaseTransport) → Ends b (send_all around ws b)
  unfolding send_all run_hook proceed
  send_all-Ends [] b = well b refl
  send_all-Ends (w ∷ ws) b = elim (Option-cases (around.hook b.calls (do_send_frame w))) [
    | inl fine ↦
        simp (send_all, run_hook, fine)
          (Ends-same (called (do_send_frame w) b) b _ refl
            (send_all-Ends ws (called (do_send_frame w) b)))
    | inr (e, fails) ↦ simp (send_all, run_hook, fails) (badly _ e refl)
  ]

  emit-Ends :
      (c room : Text) (e : Envelope) (b : BaseTransport)
      → b.disposed ≡ false
      → b.current_room ≡ some room
      → text_beq e.room_id room ≡ true
      → Ends b (emit around c e b)
  unfolding emit send_frame
  emit-Ends c room e b live in_it same = elim (Option-cases b.coalescer) [
    | inl direct ↦
        simp (emit, send_frame, live, in_it, same, direct)
          (send_all-Ends (frames_of around c (to_js e) b) b)
    | inr (co, gathers) ↦ elim (Bool-cases (is_ice e.type)) [
      | inl candidate ↦
          simp (emit, live, in_it, same, gathers, candidate)
            (let at : phase b ≡ in_room room = simp (live, in_it) refl in well _ (sym at))
      | inr other ↦
          simp (emit, send_frame, live, in_it, same, gathers, other)
            (send_all-Ends (frames_of around c (to_js e) b) b)
    ]
  ]

  emit-Allowed :
      (c : Text) (e : Envelope) (b : BaseTransport)
      → Allowed (phase b) (emit_op c e) (emit around c e b).0 (phase (emit around c e b).1)
  unfolding emit
  emit-Allowed c e b = elim (Bool-cases b.disposed) [
    | inl late ↦ simp (emit, late) (emit_late c e)
    | inr live ↦ elim (Option-cases b.current_room) [
      | inl out ↦ simp (emit, live, out) (emit_idle c e)
      | inr (room, in_it) ↦ elim (Bool-cases (text_beq e.room_id room)) [
        | inl same ↦
            let at : phase b ≡ in_room room = simp (live, in_it) refl in
            subst (λ p. Allowed p (emit_op c e) (emit around c e b).0 (phase (emit around c e b).1))
              (sym at)
              (Ends-Allowed room c e b (emit around c e b) ((text_beq_iff e.room_id room).0 same) at
                (emit-Ends c room e b live in_it same))
        | inr elsewhere ↦
            simp (emit, live, in_it, elsewhere)
              (emit_elsewhere room c e (λ q. absurd (ground (arith, text_beq_iff e.room_id room))))
      ]
    ]
  ]

  set_presence-Allowed :
      (state : Text) (metadata : Js) (b : BaseTransport)
      → Allowed
          (phase b)
          (presence_op state metadata)
          (set_presence around state metadata b).0
          (phase (set_presence around state metadata b).1)
  unfolding set_presence run_hook
  set_presence-Allowed state metadata b = elim (Bool-cases b.disposed) [
    | inl late ↦ simp (set_presence, late) (presence_late state metadata)
    | inr live ↦ elim (Option-cases b.current_room) [
      | inl out ↦ simp (set_presence, live, out) (presence_idle state metadata)
      | inr (room, in_it) ↦
          elim (Option-cases (around.hook b.calls (do_set_presence state metadata))) [
            | inl fine ↦
                simp (set_presence, live, in_it, run_hook, fine) (presence_done room state metadata)
            | inr (e, fails) ↦
                simp (set_presence, live, in_it, run_hook, fails)
                  (presence_fails room state e metadata)
          ]
    ]
  ]

  dispose-Allowed :
      (b : BaseTransport)
      → Allowed (phase b) dispose_op (dispose around b).0 (phase (dispose around b).1)
  unfolding dispose run_hook proceed
  dispose-Allowed b = elim (Bool-cases b.disposed) [
    | inl late ↦ simp (dispose, late) (dispose_done gone)
    | inr live ↦ elim (Option-cases (around.hook b.calls do_dispose)) [
      | inl fine ↦ simp (dispose, live, run_hook, fine) (dispose_done _)
      | inr (e, fails) ↦
          simp (dispose, live, run_hook, fails) (dispose_fails _ e (phase_of-ne b.current_room))
    ]
  ]

  -- Each call does what the contract allows in the phase that the transport is in.
  run_op-Allowed :
      (op : Op) (b : BaseTransport)
      → Allowed (phase b) op (run_op around op b).0 (phase (run_op around op b).1)
  run_op-Allowed (join_op room id) b = join-Allowed room id b
  run_op-Allowed leave_op b = leave-Allowed b
  run_op-Allowed (emit_op c e) b = emit-Allowed c e b
  run_op-Allowed (presence_op state metadata) b = set_presence-Allowed state metadata b
  run_op-Allowed dispose_op b = dispose-Allowed b

-- The outcomes of calls, one after the other.
abbrev pub outcomes : Surroundings → List Op → BaseTransport → List Outcome
outcomes around [] b = []
outcomes around (op ∷ ops) b = (run_op around op b).0 ∷ outcomes around ops (run_op around op b).1

-- The contract over a sequence of calls.
pub data Run : Phase → List Op → List Outcome → Type 0 where
  stop : (p : Phase) → Run p [] []
  step :
      {p q : Phase} {op : Op} {o : Outcome} {ops : List Op} {os : List Outcome}
      → Allowed p op o q
      → Run q ops os
      → Run p (op ∷ ops) (o ∷ os)

-- Refinement: whatever calls a client makes of a transport, what they answer is what the contract
-- allows from the transport's phase on.
pub outcomes-Run :
    (around : Surroundings) (ops : List Op) (b : BaseTransport)
    → Run (phase b) ops (outcomes around ops b)
outcomes-Run around [] b = stop (phase b)
outcomes-Run around (op ∷ ops) b =
    step (run_op-Allowed around op b) (outcomes-Run around ops (run_op around op b).1)
