-- ===== src/Server/Sockets/Reach.antt =====
-- Whom a handler of packages/server/src/ws.ts reaches.
use open_rtc.Base.{
  ℕ, ◌≡◌, refl, sym, ◌∙◌, subst, true, ◌&&◌, ◌++◌, All, Bool-cases, Option-cases, ◌⊎◌, inl, inr,
  Option, none, some, List, Text, text_eq, nat_eq, nat_beq, nat_beq_iff, codes, text_beq,
  text_beq_iff, if◌then◌else◌, arith,
}
use open_rtc.Base.JsSet
use open_rtc.Protocol.{Envelope, is_envelope, narrow}
use open_rtc.Protocol.Values.{Js, prop}
use open_rtc.Server.Types.{JoinResult, LeaveResult, SignalDelivery}
use open_rtc.Server.Errors.{ServerError, error_code}
use open_rtc.Server.Relay.{is_join, is_leave}
use open_rtc.Server.World.{World, Result, ok, err}
use open_rtc.Server.Sockets.{
  SocketMeta, RoomHub, attach, detach, meta_for, Message, Effect, sent, closed, pushed, webhook,
  Services, Gateway, broadcast,
}
use open_rtc.Server.Sockets.Joining.{
  authenticate_socket, policy_of, check_locked, check_e2ee, actor_options, notice,
  participant_notice, contains, enter, refuse_join, complete_join, join_room_of, handle_join,
}
use open_rtc.Server.Sockets.Handling.{
  is_transcript, is_interim, deliver_leave, on_left, on_signal, handle_member, handle_stranger,
  entered, handle_envelope, handle_message,
}
use open_rtc.Server.Sockets.Quiet.{
  hub-authenticate_socket, hub-check_locked, hub-check_e2ee, hub-actor_options,
}
use open_rtc.Server.Sockets.Members.{members_of, has-attach, has-detach}
use open_rtc.Server.Sockets.Told.{
  Adds, nothing, and_then, Adds-send_json, Adds-notice, Adds-broadcast, Adds-guarded, IsOwn,
  Adds-send_error, Adds-authenticate_socket, Adds-check_locked, Adds-check_e2ee,
  trace-actor_options,
}

-- A message of a socket that is registered for no room asks to join a room, as an envelope that
-- authentication lets in: under a token for the room and the sender, or under none where
-- authentication is off.
pub record AsksToJoin (s : Services) (now j : ℕ) (raw : Text) (g : Gateway) (room : Text)
    : Type 0 where
  pub value : Js
  pub envelope : Envelope
  pub parsed : s.crypto.parse raw ≡ some value
  pub valid : (if is_envelope value then narrow value else none) ≡ some envelope
  pub joins : is_join envelope.type ≡ true
  pub names : envelope.room_id ≡ room
  pub outside : entered (meta_for j g.hub) ≡ none
  pub let_in : (authenticate_socket s now j envelope.room_id envelope.sender_id g).0 ≡ true

-- The sockets that a message of the socket `j` may be sent to: those in the set of the room that `j`
-- is registered for, or asks to join.
pub record IsOpenTo (s : Services) (now j : ℕ) (raw : Text) (g : Gateway) (i : ℕ) : Type 0 where
  pub room : Text
  pub shared : JsSet.has i (members_of room g.hub) ≡ true
  pub may_speak :
      ((m : SocketMeta) × (entered (meta_for j g.hub) ≡ some m) × (m.room_id ≡ room))
      ⊎ AsksToJoin s now j raw g room

module _ (P : Effect → Type 0) (s : Services) (now j : ℕ) (own : IsOwn P j) where
  -- The sockets of a room may be told.
  abbrev MayTell : Text → RoomHub → Type 0
  MayTell room hub =
      (i : ℕ) → JsSet.has i (members_of room hub) ≡ true → (m : Message) → P (sent i m)

  told_attached :
      (e : Envelope) (hub : RoomHub)
      → MayTell e.room_id hub
      → MayTell e.room_id (attach e.room_id j e.sender_id e.session_id hub)
  told_attached e hub may i inside m =
      let or_old = sym (has-attach e.room_id j hub e.sender_id e.session_id e.room_id i) ∙ inside in
      elim (Bool-cases (nat_beq j i)) [
        | inl same ↦ subst (λ k. P (sent k m)) ((nat_beq_iff j i).0 same) (own.says m)
        | inr other ↦ may i (ground (arith, other, or_old)) m
      ]

  told_detached :
      (room : Text) (hub : RoomHub) → MayTell room hub → MayTell room (detach room j hub)
  told_detached room hub may i inside m =
      let still = sym (has-detach room j hub room i) ∙ inside in may i (ground (arith, still)) m

  Adds-refuse_join :
      (e : Envelope) (error : ServerError) (g : Gateway)
      → Adds P g.trace (refuse_join s now j e error g).trace
  unfolding refuse_join
  Adds-refuse_join e error g =
      let told =
        text_beq (error_code error) (codes "forbidden")
        && contains (codes "lobby") (s.error_text error)
        && s.has_webhooks in
      let g1 =
        notice told (webhook (codes "lobby.waiting") e.room_id (participant_notice e.sender_id))
          g in
      and_then P g.trace g1.trace _ (Adds-notice P told _ g (own.hooks _ e.room_id _))
        (Adds-send_error P s now j own e.room_id (error_code error) (s.error_text error) g1)

  Adds-complete_join :
      (e : Envelope) (r : Result (JoinResult × SignalDelivery) × World) (g : Gateway)
      → MayTell e.room_id g.hub
      → Adds P g.trace (complete_join s now j e r g).trace
  unfolding complete_join enter refuse_join
  Adds-complete_join e (ok (result, delivery), w) g may =
      let g1 : Gateway = record g {
        world = w;
        hub = attach e.room_id j e.sender_id e.session_id g.hub;
      } in
      let g2 = broadcast e.room_id delivery.envelope e.sender_id g1 in
      let g3 = notice s.has_push (pushed e.room_id e.sender_id) g2 in
      let g4 =
        notice s.has_webhooks (webhook (codes "join") e.room_id (participant_notice e.sender_id))
          g3 in
      and_then P g.trace g4.trace _
        (and_then P g.trace g3.trace g4.trace
          (and_then P g.trace g2.trace g3.trace
            (Adds-broadcast P e.room_id delivery.envelope e.sender_id g1
              (λ i inside. told_attached e g.hub may i inside _))
            (Adds-notice P s.has_push _ g2 (own.pushes e.room_id e.sender_id)))
          (Adds-notice P s.has_webhooks _ g3 (own.hooks _ e.room_id _)))
        (Adds-send_json P j _ g4 (own.says _))
  Adds-complete_join e (err error, w) g may = Adds-refuse_join e error (record g { world = w })

  Adds-handle_join :
      (value : Js) (e : Envelope) (g : Gateway)
      → ((authenticate_socket s now j e.room_id e.sender_id g).0 ≡ true → MayTell e.room_id g.hub)
      → Adds P g.trace (handle_join s now j value e g).trace
  unfolding handle_join join_room_of
  Adds-handle_join value e g may =
      Adds-guarded P g.trace (authenticate_socket s now j e.room_id e.sender_id g) _
        (Adds-authenticate_socket P s now j own e.room_id e.sender_id g)
        λ let_in.
          let g1 = (authenticate_socket s now j e.room_id e.sender_id g).1 in
          let policy = policy_of e.room_id g1.world in
          Adds-guarded P g1.trace (check_locked s now j e.room_id policy g1) _
            (Adds-check_locked P s now j own e.room_id policy g1)
            λ _.
              let g2 = (check_locked s now j e.room_id policy g1).1 in
              Adds-guarded P g2.trace (check_e2ee s now j e.room_id policy g2) _
                (Adds-check_e2ee P s now j own e.room_id policy g2)
                λ _.
                  let g3 = (check_e2ee s now j e.room_id policy g2).1 in
                  let g4 = (actor_options s now j policy g3).1 in
                  let hubs : g4.hub ≡ g.hub =
                    hub-actor_options s now j policy g3
                    ∙ hub-check_e2ee s now j e.room_id policy g2
                    ∙ hub-check_locked s now j e.room_id policy g1
                    ∙ hub-authenticate_socket s now j e.room_id e.sender_id g in
                  and_then P g3.trace g4.trace _
                    (nothing P g3.trace g4.trace (trace-actor_options P s now j own policy g3))
                    (Adds-complete_join e _ g4
                      (subst (λ hub. MayTell e.room_id hub) (sym hubs) (may let_in)))

  Adds-deliver_leave :
      (room : Text) (d : Option SignalDelivery) (except : Text) (g : Gateway)
      → MayTell room g.hub
      → Adds P g.trace (deliver_leave room d except g).trace
  Adds-deliver_leave room none except g may = nothing P g.trace g.trace refl
  Adds-deliver_leave room (some d) except g may =
      Adds-broadcast P room d.envelope except g (λ i inside. may i inside _)

  Adds-on_left :
      (e : Envelope) (r : Result LeaveResult × World) (g : Gateway)
      → MayTell e.room_id g.hub
      → Adds P g.trace (on_left now j s e r g).trace
  unfolding on_left
  Adds-on_left e (ok result, w) g may =
      Adds-deliver_leave e.room_id result.delivery e.sender_id
        (record g { world = w; hub = detach e.room_id j g.hub }) (told_detached e.room_id g.hub may)
  Adds-on_left e (err error, w) g may =
      Adds-send_error P s now j own e.room_id (error_code error) (s.error_text error)
        (record g { world = w })

  Adds-on_signal :
      (e : Envelope) (r : Result SignalDelivery × World) (g : Gateway)
      → MayTell e.room_id g.hub
      → Adds P g.trace (on_signal now j s e r g).trace
  unfolding on_signal
  Adds-on_signal e (ok delivery, w) g may =
      let d = delivery.envelope in
      let g1 = broadcast e.room_id d e.sender_id (record g { world = w }) in
      let told = is_transcript d.type && s.has_webhooks in
      let event =
        if is_interim (prop (codes "isFinal") d.payload)
        then codes "transcript.interim"
        else codes "transcript.final" in
      let g2 = notice told (webhook event d.room_id d.payload) g1 in
      and_then P g.trace g2.trace _
        (and_then P g.trace g1.trace g2.trace
          (Adds-broadcast P e.room_id d e.sender_id (record g { world = w })
            (λ i inside. may i inside _))
          (Adds-notice P told _ g1 (own.hooks event d.room_id d.payload)))
        (Adds-notice P told _ g2 (own.hooks (codes "transcript") d.room_id d.payload))
  Adds-on_signal e (err error, w) g may =
      Adds-send_error P s now j own e.room_id (error_code error) (s.error_text error)
        (record g { world = w })

  Adds-handle_member :
      (value : Js) (e : Envelope) (m : SocketMeta) (g : Gateway)
      → MayTell m.room_id g.hub
      → Adds P g.trace (handle_member s now j value e m g).trace
  unfolding handle_member
  Adds-handle_member value e m g may = elim (Bool-cases (text_beq e.room_id m.room_id)) [
    | inr other ↦ rw (handle_member, other) (Adds-send_error P s now j own e.room_id _ _ g)
    | inl same ↦
        let here =
          subst (λ (room : Text). MayTell room g.hub)
            (sym ((text_beq_iff e.room_id m.room_id).0 same)) may in
        elim (Bool-cases (is_leave e.type)) [
          | inl leaves ↦ rw (handle_member, same, leaves) (Adds-on_left e _ g here)
          | inr other ↦ rw (handle_member, same, other) (Adds-on_signal e _ g here)
        ]
  ]

  Adds-handle_stranger :
      (value : Js) (e : Envelope) (g : Gateway)
      → (is_join e.type ≡ true
          → (authenticate_socket s now j e.room_id e.sender_id g).0 ≡ true
          → MayTell e.room_id g.hub)
      → Adds P g.trace (handle_stranger s now j value e g).trace
  unfolding handle_stranger
  Adds-handle_stranger value e g may = elim (Bool-cases (is_join e.type)) [
    | inl joins ↦ rw (handle_stranger, joins) (Adds-handle_join value e g (may joins))
    | inr other ↦ rw (handle_stranger, other) (Adds-send_error P s now j own e.room_id _ _ g)
  ]

  Adds-handle_message :
      (raw : Text) (g : Gateway)
      → ((room : Text) → AsksToJoin s now j raw g room → MayTell room g.hub)
      → ((m : SocketMeta) → entered (meta_for j g.hub) ≡ some m → MayTell m.room_id g.hub)
      → Adds P g.trace (handle_message s now j raw g).trace
  unfolding handle_message handle_envelope
  Adds-handle_message raw g joins speaks = elim (Option-cases (s.crypto.parse raw)) [
    | inl bad ↦ rw (handle_message, bad) (Adds-send_error P s now j own _ _ _ g)
    | inr (value, parsed) ↦ elim (Option-cases (if is_envelope value then narrow value else none)) [
      | inl bad ↦ rw (handle_message, parsed, bad) (Adds-send_error P s now j own _ _ _ g)
      | inr (e, narrowed) ↦ elim (Option-cases (entered (meta_for j g.hub))) [
        | inl outside ↦
            rw (handle_message, parsed, narrowed, handle_envelope, outside)
              (Adds-handle_stranger value e g λ is_one let_in. joins e.room_id (record {
                value = value;
                envelope = e;
                parsed = parsed;
                valid = narrowed;
                joins = is_one;
                names = refl;
                outside = outside;
                let_in = let_in;
              }))
        | inr (m, inside) ↦
            rw (handle_message, parsed, narrowed, handle_envelope, inside)
              (Adds-handle_member value e m g (speaks m inside))
      ]
    ]
  ]

-- What leaves the server for a message of the socket `j`: its connection alone may be closed.
unfoldable pub IsReached : Services → ℕ → ℕ → Text → Gateway → Effect → Type 0
IsReached s now j raw g (sent i m) = (i ≡ j) ⊎ IsOpenTo s now j raw g i
IsReached s now j raw g (closed i t) = i ≡ j
IsReached s now j raw g (pushed room id) = Unit
IsReached s now j raw g (webhook event room v) = Unit

-- A message of a socket, whatever it says, sends nothing to other sockets than itself and those in the
-- set of the room that it is registered for or, when it is registered for none, of the room that the
-- message asks to join, if authentication lets that join in or is off; and it closes no connection
-- but its own.
pub handle_message-IsReached :
    (s : Services) (now j : ℕ) (raw : Text) (g : Gateway)
    → (xs : List Effect) × ((handle_message s now j raw g).trace ≡ g.trace ++ xs)
      × All (IsReached s now j raw g) xs
unfolding IsReached
handle_message-IsReached s now j raw g =
    Adds-handle_message (IsReached s now j raw g) s now j
      (record {
        says = λ m. inl refl;
        shuts = λ t. refl;
        pushes = λ room id. tt;
        hooks = λ event room v. tt;
      })
      raw g
      (λ room asks i inside m. inr (record { room = room; shared = inside; may_speak = inr asks }))
      (λ m known i inside _.
        inr (record { room = m.room_id; shared = inside; may_speak = inl (m, known, refl) }))
