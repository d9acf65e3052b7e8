-- ===== src/Server/Sockets/Changes.antt =====
-- What the handlers of packages/server/src/ws.ts do to the registry of sockets.
use open_rtc.Base.{
  ℕ, ◌≡◌, refl, sym, ap, ◌∙◌, subst, Bool, true, false, Bool-cases, Option-cases, inl, inr, Option,
  none, some, Text, text_eq, nat_eq, text_beq, text_beq_iff, if◌then◌else◌, arith,
}
use open_rtc.Protocol.{Envelope, is_envelope, narrow}
use open_rtc.Protocol.Values.{Js}
use open_rtc.Server.Types.{JoinResult, LeaveResult, SignalDelivery}
use open_rtc.Server.World.{World, Result, ok, err}
use open_rtc.Server.Store
use open_rtc.Server.Relay.{is_join, is_leave}
use open_rtc.Server.Auth.{is_empty}
use open_rtc.Server.Sockets.{SocketMeta, RoomHub, attach, detach, meta_for, Services, Gateway, log}
use open_rtc.Server.Sockets.Joining.{
  authenticate_socket, policy_of, check_locked, check_e2ee, actor_options, enter, refuse_join,
  complete_join, join_room_of, guarded, handle_join,
}
use open_rtc.Server.Sockets.Handling.{
  deliver_leave, on_left, on_signal, handle_member, handle_stranger, entered, handle_envelope,
  handle_message, after_close, close_member, handle_close, on_close,
}
use open_rtc.Server.Sockets.Quiet.{
  hub-send_json, hub-send_error, hub-notice, hub-broadcast, hub-authenticate_socket,
  hub-check_locked, hub-check_e2ee, hub-actor_options, hub-refuse_join,
}

-- The registry after an event of the socket `j`, as it was before or with `j` in or out of a room.
pub data Change (s : Services) (now j : ℕ) (g : Gateway) : RoomHub → Type 0 where
  kept : Change s now j g g.hub
  attached :
      (e : Envelope)
      → entered (meta_for j g.hub) ≡ none
      → (authenticate_socket s now j e.room_id e.sender_id g).0 ≡ true
      → Change s now j g (attach e.room_id j e.sender_id e.session_id g.hub)
  detached :
      (m : SocketMeta)
      → entered (meta_for j g.hub) ≡ some m
      → Change s now j g (detach m.room_id j g.hub)

module _ (s : Services) (now j : ℕ) (g : Gateway) where
  abbrev Fits : RoomHub → Type 0
  Fits hub = Change s now j g hub

  same_hub : (hub : RoomHub) → hub ≡ g.hub → Fits hub
  same_hub hub same = subst Fits (sym same) kept

  guarded-Change :
      (x : Bool × Gateway) (f : Gateway → Gateway)
      → (x.1).hub ≡ g.hub
      → (x.0 ≡ true → Fits (f x.1).hub)
      → Fits (guarded x f).hub
  unfolding guarded
  guarded-Change (false, g1) f same next = same_hub g1.hub same
  guarded-Change (true, g1) f same next = next refl

  complete_join-Change :
      (e : Envelope) (r : Result (JoinResult × SignalDelivery) × World) (g' : Gateway)
      → entered (meta_for j g.hub) ≡ none
      → (authenticate_socket s now j e.room_id e.sender_id g).0 ≡ true
      → g'.hub ≡ g.hub
      → Fits (complete_join s now j e r g').hub
  unfolding complete_join enter refuse_join
  complete_join-Change e (ok (result, delivery), w) g' outside let_in same =
      let is : (complete_join s now j e (ok (result, delivery), w) g').hub
          ≡ attach e.room_id j e.sender_id e.session_id g.hub =
        hub-send_json j _ _
        ∙ hub-notice s.has_webhooks _ _
        ∙ hub-notice s.has_push _ _
        ∙ hub-broadcast e.room_id delivery.envelope e.sender_id _
        ∙ ap (attach e.room_id j e.sender_id e.session_id) same in
      subst Fits (sym is) (attached e outside let_in)
  complete_join-Change e (err error, w) g' outside let_in same =
      same_hub _ (hub-refuse_join s now j e error (record g' { world = w }) ∙ same)

  handle_join-Change :
      (value : Js) (e : Envelope)
      → entered (meta_for j g.hub) ≡ none
      → Fits (handle_join s now j value e g).hub
  unfolding handle_join join_room_of
  handle_join-Change value e outside =
      let h1 = hub-authenticate_socket s now j e.room_id e.sender_id g in
      guarded-Change (authenticate_socket s now j e.room_id e.sender_id g) _ h1 λ let_in.
        let g1 = (authenticate_socket s now j e.room_id e.sender_id g).1 in
        let policy = policy_of e.room_id g1.world in
        let h2 = hub-check_locked s now j e.room_id policy g1 ∙ h1 in
        guarded-Change (check_locked s now j e.room_id policy g1) _ h2 λ _.
          let g2 = (check_locked s now j e.room_id policy g1).1 in
          let h3 = hub-check_e2ee s now j e.room_id policy g2 ∙ h2 in
          guarded-Change (check_e2ee s now j e.room_id policy g2) _ h3 λ _.
            let g3 = (check_e2ee s now j e.room_id policy g2).1 in
            complete_join-Change e _ (actor_options s now j policy g3).1 outside let_in
              (hub-actor_options s now j policy g3 ∙ h3)

  deliver_leave-hub :
      (room : Text) (d : Option SignalDelivery) (except : Text) (g' : Gateway)
      → (deliver_leave room d except g').hub ≡ g'.hub
  deliver_leave-hub room none except g' = refl
  deliver_leave-hub room (some d) except g' = hub-broadcast room d.envelope except g'

  on_left-Change :
      (e : Envelope) (m : SocketMeta) (r : Result LeaveResult × World)
      → entered (meta_for j g.hub) ≡ some m
      → e.room_id ≡ m.room_id
      → Fits (on_left now j s e r g).hub
  unfolding on_left
  on_left-Change e m (ok result, w) inside same =
      let is : (on_left now j s e (ok result, w) g).hub ≡ detach m.room_id j g.hub =
        deliver_leave-hub e.room_id result.delivery e.sender_id _
        ∙ ap (λ room. detach room j g.hub) same in
      subst Fits (sym is) (detached m inside)
  on_left-Change e m (err error, w) inside same =
      same_hub _ (hub-send_error now j e.room_id _ _ (record g { world = w }))

  on_signal-Change :
      (e : Envelope) (r : Result SignalDelivery × World) → Fits (on_signal now j s e r g).hub
  unfolding on_signal log
  on_signal-Change e (ok delivery, w) =
      let quiet = hub-broadcast e.room_id delivery.envelope e.sender_id (record g { world = w }) in
      same_hub _ (ground (arith, quiet))
  on_signal-Change e (err error, w) =
      same_hub _ (hub-send_error now j e.room_id _ _ (record g { world = w }))

  handle_stranger-Change :
      (value : Js) (e : Envelope)
      → entered (meta_for j g.hub) ≡ none
      → Fits (handle_stranger s now j value e g).hub
  unfolding handle_stranger
  handle_stranger-Change value e outside = elim (Bool-cases (is_join e.type)) [
    | inl joins ↦ rw (handle_stranger, joins) (handle_join-Change value e outside)
    | inr other ↦ rw (handle_stranger, other) (same_hub _ (hub-send_error now j e.room_id _ _ g))
  ]

  handle_member-Change :
      (value : Js) (e : Envelope) (m : SocketMeta)
      → entered (meta_for j g.hub) ≡ some m
      → Fits (handle_member s now j value e m g).hub
  unfolding handle_member
  handle_member-Change value e m inside = elim (Bool-cases (text_beq e.room_id m.room_id)) [
    | inr other ↦ rw (handle_member, other) (same_hub _ (hub-send_error now j e.room_id _ _ g))
    | inl same ↦ elim (Bool-cases (is_leave e.type)) [
      | inl leaves ↦
          rw (handle_member, same, leaves)
            (on_left-Change e m _ inside ((text_beq_iff e.room_id m.room_id).0 same))
      | inr other ↦ rw (handle_member, same, other) (on_signal-Change e _)
    ]
  ]

  handle_envelope-Change :
      (value : Js) (e : Envelope) → Fits (handle_envelope s now j value e g).hub
  unfolding handle_envelope
  handle_envelope-Change value e = elim (Option-cases (entered (meta_for j g.hub))) [
    | inl outside ↦ rw (handle_envelope, outside) (handle_stranger-Change value e outside)
    | inr (m, inside) ↦ rw (handle_envelope, inside) (handle_member-Change value e m inside)
  ]

  pub handle_message-Change : (raw : Text) → Fits (handle_message s now j raw g).hub
  unfolding handle_message
  handle_message-Change raw = elim (Option-cases (s.crypto.parse raw)) [
    | inl bad ↦ rw (handle_message, bad) (same_hub _ (hub-send_error now j _ _ _ g))
    | inr (value, parsed) ↦ elim (Option-cases (if is_envelope value then narrow value else none)) [
      | inl bad ↦ rw (handle_message, parsed, bad) (same_hub _ (hub-send_error now j _ _ _ g))
      | inr (e, narrowed) ↦ rw (handle_message, parsed, narrowed) (handle_envelope-Change value e)
    ]
  ]

  after_close-detach :
      (room sender : Text) (r : Result LeaveResult × World) (g' : Gateway)
      → (after_close j room sender r g').hub ≡ detach room j g'.hub
  unfolding after_close
  after_close-detach room sender (ok result, w) g' = deliver_leave-hub room result.delivery sender _
  after_close-detach room sender (err error, w) g' = refl

  close_member-detach :
      (m : SocketMeta) (g' : Gateway) → (close_member now j m g').hub ≡ detach m.room_id j g'.hub
  unfolding close_member
  close_member-detach m g' =
      elim (Option-cases (Store.get_participant m.room_id m.sender_id g'.world.store)) [
        | inl gone ↦ rw (close_member, gone) refl
        | inr (p, there) ↦ rw (close_member, there) (after_close-detach m.room_id m.sender_id _ g')
      ]

  handle_close-Change : (g' : Gateway) → g'.hub ≡ g.hub → Fits (handle_close now j g').hub
  unfolding handle_close
  handle_close-Change g' same = elim (Option-cases (entered (meta_for j g'.hub))) [
    | inl outside ↦ rw (handle_close, outside) (same_hub _ same)
    | inr (m, inside) ↦ elim (Bool-cases (is_empty m.sender_id)) [
      | inl nobody ↦ rw (handle_close, inside, nobody) (same_hub _ same)
      | inr somebody ↦
          rw (handle_close, inside, somebody)
            (subst Fits (sym (close_member-detach m g' ∙ ap (detach m.room_id j) same))
              (detached m (ap (λ hub. entered (meta_for j hub)) (sym same) ∙ inside)))
    ]
  ]

  pub on_close-Change : Fits (on_close now j g).hub
  unfolding on_close
  on_close-Change = handle_close-Change _ refl
