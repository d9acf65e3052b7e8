-- ===== src/Sfu/Router/Steps.antt =====
-- What a relation between routers has to have, for each handler to keep it.
use open_rtc.Base.{
  ◌≡◌, refl, true, false, Bool-cases, Option-cases, List-cases, inl, inr, none, some, List, [], ◌∷◌,
  Text, text_eq, codes, if◌then◌else◌,
}
use open_rtc.Base.JsMap
use open_rtc.Protocol.{Envelope, MessageType, sfu, offer, answer, ice}
use open_rtc.Protocol.Values.{prop, truthy, is_text}
use open_rtc.Sfu.{
  Answer-cases, SfuAction, publish, subscribe, layer_change, keyframe_request, leave, SfuKind,
  RouterError, SfuSession, Call, leave_session, Message, Event, event, call, error, subscribed,
  left, Answer, returned, threw, Surroundings, SfuRouter, Act, ◌>>◌, proceed, log, emit, emit_error,
}
use open_rtc.Sfu.Router.{
  session_key_of, unregister_session, perform, add_track, non_empty, read_kind, read_action,
  policy_refusal, targets_of, on_publish, subscribe_all, on_subscribe, on_layer_change,
  on_keyframe_request, on_leave, report, dispatch, serve, handle_sfu, handle_media,
  handle_addressed, handle_type, handle,
}

-- A relation that events keep.
pub record IsQuiet (R : SfuRouter → SfuRouter → Type 0) : Type 0 where
  pub same : (r : SfuRouter) → R r r
  pub then_ : (r s t : SfuRouter) → R r s → R s t → R r t
  pub says : (x : Event) (r : SfuRouter) → R r (log (event x) r)

-- A relation that also the changes for an envelope keep, in the session `s` of its sender.
pub record IsKept (around : Surroundings) (e : Envelope) (s : SfuSession)
    (R : SfuRouter → SfuRouter → Type 0) : Type 0 where
  pub calls : (c : Call) (r : SfuRouter) → R r (log (call s c) r)
  pub adds :
      (track : Text) (kind : SfuKind) (r : SfuRouter)
      → JsMap.get (session_key_of e.room_id e.sender_id) r.sessions ≡ some s
      → R r
          (add_track around e.room_id track
            (record { publisher_id = e.sender_id; kind = kind })
            r).1
  pub drops : (r : SfuRouter) → R r (unregister_session e.room_id e.sender_id r).1

module _ (around : Surroundings) (e : Envelope) (R : SfuRouter → SfuRouter → Type 0)
    (quiet : IsQuiet R) where
  abbrev Keeps : Act → Type 0
  Keeps a = (r : SfuRouter) → R r (a r).1

  after :
      (r : SfuRouter) (k : Act) (x : Answer (Unit {0}) × SfuRouter)
      → R r x.1
      → Keeps k
      → R r (proceed k x).1
  unfolding proceed
  after r k (returned u, s) f g = quiet.then_ r s _ f (g s)
  after r k (threw t, s) f g = f

  both : (a k : Act) → Keeps a → Keeps k → Keeps (a >> k)
  both a k f g r = after r k (a r) (f r) g

  Keeps-emit : (x : Event) → Keeps (emit x)
  unfolding emit
  Keeps-emit x r = quiet.says x r

  Keeps-emit_error : (code : RouterError) (m : Message) → Keeps (emit_error code m e)
  unfolding emit_error
  Keeps-emit_error code m = Keeps-emit (error code m e e.room_id e.sender_id)

  module _ (s : SfuSession) (kept : IsKept around e s R) where
    Keeps-perform : (c : Call) → Keeps (perform around s c)
    unfolding perform
    Keeps-perform c r = kept.calls c r

    Keeps-call : (c : Call) (x : Event) → Keeps (perform around s c >> emit x)
    Keeps-call c x = both (perform around s c) (emit x) (Keeps-perform c) (Keeps-emit x)

    published_kept :
        (c : Call) (track : Text) (kind : SfuKind) (x : Event) (r : SfuRouter)
        → JsMap.get (session_key_of e.room_id e.sender_id) r.sessions ≡ some s
        → (a : Answer (Unit {0}))
        → R r
            (proceed (emit x) (
              proceed
                (add_track around e.room_id track
                  (record { publisher_id = e.sender_id; kind = kind }))
                (a, log (call s c) r))).1
    unfolding proceed emit add_track
    published_kept c track kind x r found (threw t) = kept.calls c r
    published_kept c track kind x r found (returned u) =
        quiet.then_ r (log (call s c) r) _ (kept.calls c r)
          (quiet.then_ _ _ _ (kept.adds track kind (log (call s c) r) found) (quiet.says x _))

    on_publish_kept :
        (r : SfuRouter)
        → JsMap.get (session_key_of e.room_id e.sender_id) r.sessions ≡ some s
        → R r (on_publish around s e r).1
    unfolding on_publish perform
    on_publish_kept r found = elim (Option-cases (non_empty (prop (codes "trackId") e.payload))) [
      | inl no_track ↦ rw (on_publish, no_track) (Keeps-emit_error _ _ r)
      | inr (track, is_track) ↦ elim (Option-cases (read_kind (prop (codes "kind") e.payload))) [
        | inl no_kind ↦ rw (on_publish, is_track, no_kind) (Keeps-emit_error _ _ r)
        | inr (kind, is_kind) ↦
            rw (on_publish, is_track, is_kind, perform) (published_kept _ track kind _ r found _)
      ]
    ]

    Keeps-subscribe_all : (ts : List Text) → Keeps (subscribe_all around s e ts)
    unfolding subscribe_all
    Keeps-subscribe_all [] = λ r. quiet.same r
    Keeps-subscribe_all (t ∷ ts) =
        both _ _ (Keeps-call _ (subscribed e.room_id e.sender_id t)) (Keeps-subscribe_all ts)

    Keeps-on_subscribe : Keeps (on_subscribe around s e)
    unfolding on_subscribe
    Keeps-on_subscribe r = elim (List-cases (targets_of e r)) [
      | inl nobody ↦ rw (on_subscribe, nobody) (Keeps-emit_error _ _ r)
      | inr (t, ts, some_of) ↦ rw (on_subscribe, some_of) (Keeps-subscribe_all (t ∷ ts) r)
    ]

    Keeps-on_layer_change : Keeps (on_layer_change around s e)
    unfolding on_layer_change
    Keeps-on_layer_change = elim (Option-cases (non_empty (prop (codes "trackId") e.payload))) [
      | inl no_track ↦ rw (on_layer_change, no_track) (Keeps-emit_error _ _)
      | inr (track, is_track) ↦ elim (Option-cases (non_empty (prop (codes "layer") e.payload))) [
        | inl no_layer ↦ rw (on_layer_change, is_track, no_layer) (Keeps-emit_error _ _)
        | inr (layer, is_layer) ↦ rw (on_layer_change, is_track, is_layer) (Keeps-call _ _)
      ]
    ]

    Keeps-on_keyframe_request : Keeps (on_keyframe_request around s e)
    unfolding on_keyframe_request
    Keeps-on_keyframe_request = elim (Option-cases (non_empty (prop (codes "trackId") e.payload))) [
      | inl no_track ↦ rw (on_keyframe_request, no_track) (Keeps-emit_error _ _)
      | inr (track, is_track) ↦ rw (on_keyframe_request, is_track) (Keeps-call _ _)
    ]

    Keeps-on_leave : Keeps (on_leave around s e)
    unfolding on_leave
    Keeps-on_leave =
        both _ _ (both _ _ (Keeps-perform leave_session) kept.drops)
          (Keeps-emit (left e.room_id e.sender_id))

    dispatch_kept :
        (a : SfuAction) (r : SfuRouter)
        → JsMap.get (session_key_of e.room_id e.sender_id) r.sessions ≡ some s
        → R r (dispatch around a s e r).1
    unfolding dispatch
    dispatch_kept publish r found = on_publish_kept r found
    dispatch_kept subscribe r found = Keeps-on_subscribe r
    dispatch_kept layer_change r found = Keeps-on_layer_change r
    dispatch_kept keyframe_request r found = Keeps-on_keyframe_request r
    dispatch_kept leave r found = Keeps-on_leave r

  report_kept :
      (r : SfuRouter) (x : Answer (Unit {0}) × SfuRouter) → R r x.1 → R r (report around e x).1
  unfolding report
  report_kept r (returned u, s) f = f
  report_kept r (threw t, s) f = quiet.then_ r s _ f (Keeps-emit_error _ _ s)

  -- A handler runs from one router, whose registered session it calls.
  module _ (r : SfuRouter)
      (kept : (s : SfuSession)
        → JsMap.get (session_key_of e.room_id e.sender_id) r.sessions ≡ some s
        → (e.type ≡ sfu → around.is_participant e.room_id e.sender_id ≡ returned true)
        → IsKept around e s R) where
    serve_kept :
        (e.type ≡ sfu → around.is_participant e.room_id e.sender_id ≡ returned true)
        → R r (serve around e r).1
    unfolding serve
    serve_kept member =
        elim (Option-cases (JsMap.get (session_key_of e.room_id e.sender_id) r.sessions)) [
          | inl nobody ↦ rw (serve, nobody) (Keeps-emit_error _ _ r)
          | inr (s, found) ↦
              elim (Option-cases (
                if truthy e.payload then read_action (prop (codes "action") e.payload) else none)) [
                  | inl idle ↦ rw (serve, found, idle) (Keeps-emit_error _ _ r)
                  | inr (a, action) ↦
                      rw (serve, found, action)
                        (report_kept r _ (dispatch_kept s (kept s found member) a r found))
                ]
        ]

    handle_sfu_kept : R r (handle_sfu around e r).1
    unfolding handle_sfu
    handle_sfu_kept = elim (Answer-cases (around.is_participant e.room_id e.sender_id)) [
      | inl (t, fails) ↦ rw (handle_sfu, fails) (quiet.same r)
      | inr (true, member) ↦ elim (Option-cases (policy_refusal around.policy_of_room e)) [
        | inl fine ↦ rw (handle_sfu, member, fine) (serve_kept (λ _. member))
        | inr ((code, m), stop) ↦ rw (handle_sfu, member, stop) (Keeps-emit_error code m r)
      ]
      | inr (false, stranger) ↦ rw (handle_sfu, stranger) (Keeps-emit_error _ _ r)
    ]

    handle_media_kept : ¬ (e.type ≡ sfu) → R r (handle_addressed around e r).1
    unfolding handle_addressed handle_media
    handle_media_kept other = elim (Bool-cases (is_text r.sfu_participant_id e.target_sender_id)) [
      | inr elsewhere ↦ rw (handle_addressed, elsewhere) (quiet.same r)
      | inl here ↦
          elim (Option-cases (JsMap.get (session_key_of e.room_id e.sender_id) r.sessions)) [
            | inl nobody ↦
                rw (handle_addressed, here, handle_media, nobody) (Keeps-emit_error _ _ r)
            | inr (s, found) ↦
                rw (handle_addressed, here, handle_media, found)
                  (report_kept r _ (Keeps-perform s (kept s found (λ q. absurd (other q))) _ r))
          ]
    ]

    kept_by_type : (t : MessageType) → e.type ≡ t → R r (handle_type around t e r).1
    unfolding handle_type
    kept_by_type sfu q = handle_sfu_kept
    kept_by_type offer q = handle_media_kept (λ s. cc)
    kept_by_type answer q = handle_media_kept (λ s. cc)
    kept_by_type ice q = handle_media_kept (λ s. cc)
    kept_by_type _ q = quiet.same r

    pub handle_kept : R r (handle around e r).1
    unfolding handle
    handle_kept = kept_by_type e.type refl
