-- ===== src/Sfu/Router.antt =====
-- packages/sfu-gateway/src/sfu-router.ts: the operations of `SfuRouter`.
--
-- Handlers run one after the other; the listeners of the router's events do not throw.
pub mod Steps
pub mod Calls
pub mod Owners
pub mod Kept
pub mod Subscribing
pub mod Leaving
use open_rtc.Base.{
  Bool, true, false, not, ◌&&◌, ◌||◌, Option, none, some, List, [], ◌∷◌, ◌++◌, Text, codes,
  text_beq, if◌then◌else◌, or_else, is_some, ltb, length, select, text_eq,
}
use open_rtc.Base.JsMap.{JsMap, get, set, delete, has, values}
use open_rtc.Base.JsSet
use open_rtc.Protocol.{Envelope, MessageType, sfu, offer, answer, ice}
use open_rtc.Protocol.Values.{Js, str, prop, truthy, is_text}
use open_rtc.Sfu.{
  SfuAction, publish, subscribe, layer_change, keyframe_request, leave, SfuKind, action_name,
  sfu_actions, kind_name, sfu_kinds, find_name, RouterError, not_a_participant, not_joined,
  unknown_action, invalid_payload, gateway_error, SfuSession, Call, publish_track, subscribe_to,
  set_preferred_layers, request_keyframe, leave_session, handle_offer, handle_answer,
  add_ice_candidate, Message, no_member, is_locked, codec_refused, no_session, no_action,
  publish_track_id, publish_kind, no_targets, layer_track_id, layer_missing, keyframe_track_id,
  call_failed, Event, session_registered, published, subscribed, layer_changed, keyframe_requested,
  left, call, event, RoomPolicyForSfu, Answer, returned, threw, Surroundings, TrackRegistration,
  SfuRouter, Act, ◌>>◌, proceed, log, emit, emit_error,
}

-- `sessionKeyOf`.
unfoldable pub session_key_of : Text → Text → Text
session_key_of room participant = room ++ 0 ∷ participant

-- The constructor, on `options.sfuParticipantId`.
unfoldable pub new : Option Text → SfuRouter
new id = record {
  sfu_participant_id = or_else id (codes "sfu");
  sessions = [];
  tracks = [];
  trace = [];
}

unfoldable pub register_session : SfuSession → SfuRouter → SfuRouter
unfolding session_key_of
register_session s r =
    log (event (session_registered s.room_id s.participant_id))
      (record r { sessions = set (session_key_of s.room_id s.participant_id) s r.sessions })

-- The loop over the tracks of a room.
unfoldable pub drop_tracks : Text → JsMap Text TrackRegistration → JsMap Text TrackRegistration
drop_tracks participant = select λ e. not (text_beq (e.1).publisher_id participant)

unfoldable pub unregister_tracks :
    Text
    → Text
    → JsMap Text (JsMap Text TrackRegistration)
    → JsMap Text (JsMap Text TrackRegistration)
unfolding drop_tracks
unregister_tracks room participant tracks = elim (get room tracks) [
  | none ↦ tracks
  | some room_tracks ↦ set room (drop_tracks participant room_tracks) tracks
]

unfoldable pub unregister_session : Text → Text → SfuRouter → Bool × SfuRouter
unfolding session_key_of unregister_tracks
unregister_session room participant r =
    let key = session_key_of room participant in
    (
      has key r.sessions,
      record r {
        sessions = delete key r.sessions;
        tracks = unregister_tracks room participant r.tracks;
      },
    )

unfoldable pub has_session : Text → Text → SfuRouter → Bool
unfolding session_key_of
has_session room participant r = has (session_key_of room participant) r.sessions

-- A value that is a string with a character.
unfoldable pub non_empty : Js → Option Text
non_empty (str s) = if ltb 0 (length s) then some s else none
non_empty _ = none

unfoldable pub read_kind : Js → Option SfuKind
unfolding find_name
read_kind (str s) = find_name kind_name s sfu_kinds
read_kind _ = none

unfoldable pub read_action : Js → Option SfuAction
unfolding find_name
read_action (str s) = find_name action_name s sfu_actions
read_action _ = none

-- `list.includes(v)`.
unfoldable pub includes : Js → List Text → Bool
includes v [] = false
includes v (s ∷ rest) = is_text s v || includes v rest

-- What the room's policy has against the envelope.
unfoldable pub refusal : Envelope → RoomPolicyForSfu → Option (RouterError × Message)
unfolding includes prop
refusal e policy =
    let kind = prop (codes "kind") e.payload in
    let codecs = or_else policy.allowed_codecs [] in
    if policy.locked && not (JsSet.has e.sender_id (or_else policy.moderator_ids []))
    then some (not_a_participant, is_locked e.room_id)
    else if ltb 0 (length codecs) && truthy kind && not (includes kind codecs)
    then some (invalid_payload, codec_refused kind e.room_id)
    else none

-- The lookup of the policy, whose failure stops nothing.
unfoldable pub policy_refusal :
    Option (Text → Answer (Option RoomPolicyForSfu)) → Envelope → Option (RouterError × Message)
unfolding refusal
policy_refusal none e = none
policy_refusal (some look_up) e = elim (look_up e.room_id) [
  | threw _ ↦ none
  | returned none ↦ none
  | returned (some policy) ↦ refusal e policy
]

-- The publishers of a room's tracks, but for one participant, each once.
unfoldable pub publishers : Text → List TrackRegistration → List Text → List Text
publishers sender [] targets = targets
publishers sender (reg ∷ rest) targets =
    publishers sender rest
      (if text_beq reg.publisher_id sender then targets else JsSet.add reg.publisher_id targets)

unfoldable pub targets_of : Envelope → SfuRouter → List Text
unfolding non_empty publishers prop
targets_of e r = elim (non_empty (prop (codes "senderId") e.payload)) [
  | some target ↦ target ∷ []
  | none ↦ publishers e.sender_id (values (or_else (get e.room_id r.tracks) [])) []
]

-- `payload.layer ? [payload.layer] : undefined`, by its member.
unfoldable pub layer_of : Js → Option Js
layer_of v = if truthy v then some v else none

unfoldable pub media_call : MessageType → Js → Call
media_call offer payload = handle_offer payload
media_call answer payload = handle_answer payload
media_call _ payload = add_ice_candidate payload

module _ (around : Surroundings) where
  -- `await` of a session's method.
  unfoldable pub perform : SfuSession → Call → Act
  perform s c r = (around.answer r.trace s c, log (call s c) r)

  unfoldable pub add_track : Text → Text → TrackRegistration → Act
  add_track room track registration r = (
    returned tt,
    record r {
      tracks = set room (set track registration (or_else (get room r.tracks) [])) r.tracks;
    },
  )

  unfoldable pub on_publish : SfuSession → Envelope → Act
  unfolding non_empty read_kind perform add_track emit emit_error prop
  on_publish s e = elim (non_empty (prop (codes "trackId") e.payload)) [
    | none ↦ emit_error invalid_payload publish_track_id e
    | some track ↦ elim (read_kind (prop (codes "kind") e.payload)) [
      | none ↦ emit_error invalid_payload publish_kind e
      | some kind ↦
          perform s (
            publish_track track kind (is_text (codes "simulcast") (prop (codes "layer") e.payload)))
          >> add_track e.room_id track (record { publisher_id = e.sender_id; kind = kind })
          >> emit (published e.room_id e.sender_id track kind)
    ]
  ]

  unfoldable pub subscribe_all : SfuSession → Envelope → List Text → Act
  unfolding perform emit prop layer_of
  subscribe_all s e [] = λ r. (returned tt, r)
  subscribe_all s e (target ∷ rest) =
      perform s (subscribe_to target (layer_of (prop (codes "layer") e.payload)))
      >> emit (subscribed e.room_id e.sender_id target)
      >> subscribe_all s e rest

  unfoldable pub on_subscribe : SfuSession → Envelope → Act
  unfolding targets_of subscribe_all emit_error
  on_subscribe s e r = elim (targets_of e r) [
    | [] ↦ emit_error invalid_payload no_targets e r
    | target ∷ rest ↦ subscribe_all s e (target ∷ rest) r
  ]

  unfoldable pub on_layer_change : SfuSession → Envelope → Act
  unfolding non_empty perform emit emit_error prop
  on_layer_change s e = elim (non_empty (prop (codes "trackId") e.payload)) [
    | none ↦ emit_error invalid_payload layer_track_id e
    | some track ↦ elim (non_empty (prop (codes "layer") e.payload)) [
      | none ↦ emit_error invalid_payload layer_missing e
      | some layer ↦
          perform s (set_preferred_layers track layer)
          >> emit (layer_changed e.room_id e.sender_id track layer)
    ]
  ]

  unfoldable pub on_keyframe_request : SfuSession → Envelope → Act
  unfolding non_empty perform emit emit_error prop
  on_keyframe_request s e = elim (non_empty (prop (codes "trackId") e.payload)) [
    | none ↦ emit_error invalid_payload keyframe_track_id e
    | some track ↦
        perform s (request_keyframe track) >> emit (keyframe_requested e.room_id e.sender_id track)
  ]

  unfoldable pub on_leave : SfuSession → Envelope → Act
  unfolding perform unregister_session emit
  on_leave s e =
      perform s leave_session
      >> (λ r. (returned tt, (unregister_session e.room_id e.sender_id r).1))
      >> emit (left e.room_id e.sender_id)

  -- `catch (error)` around the call of the gateway.
  unfoldable pub report : Envelope → Answer (Unit {0}) × SfuRouter → Answer (Unit {0}) × SfuRouter
  unfolding emit_error
  report e (returned u, r) = (returned u, r)
  report e (threw t, r) = emit_error gateway_error (call_failed t) e r

  unfoldable pub dispatch : SfuAction → SfuSession → Envelope → Act
  unfolding on_publish on_subscribe on_layer_change on_keyframe_request on_leave
  dispatch publish s e = on_publish s e
  dispatch subscribe s e = on_subscribe s e
  dispatch layer_change s e = on_layer_change s e
  dispatch keyframe_request s e = on_keyframe_request s e
  dispatch leave s e = on_leave s e

  -- `handleSfu` behind the checks of membership and policy.
  unfoldable pub serve : Envelope → Act
  unfolding session_key_of emit_error read_action prop report dispatch
  serve e r = elim (get (session_key_of e.room_id e.sender_id) r.sessions) [
    | none ↦ emit_error not_joined (no_session e.sender_id e.room_id) e r
    | some s ↦
        elim (if truthy e.payload then read_action (prop (codes "action") e.payload) else none) [
          | none ↦ emit_error unknown_action no_action e r
          | some action ↦ report e (dispatch action s e r)
        ]
  ]

  unfoldable pub handle_sfu : Envelope → Act
  unfolding emit_error policy_refusal serve
  handle_sfu e r = elim (around.is_participant e.room_id e.sender_id) [
    | threw t ↦ (threw t, r)
    | returned false ↦ emit_error not_a_participant (no_member e.sender_id e.room_id) e r
    | returned true ↦ elim (policy_refusal around.policy_of_room e) [
      | some (code, message) ↦ emit_error code message e r
      | none ↦ serve e r
    ]
  ]

  unfoldable pub handle_media : Envelope → Act
  unfolding session_key_of emit_error report perform media_call
  handle_media e r = elim (get (session_key_of e.room_id e.sender_id) r.sessions) [
    | none ↦ emit_error not_joined (no_session e.sender_id e.room_id) e r
    | some s ↦ report e (perform s (media_call e.type e.payload) r)
  ]

  unfoldable pub handle_addressed : Envelope → Act
  unfolding handle_media
  handle_addressed e r =
      if is_text r.sfu_participant_id e.target_sender_id then handle_media e r else (returned tt, r)

  -- `handle`, on the type of the envelope.
  unfoldable pub handle_type : MessageType → Envelope → Act
  unfolding handle_sfu handle_addressed
  handle_type sfu e r = handle_sfu e r
  handle_type offer e r = handle_addressed e r
  handle_type answer e r = handle_addressed e r
  handle_type ice e r = handle_addressed e r
  handle_type _ e r = (returned tt, r)

  unfoldable pub handle : Envelope → Act
  unfolding handle_type
  handle e = handle_type e.type e
