-- ===== src/Sfu.antt =====
-- packages/sfu-gateway/src/sfu-router.ts: the data of `SfuRouter`, and the parameters of the model.
--
-- The gateway's sessions and the callbacks of the options are not part of the router: what they
-- answer is a parameter, `Surroundings`. A call of a session may answer by all that the router did
-- before. An error message is kept as its template with the values put into it.
pub mod Router
mod Tests
use open_rtc.Base.{
  ◌≡◌, refl, ◌⊎◌, inl, inr, ◌++◌, Bool, Option, none, some, List, [], ◌∷◌, Text, codes, text_beq,
  if◌then◌else◌,
}
use open_rtc.Base.JsMap.{JsMap}
use open_rtc.Protocol.{Envelope}
use open_rtc.Protocol.Values.{Js}

pub data SfuAction : Type 0 where
  publish subscribe layer_change keyframe_request leave : SfuAction

pub data SfuKind : Type 0 where
  audio video screen : SfuKind

abbrev pub action_name : SfuAction → Text
action_name publish = codes "publish"
action_name subscribe = codes "subscribe"
action_name layer_change = codes "layer-change"
action_name keyframe_request = codes "keyframe-request"
action_name leave = codes "leave"

abbrev pub sfu_actions : List SfuAction
sfu_actions = publish ∷ subscribe ∷ layer_change ∷ keyframe_request ∷ leave ∷ []

abbrev pub kind_name : SfuKind → Text
kind_name audio = codes "audio"
kind_name video = codes "video"
kind_name screen = codes "screen"

abbrev pub sfu_kinds : List SfuKind
sfu_kinds = audio ∷ video ∷ screen ∷ []

-- The member of a list that a name stands for, if one does.
unfoldable pub find_name : {A : Type 0} → (A → Text) → Text → List A → Option A
find_name name s [] = none
find_name name s (a ∷ rest) = if text_beq (name a) s then some a else find_name name s rest

-- `SFU_ROUTER_ERRORS`.
pub data RouterError : Type 0 where
  not_a_participant not_joined unknown_action invalid_payload gateway_error : RouterError

-- `SfuSession`, as far as the router reads it; its methods are `Call`s.
pub record SfuSession : Type 0 where
  pub room_id : Text
  pub participant_id : Text

pub data Call : Type 0 where
  publish_track : Text → SfuKind → Bool → Call
  subscribe_to : Text → Option Js → Call
  set_preferred_layers : Text → Text → Call
  request_keyframe : Text → Call
  leave_session : Call
  handle_offer : Js → Call
  handle_answer : Js → Call
  add_ice_candidate : Js → Call

-- What a call threw, as text.
abbrev pub Thrown : Type 0
Thrown = Text

pub data Message : Type 0 where
  no_member : Text → Text → Message
  is_locked : Text → Message
  codec_refused : Js → Text → Message
  no_session : Text → Text → Message
  no_action : Message
  publish_track_id : Message
  publish_kind : Message
  no_targets : Message
  layer_track_id : Message
  layer_missing : Message
  keyframe_track_id : Message
  call_failed : Thrown → Message

-- The events of `SfuRouterEventMap`.
pub data Event : Type 0 where
  session_registered : Text → Text → Event
  published : Text → Text → Text → SfuKind → Event
  subscribed : Text → Text → Text → Event
  layer_changed : Text → Text → Text → Text → Event
  keyframe_requested : Text → Text → Text → Event
  left : Text → Text → Event
  error : RouterError → Message → Envelope → Text → Text → Event

-- What the router does to its surroundings.
pub data Effect : Type 0 where
  event : Event → Effect
  call : SfuSession → Call → Effect

pub record RoomPolicyForSfu : Type 0 where
  pub locked : Bool
  pub allowed_codecs : Option (List Text)
  pub e2ee_required : Bool
  pub moderator_ids : Option (List Text)

pub data Answer (A : Type 0) : Type 0 where
  returned : A → Answer A
  threw : Thrown → Answer A

pub Answer-cases :
    {A : Type 0} (x : Answer A) → ((t : Thrown) × (x ≡ threw t)) ⊎ ((a : A) × (x ≡ returned a))
Answer-cases (threw t) = inl (t, refl)
Answer-cases (returned a) = inr (a, refl)

-- The callbacks and the gateway behind the options.
pub record Surroundings : Type 0 where
  pub is_participant : Text → Text → Answer Bool
  pub policy_of_room : Option (Text → Answer (Option RoomPolicyForSfu))
  pub answer : List Effect → SfuSession → Call → Answer (Unit {0})

pub record TrackRegistration : Type 0 where
  pub publisher_id : Text
  pub kind : SfuKind

-- The router, and all that it has done, oldest first.
pub record SfuRouter : Type 0 where
  pub sfu_participant_id : Text
  pub sessions : JsMap Text SfuSession
  pub tracks : JsMap Text (JsMap Text TrackRegistration)
  pub trace : List Effect

-- A method of the router, which may throw.
abbrev pub Act : Type 0
Act = SfuRouter → Answer (Unit {0}) × SfuRouter

unfoldable pub proceed : Act → Answer (Unit {0}) × SfuRouter → Answer (Unit {0}) × SfuRouter
proceed k (returned u, r) = k r
proceed k (threw e, r) = (threw e, r)

infixl 5 ◌>>◌
abbrev pub ◌>>◌ : Act → Act → Act
a >> k = λ r. proceed k (a r)

abbrev pub log : Effect → SfuRouter → SfuRouter
log x r = record r { trace = r.trace ++ x ∷ [] }

unfoldable pub emit : Event → Act
emit x r = (returned tt, log (event x) r)

unfoldable pub emit_error : RouterError → Message → Envelope → Act
unfolding emit
emit_error code message e = emit (error code message e e.room_id e.sender_id)
