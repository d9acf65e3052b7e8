-- ===== src/Sfu/Tests.antt =====
-- The router on small rooms: witnesses of its theorems, and runs.
use open_rtc.Base.{
  ◌≡◌, refl, ◌++◌, true, false, none, [], ◌∷◌, Text, codes, text_beq, text_eq, Bool-cases,
  text_beq_iff, subst, inl, inr, false, arith,
}
use open_rtc.Base.JsMap
use open_rtc.Base.JsMap.{JsMap}
use open_rtc.Protocol.{Envelope, sfu}
use open_rtc.Protocol.Values.{Js, obj, field, end, str, undefined, prop, get_field}
use open_rtc.Sfu.{
  TrackRegistration, SfuSession, video, audio, left, event, call, publish_track, leave_session,
  published, returned, Surroundings, SfuRouter, proceed, emit, find_name,
}
use open_rtc.Sfu.Router
use open_rtc.Sfu.Router.{session_key_of, on_leave, on_subscribe, handle, non_empty, layer_of}
use open_rtc.Sfu.Router.Calls.{Extends, IsAllowed, handle-IsAllowed}
use open_rtc.Sfu.Router.Owners.{AreOwned, IsOwned}
use open_rtc.Sfu.Router.Kept.{handle-IsOwned}
use open_rtc.Sfu.Router.Subscribing.{SubscribesToAll, on_subscribe-SubscribesToAll}
use open_rtc.Sfu.Router.Leaving.{HasLeft, on_leave-HasLeft}

abbrev room : Text
room = codes "r"

abbrev ann : SfuSession
ann = record { room_id = room; participant_id = codes "a" }

abbrev bob : SfuSession
bob = record { room_id = room; participant_id = codes "b" }

-- Everybody is a participant, and the gateway accepts every call.
abbrev open_house : Surroundings
open_house = record {
  is_participant = λ r p. returned true;
  policy_of_room = none;
  answer = λ before s c. returned tt;
}

abbrev cam : JsMap Text TrackRegistration
cam = (codes "cam", record { publisher_id = codes "b"; kind = video }) ∷ []

abbrev with_bob : SfuRouter
with_bob = record {
  sfu_participant_id = codes "sfu";
  sessions = (room ++ 0 ∷ codes "a", ann) ∷ (room ++ 0 ∷ codes "b", bob) ∷ [];
  tracks = (room, cam) ∷ [];
  trace = [];
}

abbrev from_ann : Js → Envelope
from_ann payload = record {
  type = sfu;
  room_id = room;
  sender_id = codes "a";
  session_id = codes "s";
  ts = 1;
  seq = 1;
  target_sender_id = undefined;
  payload = payload;
}

abbrev subscribe_payload : Js
subscribe_payload = obj (field (codes "action") (str (codes "subscribe")) end)

abbrev publish_payload : Js
publish_payload = obj (
    field (codes "action") (str (codes "publish")) (
      field (codes "trackId") (str (codes "mic")) (field (codes "kind") (str (codes "audio")) end)))

with_bob-IsOwned : IsOwned with_bob
unfolding session_key_of JsMap.get
with_bob-IsOwned = record {
  owned = λ there tracks plain found. elim (Bool-cases (text_beq room there)) [
    | inl here ↦
        let e : room ≡ there = (text_beq_iff room there).0 here in
        let m : cam ≡ tracks = ground (arith, here) in
        subst (λ (x : Text). AreOwned x with_bob.sessions tracks) e
          (subst (AreOwned room with_bob.sessions) m (refl, tt))
    | inr differ ↦ absurd (ground (arith, differ))
  ];
}

-- A published track is registered, and announced behind the call.
publish_runs :
    (handle open_house (from_ann publish_payload) with_bob).1.trace
    ≡ call ann (publish_track (codes "mic") audio false)
      ∷ event (published room (codes "a") (codes "mic") audio)
      ∷ []
unfolding handle Router.handle_type Router.handle_sfu Router.policy_refusal Router.serve JsMap.get
    session_key_of prop get_field Router.read_action find_name Router.dispatch Router.on_publish
    non_empty Router.read_kind Router.report Router.perform Router.add_track proceed emit
publish_runs = refl

handle-IsAllowed_example :
    Extends
      (IsAllowed open_house (from_ann publish_payload) with_bob)
      []
      (handle open_house (from_ann publish_payload) with_bob).1.trace
handle-IsAllowed_example = handle-IsAllowed open_house (from_ann publish_payload) with_bob

handle-IsOwned_example : IsOwned (handle open_house (from_ann publish_payload) with_bob).1
handle-IsOwned_example =
    handle-IsOwned open_house (from_ann publish_payload) with_bob ((λ q. absurd (cc)), tt)
      with_bob-IsOwned

on_subscribe-SubscribesToAll_example :
    SubscribesToAll ann
      (from_ann subscribe_payload)
      with_bob
      (on_subscribe open_house ann (from_ann subscribe_payload) with_bob).1
unfolding non_empty prop get_field
on_subscribe-SubscribesToAll_example =
    on_subscribe-SubscribesToAll open_house ann (from_ann subscribe_payload) with_bob refl
      (λ before t. refl)

on_leave-HasLeft_example :
    HasLeft room (codes "a") with_bob (on_leave open_house ann (from_ann undefined) with_bob).1
    × ((on_leave open_house ann (from_ann undefined) with_bob).1.trace
        ≡ call ann leave_session ∷ event (left room (codes "a")) ∷ [])
on_leave-HasLeft_example = on_leave-HasLeft open_house ann (from_ann undefined) with_bob refl
