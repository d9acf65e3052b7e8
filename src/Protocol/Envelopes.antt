-- ===== src/Protocol/Envelopes.antt =====
-- What comes of the objects that `createEnvelope` builds.
use open_rtc.Base.{◌≡◌, refl, ◌∙◌, some, true, codes}
use open_rtc.Protocol.Values.{
  Fields, end, field, get_field, prop, str, js_field, skip_field, hit_field,
}
use open_rtc.Protocol.{
  MessageType, join, type_name, message_types, find_type, Envelope, is_envelope, narrow, to_js,
}

find_type-type_name : (t : MessageType) → find_type (type_name t) message_types ≡ some t
unfolding find_type
find_type-type_name join = refl
find_type-type_name _ = refl

module _ (e : Envelope) where
  abbrev last_field : Fields
  last_field = field (codes "type") (str (type_name e.type)) end

  type_in : prop (codes "type") (to_js e) ≡ str (type_name e.type)
  unfolding to_js prop get_field
  type_in =
      skip_field (codes "type") (codes "targetSenderId") e.target_sender_id
        (js_field (codes "payload") e.payload last_field) refl
      ∙ skip_field (codes "type") (codes "payload") e.payload last_field refl

  target_in : prop (codes "targetSenderId") (to_js e) ≡ e.target_sender_id
  unfolding to_js prop get_field
  target_in =
      hit_field (codes "targetSenderId") e.target_sender_id
        (js_field (codes "payload") e.payload last_field)
        (skip_field (codes "targetSenderId") (codes "payload") e.payload last_field refl)

  payload_in : prop (codes "payload") (to_js e) ≡ e.payload
  unfolding to_js prop get_field
  payload_in =
      skip_field (codes "payload") (codes "targetSenderId") e.target_sender_id
        (js_field (codes "payload") e.payload last_field) refl
      ∙ hit_field (codes "payload") e.payload last_field refl

  -- The object built from an envelope passes `isEnvelope`, and its typed view is that envelope.
  pub narrow-to_js : (is_envelope (to_js e) ≡ true) × (narrow (to_js e) ≡ some e)
  unfolding is_envelope narrow to_js
  narrow-to_js = (
    rw (type_in, find_type-type_name e.type) refl,
    rw (type_in, find_type-type_name e.type, target_in, payload_in) refl,
  )
