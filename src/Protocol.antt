-- ===== src/Protocol.antt =====
-- protocol/types.ts: the message types, the envelope, its validation and its construction.
--
-- A value of type `unknown` is a `Js`. Numbers are natural: the protocol's numbers are versions,
-- epoch milliseconds and counters. An envelope is the typed view that `isEnvelope` narrows to; the
-- two fields that it does not check, `targetSenderId` and `payload`, stay `Js` values.
pub mod Values
pub mod Envelopes
use open_rtc.Base.{
  ℕ, ◌≡◌, Bool, true, false, ◌&&◌, Option, none, some, List, [], ◌∷◌, Text, codes, text_beq,
  nat_beq, if◌then◌else◌, or_else, is_some,
}
use Values.{
  Js, Fields, end, field, num, str, obj, undefined, prop, is_object, is_str, is_num, js_field,
}

pub data MessageType : Type 0 where
  join leave offer answer ice presence reaction chat screen_share quality_warning sfu : MessageType
  transcript error ping pong : MessageType

abbrev pub type_name : MessageType → Text
type_name join = codes "join"
type_name leave = codes "leave"
type_name offer = codes "offer"
type_name answer = codes "answer"
type_name ice = codes "ice"
type_name presence = codes "presence"
type_name reaction = codes "reaction"
type_name chat = codes "chat"
type_name screen_share = codes "screen-share"
type_name quality_warning = codes "quality-warning"
type_name sfu = codes "sfu"
type_name transcript = codes "transcript"
type_name error = codes "error"
type_name ping = codes "ping"
type_name pong = codes "pong"

abbrev pub message_types : List MessageType
message_types =
    join ∷ leave ∷ offer ∷ answer ∷ ice ∷ presence ∷ reaction ∷ chat ∷ screen_share
    ∷ quality_warning ∷ sfu ∷ transcript ∷ error ∷ ping ∷ pong ∷ []

abbrev pub protocol_version : ℕ
protocol_version = 1

-- The message type that a string names, if it is one.
find_type : Text → List MessageType → Option MessageType
find_type s [] = none
find_type s (t ∷ ts) = if text_beq (type_name t) s then some t else find_type s ts

pub record Envelope : Type 0 where
  pub type : MessageType
  pub room_id : Text
  pub sender_id : Text
  pub session_id : Text
  pub ts : ℕ
  pub seq : ℕ
  pub target_sender_id : Js
  pub payload : Js

-- `MESSAGE_TYPES.includes(e.type)`, on a value that may be no string.
is_message_type : Js → Bool
unfolding find_type
is_message_type (str s) = is_some (find_type s message_types)
is_message_type _ = false

pub is_version : Js → Bool
is_version (num n) = nat_beq n protocol_version
is_version _ = false

unfoldable pub is_envelope : Js → Bool
unfolding is_message_type is_version prop
is_envelope e =
    is_object e
    && is_version (prop (codes "v") e)
    && is_message_type (prop (codes "type") e)
    && is_str (prop (codes "roomId") e)
    && is_str (prop (codes "senderId") e)
    && is_str (prop (codes "sessionId") e)
    && is_num (prop (codes "ts") e)
    && is_num (prop (codes "seq") e)

as_text : Js → Option Text
as_text (str s) = some s
as_text _ = none

as_number : Js → Option ℕ
as_number (num n) = some n
as_number _ = none

as_type : Js → Option MessageType
unfolding find_type
as_type (str s) = find_type s message_types
as_type _ = none

infixl 5 ◌>>=◌
abbrev pub ◌>>=◌ {ℓ κ} : {A : Type ℓ} {B : Type κ} → Option A → (A → Option B) → Option B
none >>= f = none
some a >>= f = f a

-- The typed view of a value that passed `isEnvelope`, which a type guard gives in the source: no code
-- runs for it. The fields that the guard does not check stay what they are.
unfoldable pub narrow : Js → Option Envelope
unfolding as_text as_number as_type prop
narrow e = do
  t ← as_type (prop (codes "type") e)
  room ← as_text (prop (codes "roomId") e)
  sender ← as_text (prop (codes "senderId") e)
  session ← as_text (prop (codes "sessionId") e)
  ts ← as_number (prop (codes "ts") e)
  seq ← as_number (prop (codes "seq") e)
  some (record {
    type = t;
    room_id = room;
    sender_id = sender;
    session_id = session;
    ts = ts;
    seq = seq;
    target_sender_id = prop (codes "targetSenderId") e;
    payload = prop (codes "payload") e;
  })

-- The argument `fields` of `createEnvelope`.
pub record EnvelopeFields : Type 0 where
  pub room_id : Text
  pub sender_id : Text
  pub session_id : Text
  pub ts : Option ℕ
  pub seq : Option ℕ
  pub target_sender_id : Js
  pub payload : Js

-- The first argument is `Date.now()`.
unfoldable pub create_envelope : ℕ → MessageType → EnvelopeFields → Envelope
create_envelope now type fields = record {
  type = type;
  room_id = fields.room_id;
  sender_id = fields.sender_id;
  session_id = fields.session_id;
  ts = or_else fields.ts now;
  seq = or_else fields.seq 0;
  target_sender_id = fields.target_sender_id;
  payload = fields.payload;
}

-- The object that `createEnvelope` builds, its version included. A field that is not given is left out.
unfoldable pub to_js : Envelope → Js
to_js e = obj (
    field (codes "v") (num protocol_version) (
      field (codes "ts") (num e.ts) (
        field (codes "seq") (num e.seq) (
          field (codes "roomId") (str e.room_id) (
            field (codes "senderId") (str e.sender_id) (
              field (codes "sessionId") (str e.session_id) (
                js_field (codes "targetSenderId") e.target_sender_id (
                  js_field (codes "payload") e.payload
                    (field (codes "type") (str (type_name e.type)) end)))))))))
