-- ===== src/Server/Auth.antt =====
-- packages/server/src/auth.ts: room-scoped tokens, their check, rotation and revocation.
--
-- HMAC, base64url and JSON are parameters. `Date.now()` is an argument in milliseconds. Numbers in a
-- payload are natural, so they are finite. An error is kept as its code and the check that it failed;
-- a `TypeError` has no code.
pub mod Payload
pub mod Issued
pub mod Accepted
mod Tests
use open_rtc.Base.{
  ℕ, ◌+◌, ◌/◌, Bool, true, false, not, ◌&&◌, ◌||◌, ◌++◌, Option, none, some, List, [], ◌∷◌, Text,
  text_eq, codes, text_beq, ltb, leb, nat_beq, length, if◌then◌else◌, or_else, is_some,
}
use open_rtc.Base.JsMap
use open_rtc.Base.JsMap.{JsMap}
use open_rtc.Protocol.Values.{
  js_field, Js, Fields, end, field, undefined, null, bool, num, str, obj, prop, is_array, is_object,
  is_defined, is_text,
}

pub record Crypto : Type 0 where
  pub hmac : Text → Text → Text
  pub b64url : Text → Text
  pub b64url_decode : Text → Text
  pub stringify : Js → Text
  pub parse : Text → Option Js

pub data TokenRole : Type 0 where
  participant admin : TokenRole

unfoldable pub role_name : TokenRole → Text
role_name participant = codes "participant"
role_name admin = codes "admin"

-- The claims; `caps` is `undefined` or an object.
pub record TokenClaims : Type 0 where
  pub room_id : Text
  pub participant_id : Text
  pub role : TokenRole
  pub exp : ℕ
  pub iat : ℕ
  pub jti : Option Text
  pub caps : Js
  pub e2ee : Option Bool

pub data AuthErrorCode : Type 0 where
  unauthorized token_expired forbidden : AuthErrorCode

-- The checks that a token or its options may fail.
pub data Check : Type 0 where
  no_secret no_token three_parts json_parts algorithm signature room_claim : Check
  participant_claim role_claim expiry future jti_claim caps_claim e2ee_claim revocation : Check
  property_of_null no_room no_participant empty_jti caps_object caps_value no_secrets : Check
  caps_key : Text → Check

pub data Failure : Type 0 where
  auth_error : AuthErrorCode → Check → Failure
  type_error : Check → Failure

pub data Checked (A : Type 0) : Type 0 where
  passed : A → Checked A
  failed : Failure → Checked A

infixl 5 ◌>>=◌ ◌>>◌
unfoldable pub ◌>>=◌ : {A B : Type 0} → Checked A → (A → Checked B) → Checked B
passed a >>= f = f a
failed e >>= f = failed e

abbrev pub ◌>>◌ : {B : Type 0} → Checked (Unit {0}) → Checked B → Checked B
m >> k = m >>= λ _. k

-- `if (test) throw …`
unfoldable pub fail_if : Bool → Failure → Checked (Unit {0})
fail_if true e = failed e
fail_if false e = passed tt

-- A value that has to be a text with at least one character.
abbrev pub require_string : Text → Check → Checked (Unit {0})
require_string value e = fail_if (not (ltb 0 (length value))) (type_error e)

unfoldable pub present : {A : Type 0} → Option A → Failure → Checked A
present none e = failed e
present (some a) e = passed a

abbrev pub is_empty : Text → Bool
is_empty s = not (ltb 0 (length s))

abbrev pub known_cap : Text → Bool
known_cap k =
    text_beq k (codes "publish")
    || text_beq k (codes "subscribe")
    || text_beq k (codes "record")
    || text_beq k (codes "moderate")

abbrev pub is_flag : Js → Bool
is_flag undefined = true
is_flag (bool _) = true
is_flag _ = false

-- The loop of `validateCaps` over the entries.
unfoldable pub validate_entries : Fields → Checked (Unit {0})
unfolding fail_if ◌>>=◌
validate_entries end = passed tt
validate_entries (field k v rest) =
    fail_if (not (known_cap k)) (type_error (caps_key k))
    >> fail_if (not (is_flag v)) (type_error caps_value)
    >> validate_entries rest

unfoldable pub validate_caps : Js → Checked (Unit {0})
unfolding validate_entries
validate_caps (obj fs) = validate_entries fs
validate_caps _ = failed (type_error caps_object)

pub record IssueTokenOptions : Type 0 where
  pub room_id : Text
  pub participant_id : Text
  pub role : Option TokenRole
  pub exp : Option ℕ
  pub jti : Option Text
  pub caps : Js
  pub e2ee : Option Bool

abbrev pub default_token_ttl_seconds : ℕ
default_token_ttl_seconds = 3600

abbrev pub optional_text : Text → Option Text → Fields → Fields
optional_text k none rest = rest
optional_text k (some s) rest = field k (str s) rest

abbrev pub optional_flag : Text → Option Bool → Fields → Fields
optional_flag k none rest = rest
optional_flag k (some b) rest = field k (bool b) rest

abbrev pub header : Js
header =
    obj (field (codes "alg") (str (codes "HS256")) (field (codes "typ") (str (codes "JWT")) end))

-- The payload of a token.
unfoldable pub payload_of : IssueTokenOptions → ℕ → Js
unfolding role_name
payload_of opts now_sec = obj (
    field (codes "roomId") (str opts.room_id) (
      field (codes "participantId") (str opts.participant_id) (
        field (codes "role") (str (role_name (or_else opts.role participant))) (
          field (codes "exp") (num (or_else opts.exp (now_sec + default_token_ttl_seconds))) (
            field (codes "iat") (num now_sec) (
              optional_text (codes "jti") opts.jti (
                js_field (codes "caps") opts.caps
                  (optional_flag (codes "e2ee") opts.e2ee end))))))))

module _ (c : Crypto) where
  -- The token of a header and a payload: the code of the dot is 46.
  unfoldable pub signed : Text → Js → Text
  signed secret payload =
      let h = c.b64url (c.stringify header) in
      let p = c.b64url (c.stringify payload) in h ++ 46 ∷ p ++ 46 ∷ c.hmac (h ++ 46 ∷ p) secret

  unfoldable pub issue_token : Text → IssueTokenOptions → ℕ → Checked Text
  unfolding fail_if ◌>>=◌ validate_caps signed payload_of
  issue_token secret opts now = do
    require_string secret no_secret
    require_string opts.room_id no_room
    require_string opts.participant_id no_participant
    fail_if (elim opts.jti [ none ↦ false | some j ↦ is_empty j ]) (type_error empty_jti)
    if is_defined opts.caps then validate_caps opts.caps else passed tt
    passed (signed secret (payload_of opts (now / 1000)))

-- `token.split('.')`
unfoldable pub split_dots : Text → Text → List Text
split_dots current [] = current ∷ []
split_dots current (ch ∷ rest) =
    if nat_beq ch 46 then current ∷ split_dots [] rest else split_dots (current ++ ch ∷ []) rest

abbrev pub three : List Text → Option (Text × Text × Text)
three (h ∷ p ∷ s ∷ []) = some (h, p, s)
three _ = none

unfoldable pub read_role : Js → Option TokenRole
read_role v =
    if is_text (codes "participant") v
    then some participant
    else if is_text (codes "admin") v
    then some admin
    else none

unfoldable pub read_text : Js → Option Text
read_text (str s) = if is_empty s then none else some s
read_text _ = none

unfoldable pub read_number : Js → Option ℕ
read_number (num n) = some n
read_number _ = none

-- A property of a value, where `null` and `undefined` have none.
unfoldable pub read_prop : Text → Js → Checked Js
unfolding prop
read_prop k null = failed (type_error property_of_null)
read_prop k undefined = failed (type_error property_of_null)
read_prop k v = passed (prop k v)

-- The optional claims, where a claim that is present has to be right.
unfoldable pub read_jti : Js → Checked (Option Text)
unfolding read_text
read_jti undefined = passed none
read_jti v = elim (read_text v) [
  | none ↦ failed (auth_error unauthorized jti_claim)
  | some s ↦ passed (some s)
]

unfoldable pub read_caps : Js → Checked Js
unfolding validate_caps ◌>>=◌
read_caps undefined = passed undefined
read_caps (obj fs) = do validate_caps (obj fs); passed (obj fs)
read_caps _ = failed (auth_error unauthorized caps_claim)

unfoldable pub read_e2ee : Js → Checked (Option Bool)
read_e2ee undefined = passed none
read_e2ee (bool b) = passed (some b)
read_e2ee _ = failed (auth_error unauthorized e2ee_claim)

-- The checks of the payload at a time in seconds.
unfoldable pub read_claims : Js → ℕ → Checked TokenClaims
unfolding read_prop present read_text read_role read_number fail_if read_jti read_caps read_e2ee
    prop ◌>>=◌
read_claims claims now_sec = do
  room_value ← read_prop (codes "roomId") claims
  room ← present (read_text room_value) (auth_error unauthorized room_claim)
  member ←
      present (read_text (prop (codes "participantId") claims))
        (auth_error unauthorized participant_claim)
  role ← present (read_role (prop (codes "role") claims)) (auth_error unauthorized role_claim)
  exp ← present (read_number (prop (codes "exp") claims)) (auth_error unauthorized expiry)
  fail_if (leb exp now_sec) (auth_error token_expired expiry)
  let issued = or_else (read_number (prop (codes "iat") claims)) now_sec
  fail_if (ltb (now_sec + 60) issued) (auth_error unauthorized future)
  jti ← read_jti (prop (codes "jti") claims)
  caps ← read_caps (prop (codes "caps") claims)
  e2ee ← read_e2ee (prop (codes "e2ee") claims)
  passed (record {
    room_id = room;
    participant_id = member;
    role = role;
    exp = exp;
    iat = issued;
    jti = jti;
    caps = caps;
    e2ee = e2ee;
  })

-- The revoked ids, with the second at which each is forgotten.
abbrev pub Revoked : Type 0
Revoked = JsMap Text ℕ

unfoldable pub revoke_token : Text → Option ℕ → ℕ → Revoked → Checked Revoked
unfolding fail_if ◌>>=◌
revoke_token jti exp_sec now revoked = do
  fail_if (is_empty jti) (type_error empty_jti)
  passed (JsMap.set jti (or_else exp_sec (now / 1000 + default_token_ttl_seconds)) revoked)

unfoldable pub is_revoked : Text → ℕ → Revoked → Bool × Revoked
is_revoked jti now revoked = elim (JsMap.get jti revoked) [
  | none ↦ (false, revoked)
  | some exp ↦ if leb exp (now / 1000) then (false, JsMap.delete jti revoked) else (true, revoked)
]

-- The revocation check, on claims that passed all others.
unfoldable pub check_revoked : TokenClaims → ℕ → Revoked → Checked TokenClaims × Revoked
unfolding is_revoked
check_revoked claims now revoked = elim claims.jti [
  | none ↦ (passed claims, revoked)
  | some jti ↦
      let r = is_revoked jti now revoked in
      (if r.0 then failed (auth_error token_expired revocation) else passed claims, r.1)
]

module _ (c : Crypto) where
  -- `verifyToken` before the revocation check.
  unfoldable pub check_token : Text → Text → ℕ → Checked TokenClaims
  unfolding fail_if present split_dots read_prop read_claims ◌>>=◌
  check_token secret token now = do
    require_string secret no_secret
    fail_if (is_empty token) (auth_error unauthorized no_token)
    parts ← present (three (split_dots [] token)) (auth_error unauthorized three_parts)
    let (h, p, sig) = parts
    head ← present (c.parse (c.b64url_decode h)) (auth_error unauthorized json_parts)
    payload ← present (c.parse (c.b64url_decode p)) (auth_error unauthorized json_parts)
    alg ← read_prop (codes "alg") head
    fail_if (not (is_text (codes "HS256") alg)) (auth_error unauthorized algorithm)
    fail_if (not (text_beq (c.hmac (h ++ 46 ∷ p) secret) sig)) (auth_error unauthorized signature)
    read_claims payload (now / 1000)

  unfoldable pub verify_token : Text → Text → ℕ → Revoked → Checked TokenClaims × Revoked
  unfolding check_token check_revoked
  verify_token secret token now revoked = elim (check_token secret token now) [
    | failed e ↦ (failed e, revoked)
    | passed claims ↦ check_revoked claims now revoked
  ]

  -- What the loop of `verifyTokenWithRotation` remembers: the last expiry, and the last error.
  unfoldable pub rotate :
      List Text → Text → ℕ → Option Failure → Failure → Revoked → Checked TokenClaims × Revoked
  unfolding verify_token
  rotate [] token now expired last revoked = (failed (or_else expired last), revoked)
  rotate (secret ∷ secrets) token now expired last revoked =
      let r = verify_token secret token now revoked in
      elim r.0 [
        | passed claims ↦ (passed claims, r.1)
        | failed (auth_error token_expired e) ↦
            rotate secrets token now (some (auth_error token_expired e))
              (auth_error token_expired e) r.1
        | failed (auth_error forbidden e) ↦ (failed (auth_error forbidden e), r.1)
        | failed e ↦ rotate secrets token now expired e r.1
      ]

  unfoldable pub verify_token_with_rotation :
      List Text → Text → ℕ → Revoked → Checked TokenClaims × Revoked
  unfolding rotate
  verify_token_with_rotation [] token now revoked = (failed (type_error no_secrets), revoked)
  verify_token_with_rotation (secret ∷ secrets) token now revoked =
      rotate (secret ∷ secrets) token now none (auth_error unauthorized signature) revoked
