-- ===== src/Server/Auth/Payload.antt =====
-- The claims that `verifyToken` reads from the payload that `issueToken` writes.
use open_rtc.Base.{
  ℕ, ◌+◌, ◌≤◌, ◌<◌, ◌≡◌, refl, ap, ◌∙◌, Bool, false, Option, none, some, Text, codes, text_beq,
  text_beq_self, ltb, leb, if◌then◌else◌, or_else, arith,
}
use open_rtc.Protocol.Values.{
  skip_field, hit_field, Js, Fields, end, undefined, null, bool, num, str, arr, obj, prop,
  get_field, is_defined,
}
use open_rtc.Server.Auth.{
  TokenRole, participant, admin, role_name, TokenClaims, passed, ◌>>=◌, fail_if, present, is_empty,
  validate_caps, IssueTokenOptions, default_token_ttl_seconds, payload_of, optional_text,
  optional_flag, read_role, read_text, read_number, read_prop, read_jti, read_caps, read_e2ee,
  read_claims,
}

-- The claims that a token was issued with.
unfoldable pub claims_of : IssueTokenOptions → ℕ → TokenClaims
claims_of opts now_sec = record {
  room_id = opts.room_id;
  participant_id = opts.participant_id;
  role = or_else opts.role participant;
  exp = or_else opts.exp (now_sec + default_token_ttl_seconds);
  iat = now_sec;
  jti = opts.jti;
  caps = opts.caps;
  e2ee = opts.e2ee;
}

abbrev text_js : Option Text → Js
text_js none = undefined
text_js (some s) = str s

abbrev flag_js : Option Bool → Js
flag_js none = undefined
flag_js (some b) = bool b

-- Reads past an optional field, and reads of it.
module _ (k j : Text) (rest : Fields) (other : text_beq j k ≡ false) where
  skip_text : (o : Option Text) → get_field k (optional_text j o rest) ≡ get_field k rest
  unfolding get_field
  skip_text none = refl
  skip_text (some s) = rw other refl

  skip_flag : (o : Option Bool) → get_field k (optional_flag j o rest) ≡ get_field k rest
  unfolding get_field
  skip_flag none = refl
  skip_flag (some b) = rw other refl

module _ (k : Text) (rest : Fields) (absent : get_field k rest ≡ undefined) where
  hit_text : (o : Option Text) → get_field k (optional_text k o rest) ≡ text_js o
  unfolding get_field
  hit_text none = absent
  hit_text (some s) = rw (text_beq_self k) refl

  hit_flag : (o : Option Bool) → get_field k (optional_flag k o rest) ≡ flag_js o
  unfolding get_field
  hit_flag none = absent
  hit_flag (some b) = rw (text_beq_self k) refl

read_role-role_name : (r : TokenRole) → read_role (str (role_name r)) ≡ some r
unfolding read_role role_name
read_role-role_name participant = refl
read_role-role_name admin = refl

read_text_given : (s : Text) → is_empty s ≡ false → read_text (str s) ≡ some s
unfolding read_text
read_text_given s h = rw h refl

read_jti_given :
    (o : Option Text)
    → (elim o [ none ↦ false | some j ↦ is_empty j ]) ≡ false
    → read_jti (text_js o) ≡ passed o
unfolding read_jti
read_jti_given none h = refl
read_jti_given (some s) h = rw (read_jti, read_text_given s h) refl

read_e2ee_given : (o : Option Bool) → read_e2ee (flag_js o) ≡ passed o
unfolding read_e2ee
read_e2ee_given none = refl
read_e2ee_given (some b) = refl

read_caps_given :
    (v : Js)
    → (if is_defined v then validate_caps v else passed tt) ≡ passed tt
    → read_caps v ≡ passed v
unfolding read_caps validate_caps ◌>>=◌
read_caps_given undefined h = refl
read_caps_given (obj fs) h = rw h refl
read_caps_given null h = absurd (cc h)
read_caps_given (bool b) h = absurd (cc h)
read_caps_given (num n) h = absurd (cc h)
read_caps_given (str s) h = absurd (cc h)
read_caps_given (arr i) h = absurd (cc h)

module _ (opts : IssueTokenOptions) (sec : ℕ) where
  jti_in_payload : prop (codes "jti") (payload_of opts sec) ≡ text_js opts.jti
  unfolding payload_of prop get_field
  jti_in_payload =
      hit_text (codes "jti") _
        (skip_field (codes "jti") (codes "caps") opts.caps _ refl
          ∙ skip_flag (codes "jti") (codes "e2ee") end refl opts.e2ee)
        opts.jti

  caps_in_payload : prop (codes "caps") (payload_of opts sec) ≡ opts.caps
  unfolding payload_of prop get_field
  caps_in_payload =
      skip_text (codes "caps") (codes "jti") _ refl opts.jti
      ∙ hit_field (codes "caps") opts.caps _
          (skip_flag (codes "caps") (codes "e2ee") end refl opts.e2ee)

  e2ee_in_payload : prop (codes "e2ee") (payload_of opts sec) ≡ flag_js opts.e2ee
  unfolding payload_of prop get_field
  e2ee_in_payload =
      skip_text (codes "e2ee") (codes "jti") _ refl opts.jti
      ∙ skip_field (codes "e2ee") (codes "caps") opts.caps _ refl
      ∙ hit_flag (codes "e2ee") end refl opts.e2ee

  room_ok : read_prop (codes "roomId") (payload_of opts sec) ≡ passed (str opts.room_id)
  unfolding payload_of read_prop prop get_field
  room_ok = refl

  member_ok :
      is_empty opts.participant_id ≡ false
      → read_text (prop (codes "participantId") (payload_of opts sec)) ≡ some opts.participant_id
  unfolding payload_of prop get_field
  member_ok given = read_text_given opts.participant_id given

  role_ok :
      read_role (prop (codes "role") (payload_of opts sec)) ≡ some (or_else opts.role participant)
  unfolding payload_of prop get_field
  role_ok = read_role-role_name (or_else opts.role participant)

  exp_ok :
      read_number (prop (codes "exp") (payload_of opts sec))
      ≡ some (or_else opts.exp (sec + default_token_ttl_seconds))
  unfolding payload_of prop get_field read_number
  exp_ok = refl

  iat_ok : read_number (prop (codes "iat") (payload_of opts sec)) ≡ some sec
  unfolding payload_of prop get_field read_number
  iat_ok = refl

  -- The claims of a payload that was written for right options, before it expires.
  pub read_claims-payload_of :
      (now_sec : ℕ)
      → is_empty opts.room_id ≡ false
      → is_empty opts.participant_id ≡ false
      → (elim opts.jti [ none ↦ false | some j ↦ is_empty j ]) ≡ false
      → (if is_defined opts.caps then validate_caps opts.caps else passed tt) ≡ passed tt
      → now_sec < or_else opts.exp (sec + default_token_ttl_seconds)
      → sec ≤ now_sec + 60
      → read_claims (payload_of opts sec) now_sec ≡ passed (claims_of opts sec)
  unfolding read_claims claims_of present fail_if ◌>>=◌
  read_claims-payload_of now_sec room member jti caps alive issued =
      let fresh : leb (or_else opts.exp (sec + default_token_ttl_seconds)) now_sec ≡ false =
        ground arith in
      let past : ltb (now_sec + 60) sec ≡ false = ground arith in
      rw
        (
          read_claims,
          room_ok,
          read_text_given opts.room_id room,
          member_ok member,
          role_ok,
          exp_ok,
          fresh,
          iat_ok,
          past,
          ap read_jti jti_in_payload ∙ read_jti_given opts.jti jti,
          ap read_caps caps_in_payload ∙ read_caps_given opts.caps caps,
          ap read_e2ee e2ee_in_payload ∙ read_e2ee_given opts.e2ee,
        )
        refl
