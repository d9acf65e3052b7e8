-- ===== src/Server/Auth/Issued.antt =====
-- A token that was issued passes its check.
use open_rtc.Base.{
  ℕ, ◌+◌, ◌/◌, ◌≡◌, refl, sym, ap, ◌∙◌, Bool, true, false, ◌++◌, Option, none, some, [], ◌∷◌, All,
  append_assoc, append-nil, Text, text_eq, nat_beq, text_beq_self, ◌<◌, ◌≤◌, Option-cases, inl, inr,
  subst, if◌then◌else◌, or_else, arith,
}
use open_rtc.Base.JsMap
use open_rtc.Protocol.Values.{Js, is_defined, prop, get_field}
use open_rtc.Server.Auth.Payload.{claims_of, read_claims-payload_of}
use open_rtc.Server.Auth.{
  read_prop, check_revoked, is_revoked, verify_token, Revoked, Crypto, header, three, check_token,
  read_claims, TokenClaims, Failure, Checked, passed, failed, ◌>>=◌, fail_if, present, is_empty,
  validate_caps, IssueTokenOptions, default_token_ttl_seconds, payload_of, signed, issue_token,
  split_dots,
}

-- A text without a dot.
abbrev pub IsDotless : Text → Type 0
IsDotless = All λ ch. nat_beq ch 46 ≡ false

split_dots-dot :
    (s current rest : Text)
    → IsDotless s
    → split_dots current (s ++ 46 ∷ rest) ≡ (current ++ s) ∷ split_dots [] rest
unfolding split_dots
split_dots-dot [] current rest plain = ap (λ t. t ∷ split_dots [] rest) (sym (append-nil current))
split_dots-dot (ch ∷ s) current rest plain = rw plain.0 (
    split_dots-dot s (current ++ ch ∷ []) rest plain.1
    ∙ ap (λ t. t ∷ split_dots [] rest) (append_assoc current (ch ∷ []) s))

split_dots-last : (s current : Text) → IsDotless s → split_dots current s ≡ (current ++ s) ∷ []
unfolding split_dots
split_dots-last [] current plain = ap (λ t. t ∷ []) (sym (append-nil current))
split_dots-last (ch ∷ s) current plain = rw plain.0 (
    split_dots-last s (current ++ ch ∷ []) plain.1
    ∙ ap (λ t. t ∷ []) (append_assoc current (ch ∷ []) s))

split_three :
    (h p s : Text)
    → IsDotless h
    → IsDotless p
    → IsDotless s
    → split_dots [] (h ++ 46 ∷ p ++ 46 ∷ s) ≡ h ∷ p ∷ s ∷ []
split_three h p s a b d =
    ap (split_dots []) (append_assoc h (46 ∷ p) (46 ∷ s))
    ∙ split_dots-dot h [] (p ++ 46 ∷ s) a
    ∙ ap (λ t. h ∷ t) (split_dots-dot p [] s b ∙ ap (λ t. p ∷ t) (split_dots-last s [] d))

dotted : (h rest : Text) → is_empty (h ++ 46 ∷ rest) ≡ false
dotted [] rest = ground arith
dotted (ch ∷ h) rest = ground arith

pub passed-fail_if :
    {B : Type 0} (t : Bool) (e : Failure) (k : Unit {0} → Checked B) (b : B)
    → (fail_if t e >>= k) ≡ passed b
    → (t ≡ false) × (k tt ≡ passed b)
unfolding fail_if ◌>>=◌
passed-fail_if true e k b h = absurd (cc h)
passed-fail_if false e k b h = (refl, h)

pub passed-present :
    {A B : Type 0} (o : Option A) (e : Failure) (k : A → Checked B) (b : B)
    → (present o e >>= k) ≡ passed b
    → (a : A) × (o ≡ some a) × (k a ≡ passed b)
unfolding present ◌>>=◌
passed-present none e k b h = absurd (cc h)
passed-present (some a) e k b h = (a, refl, h)

pub passed-bind :
    {A B : Type 0} (m : Checked A) (k : A → Checked B) (b : B)
    → (m >>= k) ≡ passed b
    → (a : A) × (m ≡ passed a) × (k a ≡ passed b)
unfolding ◌>>=◌
passed-bind (failed e) k b h = absurd (cc h)
passed-bind (passed a) k b h = (a, refl, h)

-- What `issueToken` has checked.
record Issued (c : Crypto) (secret : Text) (opts : IssueTokenOptions) (now : ℕ) (token : Text)
    : Type 0 where
  secret_given : is_empty secret ≡ false
  room_given : is_empty opts.room_id ≡ false
  member_given : is_empty opts.participant_id ≡ false
  jti_given : (elim opts.jti [ none ↦ false | some j ↦ is_empty j ]) ≡ false
  caps_given : (if is_defined opts.caps then validate_caps opts.caps else passed tt) ≡ passed tt
  token_signed : token ≡ signed c secret (payload_of opts (now / 1000))

issue_token-Issued :
    (c : Crypto) (secret : Text) (opts : IssueTokenOptions) (now : ℕ) (token : Text)
    → issue_token c secret opts now ≡ passed token
    → Issued c secret opts now token
unfolding issue_token
issue_token-Issued c secret opts now token h =
    let (a, h1) = passed-fail_if _ _ _ token h in
    let (b, h2) = passed-fail_if _ _ _ token h1 in
    let (d, h3) = passed-fail_if _ _ _ token h2 in
    let (e, h4) = passed-fail_if _ _ _ token h3 in
    let (u, f, h5) = passed-bind _ _ token h4 in
    record {
      secret_given = a;
      room_given = b;
      member_given = d;
      jti_given = e;
      caps_given = f;
      token_signed = cc h5;
    }

-- What base64url, JSON and HMAC do for a token: they are undone, and write no dots.
pub record Carries (c : Crypto) (secret : Text) (payload : Js) : Type 0 where
  pub head_back : c.parse (c.b64url_decode (c.b64url (c.stringify header))) ≡ some header
  pub payload_back : c.parse (c.b64url_decode (c.b64url (c.stringify payload))) ≡ some payload
  pub head_dotless : IsDotless (c.b64url (c.stringify header))
  pub payload_dotless : IsDotless (c.b64url (c.stringify payload))
  pub signature_dotless : (text : Text) → IsDotless (c.hmac text secret)

-- A token's three parts.
parts_of :
    (c : Crypto) (secret : Text) (payload : Js)
    → Carries c secret payload
    → three (split_dots [] (signed c secret payload))
      ≡ some (
        c.b64url (c.stringify header),
        c.b64url (c.stringify payload),
        c.hmac (c.b64url (c.stringify header) ++ 46 ∷ c.b64url (c.stringify payload)) secret,
      )
unfolding signed
parts_of c secret payload k = ap three (
    split_three _ _ _ k.head_dotless k.payload_dotless
      (k.signature_dotless (c.b64url (c.stringify header) ++ 46 ∷ c.b64url (c.stringify payload))))

token_given :
    (c : Crypto) (secret : Text) (payload : Js) → is_empty (signed c secret payload) ≡ false
unfolding signed
token_given c secret payload =
    dotted (c.b64url (c.stringify header) ++ 46 ∷ c.b64url (c.stringify payload)) _

check_token-signed :
    (c : Crypto) (secret : Text) (payload : Js) (later : ℕ)
    → is_empty secret ≡ false
    → Carries c secret payload
    → check_token c secret (signed c secret payload) later ≡ read_claims payload (later / 1000)
unfolding check_token present fail_if ◌>>=◌ read_prop prop get_field
check_token-signed c secret payload later given k =
    rw
      (
        check_token,
        given,
        token_given c secret payload,
        parts_of c secret payload k,
        k.head_back,
        k.payload_back,
        text_beq_self
            (c.hmac (c.b64url (c.stringify header) ++ 46 ∷ c.b64url (c.stringify payload)) secret),
      )
      refl

-- Claims whose id, if they have one, was never revoked.
abbrev pub IsUnrevoked : Option Text → Revoked → Type 0
IsUnrevoked none revoked = Unit
IsUnrevoked (some jti) revoked = JsMap.get jti revoked ≡ none

check_revoked-passes :
    (claims : TokenClaims) (now : ℕ) (revoked : Revoked)
    → IsUnrevoked claims.jti revoked
    → (check_revoked claims now revoked).0 ≡ passed claims
unfolding check_revoked is_revoked
check_revoked-passes claims now revoked h = elim (Option-cases claims.jti) [
  | inl anonymous ↦ simp (check_revoked, anonymous) refl
  | inr (jti, named) ↦
      let free : JsMap.get jti revoked ≡ none = subst (λ o. IsUnrevoked o revoked) named h in
      simp (check_revoked, named, is_revoked, free) refl
]

-- Round trip: a token that `issueToken` returns gives its claims to `verifyToken` under the same
-- secret, until it expires and unless its id was revoked, with clocks at most a minute apart, if
-- base64url and JSON carry its two parts and no part has a dot.
pub issue_token-verify_token :
    (c : Crypto) (secret : Text) (opts : IssueTokenOptions) (token : Text) (now later : ℕ)
    (revoked : Revoked)
    → issue_token c secret opts now ≡ passed token
    → Carries c secret (payload_of opts (now / 1000))
    → later / 1000 < or_else opts.exp (now / 1000 + default_token_ttl_seconds)
    → now / 1000 ≤ later / 1000 + 60
    → IsUnrevoked opts.jti revoked
    → (verify_token c secret token later revoked).0 ≡ passed (claims_of opts (now / 1000))
unfolding verify_token claims_of
issue_token-verify_token c secret opts token now later revoked issued carries alive clocks free =
    let i = issue_token-Issued c secret opts now token issued in
    let checked : check_token c secret token later ≡ passed (claims_of opts (now / 1000)) =
      ap (λ t. check_token c secret t later) i.token_signed
      ∙ check_token-signed c secret (payload_of opts (now / 1000)) later i.secret_given carries
      ∙ read_claims-payload_of opts (now / 1000) (later / 1000) i.room_given i.member_given
          i.jti_given i.caps_given alive clocks in
    rw (verify_token, checked)
      (check_revoked-passes (claims_of opts (now / 1000)) later revoked free)
