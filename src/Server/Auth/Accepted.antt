-- ===== src/Server/Auth/Accepted.antt =====
-- What is true of a token that passes its check.
use open_rtc.Base.{
  ℕ, ◌+◌, ◌/◌, ◌≤◌, ◌<◌, ◌≡◌, refl, sym, ap, ◌∙◌, subst, true, false, not, Bool-cases, Option-cases,
  inl, inr, ◌⊎◌, ◌++◌, some, [], ◌∷◌, Text, text_eq, codes, text_beq, text_beq_sound, leb→gt,
  ltb→ge, arith,
}
use open_rtc.Protocol.Values.{Js, undefined, null, bool, num, str, arr, obj, prop, is_text}
use open_rtc.Server.Auth.{
  Crypto, TokenClaims, auth_error, token_expired, revocation, Failure, Checked, passed, failed,
  is_empty, split_dots, three, read_text, read_prop, read_role, read_number, read_jti, read_caps,
  read_e2ee, read_claims, Revoked, is_revoked, check_revoked, check_token, verify_token,
}
use open_rtc.Server.Auth.Issued.{passed-fail_if, passed-present, passed-bind}

pub Checked-cases :
    {A : Type 0} (m : Checked A) → ((e : Failure) × (m ≡ failed e)) ⊎ ((a : A) × (m ≡ passed a))
Checked-cases (failed e) = inl (e, refl)
Checked-cases (passed a) = inr (a, refl)

passed_inj : {A : Type 0} {a b : A} → ◌≡◌ {A = Checked A} (passed a) (passed b) → a ≡ b
passed_inj h = cc h

read_text-given : (v : Js) (s : Text) → read_text v ≡ some s → is_empty s ≡ false
unfolding read_text
read_text-given (str t) s h = ground arith
read_text-given undefined s h = absurd (cc h)
read_text-given null s h = absurd (cc h)
read_text-given (bool b) s h = absurd (cc h)
read_text-given (num n) s h = absurd (cc h)
read_text-given (arr i) s h = absurd (cc h)
read_text-given (obj fs) s h = absurd (cc h)

-- Claims that were read at a time in seconds.
record AreRead (now_sec : ℕ) (claims : TokenClaims) : Type 0 where
  room : is_empty claims.room_id ≡ false
  member : is_empty claims.participant_id ≡ false
  alive : now_sec < claims.exp
  issued : claims.iat ≤ now_sec + 60

read_claims-AreRead :
    (payload : Js) (now_sec : ℕ) (claims : TokenClaims)
    → read_claims payload now_sec ≡ passed claims
    → AreRead now_sec claims
unfolding read_claims
read_claims-AreRead payload now_sec claims h =
    let (v, _, h1) = passed-bind (read_prop (codes "roomId") payload) _ claims h in
    let (room, is_room, h2) = passed-present _ _ _ claims h1 in
    let (member, is_member, h3) =
      passed-present (read_text (prop (codes "participantId") payload)) _ _ claims h2 in
    let (role, _, h4) = passed-present (read_role (prop (codes "role") payload)) _ _ claims h3 in
    let (exp, _, h5) = passed-present (read_number (prop (codes "exp") payload)) _ _ claims h4 in
    let (alive, h6) = passed-fail_if _ _ _ claims h5 in
    let (past, h7) = passed-fail_if _ _ _ claims h6 in
    let (jti, _, h8) = passed-bind (read_jti (prop (codes "jti") payload)) _ claims h7 in
    let (caps, _, h9) = passed-bind (read_caps (prop (codes "caps") payload)) _ claims h8 in
    let (e2ee, _, h10) = passed-bind (read_e2ee (prop (codes "e2ee") payload)) _ claims h9 in
    let e = passed_inj h10 in
    record {
      room =
          subst (λ (x : TokenClaims). is_empty x.room_id ≡ false) e
            (read_text-given v room is_room);
      member =
          subst (λ (x : TokenClaims). is_empty x.participant_id ≡ false) e
            (read_text-given (prop (codes "participantId") payload) member is_member);
      alive = subst (λ (x : TokenClaims). now_sec < x.exp) e (leb→gt exp now_sec alive);
      issued = subst (λ (x : TokenClaims). x.iat ≤ now_sec + 60) e (ltb→ge (now_sec + 60) _ past);
    }

-- A token that was let in: its third part is the HMAC of the first two, it has not expired, it names
-- a room and a participant, and its id was not revoked when it was checked.
pub record IsAuthentic (c : Crypto) (secret token : Text) (now : ℕ) (revoked : Revoked)
    (claims : TokenClaims) : Type 0 where
  pub head : Text
  pub payload : Text
  pub parts :
      three (split_dots [] token) ≡ some (head, payload, c.hmac (head ++ 46 ∷ payload) secret)
  pub alive : now / 1000 < claims.exp
  pub room : is_empty claims.room_id ≡ false
  pub member : is_empty claims.participant_id ≡ false
  pub unrevoked : (jti : Text) → claims.jti ≡ some jti → (is_revoked jti now revoked).0 ≡ false

same_text : (s t : Text) → not (text_beq s t) ≡ false → s ≡ t
same_text s t h = ground (arith, text_beq_sound s t)

record IsSigned (c : Crypto) (secret token : Text) (now : ℕ) (claims : TokenClaims) : Type 0 where
  head : Text
  payload : Text
  parts : three (split_dots [] token) ≡ some (head, payload, c.hmac (head ++ 46 ∷ payload) secret)
  read : AreRead (now / 1000) claims

check_token-IsSigned :
    (c : Crypto) (secret token : Text) (now : ℕ) (claims : TokenClaims)
    → check_token c secret token now ≡ passed claims
    → IsSigned c secret token now claims
unfolding check_token
check_token-IsSigned c secret token now claims h =
    let (_, h1) = passed-fail_if (is_empty secret) _ _ claims h in
    let (_, h2) = passed-fail_if (is_empty token) _ _ claims h1 in
    let (parts, are_parts, h3) = passed-present (three (split_dots [] token)) _ _ claims h2 in
    let (head, _, h4) = passed-present (c.parse (c.b64url_decode parts.0)) _ _ claims h3 in
    let (payload, _, h5) = passed-present (c.parse (c.b64url_decode parts.1)) _ _ claims h4 in
    let (alg, _, h6) = passed-bind (read_prop (codes "alg") head) _ claims h5 in
    let (_, h7) = passed-fail_if (not (is_text (codes "HS256") alg)) _ _ claims h6 in
    let (same, h8) =
      passed-fail_if (not (text_beq (c.hmac (parts.0 ++ 46 ∷ parts.1) secret) parts.2)) _ _ claims
        h7 in
    record {
      head = parts.0;
      payload = parts.1;
      parts =
          are_parts
          ∙ ap (λ s. some (parts.0, parts.1, s))
              (sym (same_text (c.hmac (parts.0 ++ 46 ∷ parts.1) secret) parts.2 same));
      read = read_claims-AreRead payload (now / 1000) claims h8;
    }

-- The revocation check lets claims through as they are.
check_revoked-named :
    (claims : TokenClaims) (now : ℕ) (revoked : Revoked) (id : Text)
    → claims.jti ≡ some id
    → (is_revoked id now revoked).0 ≡ true
    → (check_revoked claims now revoked).0 ≡ failed (auth_error token_expired revocation)
unfolding check_revoked
check_revoked-named claims now revoked id named hit = simp (check_revoked, named, hit) refl

check_revoked-other :
    (claims : TokenClaims) (now : ℕ) (revoked : Revoked)
    → ((id : Text) → claims.jti ≡ some id → (is_revoked id now revoked).0 ≡ false)
    → (check_revoked claims now revoked).0 ≡ passed claims
unfolding check_revoked
check_revoked-other claims now revoked free = elim (Option-cases claims.jti) [
  | inl anonymous ↦ simp (check_revoked, anonymous) refl
  | inr (id, named) ↦ let no_more = free id named in simp (check_revoked, named, no_more) refl
]

check_revoked-unrevoked :
    (claims checked : TokenClaims) (now : ℕ) (revoked : Revoked)
    → (check_revoked checked now revoked).0 ≡ passed claims
    → (id : Text) → checked.jti ≡ some id
    → (is_revoked id now revoked).0 ≡ false
check_revoked-unrevoked claims checked now revoked h id named =
    elim (Bool-cases (is_revoked id now revoked).0) [
      | inl hit ↦ absurd (cc (check_revoked-named checked now revoked id named hit))
      | inr free ↦ free
    ]

module _ (c : Crypto) (secret token : Text) (now : ℕ) (revoked : Revoked) where
  verify_token-failed :
      (e : Failure)
      → check_token c secret token now ≡ failed e
      → (verify_token c secret token now revoked).0 ≡ failed e
  unfolding verify_token
  verify_token-failed e bad = rw (verify_token, bad) refl

  verify_token-passed :
      (claims : TokenClaims)
      → check_token c secret token now ≡ passed claims
      → (verify_token c secret token now revoked).0 ≡ (check_revoked claims now revoked).0
  unfolding verify_token
  verify_token-passed claims good = rw (verify_token, good) refl

-- A token that `verifyToken` lets in is authentic: its third part is the HMAC of the first two under
-- the secret, it has not expired, it names a room and a participant, and its id, if it has one, was
-- not revoked; whatever base64url, JSON and HMAC do.
pub verify_token-IsAuthentic :
    (c : Crypto) (secret token : Text) (now : ℕ) (revoked : Revoked) (claims : TokenClaims)
    → (verify_token c secret token now revoked).0 ≡ passed claims
    → IsAuthentic c secret token now revoked claims
verify_token-IsAuthentic c secret token now revoked claims h =
    elim (Checked-cases (check_token c secret token now)) [
      | inl (e, bad) ↦
          let wrong = sym (verify_token-failed c secret token now revoked e bad) ∙ h in
          absurd (cc wrong)
      | inr (checked, good) ↦
          let after : (check_revoked checked now revoked).0 ≡ passed claims =
            sym (verify_token-passed c secret token now revoked checked good) ∙ h in
          let free = check_revoked-unrevoked claims checked now revoked after in
          let same = passed_inj (sym (check_revoked-other checked now revoked free) ∙ after) in
          let read = check_token-IsSigned c secret token now checked good in
          let signed = subst (λ x. IsSigned c secret token now x) same read in
          record {
            head = signed.head;
            payload = signed.payload;
            parts = signed.parts;
            alive = signed.read.alive;
            room = signed.read.room;
            member = signed.read.member;
            unrevoked =
                subst
                  (λ (x : TokenClaims).
                    (id : Text) → x.jti ≡ some id → (is_revoked id now revoked).0 ≡ false)
                  same free;
          }
    ]
