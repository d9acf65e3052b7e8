-- ===== src/Server/Auth/Tests.antt =====
-- Tokens under a toy cipher: witnesses of the theorems, and runs of rotation and revocation.
use open_rtc.Base.{
  ◌≡◌, refl, true, none, some, [], ◌∷◌, codes, text_beq, text_eq, if◌then◌else◌, arith,
}
use open_rtc.Base.JsMap
use open_rtc.Protocol.Values.{undefined, is_defined, prop, get_field}
use open_rtc.Server.Auth.{
  Crypto, passed, failed, auth_error, token_expired, unauthorized, expiry, signature, revocation,
  IssueTokenOptions, header, payload_of, issue_token, verify_token, verify_token_with_rotation,
  Revoked, revoke_token, is_revoked,
}
use open_rtc.Server.Auth.Payload.{claims_of}
use open_rtc.Server.Auth.Issued.{Carries, issue_token-verify_token}
use open_rtc.Server.Auth.Accepted.{IsAuthentic, verify_token-IsAuthentic}

abbrev opts : IssueTokenOptions
opts = record {
  room_id = codes "r";
  participant_id = codes "a";
  role = none;
  exp = none;
  jti = some (codes "t");
  caps = undefined;
  e2ee = some true;
}

-- The two parts are the texts `h` and `p`, and the signature is the secret.
abbrev toy : Crypto
toy = record {
  hmac = λ text secret. secret;
  b64url = λ s. s;
  b64url_decode = λ s. s;
  stringify = λ v. if is_defined (prop (codes "alg") v) then codes "h" else codes "p";
  parse = λ s. if text_beq s (codes "h") then some header else some (payload_of opts 5);
}

toy-Carries : Carries toy (codes "k") (payload_of opts 5)
unfolding prop get_field payload_of
toy-Carries = record {
  head_back = refl;
  payload_back = refl;
  head_dotless = (refl, tt);
  payload_dotless = (refl, tt);
  signature_dotless = λ text. (refl, tt);
}

issue_token-verify_token_example :
    (verify_token toy (codes "k") (codes "h.p.k") 6000 []).0 ≡ passed (claims_of opts 5)
unfolding issue_token prop JsMap.get
issue_token-verify_token_example =
    issue_token-verify_token toy (codes "k") opts (codes "h.p.k") 5000 6000 [] refl toy-Carries
      (ground arith) (ground arith) refl

verify_token-IsAuthentic_example :
    IsAuthentic toy (codes "k") (codes "h.p.k") 6000 [] (claims_of opts 5)
unfolding verify_token
verify_token-IsAuthentic_example =
    verify_token-IsAuthentic toy (codes "k") (codes "h.p.k") 6000 [] (claims_of opts 5)
      issue_token-verify_token_example

forged :
    (verify_token toy (codes "k") (codes "h.p.j") 6000 []).0
    ≡ failed (auth_error unauthorized signature)
unfolding verify_token
forged = refl

late :
    (verify_token_with_rotation toy
      (codes "j" ∷ codes "k" ∷ codes "i" ∷ [])
      (codes "h.p.k")
      9000000
      []).0
    ≡ failed (auth_error token_expired expiry)
unfolding verify_token_with_rotation payload_of
late = refl

rotated :
    (verify_token_with_rotation toy (codes "j" ∷ codes "k" ∷ []) (codes "h.p.k") 6000 []).0
    ≡ passed (claims_of opts 5)
unfolding verify_token_with_rotation claims_of payload_of JsMap.get
rotated = refl

abbrev revoked : Revoked
revoked = (codes "t", 3605) ∷ []

revoking : revoke_token (codes "t") none 5000 [] ≡ passed revoked
unfolding revoke_token JsMap.set
revoking = refl

barred :
    (verify_token toy (codes "k") (codes "h.p.k") 6000 revoked).0
    ≡ failed (auth_error token_expired revocation)
unfolding verify_token is_revoked payload_of JsMap.get
barred = refl
