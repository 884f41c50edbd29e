-- ===== src/Auth/AccessTokens.antt =====
-- src/auth/jwt-token.service.ts. Signing, verifying and decoding tokens are the jose library's and
-- are arguments; a key ring is that of src/config/security-config.service.ts.
pub mod RoundTrip
use public_parks.Auth.Tables.{
  AuthenticationClientType, resident_mobile, super_admin_web, city_admin_web, gate_worker_mobile,
}
use public_parks.Database.{Result, ok, err}
use public_parks.Database.Results.{map_result, or_err, and_then}
use public_parks.Errors.{Exception, other, authentication_failed}
use mathlib.Core.Option
use public_parks.Prelude.{
  ℕ, ◌+◌, ◌*◌, ◌/◌, String, Option, none, some, List, [], ◌∷◌, map, str_eq, if◌then◌else◌,
}

abbrev pub access_token_lifetime_seconds : ℕ
access_token_lifetime_seconds = 900

abbrev pub jwt_issuer : String
jwt_issuer = "public-parks-backend"

-- `VerifiedAccessToken`
pub record VerifiedAccessToken : Type 0 where
  pub user_id : String
  pub session_id : String
  pub client_type : AuthenticationClientType

pub record ProtectedHeader : Type 0 where
  pub alg : String
  pub kid : Option String
  pub typ : Option String

-- `JWTPayload`; a claim that is absent, or is no text, is `none`. Times are seconds.
pub record JwtPayload : Type 0 where
  pub subject : Option String
  pub issuer : Option String
  pub audience : Option String
  pub session_id : Option String
  pub client_type : Option String
  pub issued_at : ℕ
  pub expires_at : ℕ
  pub jti : String

-- The jose library: `SignJWT.sign`, `decodeProtectedHeader` and `jwtVerify` with an issuer at a
-- time in milliseconds; `none` where they throw.
pub record Jose : Type 0 where
  pub sign : ProtectedHeader → JwtPayload → (key : String) → String
  pub decode_protected_header : String → Option ProtectedHeader
  pub jwt_verify : (token key issuer : String) → (now : ℕ) → Option JwtPayload

-- The keys by their ids, and the active one.
pub record KeyRing : Type 0 where
  pub keys : List (String × String)
  pub active_key_id : String

unfoldable pub key_of : String → List (String × String) → Option String
key_of id [] = none
key_of id ((k, key) ∷ keys) = if str_eq k id then some key else key_of id keys

abbrev pub client_text : AuthenticationClientType → String
client_text resident_mobile = "resident_mobile"
client_text super_admin_web = "super_admin_web"
client_text city_admin_web = "city_admin_web"
client_text gate_worker_mobile = "gate_worker_mobile"

unfoldable pub client_of : String → Option AuthenticationClientType
client_of s =
    if str_eq s "resident_mobile"
    then some resident_mobile
    else if str_eq s "super_admin_web"
    then some super_admin_web
    else if str_eq s "city_admin_web"
    then some city_admin_web
    else if str_eq s "gate_worker_mobile"
    then some gate_worker_mobile
    else none

-- The key of a header's id.
abbrev pub header_key : KeyRing → ProtectedHeader → Option String
header_key ring header = Option.bind header.kid (λ id. key_of id ring.keys)

unfoldable pub verified_claims :
    Option String → Option String → Option String → Option String → Option VerifiedAccessToken
unfolding client_of
verified_claims (some user_id) (some session_id) (some client) (some audience) =
    if str_eq audience client
    then Option.map (λ c. record { user_id = user_id; session_id = session_id; client_type = c })
        (client_of client)
    else none
verified_claims _ _ _ _ = none

-- `parsePayload`
unfoldable pub parse_claims : JwtPayload → Option VerifiedAccessToken
unfolding verified_claims
parse_claims payload =
    verified_claims payload.subject payload.session_id payload.client_type payload.audience

abbrev pub issued_payload : VerifiedAccessToken → ℕ → String → JwtPayload
issued_payload input issued_at jti = record {
  subject = some input.user_id;
  issuer = some jwt_issuer;
  audience = some (client_text input.client_type);
  session_id = some input.session_id;
  client_type = some (client_text input.client_type);
  issued_at = issued_at;
  expires_at = issued_at + access_token_lifetime_seconds;
  jti = jti;
}

module _ (jose : Jose) (ring : KeyRing) where
  abbrev pub issued_token : VerifiedAccessToken → ℕ → String → String → String
  issued_token input now jti key =
      jose.sign (record { alg = "HS256"; kid = some ring.active_key_id; typ = some "JWT" })
        (issued_payload input (now / 1000) jti) key

  -- `issueAccessToken`: the token, and its time of expiry in milliseconds.
  unfoldable pub issue_access_token : VerifiedAccessToken → ℕ → (jti : String) → Result (String × ℕ)
  unfolding key_of
  issue_access_token input now jti =
      map_result
        (λ key.
          (issued_token input now jti key, (now / 1000 + access_token_lifetime_seconds) * 1000))
        (or_err (other "Active JWT key is unavailable") (key_of ring.active_key_id ring.keys))

  -- `verifyAccessToken` with the key of the header
  unfoldable pub verify_with :
      String → ℕ → ProtectedHeader → Option String → Option VerifiedAccessToken
  unfolding parse_claims Option.bind
  verify_with token now header none = none
  verify_with token now header (some key) =
      if str_eq header.alg "HS256"
      then Option.bind (jose.jwt_verify token key jwt_issuer now) parse_claims
      else none

  -- `verifyAccessToken`, which throws one exception whatever is wrong.
  unfoldable pub verify_access_token : String → ℕ → Result VerifiedAccessToken
  unfolding verify_with Option.bind key_of
  verify_access_token token now = or_err authentication_failed (
      Option.bind (jose.decode_protected_header token)
        (λ header. verify_with token now header (header_key ring header)))
