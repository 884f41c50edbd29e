-- ===== src/Auth/AccessTokens/RoundTrip.antt =====
-- An issued access token verified, in src/auth/jwt-token.service.ts.
use public_parks.Auth.Tables.{
  AuthenticationClientType, resident_mobile, super_admin_web, city_admin_web, gate_worker_mobile,
}
use public_parks.Auth.AccessTokens.{
  Jose, KeyRing, VerifiedAccessToken, key_of, client_text, client_of, verified_claims, parse_claims,
  issued_payload, issued_token, issue_access_token, verify_with, verify_access_token, jwt_issuer,
}
use public_parks.Errors.{authentication_failed}
use public_parks.Database.{ok, err}
use mathlib.Core.Option
use public_parks.Prelude.{
  ℕ, ◌+◌, ◌*◌, ◌/◌, ◌≤◌, ◌<◌, String, ◌≡◌, refl, subst, none, some, arith, eq_refl,
}

client_of-client_text : (c : AuthenticationClientType) → client_of (client_text c) ≡ some c
unfolding client_of
client_of-client_text resident_mobile = refl
client_of-client_text super_admin_web = refl
client_of-client_text city_admin_web = refl
client_of-client_text gate_worker_mobile = refl

parse_claims-issued :
    (input : VerifiedAccessToken) (issued_at : ℕ) (jti : String)
    → parse_claims (issued_payload input issued_at jti) ≡ some input
unfolding parse_claims verified_claims
parse_claims-issued input issued_at jti =
    rw (eq_refl (client_text input.client_type), client_of-client_text input.client_type)

-- A token is verified with the claims it was issued for, for 900 seconds from the second of its
-- issue, and from then on it is refused, by any ring that has the key that signed it under its id,
-- active or not; the time of expiry that the issue returns is the end of these 900 seconds. The
-- library reads back the header of the token that it signed; with its key, it verifies it for the
-- issuer that its payload names before the payload's time of expiry, and refuses it from then on.
pub verify_access_token-issue_access_token :
    (jose : Jose) (ring later : KeyRing) (input : VerifiedAccessToken) (issued now : ℕ)
    (jti key token : String) (expires : ℕ)
    → jose.decode_protected_header (issued_token jose ring input issued jti key)
      ≡ some (record { alg = "HS256"; kid = some ring.active_key_id; typ = some "JWT" })
    → ((issuer : String) (t : ℕ)
        → (issued_payload input (issued / 1000) jti).issuer ≡ some issuer
        → t / 1000 < (issued_payload input (issued / 1000) jti).expires_at
        → jose.jwt_verify (issued_token jose ring input issued jti key) key issuer t
          ≡ some (issued_payload input (issued / 1000) jti))
    → ((issuer : String) (t : ℕ)
        → (issued_payload input (issued / 1000) jti).expires_at ≤ t / 1000
        → jose.jwt_verify (issued_token jose ring input issued jti key) key issuer t ≡ none)
    → issue_access_token jose ring input issued jti ≡ ok (token, expires)
    → key_of ring.active_key_id ring.keys ≡ some key
    → key_of ring.active_key_id later.keys ≡ some key
    → (now / 1000 < issued / 1000 + 900 → verify_access_token jose later token now ≡ ok input)
      × (issued / 1000 + 900 ≤ now / 1000
          → verify_access_token jose later token now ≡ err authentication_failed)
      × (expires ≡ (issued / 1000 + 900) * 1000)
unfolding verify_access_token verify_with issue_access_token Option.bind
verify_access_token-issue_access_token jose ring later input issued now jti key token expires
      headers verifies refuses made active known =
    let same : issued_token jose ring input issued jti key ≡ token =
      ground (arith, rw active at made) in
    let header =
      subst
        (λ t.
          jose.decode_protected_header t
          ≡ some (record { alg = "HS256"; kid = some ring.active_key_id; typ = some "JWT" }))
        same headers in
    (
      λ in_time.
          let verified =
            subst
              (λ t.
                jose.jwt_verify t key jwt_issuer now
                ≡ some (issued_payload input (issued / 1000) jti))
              same (verifies jwt_issuer now refl in_time) in
          rw (header, known, verified, parse_claims-issued input (issued / 1000) jti),
      λ late.
          let refused =
            subst (λ t. jose.jwt_verify t key jwt_issuer now ≡ none) same
              (refuses jwt_issuer now late) in
          rw (header, known, refused),
      ground (arith, rw active at made),
    )
