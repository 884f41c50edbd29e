-- ===== src/Examples/Admitting.antt =====
-- Guards, access tokens, rate limits and the CSRF token of src/auth.
use mathlib.Core.Option
use mathlib.Core.Option.{some_inj}
use public_parks.Auth.AccessTokens.{
  Jose, KeyRing, VerifiedAccessToken, JwtPayload, key_of, client_of, verified_claims, parse_claims,
  issued_payload, issue_access_token, verify_with, verify_access_token,
}
use public_parks.Auth.AccessTokens.RoundTrip.{verify_access_token-issue_access_token}
use public_parks.Auth.Guards.{
  AuthenticatedActor, RoleStore, Request, GuardContext, one, includes, every_included, admit,
  actor_of, access_token_guard, actor_of_claims, get_authenticated_actor, authentication_guard,
  permissions_guard, is_permitted, distinct, roles_of, permissions_of,
}
use public_parks.Auth.Guards.Headers.{bearer_token}
use public_parks.Auth.Guards.Admission.{IsGenuine, admit-IsGenuine}
use public_parks.Auth.RateLimits.{entry}
use public_parks.Auth.RateLimits.Windows.{passed, assert_within_limit-passed}
use public_parks.Auth.Tables.{super_admin_web, AuthStore, AuthenticationSession, Fresh}
use public_parks.Database.{ok, err}
use public_parks.Auth.Otp.{PresentedCode, consume_otp_challenge}
use public_parks.Auth.Service.{AuthServices, Draws, AuthState, create_challenge}
use public_parks.Auth.Service.Delivery.{create_challenge-undelivered}
use public_parks.Errors.{Exception, other, authentication_failed}
use public_parks.Examples.Access.{resident, session, hashing}
use public_parks.Prelude.{
  ℕ, ◌+◌, ◌*◌, ◌/◌, ltb, ◌&&◌, String, eq_iff, ◌≤◌, ◌<◌, min, ◌≡◌, refl, sym, true, false, none,
  some, [], ◌∷◌, arith, str_eq, if◌then◌else◌, length, All,
}

abbrev admin_session : AuthenticationSession
admin_session = record session { client_type = super_admin_web }

abbrev admins : AuthStore
admins = record {
  otp_challenges = [];
  users = resident ∷ [];
  sessions = admin_session ∷ [];
  refresh_tokens = [];
}

abbrev granted : RoleStore
granted = record {
  roles = record { id = "r1"; code = "super_admin"; is_active = true } ∷ [];
  permissions = record { id = "p1"; code = "sms_provider_configurations.manage" } ∷ [];
  user_roles = ("u1", "r1") ∷ [];
  role_permissions = ("r1", "p1") ∷ [];
}

abbrev admin_claims : VerifiedAccessToken
admin_claims = record { user_id = "u1"; session_id = "s1"; client_type = super_admin_web }

abbrev admin_payload : JwtPayload
admin_payload = issued_payload admin_claims 0 "j1"

-- A library that knows one token, until it expires.
abbrev jose : Jose
jose = record {
  sign = λ header payload key. "t";
  decode_protected_header =
      λ token. some (record { alg = "HS256"; kid = some "k1"; typ = some "JWT" });
  jwt_verify = λ token key issuer now.
      if str_eq token "t" && (str_eq issuer "public-parks-backend" && ltb (now / 1000) 900)
      then some admin_payload
      else none;
}

abbrev ring : KeyRing
ring = record { keys = ("k1", "key") ∷ []; active_key_id = "k1" }

abbrev context : GuardContext
context = record { jose = jose; ring = ring; store = admins; roles = granted; now = 500 }

abbrev managing : Request
managing = record {
  authorization = one "Bearer t";
  is_public = false;
  required = "sms_provider_configurations.manage" ∷ [];
}

abbrev admin : AuthenticatedActor
admin = record {
  actor_id = "u1";
  session_id = "s1";
  client_type = super_admin_web;
  role_codes = "super_admin" ∷ [];
  permission_codes = "sms_provider_configurations.manage" ∷ [];
}

managing-admitted : admit context managing ≡ ok (some admin)
unfolding admit access_token_guard bearer_token verify_access_token verify_with Option.bind key_of
    parse_claims verified_claims client_of actor_of_claims get_authenticated_actor actor_of distinct
    roles_of permissions_of authentication_guard permissions_guard is_permitted
managing-admitted = refl

admit-IsGenuine_example :
    (actor : AuthenticatedActor) × (some admin ≡ some actor)
    × IsGenuine context managing actor
    × (1 ≤ length managing.required
        → (actor.client_type ≡ super_admin_web)
          × (includes actor.role_codes "super_admin" ≡ true)
          × (every_included context actor.permission_codes managing.required ≡ true))
admit-IsGenuine_example = admit-IsGenuine context managing (some admin) refl managing-admitted

minute_free : entry "otp:phone:h" 0 [] ≡ none
unfolding entry
minute_free = refl

minute_times : All (λ now. now < 0 + 900 * 1000) (1000 ∷ 2000 ∷ 3000 ∷ [])
minute_times = (omega arith, (omega arith, (omega arith, tt)))

assert_within_limit-passed_example :
    passed "otp:phone:h" 3 900 (0 ∷ 1000 ∷ 2000 ∷ 3000 ∷ []) []
    ≡ min 3 (length {A = ℕ} (0 ∷ 1000 ∷ 2000 ∷ 3000 ∷ []))
assert_within_limit-passed_example =
    assert_within_limit-passed "otp:phone:h" 3 900 0 (1000 ∷ 2000 ∷ 3000 ∷ []) [] minute_free
      minute_times

issued_at_once : issue_access_token jose ring admin_claims 0 "j1" ≡ ok ("t", 900000)
unfolding issue_access_token key_of
issued_at_once = refl

ring_key : key_of "k1" ring.keys ≡ some "key"
unfolding key_of
ring_key = refl

before_expiry :
    (issuer : String) (t : ℕ)
    → some "public-parks-backend" ≡ some issuer
    → t / 1000 < 900
    → jose.jwt_verify "t" "key" issuer t ≡ some admin_payload
before_expiry issuer t named early =
    ground (arith, (eq_iff issuer "public-parks-backend").1 (sym (some_inj.0 named)))

from_expiry : (issuer : String) (t : ℕ) → 900 ≤ t / 1000 → jose.jwt_verify "t" "key" issuer t ≡ none
from_expiry issuer t late = ground arith

verify_access_token-issue_access_token_example :
    (0 < 900 → verify_access_token jose ring "t" 500 ≡ ok admin_claims)
    × (900 ≤ 0 → verify_access_token jose ring "t" 500 ≡ err authentication_failed)
    × (◌≡◌ {A = ℕ} 900000 900000)
verify_access_token-issue_access_token_example =
    verify_access_token-issue_access_token jose ring ring admin_claims 0 500 "j1" "key" "t" 900000
      refl before_expiry from_expiry issued_at_once ring_key ring_key

abbrev services : AuthServices
services = record {
  mfa_services = record {
    hashes = hashing;
    encryption = record { encrypt_json = λ r s aad. none; decrypt_json = λ p aad. none };
    verify_totp = λ secret token now. none;
  };
  jose = jose;
  ring = ring;
  deliver = λ challenge_id destination otp_code. err (other "no gateway");
  verify_password = λ password_hash password. false;
  dummy_password_hash = "dummy";
}

abbrev draws : Draws
draws = record {
  fresh = record {
    now = 100;
    user_uuid = "u2";
    session_uuid = "s2";
    token_uuid = "t2";
    refresh_token = "next";
  };
  challenge_uuid = "c1";
  random_int = 4242;
  jti = "j2";
}

abbrev quiet : AuthState
quiet = record {
  store = admins;
  mfa = record { totp_factors = []; recovery_codes = [] };
  roles = granted;
  passwords = [];
  redis = [];
}

create_challenge-undelivered_example :
    ((f : Exception) × ((create_challenge services draws "+251911" "10.0.0.1" quiet).0 ≡ err f))
    × ((fresh : Fresh) (input : PresentedCode)
        → input.challenge_id ≡ "c1"
        → consume_otp_challenge hashing fresh input
            (create_challenge services draws "+251911" "10.0.0.1" quiet).1.store
          ≡ (
            err authentication_failed,
            (create_challenge services draws "+251911" "10.0.0.1" quiet).1.store,
          ))
create_challenge-undelivered_example =
    create_challenge-undelivered services draws "+251911" "10.0.0.1" quiet (other "no gateway") refl
      refl
