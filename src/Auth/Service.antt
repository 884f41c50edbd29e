-- ===== src/Auth/Service.antt =====
-- src/auth/authentication.service.ts: the flows of the endpoints over the repository, the rate
-- limits and the tokens. Every call of the repository is a transaction of its own. The delivery of
-- one-time codes and argon2 are arguments.
pub mod Delivery
pub mod Csrf
use public_parks.Auth.AccessTokens.{Jose, KeyRing, VerifiedAccessToken, issue_access_token}
use public_parks.Auth.Digests.{SecretHash, hash_otp, hash_sensitive_lookup, hash_csrf, is_equal}
use public_parks.Auth.Guards.{RoleStore, Role, roles_of}
use public_parks.Auth.Mfa.{MfaStore, MfaServices, consume_super_admin_mfa}
use public_parks.Auth.Otp.{
  NewChallenge, PresentedCode, create_otp_challenge, mark_otp_delivery_failed,
  consume_otp_challenge,
}
use public_parks.Auth.RateLimits.{
  Redis, assert_within_limit, assert_cooldown, set_text, get_text, delete,
}
use public_parks.Auth.Sessions.{
  create_super_admin_session, rotate_refresh_token, get_refresh_token_context,
}
use public_parks.Auth.Tables.{
  AuthenticationClientType, resident_mobile, super_admin_web, city_admin_web, gate_worker_mobile,
  User, AuthStore, SessionResult, Fresh,
}
use public_parks.Database.{Result, ok, err, find?}
use public_parks.Database.Results.{and_then, map_result, then_call}
use public_parks.Errors.{Exception, ErrorCode, raised, authentication_failed}
use public_parks.Prelude.{
  ℕ, ◌+◌, ◌*◌, String, Bool, true, false, ◌&&◌, Option, none, some, List, [], ◌∷◌, str_eq, ltb,
  if◌then◌else◌, any, template, decimal, opt_str_eq,
}

abbrev pub otp_lifetime_ms : ℕ
otp_lifetime_ms = 300000

abbrev pub mfa_challenge_seconds : ℕ
mfa_challenge_seconds = 300

-- A row of `password_credentials`
pub record PasswordCredential : Type 0 where
  pub user_id : String
  pub password_hash : String

-- What the service reads and writes.
pub record AuthState : Type 0 where
  pub store : AuthStore
  pub mfa : MfaStore
  pub roles : RoleStore
  pub passwords : List PasswordCredential
  pub redis : Redis

-- What the service is constructed with. `deliver` is the delivery of a one-time code, for a
-- challenge, a destination and a code; `verify_password` is argon2's, false where it throws.
pub record AuthServices : Type 0 where
  pub mfa_services : MfaServices
  pub jose : Jose
  pub ring : KeyRing
  pub deliver : (challenge_id destination otp_code : String) → Result (Unit {0})
  pub verify_password : (password_hash password : String) → Bool
  pub dummy_password_hash : String

-- The clock and the random sources of a call.
pub record Draws : Type 0 where
  pub fresh : Fresh
  pub challenge_uuid : String
  pub random_int : ℕ
  pub jti : String

pub record OtpChallengeResponse : Type 0 where
  pub challenge_id : String
  pub expires_at : ℕ
  pub resend_available_at : ℕ

pub record SuperAdminChallengeResponse : Type 0 where
  pub challenge_id : String
  pub expires_at : ℕ

-- `AuthenticationTokensResponse`, with the CSRF token of an administrator's.
pub record AuthenticationTokensResponse : Type 0 where
  pub access_token : String
  pub access_token_expires_at : ℕ
  pub refresh_token : Option String
  pub refresh_token_expires_at : ℕ
  pub session_id : String
  pub user_id : String
  pub csrf_token : Option String

-- `toString().padStart(6, '0')` of a number below a million
unfoldable pub padded_code : ℕ → String
padded_code n =
    if ltb n 10
    then template ("00000" ∷ decimal n ∷ [])
    else if ltb n 100
    then template ("0000" ∷ decimal n ∷ [])
    else if ltb n 1000
    then template ("000" ∷ decimal n ∷ [])
    else if ltb n 10000
    then template ("00" ∷ decimal n ∷ [])
    else if ltb n 100000
    then template ("0" ∷ decimal n ∷ [])
    else decimal n

-- A call on one part of the state.
abbrev pub on_redis {ℓ} :
    {A : Type ℓ} → (Redis → Result A × Redis) → AuthState → Result A × AuthState
on_redis f s = let out = f s.redis in (out.0, record s { redis = out.1 })

abbrev pub on_store {ℓ} :
    {A : Type ℓ} → (AuthStore → Result A × AuthStore) → AuthState → Result A × AuthState
on_store f s = let out = f s.store in (out.0, record s { store = out.1 })

abbrev pub on_mfa {ℓ} :
    {A : Type ℓ} → (MfaStore → Result A × MfaStore) → AuthState → Result A × AuthState
on_mfa f s = let out = f s.mfa in (out.0, record s { mfa = out.1 })

abbrev pub key_for : String → String → String
key_for prefix value = template (prefix ∷ value ∷ [])

abbrev pub sms_unavailable : Exception
sms_unavailable =
    raised ErrorCode.sms_delivery_unavailable "SMS delivery is temporarily unavailable."

abbrev pub has_email : String → User → Bool
has_email email u = opt_str_eq u.email (some email) && u.is_active

abbrev pub password_of : Option User → List PasswordCredential → Option PasswordCredential
password_of none passwords = none
password_of (some u) passwords = find? (λ p. str_eq p.user_id u.id) passwords

-- `findSuperAdminPassword` of the repository
unfoldable pub find_super_admin_password : String → AuthState → Option PasswordCredential
unfolding roles_of
find_super_admin_password email s =
    password_of
      (find?
        (λ u.
          has_email email u
          && (any (λ r. str_eq r.code "super_admin") (roles_of u.id s.roles)
              && any (λ p. str_eq p.user_id u.id) s.passwords))
        s.store.users)
      s.passwords

abbrev pub is_client : AuthenticationClientType → AuthenticationClientType → Bool
is_client resident_mobile resident_mobile = true
is_client super_admin_web super_admin_web = true
is_client city_admin_web city_admin_web = true
is_client gate_worker_mobile gate_worker_mobile = true
is_client _ _ = false

module _ (a : AuthServices) (draws : Draws) where
  -- `issueTokens`
  unfoldable pub issue_tokens :
      SessionResult → Option String → Option String → Result AuthenticationTokensResponse
  unfolding issue_access_token
  issue_tokens session refresh_token csrf_token =
      map_result
        (λ access. record {
          access_token = access.0;
          access_token_expires_at = access.1;
          refresh_token = refresh_token;
          refresh_token_expires_at = session.refresh_token_expires_at;
          session_id = session.session_id;
          user_id = session.user_id;
          csrf_token = csrf_token;
        })
        (issue_access_token a.jose a.ring
          (record {
            user_id = session.user_id;
            session_id = session.session_id;
            client_type = session.client_type;
          })
          draws.fresh.now draws.jti)

  -- The tokens of a resident
  unfoldable pub resident_tokens : SessionResult → Result AuthenticationTokensResponse
  unfolding issue_tokens
  resident_tokens session = issue_tokens session (some session.refresh_token) none

  -- The tokens of an administrator, with the CSRF token of the session
  unfoldable pub admin_tokens : SessionResult → Result AuthenticationTokensResponse
  unfolding issue_tokens hash_csrf
  admin_tokens session =
      issue_tokens session (some session.refresh_token)
        (some (hash_csrf a.mfa_services.hashes session.session_id session.refresh_token))

  -- The three limits of `createOtpChallenge`
  unfoldable pub otp_limits :
      (phone_number request_ip : String) → AuthState → Result (Unit {0}) × AuthState
  unfolding assert_cooldown assert_within_limit hash_sensitive_lookup
  otp_limits phone_number request_ip s =
      let phone_hash = hash_sensitive_lookup a.mfa_services.hashes phone_number in
      let ip_hash = hash_sensitive_lookup a.mfa_services.hashes request_ip in
      then_call
        (on_redis (assert_cooldown (key_for "otp:cooldown:" phone_hash) 60 draws.fresh.now) s)
        (λ _ s.
          then_call
            (on_redis (assert_within_limit (key_for "otp:phone:" phone_hash) 3 900 draws.fresh.now)
              s)
            (λ _ s.
              on_redis (assert_within_limit (key_for "otp:ip:" ip_hash) 10 900 draws.fresh.now) s))

  abbrev pub otp_input : String → NewChallenge
  unfolding hash_otp padded_code
  otp_input phone_number = record {
    challenge_id = draws.challenge_uuid;
    phone_number = phone_number;
    code_digest =
        hash_otp a.mfa_services.hashes draws.challenge_uuid phone_number
          (padded_code draws.random_int);
    expires_at = draws.fresh.now + otp_lifetime_ms;
  }

  -- The end of `createOtpChallenge`: a failed delivery closes the challenge.
  unfoldable pub delivered : Result (Unit {0}) → AuthState → Result OtpChallengeResponse × AuthState
  unfolding mark_otp_delivery_failed
  delivered (ok x) s = (
    ok (record {
      challenge_id = draws.challenge_uuid;
      expires_at = draws.fresh.now + otp_lifetime_ms;
      resend_available_at = draws.fresh.now + 60000;
    }),
    s,
  )
  delivered (err e) s = (
    err sms_unavailable,
    record s { store = mark_otp_delivery_failed draws.challenge_uuid s.store },
  )

  -- `createOtpChallenge`
  unfoldable pub create_challenge :
      (phone_number request_ip : String) → AuthState → Result OtpChallengeResponse × AuthState
  unfolding otp_limits otp_input create_otp_challenge delivered padded_code
  create_challenge phone_number request_ip s =
      then_call (otp_limits phone_number request_ip s) (λ _ s.
        then_call (on_store (create_otp_challenge (otp_input phone_number) draws.fresh.now) s)
          (λ _ s.
            delivered (a.deliver draws.challenge_uuid phone_number (padded_code draws.random_int))
              s))

  -- `createResidentSession`
  unfoldable pub create_resident_session :
      PresentedCode → AuthState → Result AuthenticationTokensResponse × AuthState
  unfolding consume_otp_challenge resident_tokens
  create_resident_session input s =
      then_call (on_store (consume_otp_challenge a.mfa_services.hashes draws.fresh input) s)
        (λ session s. (resident_tokens session, s))

  unfoldable pub resident_context : Option (String × AuthenticationClientType) → Result (Unit {0})
  resident_context none = err authentication_failed
  resident_context (some (session_id, client)) =
      if is_client client resident_mobile then ok tt else err authentication_failed

  -- `refreshResidentSession`
  unfoldable pub refresh_resident_session :
      String → AuthState → Result AuthenticationTokensResponse × AuthState
  unfolding resident_context get_refresh_token_context rotate_refresh_token resident_tokens
  refresh_resident_session refresh_token s =
      then_call
        (
          resident_context (get_refresh_token_context a.mfa_services.hashes refresh_token s.store),
          s,
        )
        (λ _ s.
          then_call
            (on_store (rotate_refresh_token a.mfa_services.hashes draws.fresh refresh_token) s)
            (λ session s. (resident_tokens session, s)))

  -- The hash that `createSuperAdminChallenge` verifies, also when there is no such administrator
  abbrev pub hash_or_dummy : Option PasswordCredential → String
  hash_or_dummy none = a.dummy_password_hash
  hash_or_dummy (some p) = p.password_hash

  unfoldable pub admin_challenge :
      Option PasswordCredential → Bool → AuthState → Result SuperAdminChallengeResponse × AuthState
  unfolding set_text
  admin_challenge (some p) true s = (
    ok (record {
      challenge_id = draws.challenge_uuid;
      expires_at = draws.fresh.now + mfa_challenge_seconds * 1000;
    }),
    record s {
      redis =
          set_text (key_for "admin-mfa:" draws.challenge_uuid) p.user_id mfa_challenge_seconds
            draws.fresh.now s.redis;
    },
  )
  admin_challenge _ _ s = (err authentication_failed, s)

  -- `createSuperAdminChallenge`
  unfoldable pub create_super_admin_challenge :
      (email password request_ip : String)
      → AuthState
      → Result SuperAdminChallengeResponse × AuthState
  unfolding assert_within_limit hash_sensitive_lookup find_super_admin_password admin_challenge
  create_super_admin_challenge email password request_ip s =
      let identity_hash = hash_sensitive_lookup a.mfa_services.hashes email in
      let ip_hash = hash_sensitive_lookup a.mfa_services.hashes request_ip in
      then_call
        (on_redis
          (assert_within_limit (key_for "admin-login:identity:" identity_hash) 5 900
            draws.fresh.now)
          s)
        (λ _ s.
          then_call
            (on_redis
              (assert_within_limit (key_for "admin-login:ip:" ip_hash) 20 900 draws.fresh.now) s)
            (λ _ s.
              let credential = find_super_admin_password email s in
              admin_challenge credential (a.verify_password (hash_or_dummy credential) password) s))

  unfoldable pub challenge_user : Option String → Result String
  challenge_user none = err authentication_failed
  challenge_user (some user_id) =
      if str_eq user_id "" then err authentication_failed else ok user_id

  unfoldable pub accepted_factor : Bool → Result (Unit {0})
  accepted_factor true = ok tt
  accepted_factor false = err authentication_failed

  -- `createSuperAdminSession` of the service
  unfoldable pub create_admin_session :
      (challenge_id verification_code : String)
      → AuthState
      → Result AuthenticationTokensResponse × AuthState
  unfolding get_text challenge_user assert_within_limit consume_super_admin_mfa accepted_factor
      delete create_super_admin_session admin_tokens
  create_admin_session challenge_id verification_code s =
      then_call
        (challenge_user (get_text (key_for "admin-mfa:" challenge_id) draws.fresh.now s.redis), s)
        (λ user_id s.
          then_call
            (on_redis
              (assert_within_limit (key_for "admin-mfa-attempt:" challenge_id) 5 300
                draws.fresh.now)
              s)
            (λ _ s.
              then_call
                (on_mfa
                  (consume_super_admin_mfa a.mfa_services draws.fresh.now user_id verification_code)
                  s)
                (λ valid s.
                  then_call (accepted_factor valid, s)
                    (λ _ s.
                      then_call
                        (on_store
                          (create_super_admin_session a.mfa_services.hashes draws.fresh user_id)
                          (record s { redis = delete (key_for "admin-mfa:" challenge_id) s.redis }))
                        (λ session s. (admin_tokens session, s))))))

  -- The tests of `refreshSuperAdminSession` before the rotation
  unfoldable pub admin_context :
      Option (String × AuthenticationClientType)
      → (refresh_token csrf_token : String) → Result (Unit {0})
  unfolding hash_csrf is_equal
  admin_context none refresh_token csrf_token = err authentication_failed
  admin_context (some (session_id, client)) refresh_token csrf_token =
      if is_client client super_admin_web
        && is_equal a.mfa_services.hashes (hash_csrf a.mfa_services.hashes session_id refresh_token)
            csrf_token
      then ok tt
      else err authentication_failed

  unfoldable pub admin_session : SessionResult → Result AuthenticationTokensResponse
  unfolding admin_tokens
  admin_session session =
      if is_client session.client_type super_admin_web
      then admin_tokens session
      else err authentication_failed

  -- `refreshSuperAdminSession`
  unfoldable pub refresh_super_admin_session :
      (refresh_token csrf_token : String)
      → AuthState
      → Result AuthenticationTokensResponse × AuthState
  unfolding admin_context get_refresh_token_context rotate_refresh_token admin_session
  refresh_super_admin_session refresh_token csrf_token s =
      then_call
        (
          admin_context (get_refresh_token_context a.mfa_services.hashes refresh_token s.store)
              refresh_token csrf_token,
          s,
        )
        (λ _ s.
          then_call
            (on_store (rotate_refresh_token a.mfa_services.hashes draws.fresh refresh_token) s)
            (λ session s. (admin_session session, s)))
