-- ===== src/Examples/Access.antt =====
-- A session of src/auth/authentication.repository.ts whose refresh token is rotated and presented
-- again.
use public_parks.Prelude.{
  arith, ◌<◌, ℕ, ◌≡◌, refl, true, false, none, some, [], ◌∷◌, str_eq, if◌then◌else◌,
}
use public_parks.Errors.{authentication_failed}
use public_parks.Database.{ok, err}
use public_parks.Auth.Tables.{
  resident_mobile, AuthenticationSessionStatus, RefreshTokenStatus, User, AuthenticationSession,
  RefreshToken, AuthStore, Fresh, SessionResult,
}
use public_parks.Auth.Digests.{SecretHash, hash_token}
use public_parks.Auth.Sessions.Revocation.{revoke_session-ends}
use public_parks.Auth.Sessions.{
  revoke_session, TokenRow, token_row, is_spent, is_live, rotate_refresh_token,
}
use public_parks.Auth.Sessions.Rotation.{rotation_result}
use public_parks.Auth.Sessions.Reuse.{
  IsRevoked, rotate_refresh_token-reuse, rotate_refresh_token-twice,
}
use public_parks.Auth.Sessions.Renewal.{IsRenewed, is_new, rotate_refresh_token-renews}

-- A hash that leaves its text as it is.
abbrev pub hashing : SecretHash
hashing = record {
  hmac = λ key value. value;
  from_hex = λ digest. if str_eq digest "c1:+251911:4242" then 1 ∷ [] else 0 ∷ [];
  otp_hash_key = "otp";
  token_hash_key = "token";
  csrf_key = "csrf";
}

abbrev pub resident : User
resident = record {
  id = "u1";
  phone_number = some "+251911";
  email = none;
  phone_number_verified_at = some 10;
  email_verified_at = none;
  is_active = true;
}

abbrev pub session : AuthenticationSession
session = record {
  id = "s1";
  user_id = "u1";
  client_type = resident_mobile;
  session_status = AuthenticationSessionStatus.active;
  device_name = none;
  expires_at = 1000;
  revoked_at = none;
}

abbrev pub first_token : RefreshTokenStatus → RefreshToken
first_token status = record {
  id = "t1";
  authentication_session_id = "s1";
  token_hash = "secret";
  refresh_token_status = status;
  expires_at = 1000;
  rotated_at = none;
}

abbrev signed_in : RefreshTokenStatus → AuthStore
signed_in status = record {
  otp_challenges = [];
  users = resident ∷ [];
  sessions = session ∷ [];
  refresh_tokens = first_token status ∷ [];
}

abbrev row_of : RefreshTokenStatus → TokenRow
row_of status = record { token = first_token status; session = session; user = resident }

abbrev at_time : ℕ → Fresh
at_time now = record {
  now = now;
  user_uuid = "u2";
  session_uuid = "s2";
  token_uuid = "t2";
  refresh_token = "next";
}

abbrev rotated_once : AuthStore
rotated_once =
    (rotate_refresh_token hashing (at_time 500) "secret" (signed_in RefreshTokenStatus.active)).1

first_rotation :
    rotate_refresh_token hashing (at_time 500) "secret" (signed_in RefreshTokenStatus.active)
    ≡ (ok (rotation_result (at_time 500) (row_of RefreshTokenStatus.active)), rotated_once)
unfolding rotate_refresh_token token_row hash_token
first_rotation = refl

rotate_refresh_token-twice_example :
    ((row : TokenRow) × (token_row hashing "secret" (signed_in RefreshTokenStatus.active)
        ≡ some row)
      × (is_spent 500 row ≡ false)
      × (is_live 500 row ≡ true)
      × (rotation_result (at_time 500) (row_of RefreshTokenStatus.active)
          ≡ rotation_result (at_time 500) row))
    × ((rotate_refresh_token hashing (at_time 600) "secret" rotated_once).0
        ≡ err authentication_failed)
    × IsRevoked "s1" (rotate_refresh_token hashing (at_time 600) "secret" rotated_once).1
rotate_refresh_token-twice_example =
    rotate_refresh_token-twice hashing (at_time 500) (at_time 600) "secret"
      (signed_in RefreshTokenStatus.active) rotated_once
      (rotation_result (at_time 500) (row_of RefreshTokenStatus.active)) first_rotation

found_row :
    (status : RefreshTokenStatus)
    → token_row hashing "secret" (signed_in status) ≡ some (row_of status)
unfolding token_row hash_token
found_row status = refl

rotate_refresh_token-reuse_example :
    ((rotate_refresh_token hashing (at_time 500) "secret" (signed_in RefreshTokenStatus.rotated)).0
      ≡ err authentication_failed)
    × IsRevoked "s1"
        (rotate_refresh_token hashing
          (at_time 500)
          "secret"
          (signed_in RefreshTokenStatus.rotated)).1
rotate_refresh_token-reuse_example =
    rotate_refresh_token-reuse hashing (at_time 500) "secret" (signed_in RefreshTokenStatus.rotated)
      (row_of RefreshTokenStatus.rotated) (found_row RefreshTokenStatus.rotated) refl

token_is_new : is_new hashing (at_time 500) (signed_in RefreshTokenStatus.active) ≡ true
unfolding hash_token
token_is_new = refl

rotate_refresh_token-renews_example :
    (result : SessionResult) × (s' : AuthStore) × (rotate_refresh_token hashing
        (at_time 500)
        "secret"
        (signed_in RefreshTokenStatus.active)
      ≡ (ok result, s'))
    × (result.user_id ≡ "u1")
    × (result.session_id ≡ "s1")
    × (result.client_type ≡ resident_mobile)
    × (result.refresh_token ≡ "next")
    × ((old : TokenRow) × (token_row hashing "secret" s' ≡ some old)
        × (old.token.refresh_token_status ≡ RefreshTokenStatus.rotated)
        × (old.token.rotated_at ≡ some 500))
    × IsRenewed hashing result.refresh_token (row_of RefreshTokenStatus.active) 2592000500 s'
    × ((later : Fresh)
        → later.now < 2592000500
        → later.now < 1000
        → is_new hashing later s' ≡ true
        → (again : SessionResult) × ((rotate_refresh_token hashing later result.refresh_token s').0
            ≡ ok again)
          × (again.session_id ≡ "s1")
          × (again.refresh_token ≡ later.refresh_token))
rotate_refresh_token-renews_example =
    rotate_refresh_token-renews hashing (at_time 500) "secret" (signed_in RefreshTokenStatus.active)
      (row_of RefreshTokenStatus.active) (found_row RefreshTokenStatus.active) refl (omega arith)
      refl (omega arith) refl token_is_new

abbrev left : AuthStore
left = (revoke_session "s1" "u1" 400 (signed_in RefreshTokenStatus.active)).1

sign_out : revoke_session "s1" "u1" 400 (signed_in RefreshTokenStatus.active) ≡ (true, left)
unfolding revoke_session
sign_out = refl

abbrev left_row : TokenRow
left_row = record {
  token = first_token RefreshTokenStatus.revoked;
  session = record session {
    session_status = AuthenticationSessionStatus.revoked;
    revoked_at = some 400;
  };
  user = resident;
}

left_found : token_row hashing "secret" left ≡ some left_row
unfolding token_row hash_token revoke_session
left_found = refl

revoke_session-ends_example :
    (rotate_refresh_token hashing (at_time 500) "secret" left).0 ≡ err authentication_failed
revoke_session-ends_example =
    revoke_session-ends hashing (at_time 500) "s1" "u1" "secret" 400
      (signed_in RefreshTokenStatus.active) left left_row sign_out left_found refl
