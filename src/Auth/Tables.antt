-- ===== src/Auth/Tables.antt =====
-- The tables of src/database/drizzle.schema.ts that src/auth/authentication.repository.ts reads and
-- writes. Uuids are their texts; times are milliseconds; `created_at` and `updated_at`, which no
-- statement of the repository reads, are left out.
use public_parks.Prelude.{ℕ, String, Bool, true, false, Option, List}

pub data AuthenticationClientType : Type 0 where
  resident_mobile super_admin_web city_admin_web gate_worker_mobile : AuthenticationClientType

pub data AuthenticationSessionStatus : Type 0 where
  active revoked : AuthenticationSessionStatus

pub data RefreshTokenStatus : Type 0 where
  active rotated revoked : RefreshTokenStatus

pub data OtpChallengeStatus : Type 0 where
  pending consumed invalidated delivery_failed : OtpChallengeStatus

pub record OtpChallenge : Type 0 where
  pub id : String
  pub phone_number : String
  pub code_digest : String
  pub challenge_status : OtpChallengeStatus
  pub attempt_count : ℕ
  pub expires_at : ℕ
  pub consumed_at : Option ℕ
  pub invalidated_at : Option ℕ

pub record User : Type 0 where
  pub id : String
  pub phone_number : Option String
  pub email : Option String
  pub phone_number_verified_at : Option ℕ
  pub email_verified_at : Option ℕ
  pub is_active : Bool

pub record AuthenticationSession : Type 0 where
  pub id : String
  pub user_id : String
  pub client_type : AuthenticationClientType
  pub session_status : AuthenticationSessionStatus
  pub device_name : Option String
  pub expires_at : ℕ
  pub revoked_at : Option ℕ

pub record RefreshToken : Type 0 where
  pub id : String
  pub authentication_session_id : String
  pub token_hash : String
  pub refresh_token_status : RefreshTokenStatus
  pub expires_at : ℕ
  pub rotated_at : Option ℕ

pub record AuthStore : Type 0 where
  pub otp_challenges : List OtpChallenge
  pub users : List User
  pub sessions : List AuthenticationSession
  pub refresh_tokens : List RefreshToken

abbrev pub is_pending : OtpChallengeStatus → Bool
is_pending pending = true
is_pending _ = false

abbrev pub is_active_session : AuthenticationSessionStatus → Bool
is_active_session AuthenticationSessionStatus.active = true
is_active_session AuthenticationSessionStatus.revoked = false

abbrev pub is_active_token : RefreshTokenStatus → Bool
is_active_token RefreshTokenStatus.active = true
is_active_token _ = false

-- `SessionResult`
pub record SessionResult : Type 0 where
  pub user_id : String
  pub session_id : String
  pub client_type : AuthenticationClientType
  pub refresh_token : String
  pub refresh_token_expires_at : ℕ

-- What the clock and the random sources give a call: the time, the uuids of the rows that it may
-- insert, and a refresh token.
pub record Fresh : Type 0 where
  pub now : ℕ
  pub user_uuid : String
  pub session_uuid : String
  pub token_uuid : String
  pub refresh_token : String
