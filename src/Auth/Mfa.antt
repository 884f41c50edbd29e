-- ===== src/Auth/Mfa.antt =====
-- src/auth/authentication.repository.ts: `consumeSuperAdminMfa`, over the tables `totp_factors` and
-- `totp_recovery_codes` of src/database/drizzle.schema.ts. The check of a TOTP token is the otplib
-- library's: a parameter.
pub mod Effects
pub mod Standing
pub mod Replay
pub mod Acceptance
mod Tokens
unfoldable pub use Tokens.{is_totp_token}
use public_parks.Prelude.{
  ℕ, ◌+◌, ◌-◌, ◌/◌, String, Bool, true, false, ◌&&◌, Option, none, some, List, [], ◌∷◌, str_eq, ltb,
  if◌then◌else◌, is_none, any, template,
}
use public_parks.Errors.{Exception, other}
use public_parks.Database.{
  Result, ok, err, Tx, ◌>>=◌, ◌>>◌, pure, raise, select, update, commit, in_transaction, find?,
  update_where,
}
use public_parks.Sms.Types.{EncryptedFieldPayload, FieldEncryption}
use public_parks.Auth.Digests.{SecretHash, hash_token}
use public_parks.Auth.Sessions.{or_throw}

pub record TotpFactor : Type 0 where
  pub id : String
  pub user_id : String
  pub encrypted_secret : EncryptedFieldPayload
  pub last_accepted_time_step : Option ℕ

pub record RecoveryCode : Type 0 where
  pub totp_factor_id : String
  pub code_hash : String
  pub used_at : Option ℕ

pub record MfaStore : Type 0 where
  pub totp_factors : List TotpFactor
  pub recovery_codes : List RecoveryCode

-- The answer of `verify`: not valid, or valid with the time steps between the token's step and the
-- current one (`none` if the library gives no `delta`). Steps count from 1970, so that a token of a
-- negative step cannot occur.
pub data Delta : Type 0 where
  behind ahead : ℕ → Delta

pub data TotpCheck : Type 0 where
  invalid_token : TotpCheck
  valid_token : Option Delta → TotpCheck

-- What the call uses of other services; `verify_totp` is `none` where the library throws.
pub record MfaServices : Type 0 where
  pub hashes : SecretHash
  pub encryption : FieldEncryption String
  pub verify_totp : (secret token : String) → (now : ℕ) → Option TotpCheck

abbrev pub factor_of : String → TotpFactor → Bool
factor_of user_id f = str_eq f.user_id user_id

abbrev pub factor_has_id : String → TotpFactor → Bool
factor_has_id id f = str_eq f.id id

-- `Math.floor(Date.now() / 1000 / 30) + (result.delta ?? 0)`
abbrev pub time_step : ℕ → Option Delta → ℕ
time_step now none = now / 30000
time_step now (some (behind n)) = now / 30000 - n
time_step now (some (ahead n)) = now / 30000 + n

-- `last_accepted_time_step === null || timeStep > last_accepted_time_step`
abbrev pub is_later : ℕ → Option ℕ → Bool
is_later step none = true
is_later step (some last) = ltb last step

abbrev pub stepped : ℕ → TotpFactor → TotpFactor
stepped step f = record f { last_accepted_time_step = some step }

abbrev pub set_factors : (TotpFactor → Bool) → (TotpFactor → TotpFactor) → MfaStore → MfaStore
set_factors p f s = record s { totp_factors = update_where p f s.totp_factors }

-- The unused code of a factor with a hash.
abbrev pub is_unused : String → String → RecoveryCode → Bool
is_unused factor_id hash r =
    str_eq r.totp_factor_id factor_id && (str_eq r.code_hash hash && is_none r.used_at)

abbrev pub used_code : ℕ → RecoveryCode → RecoveryCode
used_code now r = record r { used_at = some now }

abbrev totp_failure : Exception
totp_failure = other "TOTP verification failed"

module _ (services : MfaServices) (now : ℕ) where
  -- The step of a valid token for a factor, `none` if it is not valid; or what is thrown.
  unfoldable pub checked_step : TotpFactor → String → Result (Option ℕ)
  checked_step f token =
      step_of (
        services.encryption.decrypt_json f.encrypted_secret (template ("totp-factor:" ∷ f.id ∷ [])))
    where
      answer : Option TotpCheck → Result (Option ℕ)
      answer none = err totp_failure
      answer (some invalid_token) = ok none
      answer (some (valid_token delta)) = ok (some (time_step now delta))

      step_of : Option String → Result (Option ℕ)
      step_of none = err totp_failure
      step_of (some secret) = answer (services.verify_totp secret token now)

  -- The branch of a six-digit token: the tables after it and whether it is accepted.
  unfoldable pub accept_step : TotpFactor → Result (Option ℕ) → MfaStore → Result Bool × MfaStore
  accept_step f (err e) s = (err e, s)
  accept_step f (ok none) s = (ok false, s)
  accept_step f (ok (some step)) s =
      if is_later step f.last_accepted_time_step
      then (ok true, set_factors (factor_has_id f.id) (stepped step) s)
      else (ok false, s)

  unfoldable pub recovery_hash : String → String
  recovery_hash verification_code =
      hash_token services.hashes (template ("recovery:" ∷ verification_code ∷ []))

  -- The branch of a recovery code; the index on factor and hash lets one row at most be updated.
  unfoldable pub accept_recovery : TotpFactor → String → MfaStore → Result Bool × MfaStore
  accept_recovery f verification_code s =
      let mine = is_unused f.id (recovery_hash verification_code) in
      if any mine s.recovery_codes
      then (
        ok true,
        record s { recovery_codes = update_where mine (used_code now) s.recovery_codes },
      )
      else (ok false, s)

  -- `consumeSuperAdminMfa`
  unfoldable pub consume_super_admin_mfa : String → String → MfaStore → Result Bool × MfaStore
  consume_super_admin_mfa user_id verification_code s =
      with_factor (find? (factor_of user_id) s.totp_factors)
    where
      with_factor : Option TotpFactor → Result Bool × MfaStore
      with_factor none = (ok false, s)
      with_factor (some f) =
          if is_totp_token verification_code
          then accept_step f (checked_step f verification_code) s
          else accept_recovery f verification_code s
