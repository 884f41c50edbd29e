-- ===== src/Auth/Otp.antt =====
-- src/auth/authentication.repository.ts: OTP challenges.
pub mod Outcomes
pub mod Effects
pub mod Attempts
pub mod Once
pub mod Mistakes
pub mod Acceptance
use public_parks.Prelude.{
  ℕ, ◌+◌, String, Bool, true, ◌&&◌, Option, none, some, ◌∷◌, str_eq, ltb, leb, if◌then◌else◌,
  get_or, any, opt_str_eq,
}
use public_parks.Errors.{Exception, authentication_failed}
use public_parks.Database.{
  Result, ok, err, Tx, ◌>>=◌, ◌>>◌, pure, raise, select, update, commit, insert_unless,
  in_transaction, find?, update_where,
}
use public_parks.Auth.Tables.{
  resident_mobile, OtpChallengeStatus, pending, consumed, invalidated, delivery_failed,
  OtpChallenge, User, AuthStore, is_pending, SessionResult, Fresh,
}
use public_parks.Auth.Digests.{SecretHash, hash_otp, is_equal}
use public_parks.Auth.Sessions.{guard, or_throw, insert_session}

abbrev pub challenge_has_id : String → OtpChallenge → Bool
challenge_has_id id c = str_eq c.id id

abbrev pub pending_for : String → OtpChallenge → Bool
pending_for phone_number c = str_eq c.phone_number phone_number && is_pending c.challenge_status

abbrev pub set_challenges :
    (OtpChallenge → Bool) → (OtpChallenge → OtpChallenge) → AuthStore → AuthStore
set_challenges p f s = record s { otp_challenges = update_where p f s.otp_challenges }

abbrev pub invalidated_challenge : ℕ → OtpChallenge → OtpChallenge
invalidated_challenge now c = record c { challenge_status = invalidated; invalidated_at = some now }

-- The input of `createOtpChallenge`.
pub record NewChallenge : Type 0 where
  pub challenge_id : String
  pub phone_number : String
  pub code_digest : String
  pub expires_at : ℕ

abbrev pub new_challenge : NewChallenge → OtpChallenge
new_challenge input = record {
  id = input.challenge_id;
  phone_number = input.phone_number;
  code_digest = input.code_digest;
  challenge_status = pending;
  attempt_count = 0;
  expires_at = input.expires_at;
  consumed_at = none;
  invalidated_at = none;
}

-- `createOtpChallenge`
unfoldable pub create_otp_challenge : NewChallenge → ℕ → AuthStore → Result (Unit {0}) × AuthStore
create_otp_challenge input now = in_transaction do
  update (set_challenges (pending_for input.phone_number) (invalidated_challenge now))
  insert_unless (λ s. any (challenge_has_id input.challenge_id) s.otp_challenges)
      (λ s. record s { otp_challenges = new_challenge input ∷ s.otp_challenges })
  commit

-- `markOtpDeliveryFailed`
unfoldable pub mark_otp_delivery_failed : String → AuthStore → AuthStore
mark_otp_delivery_failed id =
    set_challenges (λ c. challenge_has_id id c && is_pending c.challenge_status)
      (λ c. record c { challenge_status = delivery_failed })

-- The update after a wrong code: the fifth invalidates the challenge.
abbrev pub wrong_attempt : ℕ → OtpChallenge → OtpChallenge
wrong_attempt now c = record c {
  attempt_count = c.attempt_count + 1;
  challenge_status = if leb 5 (c.attempt_count + 1) then invalidated else c.challenge_status;
  invalidated_at = if leb 5 (c.attempt_count + 1) then some now else c.invalidated_at;
}

abbrev pub consumed_challenge : ℕ → OtpChallenge → OtpChallenge
consumed_challenge now c = record c { challenge_status = consumed; consumed_at = some now }

-- Pending, unexpired and with attempts left.
abbrev pub is_open : ℕ → OtpChallenge → Bool
is_open now c = is_pending c.challenge_status && (ltb now c.expires_at && ltb c.attempt_count 5)

abbrev pub has_phone : String → User → Bool
has_phone phone_number u = opt_str_eq u.phone_number (some phone_number)

abbrev pub verified : ℕ → User → User
verified now u = record u {
  phone_number_verified_at = some (get_or u.phone_number_verified_at now);
}

abbrev pub new_user : Fresh → String → User
new_user fresh phone_number = record {
  id = fresh.user_uuid;
  phone_number = some phone_number;
  email = none;
  phone_number_verified_at = some fresh.now;
  email_verified_at = none;
  is_active = true;
}

-- `INSERT INTO users … ON CONFLICT (phone_number) DO UPDATE … RETURNING id, is_active`
unfoldable pub upsert_user : Fresh → String → Tx AuthStore User
upsert_user fresh phone_number = do
  existing ← select (λ s. find? (has_phone phone_number) s.users)
  elim existing [
    | some u ↦ (do
      update (λ s. record s {
        users = update_where (has_phone phone_number) (verified fresh.now) s.users;
      })
      pure (verified fresh.now u))
    | none ↦ (do
      insert_unless (λ s. any (λ u. str_eq u.id fresh.user_uuid) s.users)
          (λ s. record s { users = new_user fresh phone_number ∷ s.users })
      pure (new_user fresh phone_number))
  ]

-- The input of `consumeOtpChallenge`.
pub record PresentedCode : Type 0 where
  pub challenge_id : String
  pub otp_code : String
  pub device_name : Option String

module _ (h : SecretHash) (fresh : Fresh) (input : PresentedCode) where
  -- The code's digest is the stored one.
  unfoldable pub matches : OtpChallenge → Bool
  matches c = is_equal h c.code_digest (hash_otp h input.challenge_id c.phone_number input.otp_code)

  wrong_body : Tx AuthStore SessionResult
  wrong_body = do
    update (set_challenges (challenge_has_id input.challenge_id) (wrong_attempt fresh.now))
    commit
    raise authentication_failed

  unfoldable pub accept_body : OtpChallenge → Tx AuthStore SessionResult
  unfolding upsert_user
  accept_body challenge = do
    update (set_challenges (challenge_has_id input.challenge_id) (consumed_challenge fresh.now))
    user ← upsert_user fresh challenge.phone_number
    guard user.is_active authentication_failed
    session ← insert_session h fresh user.id resident_mobile input.device_name
    commit
    pure session

  -- `consumeOtpChallenge`
  unfoldable pub consume_otp_challenge : AuthStore → Result SessionResult × AuthStore
  unfolding wrong_body
  consume_otp_challenge = in_transaction do
    found ← select (λ s. find? (challenge_has_id input.challenge_id) s.otp_challenges)
    challenge ← or_throw authentication_failed found
    guard (is_open fresh.now challenge) authentication_failed
    if matches challenge then accept_body challenge else wrong_body
