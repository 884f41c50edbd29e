-- ===== src/Auth/Otp/Acceptance.antt =====
-- `consumeOtpChallenge` of src/auth/authentication.repository.ts when the right code is presented.
use public_parks.Prelude.{
  ◌<◌, ℕ, ◌+◌, String, ◌≡◌, refl, ◌∙◌, true, false, none, some, List, ◌∷◌, arith, str_eq, eq_refl,
  any, opt_eq_iff, get_or,
}
use public_parks.Errors.{authentication_failed}
use public_parks.Database.{ok, err, find?, update_where, find?-update_where, find?-sound}
use public_parks.Auth.Tables.{
  resident_mobile, AuthenticationSessionStatus, RefreshTokenStatus, pending, consumed, AuthStore,
  OtpChallenge, User, Fresh, SessionResult,
}
use public_parks.Auth.Digests.{SecretHash, hash_token}
use public_parks.Auth.Sessions.{
  session_has_id, refresh_token_lifetime_ms, TokenRow, token_row, new_token, new_session,
}
use public_parks.Auth.Sessions.Renewal.{is_new}
use public_parks.Auth.Otp.{
  challenge_has_id, is_open, PresentedCode, matches, has_phone, consume_otp_challenge, accept_body,
  upsert_user, consumed_challenge, verified, new_user,
}

-- What the tables and the result hold once a resident is signed in: the challenge is consumed, and
-- the returned refresh token is found active, for 30 days, with a new active session of the user
-- who has the phone number, is active and has it verified.
pub record IsSignedIn (h : SecretHash) (fresh : Fresh) (input : PresentedCode)
    (phone_number user_id : String) (result : SessionResult) (s : AuthStore) : Type 0 where
  pub challenge : OtpChallenge
  pub challenge_found :
      find? (challenge_has_id input.challenge_id) s.otp_challenges ≡ some challenge
  pub challenge_consumed : challenge.challenge_status ≡ consumed
  pub row : TokenRow
  pub found : token_row h result.refresh_token s ≡ some row
  pub token_status : row.token.refresh_token_status ≡ RefreshTokenStatus.active
  pub token_expires : row.token.expires_at ≡ fresh.now + 2592000000
  pub session_id : row.session.id ≡ result.session_id
  pub session_status : row.session.session_status ≡ AuthenticationSessionStatus.active
  pub session_client : row.session.client_type ≡ resident_mobile
  pub session_device : row.session.device_name ≡ input.device_name
  pub session_expires : row.session.expires_at ≡ fresh.now + 2592000000
  pub session_user : row.session.user_id ≡ user_id
  pub result_user : result.user_id ≡ user_id
  pub user_found : row.user.id ≡ user_id
  pub user_phone : row.user.phone_number ≡ some phone_number
  pub user_active : row.user.is_active ≡ true
  pub user_verified : (at : ℕ) × (row.user.phone_number_verified_at ≡ some at)

-- The session of a resident, as the call returns it.
abbrev pub resident_session : Fresh → String → SessionResult
resident_session fresh user_id = record {
  user_id = user_id;
  session_id = fresh.session_uuid;
  client_type = resident_mobile;
  refresh_token = fresh.refresh_token;
  refresh_token_expires_at = fresh.now + refresh_token_lifetime_ms;
}

module _ (h : SecretHash) (fresh : Fresh) (input : PresentedCode) (s : AuthStore) where
  -- The tables after a user has been signed in, with the users that there are then.
  abbrev after_sign_in : List User → String → AuthStore
  after_sign_in users user_id = record {
    otp_challenges =
        update_where (challenge_has_id input.challenge_id) (consumed_challenge fresh.now)
          s.otp_challenges;
    users = users;
    sessions = new_session h fresh user_id resident_mobile input.device_name ∷ s.sessions;
    refresh_tokens =
        new_token h fresh fresh.session_uuid (fresh.now + refresh_token_lifetime_ms)
        ∷ s.refresh_tokens;
  }

  session_row :
      (users : List User) (user : User)
      → find? (λ u. str_eq u.id user.id) users ≡ some user
      → token_row h fresh.refresh_token (after_sign_in users user.id)
        ≡ some (record {
          token = new_token h fresh fresh.session_uuid (fresh.now + 2592000000);
          session = new_session h fresh user.id resident_mobile input.device_name;
          user = user;
        })
  unfolding token_row
  session_row users user there =
      ground (arith, eq_refl (hash_token h fresh.refresh_token), eq_refl fresh.session_uuid, there)

  signed_in :
      (challenge : OtpChallenge) (users : List User) (user : User) (at : ℕ)
      → find? (challenge_has_id input.challenge_id) s.otp_challenges ≡ some challenge
      → find? (λ u. str_eq u.id user.id) users ≡ some user
      → user.phone_number ≡ some challenge.phone_number
      → user.is_active ≡ true
      → user.phone_number_verified_at ≡ some at
      → IsSignedIn h fresh input challenge.phone_number user.id
          (resident_session fresh user.id)
          (after_sign_in users user.id)
  signed_in challenge users user at found there phone active verified_at = record {
    challenge = consumed_challenge fresh.now challenge;
    challenge_found =
        find?-update_where (challenge_has_id input.challenge_id)
          (challenge_has_id input.challenge_id) (consumed_challenge fresh.now) (λ c. refl)
          s.otp_challenges
        ∙ (rw (found, find?-sound (challenge_has_id input.challenge_id) s.otp_challenges found)
            refl);
    challenge_consumed = refl;
    row = record {
      token = new_token h fresh fresh.session_uuid (fresh.now + 2592000000);
      session = new_session h fresh user.id resident_mobile input.device_name;
      user = user;
    };
    found = session_row users user there;
    token_status = refl;
    token_expires = refl;
    session_id = refl;
    session_status = refl;
    session_client = refl;
    session_device = refl;
    session_expires = refl;
    session_user = refl;
    result_user = refl;
    user_found = refl;
    user_phone = phone;
    user_active = active;
    user_verified = (at, verified_at);
  }

  module _ (challenge : OtpChallenge)
      (found : find? (challenge_has_id input.challenge_id) s.otp_challenges ≡ some challenge)
      (unlocked : is_open fresh.now challenge ≡ true)
      (right : matches h fresh input challenge ≡ true)
      (apart : any (session_has_id fresh.session_uuid) s.sessions ≡ false)
      (free : is_new h fresh s ≡ true) where
    known_user :
        (user : User)
        → find? (has_phone challenge.phone_number) s.users ≡ some user
        → user.is_active ≡ true
        → consume_otp_challenge h fresh input s ≡ (
          ok (resident_session fresh user.id),
          after_sign_in
              (update_where (has_phone challenge.phone_number) (verified fresh.now) s.users)
              user.id,
        )
    unfolding consume_otp_challenge accept_body upsert_user
    known_user user known fine = ground arith

    unknown_user :
        find? (has_phone challenge.phone_number) s.users ≡ none
        → any (λ u. str_eq u.id fresh.user_uuid) s.users ≡ false
        → consume_otp_challenge h fresh input s ≡ (
          ok (resident_session fresh fresh.user_uuid),
          after_sign_in (new_user fresh challenge.phone_number ∷ s.users) fresh.user_uuid,
        )
    unfolding consume_otp_challenge accept_body upsert_user
    unknown_user unknown vacant = ground arith

    locked_user :
        (user : User)
        → find? (has_phone challenge.phone_number) s.users ≡ some user
        → user.is_active ≡ false
        → consume_otp_challenge h fresh input s ≡ (err authentication_failed, s)
    unfolding consume_otp_challenge accept_body upsert_user
    locked_user user known locked = ground arith

-- For a challenge that is pending, unexpired and has attempts left, its right code, and new ids
-- for the session and its token: if there is an active user with the challenge's phone number, who
-- is also the one found by the user's id, the call returns a session of that user, and the tables
-- then hold it: the challenge is consumed, and the returned refresh token is found active with an
-- active session of 30 days and with the user, whose number is verified. If the user is not active,
-- the call throws and nothing changes. If there is no such user and the new user's id is new, the
-- same is done for a new active user.
pub consume_otp_challenge-accepts :
    (h : SecretHash) (fresh : Fresh) (input : PresentedCode) (s : AuthStore)
    (challenge : OtpChallenge)
    → find? (challenge_has_id input.challenge_id) s.otp_challenges ≡ some challenge
    → challenge.challenge_status ≡ pending
    → fresh.now < challenge.expires_at
    → challenge.attempt_count < 5
    → matches h fresh input challenge ≡ true
    → any (session_has_id fresh.session_uuid) s.sessions ≡ false
    → is_new h fresh s ≡ true
    → ((user : User)
        → find? (has_phone challenge.phone_number) s.users ≡ some user
        → find? (λ u. str_eq u.id user.id) s.users ≡ some user
        → (user.is_active ≡ true
            → (result : SessionResult) × (s' : AuthStore) × (consume_otp_challenge h fresh input s
                ≡ (ok result, s'))
              × IsSignedIn h fresh input challenge.phone_number user.id result s')
          × (user.is_active ≡ false
              → consume_otp_challenge h fresh input s ≡ (err authentication_failed, s)))
      × (find? (has_phone challenge.phone_number) s.users ≡ none
          → any (λ u. str_eq u.id fresh.user_uuid) s.users ≡ false
          → (result : SessionResult) × (s' : AuthStore) × (consume_otp_challenge h fresh input s
              ≡ (ok result, s'))
            × IsSignedIn h fresh input challenge.phone_number fresh.user_uuid result s')
consume_otp_challenge-accepts h fresh input s challenge found waiting early few right apart free =
    let unlocked : is_open fresh.now challenge ≡ true = ground arith in
    (
      λ user known own. (
        λ fine. (
          resident_session fresh user.id,
          _,
          known_user h fresh input s challenge found unlocked right apart free user known fine,
          signed_in h fresh input s challenge
              (update_where (has_phone challenge.phone_number) (verified fresh.now) s.users)
              (verified fresh.now user) (get_or user.phone_number_verified_at fresh.now) found
              (find?-update_where (λ u. str_eq u.id user.id) (has_phone challenge.phone_number)
                  (verified fresh.now) (λ u. refl) s.users
                ∙ (rw (own, find?-sound (has_phone challenge.phone_number) s.users known) refl))
              ((opt_eq_iff user.phone_number (some challenge.phone_number)).0
                (find?-sound (has_phone challenge.phone_number) s.users {r = user} known))
              fine refl,
        ),
        locked_user h fresh input s challenge found unlocked right apart free user known,
      ),
      λ unknown vacant. (
        resident_session fresh fresh.user_uuid,
        _,
        unknown_user h fresh input s challenge found unlocked right apart free unknown vacant,
        signed_in h fresh input s challenge (new_user fresh challenge.phone_number ∷ s.users)
            (new_user fresh challenge.phone_number) fresh.now found
            (ground (arith, eq_refl fresh.user_uuid)) refl refl refl,
      ),
    )
