-- ===== src/Auth/Otp/Outcomes.antt =====
-- What a call of `consumeOtpChallenge` of src/auth/authentication.repository.ts does to the
-- challenges, on each of its branches.
use public_parks.Prelude.{
  String, ◌≡◌, refl, inl, inr, true, false, Option, some, List, arith, Bool-cases, Option-cases,
}
use public_parks.Errors.{authentication_failed}
use public_parks.Database.{Result, ok, err, Connection, Tx, continue, finish, find?, update_where}
use public_parks.Auth.Tables.{
  AuthenticationClientType, resident_mobile, OtpChallenge, AuthStore, Fresh,
}
use public_parks.Auth.Digests.{SecretHash}
use public_parks.Auth.Sessions.{insert_session}
use public_parks.Auth.Otp.{
  challenge_has_id, wrong_attempt, consumed_challenge, is_open, upsert_user, PresentedCode, matches,
  accept_body, consume_otp_challenge, set_challenges,
}

module _ (s : AuthStore) (rows : List OtpChallenge) where
  -- Within the transaction: nothing is stored, and the challenges are `rows`.
  abbrev Open : Connection AuthStore → Type 0
  Open c = (c.stored ≡ s) × (c.working.otp_challenges ≡ rows)

  abbrev Mid {ℓ} : {A : Type ℓ} → Result A × Connection AuthStore → Type 0
  Mid (ok a, c) = Open c
  Mid (err e, c) = c.stored ≡ s

  -- After it: an exception has stored nothing, a result the challenges `rows`.
  abbrev pub Done {ℓ} : {A : Type ℓ} → Result A × AuthStore → Type 0
  Done (ok a, s') = s'.otp_challenges ≡ rows
  Done (err e, s') = s' ≡ s

  continue-Mid :
      {A B : Type 0} (out : Result A × Connection AuthStore) (f : A → Tx AuthStore B)
      → Mid out
      → ((a : A) (c : Connection AuthStore) → Open c → Mid (f a c))
      → Mid (continue out f)
  continue-Mid (ok a, c) f m k = k a c m
  continue-Mid (err e, c) f m k = m

  continue-Done :
      {A B : Type 0} (out : Result A × Connection AuthStore) (f : A → Tx AuthStore B)
      → Mid out
      → ((a : A) (c : Connection AuthStore) → Open c → Done (finish (f a c)))
      → Done (finish (continue out f))
  continue-Done (ok a, c) f m k = k a c m
  continue-Done (err e, c) f m k = m

  upsert_user-Mid :
      (fresh : Fresh) (phone_number : String) (c : Connection AuthStore)
      → Open c
      → Mid (upsert_user fresh phone_number c)
  unfolding upsert_user
  upsert_user-Mid fresh phone_number c o = ground arith

  insert_session-Mid :
      (h : SecretHash) (fresh : Fresh) (user_id : String) (client_type : AuthenticationClientType)
      (device_name : Option String) (c : Connection AuthStore)
      → Open c
      → Mid (insert_session h fresh user_id client_type device_name c)
  insert_session-Mid h fresh user_id client_type device_name c o = ground arith

module _ (h : SecretHash) (fresh : Fresh) (input : PresentedCode) (s : AuthStore) where
  abbrev pub consumed_rows : List OtpChallenge
  consumed_rows =
      update_where (challenge_has_id input.challenge_id) (consumed_challenge fresh.now)
        s.otp_challenges

  accept_body-Done :
      (challenge : OtpChallenge)
      → Done s consumed_rows
          (finish (accept_body h fresh input challenge (record { stored = s; working = s })))
  unfolding accept_body
  accept_body-Done challenge =
      continue-Done s consumed_rows
        (upsert_user fresh challenge.phone_number (record {
          stored = s;
          working =
              set_challenges (challenge_has_id input.challenge_id) (consumed_challenge fresh.now) s;
        }))
        _
        (upsert_user-Mid s consumed_rows fresh challenge.phone_number
          (record {
            stored = s;
            working =
                set_challenges (challenge_has_id input.challenge_id) (consumed_challenge fresh.now)
                  s;
          })
          (refl, refl))
        λ user c o. elim (Bool-cases user.is_active) [
          | inr locked ↦ rw locked o.0
          | inl fine ↦ rw fine (
              continue-Done s consumed_rows
                (insert_session h fresh user.id resident_mobile input.device_name c) _
                (insert_session-Mid s consumed_rows h fresh user.id resident_mobile
                  input.device_name c o)
                (λ session c' o'. o'.1))
        ]

  -- No such challenge, or one that is not open.
  pub consume-refused :
      ((challenge : OtpChallenge)
        → find? (challenge_has_id input.challenge_id) s.otp_challenges ≡ some challenge
        → is_open fresh.now challenge ≡ false)
      → consume_otp_challenge h fresh input s ≡ (err authentication_failed, s)
  unfolding consume_otp_challenge
  consume-refused closed =
      elim (Option-cases (find? (challenge_has_id input.challenge_id) s.otp_challenges)) [
        | inl missing ↦ ground arith
        | inr (challenge, found) ↦ ground (arith, closed challenge found)
      ]

  module _ (challenge : OtpChallenge)
      (found : find? (challenge_has_id input.challenge_id) s.otp_challenges ≡ some challenge)
      (unlocked : is_open fresh.now challenge ≡ true) where
    pub consume-wrong :
        matches h fresh input challenge ≡ false
        → consume_otp_challenge h fresh input s ≡ (
          err authentication_failed,
          set_challenges (challenge_has_id input.challenge_id) (wrong_attempt fresh.now) s,
        )
    unfolding consume_otp_challenge
    consume-wrong wrong = ground arith

    pub consume-right :
        matches h fresh input challenge ≡ true
        → Done s consumed_rows (consume_otp_challenge h fresh input s)
    consume-right right = rw runs (accept_body-Done challenge)
      where
        runs :
            consume_otp_challenge h fresh input s
            ≡ finish (accept_body h fresh input challenge (record { stored = s; working = s }))
        runs = unfold consume_otp_challenge in ground arith
