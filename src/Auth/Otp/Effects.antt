-- ===== src/Auth/Otp/Effects.antt =====
-- The calls of `createOtpChallenge`, `markOtpDeliveryFailed` and `consumeOtpChallenge` of
-- src/auth/authentication.repository.ts as steps of the table of challenges.
use public_parks.Prelude.{
  ℕ, String, ◌≡◌, subst, inl, inr, true, false, ◌&&◌, some, List, [], ◌∷◌, Bool-cases, Option-cases,
  any,
}
use public_parks.Database.{Result, ok, err, find?, update_where}
use public_parks.Auth.Tables.{
  delivery_failed, OtpChallenge, AuthStore, is_pending, SessionResult, Fresh,
}
use public_parks.Auth.Digests.{SecretHash}
use public_parks.Auth.Otp.{
  challenge_has_id, pending_for, invalidated_challenge, NewChallenge, new_challenge,
  create_otp_challenge, mark_otp_delivery_failed, wrong_attempt, consumed_challenge, is_open,
  PresentedCode, matches, consume_otp_challenge,
}
use public_parks.Auth.Otp.Outcomes.{Done, consume-refused, consume-wrong, consume-right}

-- A call of one of the three methods.
pub data OtpRequest : Type 0 where
  create_challenge : NewChallenge → ℕ → OtpRequest
  fail_delivery : String → OtpRequest
  consume_challenge : Fresh → PresentedCode → OtpRequest

-- The challenges that a call leaves.
pub data Effect (rows : List OtpChallenge) : List OtpChallenge → Type 0 where
  unchanged : Effect rows rows
  created :
      (input : NewChallenge) (now : ℕ)
      → any
          (challenge_has_id input.challenge_id)
          (update_where (pending_for input.phone_number) (invalidated_challenge now) rows)
        ≡ false
      → Effect rows (
          new_challenge input
          ∷ update_where (pending_for input.phone_number) (invalidated_challenge now) rows)
  undelivered :
      (id : String)
      → Effect rows (
          update_where
            (λ c. challenge_has_id id c && is_pending c.challenge_status)
            (λ c. record c { challenge_status = delivery_failed })
            rows)
  attempted :
      (id : String) (now : ℕ) (c : OtpChallenge)
      → find? (challenge_has_id id) rows ≡ some c
      → is_open now c ≡ true
      → Effect rows (update_where (challenge_has_id id) (wrong_attempt now) rows)
  accepted :
      (id : String) (now : ℕ)
      → Effect rows (update_where (challenge_has_id id) (consumed_challenge now) rows)

module _ (h : SecretHash) where
  -- What a call leaves of the store, whether it returns or throws.
  unfoldable pub perform_otp : OtpRequest → AuthStore → AuthStore
  unfolding create_otp_challenge mark_otp_delivery_failed consume_otp_challenge
  perform_otp (create_challenge input now) s = (create_otp_challenge input now s).1
  perform_otp (fail_delivery id) s = mark_otp_delivery_failed id s
  perform_otp (consume_challenge fresh input) s = (consume_otp_challenge h fresh input s).1

  unfoldable pub run_otp : List OtpRequest → AuthStore → AuthStore
  unfolding perform_otp
  run_otp [] s = s
  run_otp (r ∷ rs) s = run_otp rs (perform_otp r s)

  Done-Effect :
      (id : String) (now : ℕ) (s : AuthStore) (out : Result SessionResult × AuthStore)
      → Done s (update_where (challenge_has_id id) (consumed_challenge now) s.otp_challenges) out
      → Effect s.otp_challenges out.1.otp_challenges
  Done-Effect id now s (ok session, s') done = rw done (accepted id now)
  Done-Effect id now s (err e, s') done = rw done unchanged

  consume-Effect :
      (fresh : Fresh) (input : PresentedCode) (s : AuthStore)
      → Effect s.otp_challenges (consume_otp_challenge h fresh input s).1.otp_challenges
  consume-Effect fresh input s =
      elim (Option-cases (find? (challenge_has_id input.challenge_id) s.otp_challenges)) [
        | inl missing ↦
            rw (consume-refused h fresh input s (λ c found. absurd (cc (missing, found)))) unchanged
        | inr (c, found) ↦ elim (Bool-cases (is_open fresh.now c)) [
          | inr closed ↦
              rw
                (consume-refused h fresh input s (λ d seen.
                  let same : c ≡ d = cc (found, seen) in
                  subst (λ x. is_open fresh.now x ≡ false) same closed))
                unchanged
          | inl unlocked ↦ elim (Bool-cases (matches h fresh input c)) [
            | inr wrong ↦
                rw (consume-wrong h fresh input s c found unlocked wrong)
                  (attempted input.challenge_id fresh.now c found unlocked)
            | inl right ↦
                Done-Effect input.challenge_id fresh.now s (consume_otp_challenge h fresh input s)
                  (consume-right h fresh input s c found unlocked right)
          ]
        ]
      ]

  create-Effect :
      (input : NewChallenge) (now : ℕ) (s : AuthStore)
      → Effect s.otp_challenges (create_otp_challenge input now s).1.otp_challenges
  unfolding create_otp_challenge
  create-Effect input now s =
      elim (Bool-cases (
        any (challenge_has_id input.challenge_id) (
          update_where (pending_for input.phone_number) (invalidated_challenge now)
            s.otp_challenges))) [
              | inl taken ↦ rw taken unchanged
              | inr free ↦ rw free (created input now free)
            ]

  pub perform_otp-Effect :
      (r : OtpRequest) (s : AuthStore) → Effect s.otp_challenges (perform_otp r s).otp_challenges
  unfolding perform_otp
  perform_otp-Effect (create_challenge input now) s = create-Effect input now s
  perform_otp-Effect (fail_delivery id) s = undelivered id
  perform_otp-Effect (consume_challenge fresh input) s = consume-Effect fresh input s
