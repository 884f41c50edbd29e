-- ===== src/Auth/Otp/Mistakes.antt =====
-- Wrong codes of src/auth/authentication.repository.ts are counted, and the fifth is the last.
use public_parks.Prelude.{
  ℕ, suc, ◌+◌, ◌≤◌, ◌<◌, min, String, ◌≡◌, refl, ◌∙◌, subst, inl, inr, false, some, List, [], ◌∷◌,
  arith, ltb, Bool-cases, All, length,
}
use public_parks.Errors.{authentication_failed}
use public_parks.Database.{err, find?, find?-sound, find?-update_where}
use public_parks.Auth.Tables.{pending, invalidated, OtpChallenge, AuthStore, Fresh}
use public_parks.Auth.Digests.{SecretHash}
use public_parks.Auth.Otp.{
  challenge_has_id, wrong_attempt, is_open, PresentedCode, matches, consume_otp_challenge,
}
use public_parks.Auth.Otp.Outcomes.{consume-refused, consume-wrong}

-- The challenge that is found under an id has `k` attempts, is pending below five and invalidated
-- at five, and is otherwise the given one.
pub record IsCounted (id : String) (challenge : OtpChallenge) (k : ℕ) (s : AuthStore) : Type 0 where
  pub row : OtpChallenge
  pub found : find? (challenge_has_id id) s.otp_challenges ≡ some row
  pub attempts : row.attempt_count ≡ k
  pub phone : row.phone_number ≡ challenge.phone_number
  pub digest : row.code_digest ≡ challenge.code_digest
  pub expires : row.expires_at ≡ challenge.expires_at
  pub waiting : k < 5 → row.challenge_status ≡ pending
  pub locked : 5 ≤ k → row.challenge_status ≡ invalidated

-- The tables after calls of `consumeOtpChallenge`, one after the other.
abbrev pub guess_all : SecretHash → List (Fresh × PresentedCode) → AuthStore → AuthStore
guess_all h [] s = s
guess_all h ((fresh, input) ∷ gs) s = guess_all h gs (consume_otp_challenge h fresh input s).1

-- Each of the calls throws.
abbrev pub AllFail : SecretHash → List (Fresh × PresentedCode) → AuthStore → Type 0
AllFail h [] s = Unit
AllFail h ((fresh, input) ∷ gs) s =
    ((consume_otp_challenge h fresh input s).0 ≡ err authentication_failed)
    × AllFail h gs (consume_otp_challenge h fresh input s).1

-- A code for the challenge that is presented in time, and is wrong.
abbrev pub IsMistake : SecretHash → String → OtpChallenge → Fresh × PresentedCode → Type 0
IsMistake h id challenge (fresh, input) =
    (input.challenge_id ≡ id)
    × (fresh.now < challenge.expires_at)
    × (matches h fresh input challenge ≡ false)

module _ (h : SecretHash) (id : String) (challenge : OtpChallenge) where
  wrong_attempt-IsCounted :
      (fresh : Fresh) (input : PresentedCode) (k : ℕ) (s : AuthStore)
      → IsMistake h id challenge (fresh, input)
      → k < 5
      → IsCounted id challenge k s
      → ((consume_otp_challenge h fresh input s).0 ≡ err authentication_failed)
        × IsCounted id challenge (suc k) (consume_otp_challenge h fresh input s).1
  unfolding matches
  wrong_attempt-IsCounted fresh input k s (same, in_time, wrong) more i =
      let here : find? (challenge_has_id input.challenge_id) s.otp_challenges ≡ some i.row =
        rw same i.found in
      let ran =
        consume-wrong h fresh input s i.row here
          (ground (arith, i.waiting more, i.attempts, i.expires)) (rw (i.phone, i.digest) wrong) in
      rw ran (
        refl,
        record {
          row = wrong_attempt fresh.now i.row;
          found =
              find?-update_where (challenge_has_id id) (challenge_has_id input.challenge_id)
                (wrong_attempt fresh.now) (λ c. refl) s.otp_challenges
              ∙ (rw (i.found, same, find?-sound (challenge_has_id id) s.otp_challenges i.found)
                  refl);
          attempts = ground (arith, i.attempts);
          phone = i.phone;
          digest = i.digest;
          expires = i.expires;
          waiting = λ low. ground (arith, i.attempts, i.waiting more);
          locked = λ high. ground (arith, i.attempts);
        },
      )

  refused_at_five :
      (fresh : Fresh) (input : PresentedCode) (s : AuthStore)
      → input.challenge_id ≡ id
      → IsCounted id challenge 5 s
      → consume_otp_challenge h fresh input s ≡ (err authentication_failed, s)
  refused_at_five fresh input s same i = consume-refused h fresh input s (λ c seen.
      let is : i.row ≡ c = cc (i.found, seen, same) in
      subst (λ x. is_open fresh.now x ≡ false) is (ground (arith, i.attempts)))

  -- One more wrong code, at any number of attempts up to five.
  consume-IsCounted :
      (fresh : Fresh) (input : PresentedCode) (k : ℕ) (s : AuthStore)
      → k ≤ 5
      → IsMistake h id challenge (fresh, input)
      → IsCounted id challenge k s
      → ((consume_otp_challenge h fresh input s).0 ≡ err authentication_failed)
        × IsCounted id challenge (min 5 (suc k)) (consume_otp_challenge h fresh input s).1
  consume-IsCounted fresh input k s le a i = elim (Bool-cases (ltb k 5)) [
    | inl more ↦
        let (fails, counted) = wrong_attempt-IsCounted fresh input k s a (ground arith) i in
        (
          fails,
          subst (λ n. IsCounted id challenge n (consume_otp_challenge h fresh input s).1)
              (ground arith) counted,
        )
    | inr spent ↦
        let five : k ≡ 5 = ground arith in
        let top : 5 ≡ min 5 (suc k) = omega (arith, five) in
        let full = subst (λ n. IsCounted id challenge n s) five i in
        rw (refused_at_five fresh input s a.0 full)
          (refl, subst (λ n. IsCounted id challenge n s) top full)
  ]

  guess_all-IsCounted :
      (gs : List (Fresh × PresentedCode)) (k : ℕ) (s : AuthStore)
      → k ≤ 5
      → All (IsMistake h id challenge) gs
      → IsCounted id challenge k s
      → AllFail h gs s × IsCounted id challenge (min 5 (k + length gs)) (guess_all h gs s)
  guess_all-IsCounted [] k s le a i = (tt, subst (λ n. IsCounted id challenge n s) (omega arith) i)
  guess_all-IsCounted ((fresh, input) ∷ gs) k s le (a, rest) i =
      let s' = (consume_otp_challenge h fresh input s).1 in
      let (fails, once) = consume-IsCounted fresh input k s le a i in
      let (all_fail, counted) = guess_all-IsCounted gs (min 5 (suc k)) s' (omega arith) rest once in
      (
        (fails, all_fail),
        subst (λ n. IsCounted id challenge n (guess_all h gs s')) (omega arith) counted,
      )

-- Wrong codes in time are counted up to five: for a pending challenge with less than five attempts,
-- for which `n` wrong codes are presented one after the other, each before it expires, each of the
-- calls throws, and the challenge is then stored with `n` more attempts, five at most. Below five
-- it is still pending; at five it is invalidated, and every later call with it, also one with the
-- right code, is refused and changes nothing.
pub consume_otp_challenge-counts :
    (h : SecretHash) (id : String) (s : AuthStore) (challenge : OtpChallenge)
    (guesses : List (Fresh × PresentedCode))
    → find? (challenge_has_id id) s.otp_challenges ≡ some challenge
    → challenge.challenge_status ≡ pending
    → challenge.attempt_count < 5
    → All (IsMistake h id challenge) guesses
    → AllFail h guesses s
      × IsCounted id challenge
          (min 5 (challenge.attempt_count + length guesses))
          (guess_all h guesses s)
      × (5 ≤ challenge.attempt_count + length guesses
          → (later : Fresh) (again : PresentedCode) → again.challenge_id ≡ id
          → consume_otp_challenge h later again (guess_all h guesses s)
            ≡ (err authentication_failed, guess_all h guesses s))
consume_otp_challenge-counts h id s challenge guesses found waiting few mistakes =
    let (all_fail, counted) =
      guess_all-IsCounted h id challenge guesses challenge.attempt_count s (ground arith) mistakes
        (record {
          row = challenge;
          found = found;
          attempts = refl;
          phone = refl;
          digest = refl;
          expires = refl;
          waiting = λ low. waiting;
          locked = λ high. absurd (omega (arith, high, few));
        }) in
    (
      all_fail,
      counted,
      λ many later again same.
          refused_at_five h id challenge later again (guess_all h guesses s) same
            (subst (λ n. IsCounted id challenge n (guess_all h guesses s)) (omega arith) counted),
    )
