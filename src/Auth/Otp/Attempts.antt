-- ===== src/Auth/Otp/Attempts.antt =====
-- The limits on the OTP challenges of src/auth/authentication.repository.ts: five attempts, one
-- pending challenge for a phone number.
use public_parks.Prelude.{
  ℕ, ◌≤◌, ◌<◌, String, ◌≡◌, refl, subst, inl, inr, Bool, true, ◌&&◌, some, List, [], ◌∷◌, arith,
  str_eq, eq_iff, eq_refl, if◌then◌else◌, Bool-cases, All, All-map, All-map₂, All-of,
}
use public_parks.Database.{
  find?, update_where, count, All-update_where, count-update_where, count_le, any-false→All,
  count_zero,
}
use public_parks.Auth.Tables.{delivery_failed, OtpChallenge, AuthStore, is_pending}
use public_parks.Auth.Digests.{SecretHash}
use public_parks.Auth.Otp.{
  challenge_has_id, pending_for, invalidated_challenge, new_challenge, wrong_attempt,
  consumed_challenge, is_open,
}
use public_parks.Auth.Otp.Effects.{
  OtpRequest, perform_otp, run_otp, Effect, unchanged, created, undelivered, attempted, accepted,
  perform_otp-Effect,
}

-- A challenge that can still be consumed has attempts left, and none has more than five.
unfoldable pub IsLimited : OtpChallenge → Type 0
IsLimited c = (is_pending c.challenge_status ≡ true → c.attempt_count < 5) × (c.attempt_count ≤ 5)

-- Its attempts are limited, ids are unique, and a phone number has one pending challenge at most.
pub record IsGuarded (rows : List OtpChallenge) : Type 0 where
  pub limited : All IsLimited rows
  pub unique : (id : String) → count (challenge_has_id id) rows ≤ 1
  pub single : (phone_number : String) → count (pending_for phone_number) rows ≤ 1

count_zero-All :
    (p : OtpChallenge → Bool) (rows : List OtpChallenge) (c : OtpChallenge)
    → count p rows ≡ 0
    → All (λ r. p r ≡ true → r ≡ c) rows
count_zero-All p [] c h = tt
count_zero-All p (r ∷ rows) c h = elim (Bool-cases (p r)) [
  | inl hit ↦ ground arith
  | inr miss ↦ ((λ x. absurd (cc (x, miss))), count_zero-All p rows c (ground arith))
]

find?-only :
    (p : OtpChallenge → Bool) (rows : List OtpChallenge) {c : OtpChallenge}
    → count p rows ≤ 1
    → find? p rows ≡ some c
    → All (λ r. p r ≡ true → r ≡ c) rows
find?-only p [] le h = tt
find?-only p (r ∷ rows) {c} le h = elim (Bool-cases (p r)) [
  | inl hit ↦
      let same : r ≡ c = ground arith in
      let rest : count p rows ≡ 0 = ground arith in ((λ _. same), count_zero-All p rows c rest)
  | inr miss ↦ ((λ x. absurd (cc (x, miss))), find?-only p rows (ground arith) (ground arith))
]

updated-IsLimited :
    (p : OtpChallenge → Bool) (f : OtpChallenge → OtpChallenge) (rows : List OtpChallenge)
    → ((c : OtpChallenge) → IsLimited c → IsLimited (f c))
    → All IsLimited rows
    → All IsLimited (update_where p f rows)
updated-IsLimited p f rows keeps limits = All-update_where IsLimited p f rows (
    All-map IsLimited (λ c. IsLimited (if p c then f c else c))
      (λ c l. elim (Bool-cases (p c)) [ inl hit ↦ rw hit (keeps c l) | inr miss ↦ rw miss l ]) rows
      limits)

wrong_attempt-IsLimited :
    (now : ℕ) (c : OtpChallenge) → is_open now c ≡ true → IsLimited (wrong_attempt now c)
unfolding IsLimited
wrong_attempt-IsLimited now c unlocked = ground arith

Effect-IsLimited :
    (rows rows' : List OtpChallenge) → IsGuarded rows → Effect rows rows' → All IsLimited rows'
unfolding IsLimited
Effect-IsLimited rows _ g unchanged = g.limited
Effect-IsLimited rows _ g (created input now free) = (
  ((λ _. omega arith), omega arith),
  updated-IsLimited (pending_for input.phone_number) (invalidated_challenge now) rows
      (λ c l. ground (arith, l)) g.limited,
)
Effect-IsLimited rows _ g (undelivered id) =
    updated-IsLimited (λ c. challenge_has_id id c && is_pending c.challenge_status)
      (λ c. record c { challenge_status = delivery_failed }) rows (λ c l. ground (arith, l))
      g.limited
Effect-IsLimited rows _ g (accepted id now) =
    updated-IsLimited (challenge_has_id id) (consumed_challenge now) rows (λ c l. ground (arith, l))
      g.limited
Effect-IsLimited rows _ g (attempted id now c found unlocked) =
    All-update_where IsLimited (challenge_has_id id) (wrong_attempt now) rows (
      All-map₂ IsLimited (λ r. challenge_has_id id r ≡ true → r ≡ c)
        (λ r. IsLimited (if challenge_has_id id r then wrong_attempt now r else r))
        (λ r l only. elim (Bool-cases (challenge_has_id id r)) [
          | inl hit ↦ rw (hit, only hit) (wrong_attempt-IsLimited now c unlocked)
          | inr miss ↦ rw miss l
        ])
        rows g.limited (find?-only (challenge_has_id id) rows (g.unique id) found))

updated-count :
    (q p : OtpChallenge → Bool) (f : OtpChallenge → OtpChallenge) (rows : List OtpChallenge)
    → ((c : OtpChallenge) → q (f c) ≡ true → q c ≡ true)
    → count q rows ≤ 1
    → count q (update_where p f rows) ≤ 1
updated-count q p f rows back le =
    let fewer : count (λ c. q (if p c then f c else c)) rows ≤ count q rows =
      count_le (λ c. q (if p c then f c else c)) q rows
        (All-of (λ c. q (if p c then f c else c) ≡ true → q c ≡ true)
          (λ c h. elim (Bool-cases (p c)) [
            | inl hit ↦ back c (rw hit at h)
            | inr miss ↦ rw miss at h
          ])
          rows) in
    omega (arith, fewer, le, count-update_where q p f rows)

invalidated_count :
    (phone_number : String) (now : ℕ) (rows : List OtpChallenge)
    → count
        (pending_for phone_number)
        (update_where (pending_for phone_number) (invalidated_challenge now) rows)
      ≡ 0
invalidated_count phone_number now [] = refl
invalidated_count phone_number now (c ∷ rows) =
    ground (arith, invalidated_count phone_number now rows)

Effect-unique :
    (id : String) (rows rows' : List OtpChallenge)
    → IsGuarded rows
    → Effect rows rows'
    → count (challenge_has_id id) rows' ≤ 1
Effect-unique id rows _ g unchanged = g.unique id
Effect-unique id rows _ g (created input now free) =
    let old = update_where (pending_for input.phone_number) (invalidated_challenge now) rows in
    elim (Bool-cases (str_eq input.challenge_id id)) [
      | inr other ↦ rw other (
          omega (
            arith,
            updated-count (challenge_has_id id) (pending_for input.phone_number)
                (invalidated_challenge now) rows (λ c h. h) (g.unique id),
          ))
      | inl same ↦
          let is : input.challenge_id ≡ id = (eq_iff input.challenge_id id).0 same in
          let none_there : count (challenge_has_id input.challenge_id) old ≡ 0 =
            count_zero (challenge_has_id input.challenge_id) old
              (any-false→All (challenge_has_id input.challenge_id) old free) in
          subst (λ x. count (challenge_has_id x) (new_challenge input ∷ old) ≤ 1) is
            (rw (none_there, eq_refl input.challenge_id) (omega arith))
    ]
Effect-unique id rows _ g (undelivered x) =
    updated-count (challenge_has_id id) (λ c. challenge_has_id x c && is_pending c.challenge_status)
      (λ c. record c { challenge_status = delivery_failed }) rows (λ c h. h) (g.unique id)
Effect-unique id rows _ g (accepted x now) =
    updated-count (challenge_has_id id) (challenge_has_id x) (consumed_challenge now) rows
      (λ c h. h) (g.unique id)
Effect-unique id rows _ g (attempted x now c found unlocked) =
    updated-count (challenge_has_id id) (challenge_has_id x) (wrong_attempt now) rows (λ c h. h)
      (g.unique id)

Effect-single :
    (phone_number : String) (rows rows' : List OtpChallenge)
    → IsGuarded rows
    → Effect rows rows'
    → count (pending_for phone_number) rows' ≤ 1
Effect-single phone_number rows _ g unchanged = g.single phone_number
Effect-single phone_number rows _ g (created input now free) =
    elim (Bool-cases (str_eq input.phone_number phone_number)) [
      | inr other ↦ rw other (
          omega (
            arith,
            updated-count (pending_for phone_number) (pending_for input.phone_number)
                (invalidated_challenge now) rows (λ c h. ground arith) (g.single phone_number),
          ))
      | inl same ↦
          subst
            (λ x.
              count (pending_for x) (
                new_challenge input
                ∷ update_where (pending_for input.phone_number) (invalidated_challenge now) rows)
              ≤ 1)
            ((eq_iff input.phone_number phone_number).0 same)
            (rw (invalidated_count input.phone_number now rows, eq_refl input.phone_number)
              (omega arith))
    ]
Effect-single phone_number rows _ g (undelivered x) =
    updated-count (pending_for phone_number)
      (λ c. challenge_has_id x c && is_pending c.challenge_status)
      (λ c. record c { challenge_status = delivery_failed }) rows (λ c h. ground arith)
      (g.single phone_number)
Effect-single phone_number rows _ g (accepted x now) =
    updated-count (pending_for phone_number) (challenge_has_id x) (consumed_challenge now) rows
      (λ c h. ground arith) (g.single phone_number)
Effect-single phone_number rows _ g (attempted x now c found unlocked) =
    updated-count (pending_for phone_number) (challenge_has_id x) (wrong_attempt now) rows
      (λ d h. ground arith) (g.single phone_number)

Effect-IsGuarded :
    (rows rows' : List OtpChallenge) → IsGuarded rows → Effect rows rows' → IsGuarded rows'
Effect-IsGuarded rows rows' g e = record {
  limited = Effect-IsLimited rows rows' g e;
  unique = λ id. Effect-unique id rows rows' g e;
  single = λ phone_number. Effect-single phone_number rows rows' g e;
}

module _ (h : SecretHash) where
  -- In every history of calls, from a table in which attempts are limited, ids unique and each
  -- phone number has one pending challenge at most, the table stays so: no challenge ever has more
  -- than five attempts, none is pending after the fifth, and a newer code replaces the older ones.
  pub run_otp-IsGuarded :
      (rs : List OtpRequest) (s : AuthStore)
      → IsGuarded s.otp_challenges
      → IsGuarded (run_otp h rs s).otp_challenges
  unfolding run_otp
  run_otp-IsGuarded [] s g = g
  run_otp-IsGuarded (r ∷ rs) s g = run_otp-IsGuarded rs (perform_otp h r s) (
      Effect-IsGuarded s.otp_challenges (perform_otp h r s).otp_challenges g
        (perform_otp-Effect h r s))
