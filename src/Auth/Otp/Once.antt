-- ===== src/Auth/Otp/Once.antt =====
-- A code of src/auth/authentication.repository.ts is good once.
use public_parks.Prelude.{
  ℕ, String, ◌≡◌, refl, sym, ◌∙◌, subst, inl, inr, Bool, true, false, ◌&&◌, some, List, [], ◌∷◌,
  arith, eq_iff, if◌then◌else◌, Bool-cases, Option-cases, any, All, All-map, All-of,
}
use public_parks.Errors.{authentication_failed}
use public_parks.Database.{
  any-update_where, ok, err, find?, update_where, find?-sound, find?-All, All-update_where,
}
use public_parks.Auth.Tables.{
  delivery_failed, OtpChallenge, AuthStore, is_pending, SessionResult, Fresh,
}
use public_parks.Auth.Digests.{SecretHash}
use public_parks.Auth.Otp.{
  challenge_has_id, pending_for, invalidated_challenge, wrong_attempt, consumed_challenge, is_open,
  PresentedCode, matches, consume_otp_challenge,
}
use public_parks.Auth.Otp.Outcomes.{consumed_rows, consume-refused, consume-wrong, consume-right}
use public_parks.Auth.Otp.Effects.{
  OtpRequest, perform_otp, run_otp, Effect, unchanged, created, undelivered, attempted, accepted,
  perform_otp-Effect,
}

-- The challenge of an id is there, and no longer pending.
abbrev IsSpent : String → OtpChallenge → Type 0
IsSpent id c = challenge_has_id id c ≡ true → is_pending c.challenge_status ≡ false

abbrev pub IsSettled : String → List OtpChallenge → Type 0
IsSettled id rows = (any (challenge_has_id id) rows ≡ true) × All (IsSpent id) rows

find?-any :
    (p : OtpChallenge → Bool) (rows : List OtpChallenge) {c : OtpChallenge}
    → find? p rows ≡ some c
    → any p rows ≡ true
find?-any p [] h = cc
find?-any p (r ∷ rows) {c} h = elim (Bool-cases (p r)) [
  | inl hit ↦ rw hit refl
  | inr miss ↦ rw miss (find?-any p rows {c = c} (rw miss at h))
]

updated-IsSettled :
    (id : String) (p : OtpChallenge → Bool) (f : OtpChallenge → OtpChallenge)
    (rows : List OtpChallenge)
    → ((c : OtpChallenge) → challenge_has_id id (f c) ≡ challenge_has_id id c)
    → ((c : OtpChallenge) → IsSpent id c → IsSpent id (f c))
    → IsSettled id rows
    → IsSettled id (update_where p f rows)
updated-IsSettled id p f rows same keeps settled = (
  (any-update_where (challenge_has_id id) p f same rows ∙ settled.0),
  All-update_where (IsSpent id) p f rows (
      All-map (IsSpent id) (λ c. IsSpent id (if p c then f c else c))
        (λ c l. elim (Bool-cases (p c)) [ inl hit ↦ rw hit (keeps c l) | inr miss ↦ rw miss l ])
        rows settled.1),
)

module _ (h : SecretHash) where
  Effect-IsSettled :
      (id : String) (rows rows' : List OtpChallenge)
      → IsSettled id rows
      → Effect rows rows'
      → IsSettled id rows'
  Effect-IsSettled id rows _ settled unchanged = settled
  Effect-IsSettled id rows _ settled (created input now free) =
      let old =
        updated-IsSettled id (pending_for input.phone_number) (invalidated_challenge now) rows
          (λ c. refl) (λ c l. λ _. refl) settled in
      (
        ground (arith, old.0),
        (
          (λ same.
              let is : input.challenge_id ≡ id = (eq_iff input.challenge_id id).0 same in
              absurd (cc (is, free, old.0))),
          old.1,
        ),
      )
  Effect-IsSettled id rows _ settled (undelivered x) =
      updated-IsSettled id (λ c. challenge_has_id x c && is_pending c.challenge_status)
        (λ c. record c { challenge_status = delivery_failed }) rows (λ c. refl) (λ c l. λ _. refl)
        settled
  Effect-IsSettled id rows _ settled (attempted x now c found unlocked) =
      updated-IsSettled id (challenge_has_id x) (wrong_attempt now) rows (λ c. refl)
        (λ c l. ground (arith, l)) settled
  Effect-IsSettled id rows _ settled (accepted x now) =
      updated-IsSettled id (challenge_has_id x) (consumed_challenge now) rows (λ c. refl)
        (λ c l. λ _. refl) settled

  run_otp-IsSettled :
      (id : String) (rs : List OtpRequest) (s : AuthStore)
      → IsSettled id s.otp_challenges
      → IsSettled id (run_otp h rs s).otp_challenges
  unfolding run_otp
  run_otp-IsSettled id [] s settled = settled
  run_otp-IsSettled id (r ∷ rs) s settled = run_otp-IsSettled id rs (perform_otp h r s) (
      Effect-IsSettled id s.otp_challenges (perform_otp h r s).otp_challenges settled
        (perform_otp-Effect h r s))

  settled-refused :
      (fresh : Fresh) (input : PresentedCode) (s : AuthStore)
      → IsSettled input.challenge_id s.otp_challenges
      → consume_otp_challenge h fresh input s ≡ (err authentication_failed, s)
  settled-refused fresh input s settled = consume-refused h fresh input s (λ c found.
      let has = find?-sound (challenge_has_id input.challenge_id) s.otp_challenges {r = c} found in
      let spent =
        find?-All (IsSpent input.challenge_id) (challenge_has_id input.challenge_id)
          s.otp_challenges {r = c} settled.1 found in
      rw (spent has) refl)

  consumed-IsSettled :
      (id : String) (now : ℕ) (rows : List OtpChallenge) (c : OtpChallenge)
      → find? (challenge_has_id id) rows ≡ some c
      → IsSettled id (update_where (challenge_has_id id) (consumed_challenge now) rows)
  consumed-IsSettled id now rows c found = (
    any-update_where (challenge_has_id id) (challenge_has_id id) (consumed_challenge now)
          (λ r. refl) rows
        ∙ find?-any (challenge_has_id id) rows found,
    All-update_where (IsSpent id) (challenge_has_id id) (consumed_challenge now) rows (
        All-of (λ r. IsSpent id (if challenge_has_id id r then consumed_challenge now r else r))
          (λ r. elim (Bool-cases (challenge_has_id id r)) [
            | inl hit ↦ rw hit (λ _. refl)
            | inr miss ↦ rw miss (λ has. absurd (cc (has, miss)))
          ])
          rows),
  )

  -- A call of `consumeOtpChallenge` that returns was given a pending, unexpired challenge with
  -- attempts left and the code whose digest it holds, and leaves the challenge consumed.
  pub consume_otp_challenge-authentic :
      (fresh : Fresh) (input : PresentedCode) (s s' : AuthStore) (result : SessionResult)
      → consume_otp_challenge h fresh input s ≡ (ok result, s')
      → (c : OtpChallenge) × (find? (challenge_has_id input.challenge_id) s.otp_challenges ≡ some c)
        × (is_open fresh.now c ≡ true)
        × (matches h fresh input c ≡ true)
        × (s'.otp_challenges ≡ consumed_rows h fresh input s)
  consume_otp_challenge-authentic fresh input s s' result runs =
      elim (Option-cases (find? (challenge_has_id input.challenge_id) s.otp_challenges)) [
        | inl missing ↦
            absurd
              (cc (runs, consume-refused h fresh input s (λ c found. absurd (cc (missing, found)))))
        | inr (c, found) ↦ elim (Bool-cases (is_open fresh.now c)) [
          | inr closed ↦ absurd (
              cc (
                runs,
                consume-refused h fresh input s (λ d seen.
                    let same : c ≡ d = cc (found, seen) in
                    subst (λ x. is_open fresh.now x ≡ false) same closed),
              ))
          | inl unlocked ↦ elim (Bool-cases (matches h fresh input c)) [
            | inr wrong ↦ absurd (cc (runs, consume-wrong h fresh input s c found unlocked wrong))
            | inl right ↦ (
              c,
              found,
              unlocked,
              right,
              rw runs at (consume-right h fresh input s c found unlocked right),
            )
          ]
        ]
      ]

  -- A code is good once: after a call of `consumeOtpChallenge` that returns, and any further calls
  -- on the challenges, a call with the same challenge, whatever the code and the time, is refused
  -- and changes nothing.
  pub consume_otp_challenge-once :
      (fresh later : Fresh) (input again : PresentedCode) (s s' : AuthStore)
      (result : SessionResult) (rs : List OtpRequest)
      → consume_otp_challenge h fresh input s ≡ (ok result, s')
      → again.challenge_id ≡ input.challenge_id
      → consume_otp_challenge h later again (run_otp h rs s')
        ≡ (err authentication_failed, run_otp h rs s')
  consume_otp_challenge-once fresh later input again s s' result rs runs same =
      let x = consume_otp_challenge-authentic fresh input s s' result runs in
      settled-refused later again (run_otp h rs s') (
        run_otp-IsSettled again.challenge_id rs s' (
          subst (λ x. IsSettled again.challenge_id x) (sym x.4)
            (subst (λ i. IsSettled i (consumed_rows h fresh input s)) (sym same)
              (consumed-IsSettled input.challenge_id fresh.now s.otp_challenges x.0 x.1))))
