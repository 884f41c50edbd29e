-- ===== src/Auth/Service/Delivery.antt =====
-- One-time codes that could not be delivered, in src/auth/authentication.service.ts.
use public_parks.Auth.Otp.{
  NewChallenge, PresentedCode, create_otp_challenge, mark_otp_delivery_failed,
  consume_otp_challenge, challenge_has_id, pending_for, invalidated_challenge, new_challenge,
}
use public_parks.Auth.Otp.Outcomes.{consume-refused}
use public_parks.Auth.Digests.{hash_sensitive_lookup}
use public_parks.Auth.RateLimits.{assert_cooldown, assert_within_limit}
use public_parks.Auth.Service.{
  key_for, AuthState, AuthServices, Draws, create_challenge, otp_limits, otp_input, delivered,
  padded_code, sms_unavailable,
}
use public_parks.Auth.Tables.{OtpChallenge, AuthStore, Fresh, is_pending}
use public_parks.Database.{ok, err, find?, update_where, any-update_where}
use public_parks.Database.Results.{Result-cases}
use public_parks.Errors.{Exception, authentication_failed}
use public_parks.Prelude.{
  ℕ, String, ◌≡◌, refl, sym, ap, ◌∙◌, subst, inl, inr, Bool, false, none, some, List, [], ◌∷◌,
  arith, eq_refl, Bool-cases, any,
}

none_found :
    (p : OtpChallenge → Bool) (rows : List OtpChallenge) → any p rows ≡ false → find? p rows ≡ none
none_found p [] h = refl
none_found p (r ∷ rows) h = elim (Bool-cases (p r)) [
  | inl hit ↦ absurd (cc (rw hit at h))
  | inr miss ↦ rw miss (none_found p rows (rw miss at h))
]

-- No challenge of the id can be used.
abbrev pub IsClosed : String → AuthStore → Type 0
IsClosed id s =
    (c : OtpChallenge)
    → find? (challenge_has_id id) s.otp_challenges ≡ some c
    → is_pending c.challenge_status ≡ false

module _ (a : AuthServices) (draws : Draws) where
  absent-IsClosed :
      (id : String) (s : AuthStore)
      → any (challenge_has_id id) s.otp_challenges ≡ false
      → IsClosed id s
  absent-IsClosed id s h c found =
      absurd (cc (none_found (challenge_has_id id) s.otp_challenges h, found))

  otp_limits_store :
      (phone_number request_ip : String) (s : AuthState)
      → (otp_limits a draws phone_number request_ip s).1.store ≡ s.store
  unfolding otp_limits
  otp_limits_store phone_number request_ip s =
      let hashes = a.mfa_services.hashes in
      let now = draws.fresh.now in
      let cooldown =
        assert_cooldown (key_for "otp:cooldown:" (hash_sensitive_lookup hashes phone_number)) 60 now
          s.redis in
      let counted =
        assert_within_limit (key_for "otp:phone:" (hash_sensitive_lookup hashes phone_number)) 3 900
          now cooldown.1 in
      elim (Result-cases cooldown.0) [
        | inr (e, early) ↦ rw early
        | inl (tt, passed) ↦ elim (Result-cases counted.0) [
          | inr (e, many) ↦ rw (passed, many)
          | inl (tt, few) ↦ rw (passed, few)
        ]
      ]

  created_rows :
      (input : NewChallenge) (now : ℕ) (s : AuthStore)
      → any (challenge_has_id input.challenge_id) s.otp_challenges ≡ false
      → (create_otp_challenge input now s).1.otp_challenges
        ≡ new_challenge input
          ∷ update_where
              (pending_for input.phone_number)
              (invalidated_challenge now)
              s.otp_challenges
  unfolding create_otp_challenge
  created_rows input now s free =
      let fresh =
        any-update_where (challenge_has_id input.challenge_id) (pending_for input.phone_number)
          (invalidated_challenge now) (λ r. refl) s.otp_challenges in
      ground (arith, fresh, free)

  -- The row of a new challenge, once its delivery has failed.
  marked-IsClosed :
      (input : NewChallenge) (rows : List OtpChallenge) (s : AuthStore)
      → s.otp_challenges ≡ new_challenge input ∷ rows
      → IsClosed input.challenge_id (mark_otp_delivery_failed input.challenge_id s)
  unfolding mark_otp_delivery_failed
  marked-IsClosed input rows s e c found =
      let same = eq_refl input.challenge_id in ground (arith, same, rw (e, same) at found)

  created_ok :
      (input : NewChallenge) (now : ℕ) (s : AuthStore)
      → any (challenge_has_id input.challenge_id) s.otp_challenges ≡ false
      → (create_otp_challenge input now s).0 ≡ ok tt
  unfolding create_otp_challenge
  created_ok input now s free =
      let fresh =
        any-update_where (challenge_has_id input.challenge_id) (pending_for input.phone_number)
          (invalidated_challenge now) (λ r. refl) s.otp_challenges in
      ground (arith, fresh, free)

  closed-refused :
      (fresh : Fresh) (input : PresentedCode) (id : String) (s : AuthStore)
      → input.challenge_id ≡ id
      → IsClosed id s
      → consume_otp_challenge a.mfa_services.hashes fresh input s ≡ (err authentication_failed, s)
  closed-refused fresh input id s same closed =
      consume-refused a.mfa_services.hashes fresh input s
        (λ c found. let spent = closed c (rw same at found) in rw spent)

  -- Past its limits, with a uuid that is free, a call whose delivery fails.
  create_challenge-failed :
      (phone_number request_ip : String) (s : AuthState) (e : Exception)
      → (otp_limits a draws phone_number request_ip s).0 ≡ ok tt
      → (create_otp_challenge
          (otp_input a draws phone_number)
          draws.fresh.now
          (otp_limits a draws phone_number request_ip s).1.store).0
        ≡ ok tt
      → a.deliver draws.challenge_uuid phone_number (padded_code draws.random_int) ≡ err e
      → ((create_challenge a draws phone_number request_ip s).0 ≡ err sms_unavailable)
        × ((create_challenge a draws phone_number request_ip s).1.store
            ≡ mark_otp_delivery_failed draws.challenge_uuid
                (create_otp_challenge
                  (otp_input a draws phone_number)
                  draws.fresh.now
                  (otp_limits a draws phone_number request_ip s).1.store).1)
  unfolding create_challenge delivered
  create_challenge-failed phone_number request_ip s e allowed made failed =
      (ground (arith, allowed, made, failed), ground (arith, allowed, made, failed))

  create_challenge-limited :
      (phone_number request_ip : String) (s : AuthState) (e : Exception)
      → (otp_limits a draws phone_number request_ip s).0 ≡ err e
      → ((create_challenge a draws phone_number request_ip s).0 ≡ err e)
        × ((create_challenge a draws phone_number request_ip s).1
            ≡ (otp_limits a draws phone_number request_ip s).1)
  unfolding create_challenge
  create_challenge-limited phone_number request_ip s e limited =
      (ground (arith, limited), ground (arith, limited))

  undelivered :
      (phone_number request_ip : String) (s : AuthState) (e : Exception)
      → a.deliver draws.challenge_uuid phone_number (padded_code draws.random_int) ≡ err e
      → any (challenge_has_id draws.challenge_uuid) s.store.otp_challenges ≡ false
      → ((f : Exception) × ((create_challenge a draws phone_number request_ip s).0 ≡ err f))
        × IsClosed draws.challenge_uuid (create_challenge a draws phone_number request_ip s).1.store
  unfolding otp_input
  undelivered phone_number request_ip s e failed free =
      let limits = otp_limits a draws phone_number request_ip s in
      let same : limits.1.store ≡ s.store = otp_limits_store phone_number request_ip s in
      let still : any (challenge_has_id draws.challenge_uuid) limits.1.store.otp_challenges
          ≡ false =
        ap (λ t. any (challenge_has_id draws.challenge_uuid) t.otp_challenges) same ∙ free in
      elim (Result-cases limits.0) [
        | inr (f, limited) ↦
            let out = create_challenge-limited phone_number request_ip s f limited in
            (
              (f, out.0),
              subst (λ (t : AuthState). IsClosed draws.challenge_uuid t.store) (sym out.1)
                  (absent-IsClosed draws.challenge_uuid limits.1.store still),
            )
        | inl (tt, allowed) ↦
            let input = otp_input a draws phone_number in
            let made = created_ok input draws.fresh.now limits.1.store still in
            let rows = created_rows input draws.fresh.now limits.1.store still in
            let out = create_challenge-failed phone_number request_ip s e allowed made failed in
            (
              (sms_unavailable, out.0),
              subst (IsClosed draws.challenge_uuid) (sym out.1) (
                  marked-IsClosed input _
                    (create_otp_challenge input draws.fresh.now limits.1.store).1 rows),
            )
      ]

  -- If the delivery of a code fails, `createOtpChallenge` throws, and the code can never be used:
  -- any consumption of the challenge in the state that is left fails and changes nothing. The
  -- challenge's uuid is not yet that of another challenge.
  pub create_challenge-undelivered :
      (phone_number request_ip : String) (s : AuthState) (e : Exception)
      → a.deliver draws.challenge_uuid phone_number (padded_code draws.random_int) ≡ err e
      → any (challenge_has_id draws.challenge_uuid) s.store.otp_challenges ≡ false
      → ((f : Exception) × ((create_challenge a draws phone_number request_ip s).0 ≡ err f))
        × ((fresh : Fresh) (input : PresentedCode)
            → input.challenge_id ≡ draws.challenge_uuid
            → consume_otp_challenge a.mfa_services.hashes fresh input
                (create_challenge a draws phone_number request_ip s).1.store
              ≡ (
                err authentication_failed,
                (create_challenge a draws phone_number request_ip s).1.store,
              ))
  create_challenge-undelivered phone_number request_ip s e failed free =
      let out = undelivered phone_number request_ip s e failed free in
      (
        out.0,
        λ fresh input same.
            closed-refused fresh input draws.challenge_uuid
              (create_challenge a draws phone_number request_ip s).1.store same out.1,
      )
