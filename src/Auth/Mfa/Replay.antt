-- ===== src/Auth/Mfa/Replay.antt =====
-- No second factor of src/auth/authentication.repository.ts is accepted twice.
use public_parks.Prelude.{
  ℕ, ◌≤◌, String, ◌≡◌, refl, sym, ap, ◌∙◌, subst, inl, inr, true, false, Option, none, some, List,
  arith, eq_iff, if◌then◌else◌, Bool-cases, any, All, All-of,
}
use public_parks.Database.{ok, find?, update_where, find?-All, All-update_where}
use public_parks.Auth.Mfa.{
  TotpFactor, MfaStore, MfaServices, is_totp_token, factor_of, factor_has_id, is_later, stepped,
  set_factors, is_unused, used_code, checked_step, accept_step, recovery_hash, accept_recovery,
  consume_super_admin_mfa,
}
use public_parks.Auth.Mfa.Effects.{MfaCall, run_mfa, consume-MfaEffect, consume-found}
use public_parks.Auth.Mfa.Standing.{
  IsUsedUp, IsPast, IsFactorOf, IsBeyond, uses_up, Effect-IsFactorOf, run_mfa-IsFactorOf,
  run_mfa-IsBeyond, run_mfa-IsUsedUp,
}

module _ (services : MfaServices) where
  -- The factor of a user before an accepted call, after it and any further calls.
  later-IsFactorOf :
      (now : ℕ) (user_id code : String) (s s' : MfaStore) (f : TotpFactor) (cs : List MfaCall)
      → find? (factor_of user_id) s.totp_factors ≡ some f
      → consume_super_admin_mfa services now user_id code s ≡ (ok true, s')
      → IsFactorOf services user_id f (run_mfa services cs s')
  later-IsFactorOf now user_id code s s' f cs found accepted =
      run_mfa-IsFactorOf services user_id f cs s' (
        Effect-IsFactorOf services user_id f s s'
          (record { current = f; found = found; id = refl; secret = refl })
          (rw accepted at (consume-MfaEffect services now user_id code s)))

  recovery_accepted :
      (now : ℕ) (f : TotpFactor) (code : String) (s s' : MfaStore)
      → accept_recovery services now f code s ≡ (ok true, s')
      → IsUsedUp f.id (recovery_hash services now code) s'.recovery_codes
  unfolding accept_recovery
  recovery_accepted now f code s s' h =
      elim (Bool-cases (any (is_unused f.id (recovery_hash services now code)) s.recovery_codes)) [
        | inr gone ↦ absurd (cc (rw gone at h))
        | inl there ↦
            let same : record s {
              recovery_codes =
                  update_where (is_unused f.id (recovery_hash services now code)) (used_code now)
                    s.recovery_codes;
            }
                ≡ s' =
              ap (λ out. out.1) (rw there at h) in
            subst (λ x. IsUsedUp f.id (recovery_hash services now code) x.recovery_codes) same
              (uses_up services f.id (recovery_hash services now code) now s.recovery_codes)
      ]

  recovery_refused :
      (now : ℕ) (f : TotpFactor) (code : String) (s : MfaStore)
      → IsUsedUp f.id (recovery_hash services now code) s.recovery_codes
      → accept_recovery services now f code s ≡ (ok false, s)
  unfolding accept_recovery
  recovery_refused now f code s used = rw used refl

  recovery_hash-same :
      (now later : ℕ) (code : String)
      → recovery_hash services now code ≡ recovery_hash services later code
  unfolding recovery_hash
  recovery_hash-same now later code = refl

  -- An accepted recovery code of a user's factor is spent: after any further calls, the same code
  -- is refused for the user, and nothing changes.
  pub recovery_code-once :
      (now later : ℕ) (user_id verification_code : String) (s s' : MfaStore) (f : TotpFactor)
      (cs : List MfaCall)
      → find? (factor_of user_id) s.totp_factors ≡ some f
      → is_totp_token verification_code ≡ false
      → consume_super_admin_mfa services now user_id verification_code s ≡ (ok true, s')
      → consume_super_admin_mfa services later user_id verification_code (run_mfa services cs s')
        ≡ (ok false, run_mfa services cs s')
  recovery_code-once now later user_id verification_code s s' f cs found form accepted =
      let i = later-IsFactorOf now user_id verification_code s s' f cs found accepted in
      let ran = consume-found services now user_id verification_code s f found in
      let again =
        consume-found services later user_id verification_code (run_mfa services cs s') i.current
          i.found in
      let spent =
        recovery_accepted now f verification_code s s' (sym (rw form at ran) ∙ accepted) in
      (rw form at again)
      ∙ recovery_refused later i.current verification_code (run_mfa services cs s') (
          rw (i.id, recovery_hash-same later now verification_code)
            (run_mfa-IsUsedUp services f.id (recovery_hash services now verification_code) cs s'
              spent))

  step_accepted :
      (now : ℕ) (f : TotpFactor) (step : ℕ) (s s' : MfaStore)
      → accept_step services now f (ok (some step)) s ≡ (ok true, s')
      → All (IsBeyond services f.id step) s'.totp_factors
  unfolding accept_step
  step_accepted now f step s s' h = elim (Bool-cases (is_later step f.last_accepted_time_step)) [
    | inr earlier ↦ absurd (cc (rw earlier at h))
    | inl later ↦
        let same : set_factors (factor_has_id f.id) (stepped step) s ≡ s' =
          ap (λ out. out.1) (rw later at h) in
        subst (λ x. All (IsBeyond services f.id step) x.totp_factors) same
          (All-update_where (IsBeyond services f.id step) (factor_has_id f.id) (stepped step)
            s.totp_factors
            (All-of
              (λ r.
                IsBeyond services f.id step (if factor_has_id f.id r then stepped step r else r))
              (λ r. elim (Bool-cases (factor_has_id f.id r)) [
                | inl hit ↦ rw hit (λ _. omega arith)
                | inr miss ↦ rw miss (λ same_id. absurd (cc (same_id, miss)))
              ])
              s.totp_factors))
  ]

  IsPast-refuses :
      (step step' : ℕ) (last : Option ℕ)
      → IsPast step last
      → step' ≤ step
      → is_later step' last ≡ false
  IsPast-refuses step step' none past le = absurd past
  IsPast-refuses step step' (some last) past le = ground (arith, past, le)

  step_refused :
      (now : ℕ) (f : TotpFactor) (step : ℕ) (s : MfaStore)
      → is_later step f.last_accepted_time_step ≡ false
      → accept_step services now f (ok (some step)) s ≡ (ok false, s)
  unfolding accept_step
  step_refused now f step s early = rw early refl

  checked_step-same :
      (now : ℕ) (f g : TotpFactor) (token : String)
      → f.id ≡ g.id
      → f.encrypted_secret ≡ g.encrypted_secret
      → checked_step services now f token ≡ checked_step services now g token
  unfolding checked_step
  checked_step-same now f g token same_id same_secret = rw (same_id, same_secret) refl

  -- A TOTP token that is accepted for a step stops all tokens of that step and of earlier ones:
  -- after any further calls, each of them is refused for the user, and nothing changes.
  pub totp_token-once :
      (now later : ℕ) (user_id token again : String) (s s' : MfaStore) (f : TotpFactor)
      (step step' : ℕ) (cs : List MfaCall)
      → find? (factor_of user_id) s.totp_factors ≡ some f
      → is_totp_token token ≡ true
      → checked_step services now f token ≡ ok (some step)
      → consume_super_admin_mfa services now user_id token s ≡ (ok true, s')
      → is_totp_token again ≡ true
      → checked_step services later f again ≡ ok (some step')
      → step' ≤ step
      → consume_super_admin_mfa services later user_id again (run_mfa services cs s')
        ≡ (ok false, run_mfa services cs s')
  totp_token-once now later user_id token again s s' f step step' cs found form checked accepted
        form' checked' le =
      let last = run_mfa services cs s' in
      let i = later-IsFactorOf now user_id token s s' f cs found accepted in
      let ran = rw (form, checked) at (consume-found services now user_id token s f found) in
      let beyond =
        run_mfa-IsBeyond services f.id step cs s'
          (step_accepted now f step s s' (sym ran ∙ accepted)) in
      let past =
        find?-All (IsBeyond services f.id step) (factor_of user_id) last.totp_factors
          {r = i.current} beyond i.found ((eq_iff (i.current).id f.id).1 i.id) in
      let here = checked_step-same later i.current f again i.id i.secret ∙ checked' in
      (rw (form', here) at (consume-found services later user_id again last i.current i.found))
      ∙ step_refused later i.current step' last
          (IsPast-refuses step step' (i.current).last_accepted_time_step past le)
