-- ===== src/Auth/Mfa/Standing.antt =====
-- What stays of a second factor of src/auth/authentication.repository.ts in every history of calls:
-- used codes, accepted steps, its id and its secret.
use public_parks.Prelude.{
  ℕ, ◌≤◌, String, ◌≡◌, refl, inl, inr, true, false, Option, none, some, List, [], ◌∷◌, arith,
  eq_iff, if◌then◌else◌, Bool-cases, any, All, All-map,
}
use public_parks.Database.{find?, update_where, find?-update_where, find?-All, All-update_where}
use public_parks.Auth.Mfa.{
  TotpFactor, RecoveryCode, MfaStore, MfaServices, factor_of, factor_has_id, is_later, stepped,
  is_unused, used_code,
}
use public_parks.Auth.Mfa.Effects.{
  MfaCall, perform_mfa, run_mfa, MfaEffect, unchanged, advanced, recovered, perform_mfa-MfaEffect,
}

-- No unused code of the factor has the hash.
abbrev pub IsUsedUp : String → String → List RecoveryCode → Type 0
IsUsedUp factor_id hash codes = any (is_unused factor_id hash) codes ≡ false

-- The last accepted step of a factor is at least `step`.
abbrev pub IsPast : ℕ → Option ℕ → Type 0
IsPast step none = ⊥
IsPast step (some last) = step ≤ last

module _ (services : MfaServices) where
  stays_used :
      (factor_id hash factor_id' hash' : String) (now : ℕ) (codes : List RecoveryCode)
      → IsUsedUp factor_id hash codes
      → IsUsedUp factor_id hash (update_where (is_unused factor_id' hash') (used_code now) codes)
  stays_used factor_id hash factor_id' hash' now [] used = refl
  stays_used factor_id hash factor_id' hash' now (r ∷ codes) used =
      ground (arith, stays_used factor_id hash factor_id' hash' now codes (ground arith))

  pub uses_up :
      (factor_id hash : String) (now : ℕ) (codes : List RecoveryCode)
      → IsUsedUp factor_id hash (update_where (is_unused factor_id hash) (used_code now) codes)
  uses_up factor_id hash now [] = refl
  uses_up factor_id hash now (r ∷ codes) = ground (arith, uses_up factor_id hash now codes)

  -- The user's factor is still the one with this id and secret.
  pub record IsFactorOf (user_id : String) (f : TotpFactor) (s : MfaStore) : Type 0 where
    pub current : TotpFactor
    pub found : find? (factor_of user_id) s.totp_factors ≡ some current
    pub id : current.id ≡ f.id
    pub secret : current.encrypted_secret ≡ f.encrypted_secret

  pub Effect-IsFactorOf :
      (user_id : String) (f : TotpFactor) (s s' : MfaStore)
      → IsFactorOf user_id f s
      → MfaEffect services s s'
      → IsFactorOf user_id f s'
  Effect-IsFactorOf user_id f s _ i unchanged = i
  Effect-IsFactorOf user_id f s _ i (recovered factor_id hash now) = record {
    current = i.current;
    found = i.found;
    id = i.id;
    secret = i.secret;
  }
  Effect-IsFactorOf user_id f s _ i (advanced g step later user_id' found) =
      let moved =
        find?-update_where (factor_of user_id) (factor_has_id g.id) (stepped step) (λ r. refl)
          s.totp_factors in
      elim (Bool-cases (factor_has_id g.id i.current)) [
        | inl hit ↦ record {
          current = stepped step i.current;
          found = ground (arith, moved, i.found);
          id = i.id;
          secret = i.secret;
        }
        | inr miss ↦ record {
          current = i.current;
          found = ground (arith, moved, i.found);
          id = i.id;
          secret = i.secret;
        }
      ]

  -- All rows of the factor have accepted `step` or a later one.
  abbrev pub IsBeyond : String → ℕ → TotpFactor → Type 0
  IsBeyond id step r = factor_has_id id r ≡ true → IsPast step r.last_accepted_time_step

  IsPast-later :
      (step next : ℕ) (last : Option ℕ) → IsPast step last → is_later next last ≡ true → step ≤ next
  IsPast-later step next none past later = absurd past
  IsPast-later step next (some last) past later = ground (arith, past)

  Effect-IsBeyond :
      (id : String) (step : ℕ) (s s' : MfaStore)
      → All (IsBeyond id step) s.totp_factors
      → MfaEffect services s s'
      → All (IsBeyond id step) s'.totp_factors
  Effect-IsBeyond id step s _ b unchanged = b
  Effect-IsBeyond id step s _ b (recovered factor_id hash now) = b
  Effect-IsBeyond id step s _ b (advanced g next later user_id found) =
      let own = find?-All (IsBeyond id step) (factor_of user_id) s.totp_factors {r = g} b found in
      All-update_where (IsBeyond id step) (factor_has_id g.id) (stepped next) s.totp_factors (
        All-map (IsBeyond id step)
          (λ r. IsBeyond id step (if factor_has_id g.id r then stepped next r else r))
          (λ r before. elim (Bool-cases (factor_has_id g.id r)) [
            | inl hit ↦ rw hit (λ same.
                IsPast-later step next g.last_accepted_time_step
                  (own (cc (same, (eq_iff r.id g.id).0 hit))) later)
            | inr miss ↦ rw miss before
          ])
          s.totp_factors b)

  pub run_mfa-IsFactorOf :
      (user_id : String) (f : TotpFactor) (cs : List MfaCall) (s : MfaStore)
      → IsFactorOf user_id f s
      → IsFactorOf user_id f (run_mfa services cs s)
  unfolding run_mfa
  run_mfa-IsFactorOf user_id f [] s i = i
  run_mfa-IsFactorOf user_id f (c ∷ cs) s i =
      run_mfa-IsFactorOf user_id f cs (perform_mfa services c s) (
        Effect-IsFactorOf user_id f s (perform_mfa services c s) i
          (perform_mfa-MfaEffect services c s))

  pub run_mfa-IsBeyond :
      (id : String) (step : ℕ) (cs : List MfaCall) (s : MfaStore)
      → All (IsBeyond id step) s.totp_factors
      → All (IsBeyond id step) (run_mfa services cs s).totp_factors
  unfolding run_mfa
  run_mfa-IsBeyond id step [] s b = b
  run_mfa-IsBeyond id step (c ∷ cs) s b =
      run_mfa-IsBeyond id step cs (perform_mfa services c s) (
        Effect-IsBeyond id step s (perform_mfa services c s) b (perform_mfa-MfaEffect services c s))

  Effect-IsUsedUp :
      (factor_id hash : String) (s s' : MfaStore)
      → IsUsedUp factor_id hash s.recovery_codes
      → MfaEffect services s s'
      → IsUsedUp factor_id hash s'.recovery_codes
  Effect-IsUsedUp factor_id hash s _ u unchanged = u
  Effect-IsUsedUp factor_id hash s _ u (advanced g step later user_id found) = u
  Effect-IsUsedUp factor_id hash s _ u (recovered factor_id' hash' now) =
      stays_used factor_id hash factor_id' hash' now s.recovery_codes u

  pub run_mfa-IsUsedUp :
      (factor_id hash : String) (cs : List MfaCall) (s : MfaStore)
      → IsUsedUp factor_id hash s.recovery_codes
      → IsUsedUp factor_id hash (run_mfa services cs s).recovery_codes
  unfolding run_mfa
  run_mfa-IsUsedUp factor_id hash [] s u = u
  run_mfa-IsUsedUp factor_id hash (c ∷ cs) s u =
      run_mfa-IsUsedUp factor_id hash cs (perform_mfa services c s) (
        Effect-IsUsedUp factor_id hash s (perform_mfa services c s) u
          (perform_mfa-MfaEffect services c s))
