-- ===== src/Auth/Mfa/Effects.antt =====
-- Calls of `consumeSuperAdminMfa` of src/auth/authentication.repository.ts as steps of its tables.
use public_parks.Prelude.{
  ℕ, String, ◌≡◌, inl, inr, true, false, Option, none, some, List, [], ◌∷◌, arith, if◌then◌else◌,
  Bool-cases, Option-cases, any,
}
use public_parks.Database.{Result, ok, err, find?, update_where}
use public_parks.Auth.Mfa.{
  TotpFactor, MfaStore, MfaServices, is_totp_token, factor_of, factor_has_id, is_later, stepped,
  set_factors, is_unused, used_code, checked_step, accept_step, recovery_hash, accept_recovery,
  consume_super_admin_mfa,
}

-- A call: its time, the user and the code.
pub record MfaCall : Type 0 where
  pub now : ℕ
  pub user_id : String
  pub verification_code : String

module _ (services : MfaServices) where
  unfoldable pub perform_mfa : MfaCall → MfaStore → MfaStore
  perform_mfa c s = (consume_super_admin_mfa services c.now c.user_id c.verification_code s).1

  unfoldable pub run_mfa : List MfaCall → MfaStore → MfaStore
  unfolding perform_mfa
  run_mfa [] s = s
  run_mfa (c ∷ cs) s = run_mfa cs (perform_mfa c s)

  -- What a call does to the tables.
  pub data MfaEffect (s : MfaStore) : MfaStore → Type 0 where
    unchanged : MfaEffect s s
    advanced :
        (f : TotpFactor) (step : ℕ)
        → is_later step f.last_accepted_time_step ≡ true
        → (user_id : String) → find? (factor_of user_id) s.totp_factors ≡ some f
        → MfaEffect s (set_factors (factor_has_id f.id) (stepped step) s)
    recovered :
        (factor_id hash : String) (now : ℕ)
        → MfaEffect s (record s {
          recovery_codes = update_where (is_unused factor_id hash) (used_code now) s.recovery_codes;
        })

  accept_step-MfaEffect :
      (now : ℕ) (user_id : String) (f : TotpFactor) (checked : Result (Option ℕ)) (s : MfaStore)
      → find? (factor_of user_id) s.totp_factors ≡ some f
      → MfaEffect s (accept_step services now f checked s).1
  unfolding accept_step
  accept_step-MfaEffect now user_id f (err e) s found = unchanged
  accept_step-MfaEffect now user_id f (ok none) s found = unchanged
  accept_step-MfaEffect now user_id f (ok (some step)) s found =
      elim (Bool-cases (is_later step f.last_accepted_time_step)) [
        | inl later ↦ rw later (advanced f step later user_id found)
        | inr earlier ↦ rw earlier unchanged
      ]

  accept_recovery-MfaEffect :
      (now : ℕ) (f : TotpFactor) (verification_code : String) (s : MfaStore)
      → MfaEffect s (accept_recovery services now f verification_code s).1
  unfolding accept_recovery
  accept_recovery-MfaEffect now f verification_code s =
      elim (Bool-cases
        (any (is_unused f.id (recovery_hash services now verification_code)) s.recovery_codes)) [
          | inl there ↦ rw there (recovered f.id (recovery_hash services now verification_code) now)
          | inr gone ↦ rw gone unchanged
        ]

  -- What a call computes, given the user's factor.
  pub consume-found :
      (now : ℕ) (user_id verification_code : String) (s : MfaStore) (f : TotpFactor)
      → find? (factor_of user_id) s.totp_factors ≡ some f
      → consume_super_admin_mfa services now user_id verification_code s ≡ (
          if is_totp_token verification_code
          then accept_step services now f (checked_step services now f verification_code) s
          else accept_recovery services now f verification_code s)
  unfolding consume_super_admin_mfa
  consume-found now user_id verification_code s f found = ground arith

  pub consume-missing :
      (now : ℕ) (user_id verification_code : String) (s : MfaStore)
      → find? (factor_of user_id) s.totp_factors ≡ none
      → consume_super_admin_mfa services now user_id verification_code s ≡ (ok false, s)
  unfolding consume_super_admin_mfa
  consume-missing now user_id verification_code s missing = ground arith

  pub consume-MfaEffect :
      (now : ℕ) (user_id verification_code : String) (s : MfaStore)
      → MfaEffect s (consume_super_admin_mfa services now user_id verification_code s).1
  consume-MfaEffect now user_id verification_code s =
      elim (Option-cases (find? (factor_of user_id) s.totp_factors)) [
        | inl missing ↦ rw (consume-missing now user_id verification_code s missing) unchanged
        | inr (f, found) ↦
            rw (consume-found now user_id verification_code s f found)
              (elim (Bool-cases (is_totp_token verification_code)) [
                | inl token ↦ rw token (
                    accept_step-MfaEffect now user_id f
                      (checked_step services now f verification_code) s found)
                | inr recovery ↦ rw recovery (accept_recovery-MfaEffect now f verification_code s)
              ])
      ]

  pub perform_mfa-MfaEffect : (c : MfaCall) (s : MfaStore) → MfaEffect s (perform_mfa c s)
  unfolding perform_mfa
  perform_mfa-MfaEffect c s = consume-MfaEffect c.now c.user_id c.verification_code s
