-- ===== src/Auth/Mfa/Acceptance.antt =====
-- `consumeSuperAdminMfa` of src/auth/authentication.repository.ts when a second factor is accepted.
use public_parks.Prelude.{String, ◌≡◌, ◌≢◌, none, List, All}
use public_parks.Auth.Mfa.{RecoveryCode}

-- A code of the factor with the hash has been used.
abbrev pub IsUsed : String → String → RecoveryCode → Type 0
IsUsed factor_id hash r = r.totp_factor_id ≡ factor_id → r.code_hash ≡ hash → r.used_at ≢ none

-- Every code of the factor with the hash has been used.
abbrev pub AllUsed : String → String → List RecoveryCode → Type 0
AllUsed factor_id hash = All (IsUsed factor_id hash)
