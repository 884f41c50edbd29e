-- ===== src/Auth/Sessions/Revocation.antt =====
-- `revokeSession` of src/auth/authentication.repository.ts ends a session.
use public_parks.Prelude.{
  ℕ, String, ◌≡◌, refl, ap, ◌∙◌, subst, inl, inr, true, false, ◌&&◌, some, arith, str_eq, eq_iff,
  Bool-cases, any, All, All-of,
}
use public_parks.Errors.{authentication_failed}
use public_parks.Database.{err, find?-All, All-update_where}
use public_parks.Auth.Tables.{AuthStore, Fresh, is_active_token, is_active_session}
use public_parks.Auth.Digests.{SecretHash, hash_token}
use public_parks.Auth.Sessions.{
  of_session, revoked_token, TokenRow, token_row, rotate_refresh_token, revoke_session,
}
use public_parks.Auth.Sessions.Rotation.{token_row-token, token_row-session, rotate-spent}

-- No token of the session is active.
abbrev pub IsEnded : String → AuthStore → Type 0
IsEnded session_id s =
    All (λ t. of_session session_id t ≡ true → is_active_token t.refresh_token_status ≡ false)
      s.refresh_tokens

revoke_session-IsEnded :
    (session_id actor_user_id : String) (now : ℕ) (s s' : AuthStore)
    → revoke_session session_id actor_user_id now s ≡ (true, s')
    → IsEnded session_id s'
unfolding revoke_session
revoke_session-IsEnded session_id actor_user_id now s s' done =
    elim (Bool-cases (
      any
        (λ r.
          str_eq r.id session_id
          && (str_eq r.user_id actor_user_id && is_active_session r.session_status))
        s.sessions)) [
          | inr nobody ↦ absurd (cc (rw nobody at done))
          | inl mine ↦ subst (IsEnded session_id) (ap (λ out. out.1) (rw mine at done)) (
              All-update_where
                (λ t.
                  of_session session_id t ≡ true → is_active_token t.refresh_token_status ≡ false)
                (λ t. of_session session_id t && is_active_token t.refresh_token_status)
                revoked_token s.refresh_tokens (All-of _ (λ t. ground arith) s.refresh_tokens))
        ]

-- After a call of `revokeSession` that returns true, no refresh token of the session can be
-- rotated, at any time.
pub revoke_session-ends :
    (h : SecretHash) (fresh : Fresh) (session_id actor_user_id token : String) (now : ℕ)
    (s s' : AuthStore) (row : TokenRow)
    → revoke_session session_id actor_user_id now s ≡ (true, s')
    → token_row h token s' ≡ some row
    → row.session.id ≡ session_id
    → (rotate_refresh_token h fresh token s').0 ≡ err authentication_failed
revoke_session-ends h fresh session_id actor_user_id token now s s' row done found same =
    let ended = revoke_session-IsEnded session_id actor_user_id now s s' done in
    let status =
      find?-All
        (λ t. of_session session_id t ≡ true → is_active_token t.refresh_token_status ≡ false)
        (λ t. str_eq t.token_hash (hash_token h token)) s'.refresh_tokens {r = row.token} ended
        (token_row-token h token s' row found)
        ((eq_iff _ _).1 (token_row-session h token s' row found ∙ same)) in
    rw (rotate-spent h fresh token s' row found (rw status refl)) refl
