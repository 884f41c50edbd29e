-- ===== src/Auth/Sessions/Reuse.antt =====
-- What `rotateRefreshToken` of src/auth/authentication.repository.ts does against the reuse of a
-- refresh token.
use public_parks.Prelude.{ℕ, String, ◌≡◌, refl, true, false, some, arith, All, All-of}
use public_parks.Errors.{authentication_failed}
use public_parks.Database.{ok, err, All-update_where}
use public_parks.Auth.Tables.{
  RefreshTokenStatus, AuthenticationSessionStatus, AuthStore, SessionResult, Fresh,
}
use public_parks.Auth.Digests.{SecretHash}
use public_parks.Auth.Sessions.{
  of_session, session_has_id, revoked_token, revoked_session, rotated_token, TokenRow, token_row,
  is_spent, is_live, rotate_refresh_token,
}
use public_parks.Auth.Sessions.Rotation.{
  after_revocation, rotate-spent, rotation_result, after_rotation, row_after_rotation,
  rotate-IsRotation,
}

-- Every row of the session and every one of its refresh tokens is revoked.
pub record IsRevoked (session_id : String) (s : AuthStore) : Type 0 where
  pub sessions :
      All
        (λ r.
          session_has_id session_id r ≡ true
          → r.session_status ≡ AuthenticationSessionStatus.revoked)
        s.sessions
  pub tokens :
      All
        (λ t. of_session session_id t ≡ true → t.refresh_token_status ≡ RefreshTokenStatus.revoked)
        s.refresh_tokens

after_revocation-IsRevoked :
    (now : ℕ) (row : TokenRow) (s : AuthStore)
    → IsRevoked row.session.id (after_revocation now row s)
after_revocation-IsRevoked now row s = record {
  sessions =
      All-update_where _ (session_has_id row.session.id) (revoked_session now) s.sessions
        (All-of _ (λ r. ground arith) s.sessions);
  tokens =
      All-update_where _ (of_session row.session.id) revoked_token s.refresh_tokens
        (All-of _ (λ t. ground arith) s.refresh_tokens);
}

-- Presenting a refresh token that was rotated, revoked or has expired fails, and it revokes the
-- token's session and all of the session's tokens, which stays stored although the call throws.
pub rotate_refresh_token-reuse :
    (h : SecretHash) (fresh : Fresh) (token : String) (s : AuthStore) (row : TokenRow)
    → token_row h token s ≡ some row
    → is_spent fresh.now row ≡ true
    → ((rotate_refresh_token h fresh token s).0 ≡ err authentication_failed)
      × IsRevoked row.session.id (rotate_refresh_token h fresh token s).1
rotate_refresh_token-reuse h fresh token s row found spent =
    rw (rotate-spent h fresh token s row found spent)
      (refl, after_revocation-IsRevoked fresh.now row s)

-- A successful rotation presents a token that is active and unexpired, of an active and unexpired
-- session of an active user, and returns the user, session and client type of that session.
-- Whoever presents the same token again, at any time, is refused, and loses the session: all its
-- tokens, the new one included, are then revoked.
pub rotate_refresh_token-twice :
    (h : SecretHash) (fresh later : Fresh) (token : String) (s s' : AuthStore)
    (result : SessionResult)
    → rotate_refresh_token h fresh token s ≡ (ok result, s')
    → ((row : TokenRow) × (token_row h token s ≡ some row)
        × (is_spent fresh.now row ≡ false)
        × (is_live fresh.now row ≡ true)
        × (result ≡ rotation_result fresh row))
      × ((rotate_refresh_token h later token s').0 ≡ err authentication_failed)
      × IsRevoked result.session_id (rotate_refresh_token h later token s').1
rotate_refresh_token-twice h fresh later token s s' result done =
    let r = rotate-IsRotation h fresh token s s' result done in
    let again = row_after_rotation h fresh token s r.row r.found r.apart in
    let (failed, lost) =
      rotate_refresh_token-reuse h later token (after_rotation h fresh token s r.row r.found)
        (record (r.row) { token = rotated_token fresh.now (r.row).token }) again refl in
    (
      (r.row, r.found, r.unspent, r.live, r.answer),
      rw r.stored failed,
      rw (r.stored, r.answer) lost,
    )
