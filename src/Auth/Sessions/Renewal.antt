-- ===== src/Auth/Sessions/Renewal.antt =====
-- A refresh token that `rotateRefreshToken` of src/auth/authentication.repository.ts accepts is
-- replaced by one that works.
use public_parks.Prelude.{
  ℕ, ◌+◌, ◌<◌, String, ◌≡◌, refl, ap, ◌∙◌, Bool, true, false, not, ◌||◌, some, arith, str_eq,
  eq_refl, any,
}
use public_parks.Database.{ok, find?, any-update_where}
use public_parks.Auth.Tables.{
  AuthenticationSessionStatus, RefreshTokenStatus, AuthStore, Fresh, SessionResult,
}
use public_parks.Auth.Digests.{SecretHash, hash_token}
use public_parks.Auth.Sessions.{
  rotated_token, new_token, TokenRow, token_row, is_spent, is_live, rotate_refresh_token,
  session_has_id,
}
use public_parks.Auth.Sessions.Rotation.{
  token_row-session, token_row-found_session, token_row-user, rotate-live, rotation_result,
  after_rotation, taken, row_after_rotation,
}

-- No token of the table has the new token's id or hash.
abbrev pub is_new : SecretHash → Fresh → AuthStore → Bool
is_new h fresh s = not (
    any
      (λ t. str_eq t.id fresh.token_uuid || str_eq t.token_hash (hash_token h fresh.refresh_token))
      s.refresh_tokens)

not-true : (b : Bool) → not b ≡ true → b ≡ false
not-true b h = ground arith

-- The row that a token has is unspent until `expires_at`, and its session and user are the given
-- row's.
pub record IsRenewed (h : SecretHash) (token : String) (row : TokenRow) (expires_at : ℕ)
    (s : AuthStore) : Type 0 where
  pub renewed : TokenRow
  pub found : token_row h token s ≡ some renewed
  pub status : renewed.token.refresh_token_status ≡ RefreshTokenStatus.active
  pub expires : renewed.token.expires_at ≡ expires_at
  pub session : renewed.session ≡ row.session
  pub user : renewed.user ≡ row.user

module _ (h : SecretHash) (fresh : Fresh) (token : String) (s : AuthStore) (row : TokenRow)
    (found : token_row h token s ≡ some row) where
  free-taken : is_new h fresh s ≡ true → taken h fresh token s row found ≡ false
  free-taken free =
      any-update_where
        (λ t.
          str_eq t.id fresh.token_uuid || str_eq t.token_hash (hash_token h fresh.refresh_token))
        (λ t. str_eq t.id row.token.id) (rotated_token fresh.now) (λ t. refl) s.refresh_tokens
      ∙ not-true _ free

  rotated :
      is_spent fresh.now row ≡ false
      → is_live fresh.now row ≡ true
      → is_new h fresh s ≡ true
      → rotate_refresh_token h fresh token s
        ≡ (ok (rotation_result fresh row), after_rotation h fresh token s row found)
  rotated unspent live free =
      rotate-live h fresh token s row found unspent live ∙ (rw (free-taken free) refl)

  new_row :
      token_row h fresh.refresh_token (after_rotation h fresh token s row found)
      ≡ some (record row { token = new_token h fresh row.session.id (fresh.now + 2592000000) })
  unfolding token_row
  new_row =
      let own = token_row-session h token s row found in
      let here : find? (session_has_id row.session.id) s.sessions ≡ some row.session =
        rw own at (token_row-found_session h token s row found) in
      ground (
        arith,
        eq_refl (hash_token h fresh.refresh_token),
        here,
        token_row-user h token s row found,
      )

-- A presented refresh token that is active and unexpired, of an active and unexpired session of an
-- active user, where the new token's id and hash are new: the call returns the user, session and
-- client type of the found row and the new token. Afterwards the presented token is stored as
-- rotated, and the new one is found active, for 30 days from now, with the same session and user.
-- Until it or the session expires, presenting the new token succeeds in turn for the same session,
-- given a new id and hash.
pub rotate_refresh_token-renews :
    (h : SecretHash) (fresh : Fresh) (token : String) (s : AuthStore) (row : TokenRow)
    → token_row h token s ≡ some row
    → row.token.refresh_token_status ≡ RefreshTokenStatus.active
    → fresh.now < row.token.expires_at
    → row.session.session_status ≡ AuthenticationSessionStatus.active
    → fresh.now < row.session.expires_at
    → row.user.is_active ≡ true
    → is_new h fresh s ≡ true
    → (result : SessionResult) × (s' : AuthStore) × (rotate_refresh_token h fresh token s
        ≡ (ok result, s'))
      × (result.user_id ≡ row.session.user_id)
      × (result.session_id ≡ row.session.id)
      × (result.client_type ≡ row.session.client_type)
      × (result.refresh_token ≡ fresh.refresh_token)
      × ((old : TokenRow) × (token_row h token s' ≡ some old)
          × (old.token.refresh_token_status ≡ RefreshTokenStatus.rotated)
          × (old.token.rotated_at ≡ some fresh.now))
      × IsRenewed h result.refresh_token row (fresh.now + 2592000000) s'
      × ((later : Fresh)
          → later.now < fresh.now + 2592000000
          → later.now < row.session.expires_at
          → is_new h later s' ≡ true
          → (again : SessionResult) × ((rotate_refresh_token h later result.refresh_token s').0
              ≡ ok again)
            × (again.session_id ≡ row.session.id)
            × (again.refresh_token ≡ later.refresh_token))
rotate_refresh_token-renews h fresh token s row found unspent early open_session standing
      active_user free =
    let apart = free-taken h fresh token s row found free in
    let s' = after_rotation h fresh token s row found in
    let next = new_row h fresh token s row found in
    (
      rotation_result fresh row,
      s',
      rotated h fresh token s row found (ground arith) (ground arith) free,
      refl,
      refl,
      refl,
      refl,
      (
        record row { token = rotated_token fresh.now row.token },
        row_after_rotation h fresh token s row found apart,
        refl,
        refl,
      ),
      record {
        renewed = _;
        found = next;
        status = refl;
        expires = refl;
        session = refl;
        user = refl;
      },
      λ later early' standing' free'. (
        rotation_result later row,
        ap (λ out. out.0)
            (rotated h later fresh.refresh_token s' _ next (ground arith) (ground arith) free'),
        refl,
        refl,
      ),
    )
