-- ===== src/Auth/Sessions/Rotation.antt =====
-- Rotation and reuse of refresh tokens, `rotateRefreshToken` of
-- src/auth/authentication.repository.ts.
use public_parks.Prelude.{
  ℕ, ◌+◌, String, ◌≡◌, refl, sym, ◌∙◌, inl, inr, Bool, true, false, ◌||◌, none, some, ◌∷◌, arith,
  str_eq, eq_iff, eq_refl, if◌then◌else◌, Bool-cases, Option-cases, any,
}
use public_parks.Errors.{authentication_failed}
use public_parks.Database.{
  ok, err, find?, find?-sound, find?-All, find?-update_where, update_where, unique_violation,
  any-false→All,
}
use public_parks.Auth.Tables.{AuthStore, SessionResult, Fresh}
use public_parks.Auth.Digests.{SecretHash, hash_token}
use public_parks.Auth.Sessions.{
  of_session, session_has_id, set_tokens, set_sessions, revoked_token, revoked_session,
  rotated_token, new_token, TokenRow, token_row, is_spent, is_live, rotate_refresh_token,
  refresh_token_lifetime_ms,
}

pub token_row-token :
    (h : SecretHash) (token : String) (s : AuthStore) (row : TokenRow)
    → token_row h token s ≡ some row
    → find? (λ t. str_eq t.token_hash (hash_token h token)) s.refresh_tokens ≡ some row.token
unfolding token_row
token_row-token h token s row found = ground arith

pub token_row-found_session :
    (h : SecretHash) (token : String) (s : AuthStore) (row : TokenRow)
    → token_row h token s ≡ some row
    → find? (session_has_id row.token.authentication_session_id) s.sessions ≡ some row.session
unfolding token_row
token_row-found_session h token s row found = ground arith

pub token_row-user :
    (h : SecretHash) (token : String) (s : AuthStore) (row : TokenRow)
    → token_row h token s ≡ some row
    → find? (λ u. str_eq u.id row.session.user_id) s.users ≡ some row.user
unfolding token_row
token_row-user h token s row found = ground arith

pub token_row-session :
    (h : SecretHash) (token : String) (s : AuthStore) (row : TokenRow)
    → token_row h token s ≡ some row
    → row.token.authentication_session_id ≡ row.session.id
token_row-session h token s row found = sym (
    (eq_iff row.session.id row.token.authentication_session_id).0 (
      find?-sound (session_has_id row.token.authentication_session_id) s.sessions {r = row.session}
        (token_row-found_session h token s row found)))

-- The tables after the session of a row was revoked with all its tokens.
abbrev pub after_revocation : ℕ → TokenRow → AuthStore → AuthStore
after_revocation now row s =
    set_tokens (of_session row.session.id) revoked_token
      (set_sessions (session_has_id row.session.id) (revoked_session now) s)

abbrev pub rotation_result : Fresh → TokenRow → SessionResult
rotation_result fresh row = record {
  user_id = row.session.user_id;
  session_id = row.session.id;
  client_type = row.session.client_type;
  refresh_token = fresh.refresh_token;
  refresh_token_expires_at = fresh.now + refresh_token_lifetime_ms;
}

module _ (h : SecretHash) (fresh : Fresh) (token : String) (s : AuthStore) (row : TokenRow)
    (found : token_row h token s ≡ some row) where
  pub rotate-spent :
      is_spent fresh.now row ≡ true
      → rotate_refresh_token h fresh token s
        ≡ (err authentication_failed, after_revocation fresh.now row s)
  unfolding rotate_refresh_token
  rotate-spent spent = ground arith

  pub rotate-dead :
      is_spent fresh.now row ≡ false
      → is_live fresh.now row ≡ false
      → rotate_refresh_token h fresh token s ≡ (err authentication_failed, s)
  unfolding rotate_refresh_token
  rotate-dead unspent dead = ground arith

  -- The tables after a rotation.
  abbrev pub after_rotation : AuthStore
  after_rotation = record s {
    refresh_tokens =
        new_token h fresh row.session.id (fresh.now + refresh_token_lifetime_ms)
        ∷ update_where (λ t. str_eq t.id row.token.id) (rotated_token fresh.now) s.refresh_tokens;
  }

  -- The new token's id or hash is taken.
  abbrev pub taken : Bool
  taken =
      any
        (λ t.
          str_eq t.id fresh.token_uuid || str_eq t.token_hash (hash_token h fresh.refresh_token))
        (update_where (λ t. str_eq t.id row.token.id) (rotated_token fresh.now) s.refresh_tokens)

  pub rotate-live :
      is_spent fresh.now row ≡ false
      → is_live fresh.now row ≡ true
      → rotate_refresh_token h fresh token s ≡ (
          if taken
          then (err unique_violation, s)
          else (ok (rotation_result fresh row), after_rotation))
  unfolding rotate_refresh_token
  rotate-live unspent live = elim (Bool-cases taken) [
    | inl hit ↦ ground arith
    | inr apart ↦ ground arith
  ]

  old_token_after :
      find?
        (λ t. str_eq t.token_hash (hash_token h token))
        (update_where (λ t. str_eq t.id row.token.id) (rotated_token fresh.now) s.refresh_tokens)
      ≡ some (rotated_token fresh.now row.token)
  old_token_after =
      find?-update_where (λ t. str_eq t.token_hash (hash_token h token))
        (λ t. str_eq t.id row.token.id) (rotated_token fresh.now) (λ t. refl) s.refresh_tokens
      ∙ rw (token_row-token h token s row found, eq_refl row.token.id)

  new_hash : taken ≡ false → str_eq (hash_token h fresh.refresh_token) (hash_token h token) ≡ false
  new_hash apart =
      let stale =
        find?-All
          (λ t.
            (str_eq t.id fresh.token_uuid || str_eq t.token_hash (hash_token h fresh.refresh_token))
            ≡ false)
          (λ t. str_eq t.token_hash (hash_token h token)) _ (any-false→All _ _ apart)
          old_token_after in
      ground (
        arith,
        stale,
        find?-sound (λ t. str_eq t.token_hash (hash_token h token)) s.refresh_tokens {r = row.token}
            (token_row-token h token s row found),
        eq_iff row.token.token_hash (hash_token h token),
        eq_iff row.token.token_hash (hash_token h fresh.refresh_token),
        eq_iff (hash_token h fresh.refresh_token) (hash_token h token),
      )

  -- The token that was presented is found again as rotated.
  pub row_after_rotation :
      taken ≡ false
      → token_row h token after_rotation
        ≡ some (record row { token = rotated_token fresh.now row.token })
  unfolding token_row
  row_after_rotation apart =
      ground (arith, new_hash apart, old_token_after, token_row-token h token s row found)

module _ (h : SecretHash) (fresh : Fresh) (token : String) (s s' : AuthStore)
    (result : SessionResult) where
  -- What a successful rotation found.
  pub record IsRotation : Type 0 where
    pub row : TokenRow
    pub found : token_row h token s ≡ some row
    pub unspent : is_spent fresh.now row ≡ false
    pub live : is_live fresh.now row ≡ true
    pub apart : taken h fresh token s row found ≡ false
    pub answer : result ≡ rotation_result fresh row
    pub stored : s' ≡ after_rotation h fresh token s row found

  unknown_token :
      token_row h token s ≡ none
      → rotate_refresh_token h fresh token s ≡ (err authentication_failed, s)
  unfolding rotate_refresh_token
  unknown_token missing = ground arith

  module _ (done : rotate_refresh_token h fresh token s ≡ (ok result, s')) where
    pub rotate-IsRotation : IsRotation
    rotate-IsRotation = elim (Option-cases (token_row h token s)) [
      | inl missing ↦ absurd (cc (done, unknown_token missing))
      | inr (row, found) ↦ elim (Bool-cases (is_spent fresh.now row)) [
        | inl spent ↦ absurd (cc (done, rotate-spent h fresh token s row found spent))
        | inr unspent ↦ elim (Bool-cases (is_live fresh.now row)) [
          | inr dead ↦ absurd (cc (done, rotate-dead h fresh token s row found unspent dead))
          | inl live ↦ accepted row found unspent live
        ]
      ]
    ]
      where
        accepted :
            (row : TokenRow) (found : token_row h token s ≡ some row)
            → is_spent fresh.now row ≡ false
            → is_live fresh.now row ≡ true
            → IsRotation
        accepted row found unspent live = elim (Bool-cases (taken h fresh token s row found)) [
          | inl hit ↦
              absurd (cc (done, rw hit at (rotate-live h fresh token s row found unspent live)))
          | inr apart ↦
              let out = rw apart at (rotate-live h fresh token s row found unspent live) in
              record {
                row = row;
                found = found;
                unspent = unspent;
                live = live;
                apart = apart;
                answer = ground (arith, out);
                stored = ground (arith, out);
              }
        ]
