-- ===== src/Auth/Sessions.antt =====
-- src/auth/authentication.repository.ts: sessions and refresh tokens.
pub mod Rotation
pub mod Reuse
pub mod Renewal
pub mod Revocation
use public_parks.Prelude.{
  ℕ, ◌+◌, ◌*◌, String, Bool, true, false, not, ◌&&◌, ◌||◌, Option, none, some, ◌∷◌, str_eq, ltb,
  leb, if◌then◌else◌, any,
}
use public_parks.Errors.{Exception, authentication_failed}
use public_parks.Database.{
  Result, ok, err, Tx, ◌>>=◌, ◌>>◌, pure, raise, select, update, commit, insert_unless,
  in_transaction, find?, update_where,
}
use public_parks.Auth.Tables.{
  AuthenticationClientType, super_admin_web, AuthenticationSessionStatus, RefreshTokenStatus, User,
  AuthenticationSession, RefreshToken, AuthStore, is_active_session, is_active_token, SessionResult,
  Fresh,
}
use public_parks.Auth.Digests.{SecretHash, hash_token}

-- `REFRESH_TOKEN_LIFETIME_MS`, 30 days.
abbrev pub refresh_token_lifetime_ms : ℕ
refresh_token_lifetime_ms = 30 * 24 * 60 * 60 * 1000

abbrev pub guard : {S : Type 0} → Bool → Exception → Tx S (Unit {0})
guard true e = pure tt
guard false e = raise e

abbrev pub or_throw : {S A : Type 0} → Exception → Option A → Tx S A
or_throw e none = raise e
or_throw e (some a) = pure a

abbrev pub of_session : String → RefreshToken → Bool
of_session session_id t = str_eq t.authentication_session_id session_id

abbrev pub session_has_id : String → AuthenticationSession → Bool
session_has_id id s = str_eq s.id id

abbrev pub set_tokens :
    (RefreshToken → Bool) → (RefreshToken → RefreshToken) → AuthStore → AuthStore
set_tokens p f s = record s { refresh_tokens = update_where p f s.refresh_tokens }

abbrev pub set_sessions :
    (AuthenticationSession → Bool)
    → (AuthenticationSession → AuthenticationSession)
    → AuthStore
    → AuthStore
set_sessions p f s = record s { sessions = update_where p f s.sessions }

abbrev pub revoked_token : RefreshToken → RefreshToken
revoked_token t = record t { refresh_token_status = RefreshTokenStatus.revoked }

abbrev pub revoked_session : ℕ → AuthenticationSession → AuthenticationSession
revoked_session now s = record s {
  session_status = AuthenticationSessionStatus.revoked;
  revoked_at = some now;
}

abbrev pub rotated_token : ℕ → RefreshToken → RefreshToken
rotated_token now t = record t {
  refresh_token_status = RefreshTokenStatus.rotated;
  rotated_at = some now;
}

-- The row that `rotateRefreshToken` selects: the token joined with its session and user.
pub record TokenRow : Type 0 where
  pub token : RefreshToken
  pub session : AuthenticationSession
  pub user : User

-- A token that is not active any more, or has expired.
abbrev pub is_spent : ℕ → TokenRow → Bool
is_spent now row =
    not (is_active_token row.token.refresh_token_status) || leb row.token.expires_at now

abbrev pub is_live : ℕ → TokenRow → Bool
is_live now row =
    is_active_session row.session.session_status
    && (ltb now row.session.expires_at && row.user.is_active)

find_user : Option AuthenticationSession → RefreshToken → AuthStore → Option TokenRow
find_user none token s = none
find_user (some session) token s = elim (find? (λ u. str_eq u.id session.user_id) s.users) [
  | none ↦ none
  | some user ↦ some (record { token = token; session = session; user = user })
]

find_session : Option RefreshToken → AuthStore → Option TokenRow
unfolding find_user
find_session none s = none
find_session (some token) s =
    find_user (find? (session_has_id token.authentication_session_id) s.sessions) token s

-- The joined row of a token, by its hash.
unfoldable pub token_row : SecretHash → String → AuthStore → Option TokenRow
unfolding find_session
token_row h refresh_token s =
    find_session (find? (λ t. str_eq t.token_hash (hash_token h refresh_token)) s.refresh_tokens) s

module _ (h : SecretHash) (fresh : Fresh) where
  abbrev pub new_token : String → ℕ → RefreshToken
  new_token session_id expires_at = record {
    id = fresh.token_uuid;
    authentication_session_id = session_id;
    token_hash = hash_token h fresh.refresh_token;
    refresh_token_status = RefreshTokenStatus.active;
    expires_at = expires_at;
    rotated_at = none;
  }

  -- `insertRefreshToken`; the id and the token hash are unique.
  abbrev pub insert_refresh_token : String → ℕ → Tx AuthStore (Unit {0})
  insert_refresh_token session_id expires_at =
      insert_unless
        (λ s.
          any
            (λ t.
              str_eq t.id fresh.token_uuid
              || str_eq t.token_hash (hash_token h fresh.refresh_token))
            s.refresh_tokens)
        (λ s. record s { refresh_tokens = new_token session_id expires_at ∷ s.refresh_tokens })

  abbrev pub new_session : String → AuthenticationClientType → Option String → AuthenticationSession
  new_session user_id client_type device_name = record {
    id = fresh.session_uuid;
    user_id = user_id;
    client_type = client_type;
    session_status = AuthenticationSessionStatus.active;
    device_name = device_name;
    expires_at = fresh.now + refresh_token_lifetime_ms;
    revoked_at = none;
  }

  -- `insertSession`
  abbrev pub insert_session :
      String → AuthenticationClientType → Option String → Tx AuthStore SessionResult
  insert_session user_id client_type device_name = do
    insert_unless (λ s. any (session_has_id fresh.session_uuid) s.sessions)
        (λ s. record s { sessions = new_session user_id client_type device_name ∷ s.sessions })
    insert_refresh_token fresh.session_uuid (fresh.now + refresh_token_lifetime_ms)
    pure (record {
      user_id = user_id;
      session_id = fresh.session_uuid;
      client_type = client_type;
      refresh_token = fresh.refresh_token;
      refresh_token_expires_at = fresh.now + refresh_token_lifetime_ms;
    })

  -- `createSuperAdminSession`
  unfoldable pub create_super_admin_session : String → AuthStore → Result SessionResult × AuthStore
  create_super_admin_session user_id = in_transaction do
    session ← insert_session user_id super_admin_web (some "Super Admin Web")
    commit
    pure session

  -- `revokeSessionWithClient`
  abbrev pub revoke_session_with_client : String → Tx AuthStore (Unit {0})
  revoke_session_with_client session_id = do
    update (set_sessions (session_has_id session_id) (revoked_session fresh.now))
    update (set_tokens (of_session session_id) revoked_token)

  revoke_body : TokenRow → Tx AuthStore SessionResult
  revoke_body row = do
    revoke_session_with_client row.session.id
    commit
    raise authentication_failed

  rotate_body : TokenRow → Tx AuthStore SessionResult
  rotate_body row = do
    guard (is_live fresh.now row) authentication_failed
    update (set_tokens (λ t. str_eq t.id row.token.id) (rotated_token fresh.now))
    insert_refresh_token row.session.id (fresh.now + refresh_token_lifetime_ms)
    commit
    pure (record {
      user_id = row.session.user_id;
      session_id = row.session.id;
      client_type = row.session.client_type;
      refresh_token = fresh.refresh_token;
      refresh_token_expires_at = fresh.now + refresh_token_lifetime_ms;
    })

  -- `rotateRefreshToken`
  unfoldable pub rotate_refresh_token : String → AuthStore → Result SessionResult × AuthStore
  unfolding revoke_body rotate_body
  rotate_refresh_token refresh_token = in_transaction do
    found ← select (token_row h refresh_token)
    row ← or_throw authentication_failed found
    if is_spent fresh.now row then revoke_body row else rotate_body row

-- `getRefreshTokenContext`: the session of a token and its client type.
unfoldable pub get_refresh_token_context :
    SecretHash → String → AuthStore → Option (String × AuthenticationClientType)
get_refresh_token_context h refresh_token s =
    elim (find? (λ t. str_eq t.token_hash (hash_token h refresh_token)) s.refresh_tokens) [
      | none ↦ none
      | some t ↦ elim (find? (session_has_id t.authentication_session_id) s.sessions) [
        | none ↦ none
        | some session ↦ some (session.id, session.client_type)
      ]
    ]

-- `revokeSession`: whether a session of the actor was revoked.
unfoldable pub revoke_session :
    (session_id actor_user_id : String) → ℕ → AuthStore → Bool × AuthStore
revoke_session session_id actor_user_id now s =
    let mine = λ (r : AuthenticationSession).
      str_eq r.id session_id
      && (str_eq r.user_id actor_user_id && is_active_session r.session_status) in
    if any mine s.sessions
    then (
      true,
      set_tokens (λ t. of_session session_id t && is_active_token t.refresh_token_status)
          revoked_token (set_sessions mine (revoked_session now) s),
    )
    else (false, s)
