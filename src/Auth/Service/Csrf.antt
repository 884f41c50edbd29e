-- ===== src/Auth/Service/Csrf.antt =====
-- The CSRF token of administrators, in src/auth/authentication.service.ts.
use public_parks.Auth.Digests.{hash_csrf, is_equal}
use public_parks.Auth.Service.{
  AuthState, AuthServices, Draws, is_client, admin_context, refresh_super_admin_session,
}
use public_parks.Auth.Sessions.{get_refresh_token_context, rotate_refresh_token}
use public_parks.Auth.Tables.{
  AuthenticationClientType, resident_mobile, super_admin_web, city_admin_web, gate_worker_mobile,
}
use public_parks.Database.{ok, err}
use public_parks.Database.Results.{Result-cases}
use public_parks.Errors.{authentication_failed}
use public_parks.Prelude.{
  String, ◌≡◌, refl, ap, ◌⊎◌, inl, inr, true, Option, none, some, Bool-cases,
}

super_admin_only :
    (c : AuthenticationClientType) → is_client c super_admin_web ≡ true → c ≡ super_admin_web
super_admin_only resident_mobile h = cc
super_admin_only super_admin_web h = refl
super_admin_only city_admin_web h = cc
super_admin_only gate_worker_mobile h = cc

module _ (a : AuthServices) (draws : Draws) where
  admin_context-cases :
      (context : Option (String × AuthenticationClientType)) (refresh_token csrf_token : String)
      → (admin_context a draws context refresh_token csrf_token ≡ err authentication_failed)
        ⊎ ((session_id : String) × (context ≡ some (session_id, super_admin_web))
            × (is_equal a.mfa_services.hashes
                  (hash_csrf a.mfa_services.hashes session_id refresh_token)
                  csrf_token
                ≡ true)
            × (admin_context a draws context refresh_token csrf_token ≡ ok tt))
  unfolding admin_context
  admin_context-cases none refresh_token csrf_token = inl refl
  admin_context-cases (some (session_id, client)) refresh_token csrf_token =
      let hashes = a.mfa_services.hashes in
      elim (Bool-cases (is_client client super_admin_web)) [
        | inr other ↦ inl (rw other)
        | inl admin ↦
            elim (Bool-cases
              (is_equal hashes (hash_csrf hashes session_id refresh_token) csrf_token)) [
                | inr wrong ↦ inl (rw (admin, wrong))
                | inl right ↦ inr (
                  session_id,
                  ap (λ c. some (session_id, c)) (super_admin_only client admin),
                  right,
                  rw (admin, right),
                )
              ]
      ]

  -- A refresh of an administrator's session is refused and changes nothing, so that it does not
  -- count as a use of the refresh token either, unless the token is one of a session of the super
  -- admin's client and the CSRF token is the hash of that session and the refresh token; then the
  -- refresh token is rotated.
  pub refresh_super_admin_session-cases :
      (refresh_token csrf_token : String) (s : AuthState)
      → (refresh_super_admin_session a draws refresh_token csrf_token s
          ≡ (err authentication_failed, s))
        ⊎ ((session_id : String) × (get_refresh_token_context a.mfa_services.hashes refresh_token
                s.store
              ≡ some (session_id, super_admin_web))
            × (is_equal a.mfa_services.hashes
                  (hash_csrf a.mfa_services.hashes session_id refresh_token)
                  csrf_token
                ≡ true)
            × ((refresh_super_admin_session a draws refresh_token csrf_token s).1.store
                ≡ (rotate_refresh_token a.mfa_services.hashes draws.fresh refresh_token s.store).1))
  unfolding refresh_super_admin_session
  refresh_super_admin_session-cases refresh_token csrf_token s =
      let hashes = a.mfa_services.hashes in
      elim (admin_context-cases (get_refresh_token_context hashes refresh_token s.store)
        refresh_token csrf_token) [
          | inl refused ↦ inl (rw refused)
          | inr (session_id, context, right, admitted) ↦
              elim (Result-cases
                ((rotate_refresh_token hashes draws.fresh refresh_token s.store).0)) [
                  | inl (session, rotated) ↦
                      inr (session_id, context, right, rw (admitted, rotated))
                  | inr (e, failed) ↦ inr (session_id, context, right, rw (admitted, failed))
                ]
        ]
