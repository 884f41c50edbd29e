-- ===== src/Auth/Guards.antt =====
-- The three global guards in the order of src/auth/auth.module.ts: access-token.guard.ts,
-- authentication.guard.ts and permissions.guard.ts, with authenticated-actor.context.ts, and the
-- query of the actor in src/auth/authentication.repository.ts.
pub mod Headers
pub mod Admission
use public_parks.Auth.AccessTokens.{Jose, KeyRing, VerifiedAccessToken, verify_access_token}
use public_parks.Auth.Guards.Headers.{bearer_token}
use public_parks.Auth.Tables.{
  AuthenticationClientType, resident_mobile, super_admin_web, city_admin_web, gate_worker_mobile,
  User, AuthenticationSession, AuthStore, is_active_session,
}
use public_parks.Database.{Result, ok, err, find?}
use public_parks.Database.Order.{filter}
use public_parks.Database.Results.{and_then, or_err}
use public_parks.Errors.{
  Exception, ErrorCode, raised, authentication_failed, authentication_required,
}
use public_parks.Prelude.{
  ℕ, String, Bool, true, false, ◌&&◌, Option, none, some, List, [], ◌∷◌, map, str_eq, ltb,
  if◌then◌else◌, any,
}

-- `AuthenticatedActor`
pub record AuthenticatedActor : Type 0 where
  pub actor_id : String
  pub session_id : String
  pub client_type : AuthenticationClientType
  pub role_codes : List String
  pub permission_codes : List String

-- A row of `roles`
pub record Role : Type 0 where
  pub id : String
  pub code : String
  pub is_active : Bool

-- A row of `permissions`
pub record Permission : Type 0 where
  pub id : String
  pub code : String

-- The tables of the roles: `roles`, `permissions`, and the pairs of ids of `user_roles` and
-- `role_permissions`.
pub record RoleStore : Type 0 where
  pub roles : List Role
  pub permissions : List Permission
  pub user_roles : List (String × String)
  pub role_permissions : List (String × String)

abbrev pub same_client : AuthenticationClientType → AuthenticationClientType → Bool
same_client resident_mobile resident_mobile = true
same_client super_admin_web super_admin_web = true
same_client city_admin_web city_admin_web = true
same_client gate_worker_mobile gate_worker_mobile = true
same_client _ _ = false

abbrev pub includes : List String → String → Bool
includes xs x = any (str_eq x) xs

-- `DISTINCT`; the codes are only asked whether they include one.
unfoldable pub distinct : List String → List String
distinct [] = []
distinct (x ∷ xs) = let rest = distinct xs in if includes rest x then rest else x ∷ rest

-- `roles r ON r.id = ur.role_id AND r.is_active` for the roles of a user.
unfoldable pub roles_of : String → RoleStore → List Role
roles_of user_id s =
    filter (λ r. r.is_active && any (λ ur. str_eq ur.0 user_id && str_eq ur.1 r.id) s.user_roles)
      s.roles

-- The permissions of those roles.
unfoldable pub permissions_of : String → RoleStore → List Permission
unfolding roles_of
permissions_of user_id s =
    filter
      (λ p.
        any (λ rp. str_eq rp.1 p.id && any (λ r. str_eq r.id rp.0) (roles_of user_id s))
          s.role_permissions)
      s.permissions

abbrev pub live_session :
    (user_id session_id : String) → AuthenticationClientType → ℕ → AuthenticationSession → Bool
live_session user_id session_id client_type now s =
    str_eq s.id session_id
    && (str_eq s.user_id user_id
        && (same_client s.client_type client_type
            && (is_active_session s.session_status && ltb now s.expires_at)))

abbrev pub active_user : String → User → Bool
active_user id u = str_eq u.id id && u.is_active

unfoldable pub actor_of :
    (user_id session_id : String) → AuthenticationClientType → RoleStore → AuthenticatedActor
unfolding distinct roles_of permissions_of
actor_of user_id session_id client_type roles = record {
  actor_id = user_id;
  session_id = session_id;
  client_type = client_type;
  role_codes = distinct (map (λ r. r.code) (roles_of user_id roles));
  permission_codes = distinct (map (λ p. p.code) (permissions_of user_id roles));
}

-- `getAuthenticatedActor` of the repository
unfoldable pub get_authenticated_actor :
    (user_id session_id : String)
    → AuthenticationClientType
    → ℕ
    → AuthStore
    → RoleStore
    → Option AuthenticatedActor
unfolding actor_of
get_authenticated_actor user_id session_id client_type now s roles =
    if any (live_session user_id session_id client_type now) s.sessions
      && any (active_user user_id) s.users
    then some (actor_of user_id session_id client_type roles)
    else none

-- The `Authorization` header: absent, one text, or several.
pub data Authorization : Type 0 where
  absent several : Authorization
  one : String → Authorization

-- A request: its header, and whether its route is public and what permissions it requires.
pub record Request : Type 0 where
  pub authorization : Authorization
  pub is_public : Bool
  pub required : List String

-- The tables and the tokens that the guards read.
pub record GuardContext : Type 0 where
  pub jose : Jose
  pub ring : KeyRing
  pub store : AuthStore
  pub roles : RoleStore
  pub now : ℕ

module _ (g : GuardContext) where
  unfoldable pub actor_of_claims : VerifiedAccessToken → Result AuthenticatedActor
  unfolding get_authenticated_actor
  actor_of_claims claims = or_err authentication_failed (
      get_authenticated_actor claims.user_id claims.session_id claims.client_type g.now g.store
        g.roles)

  -- `AccessTokenGuard.canActivate`: the actor that it assigns to the request, if any.
  unfoldable pub access_token_guard : Authorization → Result (Option AuthenticatedActor)
  unfolding bearer_token verify_access_token actor_of_claims
  access_token_guard absent = ok none
  access_token_guard several = err authentication_failed
  access_token_guard (one header) =
      and_then (or_err authentication_failed (bearer_token header)) (λ token.
        and_then (verify_access_token g.jose g.ring token g.now)
          (λ claims. and_then (actor_of_claims claims) (λ actor. ok (some actor))))

  -- `AuthenticationGuard.canActivate`
  unfoldable pub authentication_guard : Bool → Option AuthenticatedActor → Result Bool
  authentication_guard true actor = ok true
  authentication_guard false (some actor) = ok true
  authentication_guard false none = err authentication_required

  abbrev pub permission_denied : Exception
  permission_denied = raised ErrorCode.permission_denied "Permission denied."

  abbrev pub every_included : List String → List String → Bool
  every_included codes [] = true
  every_included codes (r ∷ required) = includes codes r && every_included codes required

  unfoldable pub is_permitted : List String → Option AuthenticatedActor → Bool
  is_permitted required none = false
  is_permitted required (some actor) =
      same_client actor.client_type super_admin_web
      && (includes actor.role_codes "super_admin" && every_included actor.permission_codes required)

  -- `PermissionsGuard.canActivate`
  unfoldable pub permissions_guard : List String → Option AuthenticatedActor → Result Bool
  unfolding is_permitted
  permissions_guard [] actor = ok true
  permissions_guard (r ∷ required) actor =
      if is_permitted (r ∷ required) actor then ok true else err permission_denied

  -- The guards of a request, in their order: the actor of an admitted request.
  unfoldable pub admit : Request → Result (Option AuthenticatedActor)
  unfolding access_token_guard authentication_guard permissions_guard
  admit request = and_then (access_token_guard request.authorization) (λ actor.
      and_then (authentication_guard request.is_public actor)
        (λ _. and_then (permissions_guard request.required actor) (λ _. ok actor)))
