-- ===== src/Auth/Guards/Admission.antt =====
-- Who passes the guards of src/auth.
use public_parks.Auth.AccessTokens.{VerifiedAccessToken, verify_access_token}
use public_parks.Auth.Guards.Headers.{bearer_token}
use public_parks.Auth.Guards.{
  AuthenticatedActor, Request, GuardContext, Authorization, absent, several, one, includes,
  every_included, is_permitted, same_client, live_session, active_user, actor_of,
  get_authenticated_actor, actor_of_claims, access_token_guard, authentication_guard,
  permissions_guard, admit,
}
use public_parks.Auth.Tables.{
  AuthenticationClientType, resident_mobile, super_admin_web, city_admin_web, gate_worker_mobile,
}
use public_parks.Database.{ok}
use public_parks.Database.Results.{Result-cases}
use public_parks.Prelude.{
  ◌≤◌, String, ◌≡◌, refl, sym, ap, ◌∙◌, inl, inr, Bool, true, false, Option, none, some, List, [],
  ◌∷◌, arith, Bool-cases, &&-eq-true, Option-cases, length, any,
}

super_admin_client :
    (c : AuthenticationClientType) → same_client c super_admin_web ≡ true → c ≡ super_admin_web
super_admin_client resident_mobile h = cc
super_admin_client super_admin_web h = refl
super_admin_client city_admin_web h = cc
super_admin_client gate_worker_mobile h = cc

module _ (g : GuardContext) where
  -- An actor that a token of the request stands for, in a live session of an active user.
  pub record IsGenuine (request : Request) (actor : AuthenticatedActor) : Type 0 where
    pub header : String
    pub token : String
    pub claims : VerifiedAccessToken
    pub sent : request.authorization ≡ one header
    pub bearer : bearer_token header ≡ some token
    pub verified : verify_access_token g.jose g.ring token g.now ≡ ok claims
    pub live :
        any
          (live_session claims.user_id claims.session_id claims.client_type g.now)
          g.store.sessions
        ≡ true
    pub active : any (active_user claims.user_id) g.store.users ≡ true
    pub loaded : actor ≡ actor_of claims.user_id claims.session_id claims.client_type g.roles

  actor_of_claims-cases :
      (claims : VerifiedAccessToken) (actor : AuthenticatedActor)
      → actor_of_claims g claims ≡ ok actor
      → (any
            (live_session claims.user_id claims.session_id claims.client_type g.now)
            g.store.sessions
          ≡ true)
        × (any (active_user claims.user_id) g.store.users ≡ true)
        × (actor ≡ actor_of claims.user_id claims.session_id claims.client_type g.roles)
  unfolding actor_of_claims get_authenticated_actor
  actor_of_claims-cases claims actor h =
      elim (Bool-cases (
        any (live_session claims.user_id claims.session_id claims.client_type g.now)
          g.store.sessions)) [
            | inr dead ↦ absurd (cc (rw dead at h))
            | inl live ↦ elim (Bool-cases (any (active_user claims.user_id) g.store.users)) [
              | inr inactive ↦ absurd (cc (rw (live, inactive) at h))
              | inl active ↦ (live, active, ground (arith, rw (live, active) at h))
            ]
          ]

  access_token_guard-one :
      (header : String) (actor : AuthenticatedActor)
      → access_token_guard g (one header) ≡ ok (some actor)
      → (token : String) × (claims : VerifiedAccessToken) × (bearer_token header ≡ some token)
        × (verify_access_token g.jose g.ring token g.now ≡ ok claims)
        × (actor_of_claims g claims ≡ ok actor)
  unfolding access_token_guard
  access_token_guard-one header actor h = elim (Option-cases (bearer_token header)) [
    | inl malformed ↦ absurd (cc (rw malformed at h))
    | inr (token, bearer) ↦ elim (Result-cases (verify_access_token g.jose g.ring token g.now)) [
      | inr (e, refused) ↦ absurd (cc (rw (bearer, refused) at h))
      | inl (claims, verified) ↦ elim (Result-cases (actor_of_claims g claims)) [
        | inr (e, unknown) ↦ absurd (cc (rw (bearer, verified, unknown) at h))
        | inl (q, known) ↦
            let same : q ≡ actor = ground (arith, rw (bearer, verified, known) at h) in
            (token, claims, bearer, verified, known ∙ ap ok same)
      ]
    ]
  ]

  genuine :
      (request : Request) (a : Authorization) (actor : AuthenticatedActor)
      → request.authorization ≡ a
      → access_token_guard g a ≡ ok (some actor)
      → IsGenuine request actor
  unfolding access_token_guard
  genuine request absent actor e h = absurd (cc h)
  genuine request several actor e h = absurd (cc h)
  genuine request (one header) actor e h =
      let parts = access_token_guard-one header actor h in
      let known = actor_of_claims-cases parts.1 actor parts.4 in
      record {
        header = header;
        token = parts.0;
        claims = parts.1;
        sent = e;
        bearer = parts.2;
        verified = parts.3;
        live = known.0;
        active = known.1;
        loaded = known.2;
      }

  permissions_guard-cases :
      (required : List String) (actor : AuthenticatedActor) (b : Bool)
      → permissions_guard g required (some actor) ≡ ok b
      → 1 ≤ length required
      → (actor.client_type ≡ super_admin_web)
        × (includes actor.role_codes "super_admin" ≡ true)
        × (every_included g actor.permission_codes required ≡ true)
  unfolding permissions_guard is_permitted
  permissions_guard-cases [] actor b h some_required = absurd (omega (arith, some_required))
  permissions_guard-cases (r ∷ required) actor b h some_required =
      elim (Bool-cases (is_permitted g (r ∷ required) (some actor))) [
        | inr denied ↦ absurd (cc (rw denied at h))
        | inl permitted ↦
            let parts = &&-eq-true _ _ permitted in
            let codes = &&-eq-true _ _ parts.1 in
            (super_admin_client actor.client_type parts.0, codes.0, codes.1)
      ]

  -- A request that the three guards admit to a route that is not public carries a bearer token that
  -- is verified, and acts as the user of its claims, in an active, unexpired session of that user
  -- and client, with the roles and permissions of the tables; the user is active. If the route
  -- requires permissions, the client is the super admin's, the user has the role of super admins
  -- and every required permission.
  pub admit-IsGenuine :
      (request : Request) (outcome : Option AuthenticatedActor)
      → request.is_public ≡ false
      → admit g request ≡ ok outcome
      → (actor : AuthenticatedActor) × (outcome ≡ some actor)
        × IsGenuine request actor
        × (1 ≤ length request.required
            → (actor.client_type ≡ super_admin_web)
              × (includes actor.role_codes "super_admin" ≡ true)
              × (every_included g actor.permission_codes request.required ≡ true))
  unfolding admit authentication_guard
  admit-IsGenuine request outcome private h =
      elim (Result-cases (access_token_guard g request.authorization)) [
        | inr (e, refused) ↦ absurd (cc (rw refused at h))
        | inl (none, nobody) ↦ absurd (cc (rw (nobody, private) at h))
        | inl (some actor, known) ↦
            elim (Result-cases (permissions_guard g request.required (some actor))) [
              | inr (e, denied) ↦ absurd (cc (rw (known, private, denied) at h))
              | inl (b, permitted) ↦
                  let same : some actor ≡ outcome =
                    ground (arith, rw (known, private, permitted) at h) in
                  (
                    actor,
                    sym same,
                    genuine request request.authorization actor refl known,
                    permissions_guard-cases request.required actor b permitted,
                  )
            ]
      ]
