-- ===== src/Http/Guards.antt =====
-- What the guards before the controllers keep out.
use ride_sharing_backend.Common.{
  ◌&&◌, if◌then◌else◌, ℕ, ◌+◌, ◌<◌, ◌≡◌, refl, Bool, true, false, ◌⊎◌, inl, inr, some, [], ◌∷◌,
  arith, Bool-cases,
}
use ride_sharing_backend.Common.Table.{find}
use ride_sharing_backend.Errors.{ApiError, api, unauthorized, forbidden}
use ride_sharing_backend.Http.{Config}
use ride_sharing_backend.Http.Admin.{
  AdminEndpoint, AccountEndpoint, admin_controller, account_controller,
}
use ride_sharing_backend.Http.Routes.{Protected, Endpoint, serve, serve_protected, serve_user}
use ride_sharing_backend.Model.{User, Role}
use ride_sharing_backend.Services.Admin.{
  AccessPayload, Bearer, authenticate, verify_access_token, authorize,
}
use ride_sharing_backend.Services.Admin.Banned.{banned, bans, authenticate_refused}
use ride_sharing_backend.Services.Geo.{is_live}
use ride_sharing_backend.Services.Ride.Views.{is_admin}
use ride_sharing_backend.Services.Token.{is_user_access_revoked}
use ride_sharing_backend.Store.{Store, at_time, ok, err}

-- The middleware reads one key of Redis, and takes a silent Redis for "not revoked".
abbrev revoked_in : ℕ → Store → Bool
revoked_in user_id s = s.redis.is_up && is_live s.now user_id s.redis.access_revoked

authenticate_cases :
    (u : AccessPayload) (s : Store)
    → authenticate (Bearer.verified u) s ≡ (
      if revoked_in u.sub s
          then err (api (unauthorized "Your session has been revoked. Please log in again."))
          else ok u,
      s,
    )
unfolding authenticate verify_access_token is_user_access_revoked
authenticate_cases u s = ground arith

authorize_admin :
    (u : AccessPayload) (s : Store)
    → is_admin u.role ≡ false
    → authorize (Role.admin ∷ []) (some u) s
      ≡ (err (api (forbidden "You do not have permission to perform this action")), s)
unfolding authorize
authorize_admin u s h = ground arith

authorize_passes :
    (u : AccessPayload) (s : Store)
    → is_admin u.role ≡ true
    → authorize (Role.admin ∷ []) (some u) s ≡ (ok tt, s)
unfolding authorize
authorize_passes u s h = ground arith

no_token :
    (s : Store)
    → authenticate Bearer.missing s ≡ (err (api (unauthorized "Access token is required")), s)
unfolding authenticate verify_access_token
no_token s = refl

bad_token :
    (s : Store)
    → authenticate Bearer.invalid s
      ≡ (err (api (unauthorized "Invalid or expired access token")), s)
unfolding authenticate verify_access_token
bad_token s = refl

abbrev pub is_admin_token : Bearer → Bool
is_admin_token (Bearer.verified u) = is_admin u.role
is_admin_token _ = false

-- Every endpoint of the admin router is closed to whoever is not an admin: a request without a verified access token, or
-- with the token of a user of another role, is answered with 401 or 403 and changes nothing.
pub admin_router_closed :
    (c : Config) (presented : Bearer) (e : AdminEndpoint) (s : Store)
    → is_admin_token presented ≡ false
    → (x : ApiError) × (serve c presented (Endpoint.protected (Protected.admin e)) s
        ≡ (err (api x), s))
      × ((x.status_code ≡ 401) ⊎ (x.status_code ≡ 403))
unfolding serve serve_protected serve_user unauthorized forbidden
admin_router_closed c Bearer.missing e s h =
    (unauthorized "Access token is required", ground (arith, no_token s), inl refl)
admin_router_closed c Bearer.invalid e s h =
    (unauthorized "Invalid or expired access token", ground (arith, bad_token s), inl refl)
admin_router_closed c (Bearer.verified u) e s h = elim (Bool-cases (revoked_in u.sub s)) [
  | inl r ↦ (
    unauthorized "Your session has been revoked. Please log in again.",
    ground (arith, authenticate_cases u s),
    inl refl,
  )
  | inr r ↦ (
    forbidden "You do not have permission to perform this action",
    ground (arith, authenticate_cases u s, authorize_admin u s h),
    inr refl,
  )
]

-- After an admin has deactivated an account through the admin router, with a token that is not revoked and while Redis
-- answers, every request with an access token of the user to any endpoint behind `authenticate` is answered with
-- 401 and changes nothing, for as long as a token that is issued now would last.
pub banned_user_shut_out :
    (c : Config) (v : AccessPayload) (target_id : ℕ) (u : User) (s : Store) (e : Protected)
    (role : Role) (soon : ℕ)
    → is_admin v.role ≡ true
    → is_live s.now v.sub s.redis.access_revoked ≡ false
    → s.redis.is_up ≡ true
    → find target_id s.users ≡ some u
    → is_admin u.role ≡ false
    → soon < s.now + c.access_ttl
    → let t =
        (serve c
          (Bearer.verified v)
          (Endpoint.protected (
            Protected.admin (AdminEndpoint.accounts (AccountEndpoint.user_status target_id false))))
          s).1 in
      serve c
        (Bearer.verified (record { sub = target_id; role = role }))
        (Endpoint.protected e)
        (at_time soon t)
      ≡ (
        err (api (unauthorized "Your session has been revoked. Please log in again.")),
        at_time soon t,
      )
unfolding serve serve_protected serve_user admin_controller account_controller
banned_user_shut_out c v target_id u s e role soon is_adm fresh up there plain early =
    let t_is : (serve c (Bearer.verified v)
          (Endpoint.protected (
            Protected.admin (AdminEndpoint.accounts (AccountEndpoint.user_status target_id false))))
          s).1
        ≡ banned c.access_ttl target_id v.sub u s there plain =
      ground (
        arith,
        fresh,
        authenticate_cases v s,
        authorize_passes v s is_adm,
        bans c.access_ttl target_id v.sub u s there plain up,
      ) in
    rw t_is (
      ground (
        arith,
        authenticate_refused c.access_ttl target_id v.sub u s there plain role soon up early,
      ))
