-- ===== src/Services/Admin.antt =====
-- services/admin.service.js, and the checks of middlewares/auth.middleware.js. The lifetime of access
-- tokens and the database's search in texts are parameters.
pub mod Banned
pub mod Provision
use ride_sharing_backend.Common.{
  ℕ, String, Bool, true, false, not, Option, none, some, List, [], ◌∷◌, ◌||◌, if◌then◌else◌, length,
}
use ride_sharing_backend.Common.Table.{Table, find, find_many}
use ride_sharing_backend.Errors.{api, not_found, forbidden, unauthorized}
use ride_sharing_backend.Model.{User, Role}
use ride_sharing_backend.Repositories.{
  UserFilter, matches_filter, same_role, set_active_status, record_audit,
}
use ride_sharing_backend.Services.Auth.{sanitize_user, logout_all_devices}
use ride_sharing_backend.Services.Ride.Views.{page_of, Pagination, pagination_meta, is_admin}
use ride_sharing_backend.Services.Token.{is_user_access_revoked}
use ride_sharing_backend.Store.{
  Store, Action, AuditAction, ok, err, gets, or_throw, throw, throw_if, pure, when, ◌>>=◌, ◌>>◌,
}

abbrev sanitize_all : Table User → Table User
sanitize_all [] = []
sanitize_all ((id, u) ∷ t) = (id, sanitize_user u) ∷ sanitize_all t

unfoldable pub list_users :
    (String → String → Bool) → ℕ → ℕ → UserFilter → Action (Table User × Pagination)
list_users contains page limit f = do
  users ← gets (λ s. find_many (matches_filter contains f) s.users)
  pure (sanitize_all (page_of page limit users), pagination_meta page limit (length users))

unfoldable pub get_user_by_id : ℕ → Action User
get_user_by_id id = do
  found ← gets (λ s. find id s.users)
  u ← or_throw (not_found "User not found") found
  pure (sanitize_user u)

unfoldable pub set_user_active_status : ℕ → ℕ → Bool → ℕ → Action User
set_user_active_status access_ttl target_id is_active actor_id = do
  found ← gets (λ s. find target_id s.users)
  target ← or_throw (not_found "User not found") found
  throw_if (is_admin target.role)
      (forbidden "Admin accounts cannot be deactivated through this endpoint")
  set_active_status target_id is_active
  when (not is_active) (logout_all_devices access_ttl target_id)
  record_audit (record {
    actor_id = actor_id;
    action = if is_active then AuditAction.user_reactivated else AuditAction.user_deactivated;
    entity_id = target_id;
  })
  pure (sanitize_user (record target { is_active = is_active }))

-- The payload of an access token that a library has verified.
pub record AccessPayload : Type 0 where
  pub sub : ℕ
  pub role : Role

-- The Authorization header: without a Bearer token, with one that `jwt.verify` refuses, or with one that
-- it accepts, and its payload. It accepts a token up to ten seconds after its expiry.
pub data Bearer : Type 0 where
  missing invalid : Bearer
  verified : AccessPayload → Bearer

-- `verifyAccessToken`, and what comes before it.
unfoldable pub verify_access_token : Bearer → Action AccessPayload
verify_access_token Bearer.missing = throw (api (unauthorized "Access token is required"))
verify_access_token Bearer.invalid = throw (api (unauthorized "Invalid or expired access token"))
verify_access_token (Bearer.verified payload) = pure payload

unfoldable pub authenticate : Bearer → Action AccessPayload
authenticate presented = do
  payload ← verify_access_token presented
  revoked ← is_user_access_revoked payload.sub
  throw_if revoked (unauthorized "Your session has been revoked. Please log in again.")
  pure payload

abbrev includes_role : Role → List Role → Bool
includes_role r [] = false
includes_role r (x ∷ xs) = same_role x r || includes_role r xs

-- `authorize(...allowedRoles)` on the request's user.
unfoldable pub authorize : List Role → Option AccessPayload → Action (Unit {0})
authorize allowed user = do
  u ← or_throw (unauthorized "Access token is required") user
  throw_if (not (includes_role u.role allowed))
      (forbidden "You do not have permission to perform this action")
