-- ===== src/Services/User.antt =====
-- services/user.service.js. The hash of a password (bcrypt) and its comparison are parameters.
pub mod Promotion
use ride_sharing_backend.Common.{
  ℕ, String, Bool, true, false, not, Option, none, some, is_some, holds,
}
use ride_sharing_backend.Common.Table.{find}
use ride_sharing_backend.Errors.{bad_request, conflict, other}
use ride_sharing_backend.Model.{User, Role}
use ride_sharing_backend.Repositories.{
  find_driver_by_user, update_user, with_password_hash, ProfilePatch, update_profile_row,
  promote_to_driver,
}
use ride_sharing_backend.Services.Auth.{sanitize_user, logout_all_devices}
use ride_sharing_backend.Store.{Action, ok, err, gets, throw_if, pure, ◌>>=◌, ◌>>◌}

-- A property of a row that is not there: the callers are authenticated, so their rows are.
unfoldable pub or_type_error : Option User → Action User
or_type_error none s = (err (other "Cannot read properties of null"), s)
or_type_error (some u) s = (ok u, s)

unfoldable pub get_profile : ℕ → Action User
get_profile user_id = do
  found ← gets (λ s. find user_id s.users)
  u ← or_type_error found
  pure (sanitize_user u)

unfoldable pub update_profile : ℕ → ProfilePatch → Action User
update_profile user_id p = do u ← update_profile_row user_id p; pure (sanitize_user u)

unfoldable pub change_password : (ℕ → ℕ) → (ℕ → ℕ → Bool) → ℕ → ℕ → ℕ → ℕ → Action (Unit {0})
change_password bcrypt_hash bcrypt_compare access_ttl user_id current new_password = do
  found ← gets (λ s. find user_id s.users)
  u ← or_type_error found
  throw_if (not (is_some u.password_hash)) (
      bad_request
        "This account has no password set (signed up via Google). Use 'Forgot Password' to set one.")
  throw_if (not (holds (bcrypt_compare current) u.password_hash))
      (bad_request "Current password is incorrect")
  update_user user_id (with_password_hash (bcrypt_hash new_password))
  logout_all_devices access_ttl user_id

abbrev pub is_passenger_role : Role → Bool
is_passenger_role Role.passenger = true
is_passenger_role _ = false

-- The id of the new driver's row is an argument.
unfoldable pub become_driver : ℕ → ℕ → String → ℕ → Action User
become_driver user_id driver_id license_number license_expiry = do
  found ← gets (λ s. find user_id s.users)
  u ← or_type_error found
  throw_if (not (is_passenger_role u.role))
      (conflict "Only passenger accounts can apply to become a driver")
  existing ← gets (λ s. find_driver_by_user user_id s.drivers)
  throw_if (is_some existing) (conflict "A driver profile already exists for this account")
  updated ← promote_to_driver user_id driver_id license_number license_expiry
  pure (sanitize_user updated)
