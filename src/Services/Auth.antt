-- ===== src/Services/Auth.antt =====
-- services/auth.service.js, with email.service.js. The password hash (bcrypt) and its comparison, the
-- token hash, the key of an email's failed logins and the lifetimes of tokens are parameters.
-- Signing an access token is a library's and changes nothing. The checks of a Google id token
-- come to a payload or a failure, which is an argument.
pub mod Sessions
pub mod Lockout
pub mod Reset
use ride_sharing_backend.Common.{
  ℕ, ◌+◌, ◌*◌, String, Bool, true, false, not, ◌||◌, Option, none, some, List, [], ◌∷◌, leb,
  is_some, holds, if◌then◌else◌,
}
use ride_sharing_backend.Common.Table.{Table, find, put, remove}
use ride_sharing_backend.Errors.{bad_request, unauthorized, forbidden, conflict, internal, api}
use ride_sharing_backend.Model.{
  User, Role, VerificationToken, VerificationTokenType, NotificationChannel,
}
use ride_sharing_backend.Repositories.{
  NewIds, find_user_by_email, find_user_by_google_id, create_passenger_account, update_user,
  with_password_hash, with_verified_email, with_google_id, with_last_login,
  create_verification_token, find_valid_verification_token, mark_verification_token_used,
  revoke_all_user_refresh_tokens,
}
use ride_sharing_backend.Services.Geo.{redis_read, redis_write, with_redis_fallback}
use ride_sharing_backend.Services.Notification.{notify}
use ride_sharing_backend.Services.Ride.Trip.{live_counter, count_attempt}
use ride_sharing_backend.Services.Token.{
  Fresh, issue_refresh_token, rotate_refresh_token, revoke_refresh_token_by_raw,
  revoke_all_user_access_tokens,
}
use ride_sharing_backend.Store.{
  Store, Counter, Action, Result, ok, err, gets, or_throw, throw_if, throw, pure, when, ◌>>=◌, ◌>>◌,
}

-- The lifetimes of the two links, and the lockout's bounds, in milliseconds.
abbrev pub email_verification_ttl : ℕ
email_verification_ttl = 24 * 60 * 60 * 1000

abbrev pub password_reset_ttl : ℕ
password_reset_ttl = 60 * 60 * 1000

abbrev pub max_failed_login_attempts : ℕ
max_failed_login_attempts = 5

abbrev pub failed_login_window : ℕ
failed_login_window = 15 * 60 * 1000

-- A link that is about to be sent: the ids of its row and of its notification, and its random token.
pub record Link : Type 0 where
  pub id : ℕ
  pub notification_id : ℕ
  pub raw : ℕ

-- `sanitizeUser`: the row without its password hash.
abbrev pub sanitize_user : User → User
sanitize_user u = record u { password_hash = none; google_id = none }

-- What is sent fails silently.
unfoldable pub safe_send : ℕ → User → Link → String → Action (Unit {0})
safe_send user_id u link title s =
    let (_, s') = notify link.notification_id user_id u.email NotificationChannel.email title s in
    (ok tt, s')

abbrev pub verification_row : ℕ → ℕ → VerificationTokenType → ℕ → VerificationToken
verification_row user_id token_hash type expires_at = record {
  user_id = user_id;
  token_hash = token_hash;
  type = type;
  expires_at = expires_at;
  used_at = none;
}

abbrev pub attempts_of : Option Counter → ℕ
attempts_of none = 0
attempts_of (some c) = c.value

-- The failures that still count against a key.
unfoldable pub failed_attempts : ℕ → Action ℕ
failed_attempts key s =
    with_redis_fallback
      (redis_read (λ now r. attempts_of (live_counter now (find key r.failed_logins)))) 0 s

unfoldable pub record_failed_login : ℕ → Action (Unit {0})
record_failed_login key s =
    with_redis_fallback
      (redis_write (λ now r. record r {
        failed_logins =
            put key (count_attempt now failed_login_window (find key r.failed_logins))
              r.failed_logins;
      }))
      tt s

unfoldable pub clear_failed_logins : ℕ → Action (Unit {0})
clear_failed_logins key s =
    with_redis_fallback
      (redis_write (λ _ r. record r { failed_logins = remove key r.failed_logins })) tt s

unfoldable pub touch_last_login : ℕ → Action (Unit {0})
touch_last_login user_id s = update_user user_id (with_last_login s.now) s

-- The new password is stored under its hash, and every session of the user ends.
unfoldable pub logout_all_devices : ℕ → ℕ → Action (Unit {0})
logout_all_devices access_ttl user_id =
    (revoke_all_user_refresh_tokens user_id >> revoke_all_user_access_tokens access_ttl user_id)
