-- ===== src/Services/Auth/Sessions.antt =====
-- The operations of auth.service.js that take tokens or passwords.
use ride_sharing_backend.Common.{
  ℕ, ◌+◌, String, Bool, true, false, not, Option, none, some, leb, is_some, holds, if◌then◌else◌,
}
use ride_sharing_backend.Common.Table.{find}
use ride_sharing_backend.Errors.{bad_request, unauthorized, forbidden, conflict, internal, api}
use ride_sharing_backend.Model.{User, Role, VerificationTokenType}
use ride_sharing_backend.Repositories.{
  NewIds, find_user_by_email, find_user_by_google_id, create_passenger_account, update_user,
  with_password_hash, with_verified_email, with_google_id, create_verification_token,
  find_valid_verification_token, mark_verification_token_used,
}
use ride_sharing_backend.Services.Auth.{
  email_verification_ttl, password_reset_ttl, max_failed_login_attempts, Link, sanitize_user,
  safe_send, verification_row, failed_attempts, record_failed_login, clear_failed_logins,
  touch_last_login, logout_all_devices,
}
use ride_sharing_backend.Services.Token.{
  Fresh, issue_refresh_token, rotate_refresh_token, revoke_refresh_token_by_raw,
}
use ride_sharing_backend.Store.{Action, ok, gets, or_throw, throw_if, throw, pure, ◌>>=◌, ◌>>◌}

-- The validated body of a registration.
pub record Registration : Type 0 where
  pub email : String
  pub password : ℕ
  pub first_name : String
  pub last_name : String
  pub phone : Option String

-- The payload of a verified Google id token.
pub record GooglePayload : Type 0 where
  pub sub : String
  pub email : String
  pub given_name : Option String
  pub family_name : Option String

-- The insertion sets the time of creation.
abbrev pub new_account :
    String → Option ℕ → String → String → Option String → Option String → Bool → User
new_account email password_hash first_name last_name phone google_id is_email_verified = record {
  email = email;
  password_hash = password_hash;
  first_name = first_name;
  last_name = last_name;
  phone = phone;
  role = Role.passenger;
  google_id = google_id;
  is_email_verified = is_email_verified;
  is_active = true;
  last_login_at = none;
  created_at = 0;
}

abbrev or_text : String → Option String → String
or_text d none = d
or_text d (some x) = x

-- The user of the email, if the password is theirs.
abbrev pub matching : (ℕ → ℕ → Bool) → ℕ → Option (ℕ × User) → Option (ℕ × User)
matching bcrypt_compare password none = none
matching bcrypt_compare password (some found) =
    if holds (bcrypt_compare password) found.1.password_hash then some found else none

module _ (hash : ℕ → ℕ) (refresh_ttl : ℕ) where
  -- A link of one type for a user.
  unfoldable pub send_link :
      VerificationTokenType → ℕ → String → ℕ → User → Link → Action (Unit {0})
  send_link type ttl title user_id u link = do
    now ← gets (λ s. s.now)
    create_verification_token link.id (verification_row user_id (hash link.raw) type (now + ttl))
    safe_send user_id u link title

  -- A session: the user and the raw refresh token.
  unfoldable pub issue_session : ℕ → User → Fresh → Action (User × ℕ)
  issue_session user_id u new = do
    token ← issue_refresh_token hash refresh_ttl user_id new
    pure (sanitize_user u, token)

  unfoldable pub register : (ℕ → ℕ) → Registration → NewIds → Link → Fresh → Action (User × ℕ)
  register bcrypt_hash q ids link new = do
    existing ← gets (λ s. find_user_by_email q.email s.users)
    throw_if (is_some existing) (conflict "An account with this email already exists")
    (user_id, u) ← create_passenger_account ids (
        new_account q.email (some (bcrypt_hash q.password)) q.first_name q.last_name q.phone none
          false)
    send_link VerificationTokenType.email_verification email_verification_ttl "Verify your email"
        user_id u link
    issue_session user_id u new

  -- The right password: a deactivated account is refused, else the failures are forgotten.
  unfoldable pub log_in : ℕ → ℕ → User → Fresh → Action (User × ℕ)
  log_in key user_id u new = do
    throw_if (not u.is_active) (forbidden "This account has been deactivated")
    clear_failed_logins key
    touch_last_login user_id
    issue_session user_id u new

  unfoldable pub refuse_login : ℕ → Action (User × ℕ)
  refuse_login key =
      (record_failed_login key >> throw (api (unauthorized "Invalid email or password")))

  unfoldable pub check_password : (ℕ → ℕ → Bool) → ℕ → String → ℕ → Fresh → Action (User × ℕ)
  check_password bcrypt_compare key email password new s =
      elim (matching bcrypt_compare password (find_user_by_email email s.users)) [
        | none ↦ refuse_login key s
        | some found ↦ log_in key found.0 found.1 new s
      ]

  unfoldable pub login : (ℕ → ℕ → Bool) → (String → ℕ) → String → ℕ → Fresh → Action (User × ℕ)
  login bcrypt_compare lock_key email password new = do
    attempts ← failed_attempts (lock_key email)
    throw_if (leb max_failed_login_attempts attempts)
        (forbidden "Too many failed login attempts for this account. Try again in a few minutes.")
    check_password bcrypt_compare (lock_key email) email password new

  unfoldable pub refresh : Option ℕ → Fresh → Action ℕ
  refresh presented new = do
    token ← or_throw (unauthorized "Refresh token is required") presented
    (user_id, next) ← rotate_refresh_token hash refresh_ttl token new
    found ← gets (λ s. find user_id s.users)
    u ← or_throw (unauthorized "Account no longer active") found
    throw_if (not u.is_active) (unauthorized "Account no longer active")
    pure next

  unfoldable pub logout : Option ℕ → Action (Unit {0})
  logout none s = (ok tt, s)
  logout (some token) s = revoke_refresh_token_by_raw hash refresh_ttl token s

  unfoldable pub send_reset : Option (ℕ × User) → Link → Action (Unit {0})
  send_reset none link s = (ok tt, s)
  send_reset (some found) link s =
      send_link VerificationTokenType.password_reset password_reset_ttl "Reset your password"
        found.0 found.1 link s

  unfoldable pub forgot_password : String → Link → Action (Unit {0})
  forgot_password email link s = send_reset (find_user_by_email email s.users) link s

  unfoldable pub reset_password : (ℕ → ℕ) → ℕ → ℕ → ℕ → Action (Unit {0})
  reset_password bcrypt_hash access_ttl token new_password = do
    found ← gets (λ s.
        find_valid_verification_token s.now (hash token) VerificationTokenType.password_reset
          s.verification_tokens)
    (id, row) ← or_throw (bad_request "Invalid or expired reset token") found
    update_user row.user_id (with_password_hash (bcrypt_hash new_password))
    mark_verification_token_used id
    logout_all_devices access_ttl row.user_id

  unfoldable pub verify_email : ℕ → Action (Unit {0})
  verify_email token = do
    found ← gets (λ s.
        find_valid_verification_token s.now (hash token) VerificationTokenType.email_verification
          s.verification_tokens)
    (id, row) ← or_throw (bad_request "Invalid or expired verification token") found
    update_user row.user_id with_verified_email
    mark_verification_token_used id

  unfoldable pub resend : Option (ℕ × User) → Link → Action (Unit {0})
  resend none link s = (ok tt, s)
  resend (some found) link s = elim found.1.is_email_verified [
    | true ↦ (ok tt, s)
    | false ↦
        send_link VerificationTokenType.email_verification email_verification_ttl
          "Verify your email" found.0 found.1 link s
  ]

  unfoldable pub resend_verification_email : String → Link → Action (Unit {0})
  resend_verification_email email link s = resend (find_user_by_email email s.users) link s

  -- Google has verified the email, so an account with it is linked; else one is created.
  unfoldable pub link_or_create : GooglePayload → NewIds → Option (ℕ × User) → Action (ℕ × User)
  link_or_create p ids (some by_email) s =
      (update_user by_email.0 (with_google_id p.sub)
          >> pure (by_email.0, with_google_id p.sub by_email.1))
        s
  link_or_create p ids none s =
      create_passenger_account ids
        (new_account p.email none (or_text "Unknown" p.given_name) (or_text "" p.family_name) none
          (some p.sub) true)
        s

  unfoldable pub google_account : GooglePayload → NewIds → Option (ℕ × User) → Action (ℕ × User)
  google_account p ids (some by_google) s = (ok by_google, s)
  google_account p ids none s = link_or_create p ids (find_user_by_email p.email s.users) s

  unfoldable pub google_auth : Bool → Option GooglePayload → NewIds → Fresh → Action (User × ℕ)
  google_auth is_configured payload ids new = do
    throw_if (not is_configured) (internal "Google sign-in is not configured on this server")
    p ← or_throw (unauthorized "Invalid Google ID token") payload
    by_google ← gets (λ s. find_user_by_google_id p.sub s.users)
    (user_id, u) ← google_account p ids by_google
    throw_if (not u.is_active) (forbidden "This account has been deactivated")
    touch_last_login user_id
    issue_session user_id u new
