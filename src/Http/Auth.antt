-- ===== src/Http/Auth.antt =====
-- controllers/auth.controller.js. The ids and tokens of new rows are arguments, as in the service.
use ride_sharing_backend.Common.{ℕ, String, Bool, Option, none, some}
use ride_sharing_backend.Http.{Config, Body, Cookie, Reply, sends}
use ride_sharing_backend.Model.{User}
use ride_sharing_backend.Repositories.{NewIds}
use ride_sharing_backend.Services.Admin.{AccessPayload}
use ride_sharing_backend.Services.Auth.{Link, logout_all_devices}
use ride_sharing_backend.Services.Auth.Sessions.{
  Registration, GooglePayload, register, login, google_auth, refresh, logout, forgot_password,
  reset_password, verify_email, resend_verification_email,
}
use ride_sharing_backend.Services.Token.{Fresh}
use ride_sharing_backend.Store.{Action, pure, ◌>>=◌, ◌>>◌}

-- The endpoints that need no access token.
pub data AuthEndpoint : Type 0 where
  sign_up : Registration → NewIds → Link → Fresh → AuthEndpoint
  log_in : String → ℕ → Fresh → AuthEndpoint
  google : Bool → Option GooglePayload → NewIds → Fresh → AuthEndpoint
  refresh_session : Option ℕ → Option ℕ → Fresh → AuthEndpoint
  log_out : Option ℕ → Option ℕ → AuthEndpoint
  forgot resend : String → Link → AuthEndpoint
  reset : ℕ → ℕ → AuthEndpoint
  verify : ℕ → AuthEndpoint

-- `sendSession`: the refresh token goes into the cookie and into the body.
abbrev pub send_session : ℕ → String → Action (User × ℕ) → Action Reply
send_session status message service = service >>= λ r. pure (record {
  status = status;
  message = message;
  body = Body.session r.0 r.1;
  cookie = Cookie.refresh_token r.1;
})

-- `req.cookies?.refreshToken || req.body?.refreshToken`
abbrev pub get_refresh_token : Option ℕ → Option ℕ → Option ℕ
get_refresh_token none in_body = in_body
get_refresh_token (some token) in_body = some token

unfoldable pub auth_controller : Config → AuthEndpoint → Action Reply
auth_controller c (AuthEndpoint.sign_up q ids link new) =
    send_session 201 "Registration successful. Please verify your email."
      (register c.hash c.refresh_ttl c.bcrypt_hash q ids link new)
auth_controller c (AuthEndpoint.log_in email password new) =
    send_session 200 "Login successful"
      (login c.hash c.refresh_ttl c.bcrypt_compare c.lock_key email password new)
auth_controller c (AuthEndpoint.google is_configured payload ids new) =
    send_session 200 "Login successful"
      (google_auth c.hash c.refresh_ttl is_configured payload ids new)
auth_controller c (AuthEndpoint.refresh_session in_cookie in_body new) =
    (refresh c.hash c.refresh_ttl (get_refresh_token in_cookie in_body) new >>= λ token.
    pure (record {
      status = 200;
      message = "Token refreshed";
      body = Body.token token;
      cookie = Cookie.refresh_token token;
    }))
auth_controller c (AuthEndpoint.log_out in_cookie in_body) =
    (logout c.hash c.refresh_ttl (get_refresh_token in_cookie in_body)
      >> pure (record {
        status = 200;
        message = "Logged out";
        body = Body.nothing;
        cookie = Cookie.cleared;
      }))
auth_controller c (AuthEndpoint.forgot email link) =
    sends 200 "If that email is registered, a reset link has been sent"
      (forgot_password c.hash c.refresh_ttl email link) (λ _. Body.nothing)
auth_controller c (AuthEndpoint.reset token new_password) =
    sends 200 "Password reset successful. Please log in again."
      (reset_password c.hash c.refresh_ttl c.bcrypt_hash c.access_ttl token new_password)
      (λ _. Body.nothing)
auth_controller c (AuthEndpoint.verify token) =
    sends 200 "Email verified" (verify_email c.hash c.refresh_ttl token) (λ _. Body.nothing)
auth_controller c (AuthEndpoint.resend email link) =
    sends 200 "If that email exists and is unverified, a new link has been sent"
      (resend_verification_email c.hash c.refresh_ttl email link) (λ _. Body.nothing)

-- `logoutAll`, behind `authenticate`.
unfoldable pub log_out_everywhere : Config → AccessPayload → Action Reply
log_out_everywhere c u =
    (logout_all_devices c.access_ttl u.sub
      >> pure (record {
        status = 200;
        message = "Logged out on all devices";
        body = Body.nothing;
        cookie = Cookie.cleared;
      }))
