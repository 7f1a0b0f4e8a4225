-- ===== src/Services/Admin/Banned.antt =====
-- What is left to a user whose account an admin has deactivated.
use ride_sharing_backend.Common.{
  ap, ℕ, ◌+◌, ◌*◌, ◌/◌, ◌<◌, ◌≡◌, refl, String, Bool, true, false, inl, inr, some, [], ◌∷◌, arith,
  leb, Bool-cases, ◌==◌, is_some, holds,
}
use ride_sharing_backend.Common.Table.{
  Table, find, update, update_where, put, find-put, find-update, find_first-update,
}
use ride_sharing_backend.Common.Text.{same_text}
use ride_sharing_backend.Errors.{Thrown, api, unauthorized, forbidden, other}
use ride_sharing_backend.Model.{User, Role, RefreshToken}
use ride_sharing_backend.Repositories.{
  find_user_by_email, find_refresh_token_by_hash, update_user, with_active, set_active_status,
  revoke_all_user_refresh_tokens, is_unrevoked_of, with_revoked_at,
}
use ride_sharing_backend.Services.Admin.{
  AccessPayload, Bearer, set_user_active_status, authenticate, verify_access_token,
}
use ride_sharing_backend.Services.Auth.{
  attempts_of, record_failed_login, sanitize_user, logout_all_devices, failed_attempts,
  max_failed_login_attempts,
}
use ride_sharing_backend.Services.Auth.Sessions.{
  login, check_password, refuse_login, log_in, refresh,
}
use ride_sharing_backend.Services.Ride.Trip.{live_counter}
use ride_sharing_backend.Services.Ride.Views.{is_admin}
use ride_sharing_backend.Services.Token.{
  Fresh, reuse_error, rotate_found, rotate_refresh_token, revoke_all_user_access_tokens,
  is_user_access_revoked,
}
use ride_sharing_backend.Services.Token.Rotation.{open_sessions, none_open}
use ride_sharing_backend.Store.{Result, Store, AuditAction, AuditLog, at_time, ok, err}

-- The row of an email after the user's row was switched off.
found_inactive :
    (email : String) (k : ℕ) (u : User) (t : Table User)
    → find k t ≡ some u
    → find_user_by_email email t ≡ some (k, u)
    → find_user_by_email email (update k (with_active false) t) ≡ some (k, with_active false u)
found_inactive email k u t =
    find_first-update (λ _ v. same_text v.email email) k (with_active false) u t (λ j v. refl)

-- The row of a token of a user whose tokens were all revoked.
found_revoked :
    (h k user_id now : ℕ) (r : RefreshToken) (t : Table RefreshToken)
    → find_refresh_token_by_hash h t ≡ some (k, r)
    → r.user_id ≡ user_id
    → (r' : RefreshToken) × (find_refresh_token_by_hash h
          (update_where (is_unrevoked_of user_id) (with_revoked_at now) t)
        ≡ some (k, r'))
      × (is_some r'.revoked_at ≡ true)
found_revoked h k user_id now r [] f o = cc
found_revoked h k user_id now r ((j, v) ∷ t) f o = elim (Bool-cases (v.token_hash == h)) [
  | inr miss ↦
      let (r', found, spent) = found_revoked h k user_id now r t (ground arith) o in
      (r', ground arith, spent)
  | inl hit ↦ elim (Bool-cases (is_unrevoked_of user_id j v)) [
    | inl live ↦ (with_revoked_at now v, ground arith, refl)
    | inr shut ↦ (v, ground arith, ground arith)
  ]
]

-- A revoked token is not exchanged, and a deactivated account is not logged in to.
module _ (hash : ℕ → ℕ) (refresh_ttl : ℕ) where
  spent_refused :
      (token k : ℕ) (r : RefreshToken) (new : Fresh) (t : Store)
      → find_refresh_token_by_hash (hash token) t.refresh_tokens ≡ some (k, r)
      → is_some r.revoked_at ≡ true
      → (refresh hash refresh_ttl (some token) new t).0 ≡ err (api reuse_error)
  unfolding refresh rotate_refresh_token rotate_found revoke_all_user_refresh_tokens
  spent_refused token k r new t found spent = ground arith

  inactive_refused :
      (compare : ℕ → ℕ → Bool) (lock_key : String → ℕ) (email : String) (password k : ℕ) (v : User)
      (new : Fresh) (t : Store)
      → t.redis.is_up ≡ true
      → find_user_by_email email t.users ≡ some (k, v)
      → v.is_active ≡ false
      → (e : Thrown) × ((login hash refresh_ttl compare lock_key email password new t).0 ≡ err e)
  unfolding login check_password refuse_login log_in failed_attempts record_failed_login
  inactive_refused compare lock_key email password k v new t up found off =
      let attempts : ℕ =
        attempts_of (live_counter t.now (find (lock_key email) t.redis.failed_logins)) in
      elim (Bool-cases (leb max_failed_login_attempts attempts)) [
        | inl locked ↦ (
          api (
              forbidden
                "Too many failed login attempts for this account. Try again in a few minutes."),
          ground arith,
        )
        | inr free ↦ elim (Bool-cases (holds (compare password) v.password_hash)) [
          | inl right ↦ (api (forbidden "This account has been deactivated"), ground arith)
          | inr wrong ↦ (api (unauthorized "Invalid email or password"), ground arith)
        ]
      ]

abbrev pub ban_entry : ℕ → ℕ → AuditLog
ban_entry actor_id target_id = record {
  actor_id = actor_id;
  action = AuditAction.user_deactivated;
  entity_id = target_id;
}

module _ (access_ttl target_id actor_id : ℕ) (u : User) (s : Store)
    (there : find target_id s.users ≡ some u) (plain : is_admin u.role ≡ false) where
  abbrev pub switched_off : Store
  switched_off = record s {
    users = update target_id (with_active false) s.users;
    refresh_tokens =
        update_where (is_unrevoked_of target_id) (with_revoked_at s.now) s.refresh_tokens;
  }

  abbrev pub banned : Store
  banned = record switched_off {
    redis = record (s.redis) {
      access_revoked =
          put target_id (s.now + (access_ttl + 999) / 1000 * 1000) s.redis.access_revoked;
    };
    audit_logs = ban_entry actor_id target_id ∷ s.audit_logs;
  }

  pub bans :
      s.redis.is_up ≡ true
      → set_user_active_status access_ttl target_id false actor_id s
        ≡ (ok (sanitize_user (with_active false u)), banned)
  unfolding set_user_active_status set_active_status update_user logout_all_devices
      revoke_all_user_refresh_tokens revoke_all_user_access_tokens
  bans up = ground arith

  -- While Redis does not answer, deactivating an account ends in an error and leaves no entry in the audit log, although
  -- the account is switched off and the sessions of its user have ended.
  pub ban_without_redis :
      s.redis.is_up ≡ false
      → let (r, t) = set_user_active_status access_ttl target_id false actor_id s in
        (r ≡ err (other "Redis is unreachable"))
        × (t.audit_logs ≡ s.audit_logs)
        × (find target_id t.users ≡ some (with_active false u))
        × (open_sessions target_id t.refresh_tokens ≡ 0)
  unfolding set_user_active_status set_active_status update_user logout_all_devices
      revoke_all_user_refresh_tokens revoke_all_user_access_tokens
  ban_without_redis down =
      let stops : set_user_active_status access_ttl target_id false actor_id s
          ≡ (err (other "Redis is unreachable"), switched_off) =
        ground arith in
      rw stops (
        refl,
        refl,
        ground (arith, find-update target_id target_id (with_active false) s.users),
        none_open target_id s.now s.refresh_tokens,
      )

  pub authenticate_refused :
      (role : Role) (later : ℕ)
      → s.redis.is_up ≡ true
      → later < s.now + access_ttl
      → authenticate
          (Bearer.verified (record { sub = target_id; role = role }))
          (at_time later banned)
        ≡ (
          err (api (unauthorized "Your session has been revoked. Please log in again.")),
          at_time later banned,
        )
  unfolding authenticate verify_access_token is_user_access_revoked
  authenticate_refused role later up early = ground (
    arith,
    up,
    find-put target_id target_id (s.now + (access_ttl + 999) / 1000 * 1000) s.redis.access_revoked,
  )

  -- When an admin deactivates the account of a user who is no admin, and Redis answers, the user is locked out: no session
  -- is open, a refresh token that was issued to the user is refused at any time as reused, an access
  -- token is refused for as long as one that is issued now would last, and a login is refused with any
  -- password. The decision stands in the audit log.
  pub ban_locks_out :
      (hash : ℕ → ℕ) (refresh_ttl token k : ℕ) (r : RefreshToken) (new : Fresh)
      (compare : ℕ → ℕ → Bool) (lock_key : String → ℕ) (email : String) (password : ℕ) (role : Role)
      (later soon : ℕ)
      → s.redis.is_up ≡ true
      → find_refresh_token_by_hash (hash token) s.refresh_tokens ≡ some (k, r)
      → r.user_id ≡ target_id
      → find_user_by_email email s.users ≡ some (target_id, u)
      → soon < s.now + access_ttl
      → let t = (set_user_active_status access_ttl target_id false actor_id s).1 in
        (open_sessions target_id t.refresh_tokens ≡ 0)
        × ((refresh hash refresh_ttl (some token) new (at_time later t)).0 ≡ err (api reuse_error))
        × ((authenticate
              (Bearer.verified (record { sub = target_id; role = role }))
              (at_time soon t)).0
            ≡ err (api (unauthorized "Your session has been revoked. Please log in again.")))
        × ((e : Thrown) × ((login hash refresh_ttl compare lock_key email password new
                (at_time later t)).0
              ≡ err e))
        × (t.audit_logs ≡ ban_entry actor_id target_id ∷ s.audit_logs)
  ban_locks_out hash refresh_ttl token k r new compare lock_key email password role later soon up f
        o mail early =
      let (r', found, spent) =
        found_revoked (hash token) k target_id s.now r s.refresh_tokens f o in
      rw (bans up) (
        none_open target_id s.now s.refresh_tokens,
        spent_refused hash refresh_ttl token k r' new (at_time later banned) found spent,
        ap (λ (q : Result AccessPayload × Store). q.0) (authenticate_refused role soon up early),
        inactive_refused hash refresh_ttl compare lock_key email password target_id
            (with_active false u) new (at_time later banned) up
            (found_inactive email target_id u s.users there mail) refl,
        refl,
      )
