-- ===== src/Services/Token.antt =====
-- services/token.service.js. The hash of a token (SHA-256) and the lifetimes of the two kinds of token
-- (the environment's) are parameters; the random token of a new session is an argument. Access
-- tokens are signed by a library and are not modelled, their revocation is.
pub mod Rotation
pub mod Cleanup
use ride_sharing_backend.Common.{
  ℕ, ◌+◌, ◌*◌, ◌/◌, Bool, true, false, ◌||◌, not, Option, none, some, ltb, ◌==◌, if◌then◌else◌,
  is_some,
}
use ride_sharing_backend.Common.Table.{Table, put}
use ride_sharing_backend.Errors.{ApiError, unauthorized, api}
use ride_sharing_backend.Model.{RefreshToken}
use ride_sharing_backend.Repositories.{
  create_refresh_token, find_refresh_token_by_hash, revoke_refresh_token,
  revoke_all_user_refresh_tokens,
}
use ride_sharing_backend.Services.Geo.{redis_write, redis_read, with_redis_fallback, is_live}
use ride_sharing_backend.Store.{Store, Action, ok, err, gets, throw, pure, ◌>>=◌, ◌>>◌}

-- A lifetime in milliseconds. The key is set for as many whole seconds, rounded up.
unfoldable pub revoke_all_user_access_tokens : ℕ → ℕ → Action (Unit {0})
revoke_all_user_access_tokens access_ttl user_id = redis_write (λ now r. record r {
  access_revoked = put user_id (now + (access_ttl + 999) / 1000 * 1000) r.access_revoked;
})

unfoldable pub is_user_access_revoked : ℕ → Action Bool
is_user_access_revoked user_id s =
    with_redis_fallback (redis_read (λ now r. is_live now user_id r.access_revoked)) false s

-- A session token that is about to be issued: the id of its row and the random value.
pub record Fresh : Type 0 where
  pub id : ℕ
  pub raw : ℕ

abbrev pub refresh_row : ℕ → ℕ → ℕ → RefreshToken
refresh_row user_id token_hash expires_at = record {
  user_id = user_id;
  token_hash = token_hash;
  expires_at = expires_at;
  revoked_at = none;
}

abbrev pub reuse_error : ApiError
reuse_error = unauthorized "Refresh token reuse detected — all sessions revoked"

-- `record.revokedAt || record.expiresAt < new Date()`
abbrev pub is_spent : ℕ → RefreshToken → Bool
is_spent now r = is_some r.revoked_at || ltb r.expires_at now

module _ (hash : ℕ → ℕ) (refresh_ttl : ℕ) where
  unfoldable pub issue_refresh_token : ℕ → Fresh → Action ℕ
  issue_refresh_token user_id new s =
      (create_refresh_token new.id (refresh_row user_id (hash new.raw) (s.now + refresh_ttl))
          >> pure new.raw)
        s

  -- A row that was found: reuse revokes every session of its user, else the row is replaced.
  unfoldable pub rotate_found : ℕ → RefreshToken → Fresh → Action (ℕ × ℕ)
  rotate_found id r new s = elim (is_spent s.now r) [
    | true ↦ (revoke_all_user_refresh_tokens r.user_id >> throw (api reuse_error)) s
    | false ↦
        (revoke_refresh_token id
            >> (issue_refresh_token r.user_id new >>= (λ token. pure (r.user_id, token))))
          s
  ]

  unfoldable pub rotate_refresh_token : ℕ → Fresh → Action (ℕ × ℕ)
  rotate_refresh_token presented new s =
      elim (find_refresh_token_by_hash (hash presented) s.refresh_tokens) [
        | none ↦ (err (api (unauthorized "Invalid refresh token")), s)
        | some found ↦ rotate_found found.0 found.1 new s
      ]

  unfoldable pub revoke_refresh_token_by_raw : ℕ → Action (Unit {0})
  revoke_refresh_token_by_raw presented s =
      elim (find_refresh_token_by_hash (hash presented) s.refresh_tokens) [
        | none ↦ (ok tt, s)
        | some found ↦ elim (is_some found.1.revoked_at) [
          | true ↦ (ok tt, s)
          | false ↦ revoke_refresh_token found.0 s
        ]
      ]
