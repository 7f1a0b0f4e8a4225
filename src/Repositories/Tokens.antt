-- ===== src/Repositories/Tokens.antt =====
-- repositories/token.repository.js.
use ride_sharing_backend.Common.{
  ℕ, Bool, ◌&&◌, ◌||◌, not, Option, none, some, ◌∷◌, ltb, ◌==◌, is_some,
}
use ride_sharing_backend.Common.Table.{Table, find_first, update, update_where, delete_where, count}
use ride_sharing_backend.Errors.{prisma, p2002}
use ride_sharing_backend.Model.{
  RefreshToken, VerificationToken, VerificationTokenType, same_token_type,
}
use ride_sharing_backend.Store.{Action, ok, err, modify, transaction, ◌>>◌}

-- `tokenHash` is unique, and so is the id.
abbrev pub refresh_token_collides : ℕ → RefreshToken → ℕ → RefreshToken → Bool
refresh_token_collides id row j r = (j == id) || (r.token_hash == row.token_hash)

unfoldable pub create_refresh_token : ℕ → RefreshToken → Action (Unit {0})
create_refresh_token id row s = elim (find_first (refresh_token_collides id row) s.refresh_tokens) [
  | some _ ↦ (err (prisma p2002 "tokenHash" ""), s)
  | none ↦ (ok tt, record s { refresh_tokens = (id, row) ∷ s.refresh_tokens })
]

abbrev pub find_refresh_token_by_hash : ℕ → Table RefreshToken → Option (ℕ × RefreshToken)
find_refresh_token_by_hash hash = find_first (λ _ r. r.token_hash == hash)

abbrev pub with_revoked_at : ℕ → RefreshToken → RefreshToken
with_revoked_at now r = record r { revoked_at = some now }

-- The row was just read, so it is there.
unfoldable pub revoke_refresh_token : ℕ → Action (Unit {0})
revoke_refresh_token id s =
    (ok tt, record s { refresh_tokens = update id (with_revoked_at s.now) s.refresh_tokens })

-- `where: { userId, revokedAt: null }`
abbrev pub is_unrevoked_of : ℕ → ℕ → RefreshToken → Bool
is_unrevoked_of user_id _ r = (r.user_id == user_id) && not (is_some r.revoked_at)

unfoldable pub revoke_all_user_refresh_tokens : ℕ → Action (Unit {0})
revoke_all_user_refresh_tokens user_id s = (
  ok tt,
  record s {
    refresh_tokens =
        update_where (is_unrevoked_of user_id) (with_revoked_at s.now) s.refresh_tokens;
  },
)

-- The user's unused tokens of one type.
abbrev pub is_unused_of : ℕ → VerificationTokenType → ℕ → VerificationToken → Bool
is_unused_of user_id type _ v =
    (v.user_id == user_id) && same_token_type v.type type && not (is_some v.used_at)

abbrev pub verification_token_collides : ℕ → VerificationToken → ℕ → VerificationToken → Bool
verification_token_collides id row j v = (j == id) || (v.token_hash == row.token_hash)

unfoldable pub insert_verification_token : ℕ → VerificationToken → Action (Unit {0})
insert_verification_token id row s =
    elim (find_first (verification_token_collides id row) s.verification_tokens) [
      | some _ ↦ (err (prisma p2002 "tokenHash" ""), s)
      | none ↦ (ok tt, record s { verification_tokens = (id, row) ∷ s.verification_tokens })
    ]

-- Deletes the user's unused tokens of the type, then creates the new one.
unfoldable pub create_verification_token : ℕ → VerificationToken → Action (Unit {0})
create_verification_token id row = transaction (
    modify (λ s. record s {
      verification_tokens = delete_where (is_unused_of row.user_id row.type) s.verification_tokens;
    })
    >> insert_verification_token id row)

abbrev pub is_valid_verification : ℕ → ℕ → VerificationTokenType → ℕ → VerificationToken → Bool
is_valid_verification now hash type _ v =
    (v.token_hash == hash)
    && same_token_type v.type type
    && not (is_some v.used_at)
    && ltb now v.expires_at

abbrev pub find_valid_verification_token :
    ℕ → ℕ → VerificationTokenType → Table VerificationToken → Option (ℕ × VerificationToken)
find_valid_verification_token now hash type = find_first (is_valid_verification now hash type)

abbrev pub with_used_at : ℕ → VerificationToken → VerificationToken
with_used_at now v = record v { used_at = some now }

unfoldable pub mark_verification_token_used : ℕ → Action (Unit {0})
mark_verification_token_used id s =
    (ok tt, record s { verification_tokens = update id (with_used_at s.now) s.verification_tokens })

-- The two deletions of the cleanup job, with the number of deleted rows.
abbrev pub is_dead_refresh : ℕ → ℕ → RefreshToken → Bool
is_dead_refresh now _ r = ltb r.expires_at now || is_some r.revoked_at

unfoldable pub delete_expired_refresh_tokens : Action ℕ
delete_expired_refresh_tokens s = (
  ok (count (is_dead_refresh s.now) s.refresh_tokens),
  record s { refresh_tokens = delete_where (is_dead_refresh s.now) s.refresh_tokens },
)

abbrev pub is_dead_verification : ℕ → ℕ → VerificationToken → Bool
is_dead_verification now _ v = ltb v.expires_at now || is_some v.used_at

unfoldable pub delete_expired_verification_tokens : Action ℕ
delete_expired_verification_tokens s = (
  ok (count (is_dead_verification s.now) s.verification_tokens),
  record s {
    verification_tokens = delete_where (is_dead_verification s.now) s.verification_tokens;
  },
)
