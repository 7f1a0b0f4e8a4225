-- ===== src/Services/Auth/Reset.antt =====
-- What a password reset leaves behind, and that its link works once.
use ride_sharing_backend.Common.{
  ℕ, ◌≡◌, ◌≢◌, refl, ap, ◌∙◌, inl, inr, none, some, [], ◌∷◌, arith, Bool-cases, ◌==◌,
}
use ride_sharing_backend.Common.Table.{Table, find, find_first, update, update_where, find-update}
use ride_sharing_backend.Errors.{api, bad_request}
use ride_sharing_backend.Model.{User, VerificationToken, VerificationTokenType}
use ride_sharing_backend.Repositories.{
  find_valid_verification_token, is_valid_verification, mark_verification_token_used, with_used_at,
  update_user, with_password_hash, revoke_all_user_refresh_tokens, is_unrevoked_of, with_revoked_at,
}
use ride_sharing_backend.Services.Auth.{logout_all_devices}
use ride_sharing_backend.Services.Auth.Sessions.{reset_password}
use ride_sharing_backend.Services.Token.{revoke_all_user_access_tokens}
use ride_sharing_backend.Services.Token.Rotation.{open_sessions, none_open}
use ride_sharing_backend.Store.{at_time, Store, err}

-- A reset token's hash stands in one row at most, and an id in one too.
abbrev pub IsDistinct : Table VerificationToken → Type 0
IsDistinct [] = Unit
IsDistinct ((j, v) ∷ t) =
    (find j t ≡ none) × (find_first (λ _ w. w.token_hash == v.token_hash) t ≡ none) × IsDistinct t

no_other :
    (now h k : ℕ) (type : VerificationTokenType) (v : VerificationToken)
    (t : Table VerificationToken)
    → find k t ≡ none
    → find_valid_verification_token now h type t ≢ some (k, v)
no_other now h k type v [] n f = cc
no_other now h k type v ((j, w) ∷ t) n f =
    elim (Bool-cases (is_valid_verification now h type j w)) [
      | inl e ↦ ground arith
      | inr e ↦ ground (arith, no_other now h k type v t)
    ]

no_hash :
    (now h : ℕ) (type : VerificationTokenType) (t : Table VerificationToken)
    → find_first (λ _ w. w.token_hash == h) t ≡ none
    → find_valid_verification_token now h type t ≡ none
no_hash now h type [] n = refl
no_hash now h type ((j, w) ∷ t) n = ground (arith, no_hash now h type t)

used_up :
    (now later h k : ℕ) (type : VerificationTokenType) (v : VerificationToken)
    (t : Table VerificationToken)
    → IsDistinct t
    → find_valid_verification_token now h type t ≡ some (k, v)
    → find_valid_verification_token later h type (update k (with_used_at now) t) ≡ none
used_up now later h k type v [] u f = cc
used_up now later h k type v ((j, w) ∷ t) (n, m, u) f =
    elim (Bool-cases (is_valid_verification now h type j w)) [
      | inl e ↦ ground (arith, no_hash later h type t)
      | inr e ↦ elim (Bool-cases (k == j)) [
        | inl e' ↦ ground (arith, no_other now h k type v t)
        | inr e' ↦ elim (Bool-cases (w.token_hash == h)) [
          | inl e'' ↦ ground (arith, no_hash now h type t)
          | inr e'' ↦ ground (arith, used_up now later h k type v t u)
        ]
      ]
    ]

-- The store after a reset, up to what Redis holds.
record HasReset (k : ℕ) (v : VerificationToken) (password_hash : ℕ) (s t : Store) : Type 0 where
  users : t.users ≡ update v.user_id (with_password_hash password_hash) s.users
  links : t.verification_tokens ≡ update k (with_used_at s.now) s.verification_tokens
  sessions :
      t.refresh_tokens
      ≡ update_where (is_unrevoked_of v.user_id) (with_revoked_at s.now) s.refresh_tokens

module _ (hash : ℕ → ℕ) (refresh_ttl : ℕ) (bcrypt_hash : ℕ → ℕ) (access_ttl : ℕ) where
  reset_password-HasReset :
      (token new_password k : ℕ) (v : VerificationToken) (u : User) (s : Store)
      → find_valid_verification_token s.now
          (hash token)
          VerificationTokenType.password_reset
          s.verification_tokens
        ≡ some (k, v)
      → find v.user_id s.users ≡ some u
      → HasReset k v
          (bcrypt_hash new_password)
          s
          (reset_password hash refresh_ttl bcrypt_hash access_ttl token new_password s).1
  unfolding reset_password update_user mark_verification_token_used logout_all_devices
      revoke_all_user_refresh_tokens revoke_all_user_access_tokens
  reset_password-HasReset token new_password k v u s f g = elim (Bool-cases s.redis.is_up) [
    | inl up ↦ record { users = ground arith; links = ground arith; sessions = ground arith }
    | inr down ↦ record { users = ground arith; links = ground arith; sessions = ground arith }
  ]

  link_refused :
      (token new_password : ℕ) (s : Store)
      → find_valid_verification_token s.now
          (hash token)
          VerificationTokenType.password_reset
          s.verification_tokens
        ≡ none
      → reset_password hash refresh_ttl bcrypt_hash access_ttl token new_password s
        ≡ (err (api (bad_request "Invalid or expired reset token")), s)
  unfolding reset_password
  link_refused token new_password s f = ground arith

  -- A reset with a valid link stores the new password's hash, leaves the user no open session, and spends the link:
  -- whoever presents it again, at whatever time, is refused and changes nothing. This holds whether or not Redis
  -- answers.
  pub reset_password_once :
      (token new_password k : ℕ) (v : VerificationToken) (u : User) (s : Store)
      → IsDistinct s.verification_tokens
      → find_valid_verification_token s.now
          (hash token)
          VerificationTokenType.password_reset
          s.verification_tokens
        ≡ some (k, v)
      → find v.user_id s.users ≡ some u
      → (later other_password : ℕ)
      → let t = (reset_password hash refresh_ttl bcrypt_hash access_ttl token new_password s).1 in
        (find v.user_id t.users ≡ some (with_password_hash (bcrypt_hash new_password) u))
        × (open_sessions v.user_id t.refresh_tokens ≡ 0)
        × (reset_password hash refresh_ttl bcrypt_hash access_ttl token other_password
              (at_time later t)
            ≡ (err (api (bad_request "Invalid or expired reset token")), at_time later t))
  reset_password_once token new_password k v u s d f g later other_password =
      let t = (reset_password hash refresh_ttl bcrypt_hash access_ttl token new_password s).1 in
      let r = reset_password-HasReset token new_password k v u s f g in
      (
        ground (
          arith,
          r.users,
          g,
          find-update v.user_id v.user_id (with_password_hash (bcrypt_hash new_password)) s.users,
        ),
        ap (open_sessions v.user_id) r.sessions ∙ none_open v.user_id s.now s.refresh_tokens,
        link_refused token other_password (at_time later t) (
            ap
              (λ rows.
                find_valid_verification_token later (hash token)
                  VerificationTokenType.password_reset rows)
              r.links
            ∙ used_up s.now later (hash token) k VerificationTokenType.password_reset v
                s.verification_tokens d f),
      )
