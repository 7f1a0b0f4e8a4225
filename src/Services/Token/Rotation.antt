-- ===== src/Services/Token/Rotation.antt =====
-- A refresh token is exchanged at most once, and a replay ends every session of its user.
use ride_sharing_backend.Common.{
  ℕ, ◌+◌, ◌≡◌, ◌≢◌, refl, ap, ◌∙◌, true, false, ◌⊎◌, inl, inr, none, some, [], ◌∷◌, arith,
  Bool-cases, Option-cases, ◌==◌, is_some,
}
use mathlib.Core.Path.{subst}
use ride_sharing_backend.Common.Table.{Table, find, find_first, update, update_where, count}
use ride_sharing_backend.Errors.{Thrown, api, unauthorized, prisma, p2002}
use ride_sharing_backend.Model.{RefreshToken}
use ride_sharing_backend.Repositories.{
  create_refresh_token, refresh_token_collides, find_refresh_token_by_hash, revoke_refresh_token,
  revoke_all_user_refresh_tokens, is_unrevoked_of, with_revoked_at,
}
use ride_sharing_backend.Services.Token.{
  Fresh, refresh_row, reuse_error, is_spent, issue_refresh_token, rotate_found,
  rotate_refresh_token,
}
use ride_sharing_backend.Store.{at_time, Store, Result, ok, err}

-- The user's sessions that have not been revoked.
abbrev pub open_sessions : ℕ → Table RefreshToken → ℕ
open_sessions user_id = count (is_unrevoked_of user_id)

pub none_open :
    (user_id now : ℕ) (t : Table RefreshToken)
    → open_sessions user_id (update_where (is_unrevoked_of user_id) (with_revoked_at now) t) ≡ 0
none_open user_id now [] = refl
none_open user_id now ((j, r) ∷ t) = ground (arith, none_open user_id now t)

-- No id stands twice: it is the primary key.
abbrev pub HasKeys : Table RefreshToken → Type 0
HasKeys [] = Unit
HasKeys ((j, r) ∷ t) = (find j t ≡ none) × HasKeys t

not_in :
    (h k : ℕ) (r : RefreshToken) (t : Table RefreshToken)
    → find k t ≡ none
    → find_refresh_token_by_hash h t ≢ some (k, r)
not_in h k r [] n f = cc
not_in h k r ((j, v) ∷ t) n f = elim (Bool-cases (v.token_hash == h)) [
  | inl e ↦ ground arith
  | inr e ↦ ground (arith, not_in h k r t)
]

-- The row of a hash after that row was revoked.
revoked_row :
    (h k now : ℕ) (r : RefreshToken) (t : Table RefreshToken)
    → HasKeys t
    → find_refresh_token_by_hash h t ≡ some (k, r)
    → find_refresh_token_by_hash h (update k (with_revoked_at now) t)
      ≡ some (k, with_revoked_at now r)
revoked_row h k now r [] u f = cc
revoked_row h k now r ((j, v) ∷ t) (n, u) f = elim (Bool-cases (k == j)) [
  | inl e ↦ elim (Bool-cases (v.token_hash == h)) [
    | inl e' ↦ ground arith
    | inr e' ↦ ground (arith, not_in h k r t)
  ]
  | inr e ↦ ground (arith, revoked_row h k now r t u)
]

-- A new row that does not collide has another hash.
other_hash :
    (id h k : ℕ) (row r : RefreshToken) (t : Table RefreshToken)
    → find_first (refresh_token_collides id row) t ≡ none
    → find_refresh_token_by_hash h t ≡ some (k, r)
    → (row.token_hash == h) ≡ false
other_hash id h k row r [] c f = cc
other_hash id h k row r ((j, v) ∷ t) c f = elim (Bool-cases (v.token_hash == h)) [
  | inl e ↦ ground arith
  | inr e ↦ ground (arith, other_hash id h k row r t)
]

-- What is known after a rotation that succeeds: the presented token's row is revoked.
record Rotated (h user_id : ℕ) (t : Store) : Type 0 where
  id : ℕ
  row : RefreshToken
  found : find_refresh_token_by_hash h t.refresh_tokens ≡ some (id, row)
  spent : is_some row.revoked_at ≡ true
  owner : row.user_id ≡ user_id

module _ (hash : ℕ → ℕ) (refresh_ttl : ℕ) where
  rotated :
      (presented : ℕ) (new : Fresh) (s : Store)
      → HasKeys s.refresh_tokens
      → ((e : Thrown) × (t : Store) × (rotate_refresh_token hash refresh_ttl presented new s
            ≡ (err e, t)))
        ⊎ ((user_id : ℕ) × (t : Store) × Rotated (hash presented) user_id t
            × (rotate_refresh_token hash refresh_ttl presented new s ≡ (ok (user_id, new.raw), t)))
  unfolding rotate_refresh_token rotate_found issue_refresh_token create_refresh_token
      revoke_refresh_token revoke_all_user_refresh_tokens
  rotated presented new s u =
      elim (Option-cases (find_refresh_token_by_hash (hash presented) s.refresh_tokens)) [
        | inl f ↦ inl (api (unauthorized "Invalid refresh token"), s, ground arith)
        | inr ((k, r), f) ↦ elim (Bool-cases (is_spent s.now r)) [
          | inl x ↦
              inl (api reuse_error, (revoke_all_user_refresh_tokens r.user_id s).1, ground arith)
          | inr x ↦
              let row = refresh_row r.user_id (hash new.raw) (s.now + refresh_ttl) in
              let rows = update k (with_revoked_at s.now) s.refresh_tokens in
              elim (Option-cases (find_first (refresh_token_collides new.id row) rows)) [
                | inr (w, c) ↦
                    inl (
                      prisma p2002 "tokenHash" "",
                      record s { refresh_tokens = rows },
                      ground arith,
                    )
                | inl c ↦
                    let moved = revoked_row (hash presented) k s.now r s.refresh_tokens u f in
                    inr (
                      r.user_id,
                      record s { refresh_tokens = (new.id, row) ∷ rows },
                      record {
                        id = k;
                        row = with_revoked_at s.now r;
                        found = ground (
                          arith,
                          moved,
                          other_hash new.id (hash presented) k row (with_revoked_at s.now r) rows c
                              moved,
                        );
                        spent = refl;
                        owner = refl;
                      },
                      ground arith,
                    )
              ]
        ]
      ]

  replayed :
      (presented user_id : ℕ) (t : Store)
      → Rotated (hash presented) user_id t
      → (later : ℕ) (next : Fresh)
      → let again = rotate_refresh_token hash refresh_ttl presented next (at_time later t) in
        (again.0 ≡ err (api reuse_error)) × (open_sessions user_id again.1.refresh_tokens ≡ 0)
  unfolding rotate_refresh_token rotate_found revoke_all_user_refresh_tokens
  replayed presented user_id t c later next =
      let again = rotate_refresh_token hash refresh_ttl presented next (at_time later t) in
      let revoked : Store = record t {
        now = later;
        refresh_tokens =
            update_where (is_unrevoked_of c.row.user_id) (with_revoked_at later) t.refresh_tokens;
      } in
      let ends : again ≡ (err (api reuse_error), revoked) = ground (arith, c.found, c.spent) in
      (
        ap (λ (q : Result (ℕ × ℕ) × Store). q.0) ends,
        ap (λ (q : Result (ℕ × ℕ) × Store). open_sessions user_id q.1.refresh_tokens) ends
            ∙ ap
                (λ u.
                  open_sessions user_id
                    (update_where (is_unrevoked_of u) (with_revoked_at later) t.refresh_tokens))
                c.owner
            ∙ none_open user_id later t.refresh_tokens,
      )

  -- A refresh token that has been exchanged is never exchanged again: presenting it a second time, at
  -- whatever later time and for whatever new token, is refused as reuse, and leaves its user no open
  -- session.
  pub rotate_refresh_token_once :
      (presented user_id : ℕ) (new : Fresh) (s t : Store)
      → HasKeys s.refresh_tokens
      → rotate_refresh_token hash refresh_ttl presented new s ≡ (ok (user_id, new.raw), t)
      → (later : ℕ) (next : Fresh)
      → let again = rotate_refresh_token hash refresh_ttl presented next (at_time later t) in
        (again.0 ≡ err (api reuse_error)) × (open_sessions user_id again.1.refresh_tokens ≡ 0)
  rotate_refresh_token_once presented user_id new s t u h later next =
      elim (rotated presented new s u) [
        | inl (e, t', x) ↦ ground arith
        | inr (owner, t', c, x) ↦
            let et : t' ≡ t = ground arith in
            let eo : owner ≡ user_id = ground arith in
            replayed presented user_id t
              (subst (λ (q : Store). Rotated (hash presented) user_id q) et
                (subst (λ o. Rotated (hash presented) o t') eo c))
              later next
      ]
