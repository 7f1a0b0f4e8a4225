-- ===== src/Services/Token/Cleanup.antt =====
-- What deleting the dead rows changes for the tokens that are presented later.
use ride_sharing_backend.Common.{
  ℕ, ◌≤◌, ◌≡◌, refl, inl, inr, Option, none, some, [], ◌∷◌, arith, Bool-cases, ◌==◌, if◌then◌else◌,
}
use ride_sharing_backend.Common.Table.{Table, delete_where}
use ride_sharing_backend.Model.{RefreshToken}
use ride_sharing_backend.Repositories.{
  find_refresh_token_by_hash, delete_expired_refresh_tokens, is_dead_refresh,
}
use ride_sharing_backend.Services.Token.{is_spent}
use ride_sharing_backend.Store.{Store}

-- The row under which a presented hash can be exchanged at a time.
abbrev pub usable : ℕ → Option (ℕ × RefreshToken) → Option (ℕ × RefreshToken)
usable now none = none
usable now (some found) = if is_spent now found.1 then none else some found

-- No hash stands twice: it is unique.
abbrev pub HasHashes : Table RefreshToken → Type 0
HasHashes [] = Unit
HasHashes ((j, r) ∷ t) = (find_refresh_token_by_hash r.token_hash t ≡ none) × HasHashes t

no_hash_left :
    (h now : ℕ) (t : Table RefreshToken)
    → find_refresh_token_by_hash h t ≡ none
    → find_refresh_token_by_hash h (delete_where (is_dead_refresh now) t) ≡ none
no_hash_left h now [] n = refl
no_hash_left h now ((j, r) ∷ t) n = ground (arith, no_hash_left h now t)

pub usable_after :
    (h now later : ℕ) (t : Table RefreshToken)
    → now ≤ later
    → HasHashes t
    → usable later (find_refresh_token_by_hash h (delete_where (is_dead_refresh now) t))
      ≡ usable later (find_refresh_token_by_hash h t)
usable_after h now later [] le u = refl
usable_after h now later ((j, r) ∷ t) le (n, u) = elim (Bool-cases (r.token_hash == h)) [
  | inl e ↦ elim (Bool-cases (is_dead_refresh now j r)) [
    | inl d ↦ ground (arith, no_hash_left h now t)
    | inr d ↦ ground arith
  ]
  | inr e ↦ ground (arith, usable_after h now later t le u)
]

-- The cleanup job never ends a session: at whatever later time, a presented token can be exchanged after the cleanup
-- exactly if it could be without it, and under the same row.
pub delete_expired_refresh_tokens_safe :
    (h later : ℕ) (s : Store)
    → s.now ≤ later
    → HasHashes s.refresh_tokens
    → usable later (find_refresh_token_by_hash h (delete_expired_refresh_tokens s).1.refresh_tokens)
      ≡ usable later (find_refresh_token_by_hash h s.refresh_tokens)
unfolding delete_expired_refresh_tokens
delete_expired_refresh_tokens_safe h later s le u = usable_after h s.now later s.refresh_tokens le u
