-- ===== src/Common/Lists.antt =====
-- Lists measured by native numbers.
use Prim.Native.Nat.{ℕ, zero, suc, ◌+◌, ◌-◌, ◌<◌}
use native.Mathlib.Decide.{dec_lt}
use mathlib.Core.Path.{◌≡◌}
use mathlib.Core.Bool.{Bool, false, ◌||◌}
use mathlib.Core.List.{List, [], ◌∷◌, ◌++◌}
use native.Mathlib.Omega.{arith}
use ride_sharing_backend.Common.Tests.{◌==◌}

module _ {ℓ} {A : Type ℓ} where
  abbrev pub length : List A → ℕ
  length [] = 0
  length (x ∷ xs) = suc (length xs)

  pub length-append : (xs ys : List A) → length (xs ++ ys) ≡ length xs + length ys
  length-append [] ys = omega arith
  length-append (x ∷ xs) ys = omega (arith, length-append xs ys)

module _ {ℓ} {A : Type ℓ} where
  abbrev pub take : ℕ → List A → List A
  take zero xs = []
  take (suc n) [] = []
  take (suc n) (x ∷ xs) = x ∷ take n xs

  abbrev pub drop : ℕ → List A → List A
  drop zero xs = xs
  drop (suc n) [] = []
  drop (suc n) (x ∷ xs) = drop n xs

-- Every entry has the property.
abbrev pub All {ℓ κ} : {A : Type ℓ} → (A → Type κ) → List A → Type κ
All P [] = Unit
All P (x ∷ xs) = P x × All P xs

-- Some entry passes_filter the test (`Array.prototype.some`).
abbrev pub any {ℓ} : {A : Type ℓ} → (A → Bool) → List A → Bool
any p [] = false
any p (x ∷ xs) = p x || any p xs

-- `Array.prototype.includes` on numbers.
abbrev pub includes : ℕ → List ℕ → Bool
includes k [] = false
includes k (j ∷ xs) = (k == j) || includes k xs

-- A budget of `m` entries, of which `n` are used up, at the next entry.
pub All-take_cons {ℓ κ} :
    {A : Type ℓ} (P : A → Type κ) (m n : ℕ) (x : A) (xs : List A)
    → All P (take (m - n) (x ∷ xs))
    → (n < m → P x) × All P (take (m - suc n) xs)
All-take_cons P m n x xs h = elim (dec_lt n m) [
  | yes p ↦
      let e : m - n ≡ suc (m - suc n) = omega arith in
      let h' : All P (take (suc (m - suc n)) (x ∷ xs)) = rw e at h in (λ _. h'.0, h'.1)
  | no q ↦ let e : m - suc n ≡ 0 = omega arith in (λ p. absurd (q p), rw e tt)
]
