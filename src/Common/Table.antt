-- ===== src/Common/Table.antt =====
-- A database table or a keyed Redis structure: rows under their ids, newest first.
use Prim.Native.Nat.{ℕ, ◌+◌}
use mathlib.Core.Path.{◌≡◌, refl, sym, ◌∙◌, subst}
use mathlib.Core.Logic.{inl, inr}
use mathlib.Core.Bool.{Bool, true}
use mathlib.Core.Option.{Option, none, some}
use mathlib.Core.Option
use mathlib.Core.List.{List, [], ◌∷◌}
use native.Mathlib.Omega.{arith}
use ride_sharing_backend.Common.Tests.{◌==◌, if◌then◌else◌, Bool-cases, holds}

abbrev pub Table {ℓ} : Type ℓ → Type ℓ
Table V = List (ℕ × V)

module _ {ℓ} {V : Type ℓ} where
  -- `findUnique({ where: { id } })`
  abbrev pub find : ℕ → Table V → Option V
  find k [] = none
  find k ((j, v) ∷ t) = if k == j then some v else find k t

  -- `findFirst({ where })`, with the id of the row
  abbrev pub find_first : (ℕ → V → Bool) → Table V → Option (ℕ × V)
  find_first p [] = none
  find_first p ((j, v) ∷ t) = if p j v then some (j, v) else find_first p t

  -- `findMany({ where })`
  abbrev pub find_many : (ℕ → V → Bool) → Table V → Table V
  find_many p [] = []
  find_many p ((j, v) ∷ t) = let rest = find_many p t in if p j v then (j, v) ∷ rest else rest

  -- `count({ where })`
  abbrev pub count : (ℕ → V → Bool) → Table V → ℕ
  count p [] = 0
  count p ((j, v) ∷ t) = (if p j v then 1 else 0) + count p t

  -- `update({ where: { id }, data })` on a row that exists
  abbrev pub update : ℕ → (V → V) → Table V → Table V
  update k f [] = []
  update k f ((j, v) ∷ t) = if k == j then (j, f v) ∷ t else (j, v) ∷ update k f t

  -- `updateMany({ where, data })`
  abbrev pub update_where : (ℕ → V → Bool) → (V → V) → Table V → Table V
  update_where p f [] = []
  update_where p f ((j, v) ∷ t) = (j, if p j v then f v else v) ∷ update_where p f t

  -- `deleteMany({ where })`, and `delete` by id
  abbrev pub delete_where : (ℕ → V → Bool) → Table V → Table V
  delete_where p [] = []
  delete_where p ((j, v) ∷ t) = let rest = delete_where p t in if p j v then rest else (j, v) ∷ rest

  -- A write under a key, in place of what stood there.
  abbrev pub put : ℕ → V → Table V → Table V
  put k v [] = (k, v) ∷ []
  put k v ((j, w) ∷ t) = if k == j then (k, v) ∷ t else (j, w) ∷ put k v t

  abbrev pub remove : ℕ → Table V → Table V
  remove k = delete_where (λ j _. k == j)

  pub find-update :
      (k j : ℕ) (f : V → V) (t : Table V)
      → find j (update k f t) ≡ (if k == j then Option.map f (find j t) else find j t)
  find-update k j f [] = ground arith
  find-update k j f ((i, v) ∷ t) = ground (arith, find-update k j f t)

  pub find-put :
      (k j : ℕ) (v : V) (t : Table V) → find j (put k v t) ≡ (if k == j then some v else find j t)
  find-put k j v [] = ground arith
  find-put k j v ((i, w) ∷ t) = ground (arith, find-put k j v t)

  pub find-remove :
      (k j : ℕ) (t : Table V) → find j (remove k t) ≡ (if k == j then none else find j t)
  find-remove k j [] = ground arith
  find-remove k j ((i, w) ∷ t) = ground (arith, find-remove k j t)

  pub find_first-passes :
      (p : ℕ → V → Bool) (k : ℕ) (u : V) (t : Table V) → find_first p t ≡ some (k, u) → p k u ≡ true
  find_first-passes p k u [] h = cc
  find_first-passes p k u ((j, v) ∷ t) h = elim (Bool-cases (p j v)) [
    | inl e ↦
        let same : ◌≡◌ {A = Option (ℕ × V)} (some (j, v)) (some (k, u)) = rw e at h in
        subst (λ (o : Option (ℕ × V)). holds (λ x. p x.0 x.1) o ≡ true) same e
    | inr e ↦ find_first-passes p k u t (rw e at h)
  ]

  -- A row that is found both by a test and by its id is found by the test after an update under its
  -- id that the test does not see.
  pub find_first-update :
      (p : ℕ → V → Bool) (k : ℕ) (f : V → V) (u : V) (t : Table V)
      → ((j : ℕ) (v : V) → p j (f v) ≡ p j v)
      → find k t ≡ some u
      → find_first p t ≡ some (k, u)
      → find_first p (update k f t) ≡ some (k, f u)
  find_first-update p k f u [] blind g h = cc
  find_first-update p k f u ((j, v) ∷ t) blind g h = elim (Bool-cases (k == j)) [
    | inl e ↦
        let same : v ≡ u = ground arith in
        let key : k ≡ j = ground arith in
        let hit : p j (f v) ≡ true =
          blind j v
          ∙ subst (λ (w : V). p j w ≡ true) (sym same)
              (subst (λ (i : ℕ). p i u ≡ true) key (find_first-passes p k u ((j, v) ∷ t) h)) in
        rw e (rw hit (ground arith))
    | inr e ↦ elim (Bool-cases (p j v)) [
      | inl hit ↦ absurd (ground arith)
      | inr miss ↦ rw e (rw miss (find_first-update p k f u t blind (rw e at g) (rw miss at h)))
    ]
  ]

  -- No id stands twice: it is the primary key.
  abbrev pub IsKeyed : Table V → Type ℓ
  IsKeyed [] = Unit
  IsKeyed ((j, v) ∷ t) = (find j t ≡ none) × IsKeyed t

  pub find-find_first :
      (p : ℕ → V → Bool) (k : ℕ) (u : V) (t : Table V)
      → IsKeyed t
      → find_first p t ≡ some (k, u)
      → find k t ≡ some u
  find-find_first p k u [] n h = cc
  find-find_first p k u ((j, v) ∷ t) (n, ns) h = elim (Bool-cases (p j v)) [
    | inl e ↦ ground arith
    | inr e ↦ ground (arith, find-find_first p k u t ns)
  ]

  pub update_where-none :
      (p : ℕ → V → Bool) (f : V → V) (t : Table V) → count p t ≡ 0 → update_where p f t ≡ t
  update_where-none p f [] h = refl
  update_where-none p f ((j, v) ∷ t) h = ground (arith, update_where-none p f t)
