-- ===== src/Store/Monad.antt =====
-- The state and exception monad of the services. What was written before a throw stays written,
-- except inside a database transaction.
use ride_sharing_backend.Common.{
  Bool, true, false, Option, none, some, List, [], ◌∷◌, if◌then◌else◌,
}
use ride_sharing_backend.Errors.{ApiError, Thrown, api}
use ride_sharing_backend.Store.State.{Store}

pub data Result {ℓ} (A : Type ℓ) : Type ℓ where
  ok : A → Result A
  err : Thrown → Result A

abbrev pub Action : Type 0 → Type 0
Action A = Store → Result A × Store

module _ {A : Type 0} where
  abbrev pub pure : A → Action A
  pure a s = (ok a, s)

  abbrev pub throw : Thrown → Action A
  throw e s = (err e, s)

  abbrev pub gets : (Store → A) → Action A
  gets f s = (ok (f s), s)

  -- `if (!x) throw e;` on a row that was read.
  abbrev pub or_throw : ApiError → Option A → Action A
  or_throw e none s = (err (api e), s)
  or_throw e (some a) s = (ok a, s)

  -- `prisma.$transaction`: all writes land, or none.
  abbrev pub transaction : Action A → Action A
  transaction m s = let (r, s') = m s in elim r [ ok a ↦ (ok a, s') | err e ↦ (err e, s) ]

infixl 5 ◌>>=◌ ◌>>◌
abbrev pub ◌>>=◌ : {A B : Type 0} → Action A → (A → Action B) → Action B
◌>>=◌ m f s = let (r, s') = m s in elim r [ ok a ↦ f a s' | err e ↦ (err e, s') ]

abbrev pub ◌>>◌ : {A B : Type 0} → Action A → Action B → Action B
m >> k = m >>= λ _. k

abbrev pub modify : (Store → Store) → Action (Unit {0})
modify f s = (ok tt, f s)

-- `if (c) throw e;`
abbrev pub throw_if : Bool → ApiError → Action (Unit {0})
throw_if c e s = (if c then err (api e) else ok tt, s)

abbrev pub when : Bool → Action (Unit {0}) → Action (Unit {0})
when c m s = elim c [ true ↦ m s | false ↦ (ok tt, s) ]

-- `for (const x of xs) { ... }`
abbrev pub for_each {ℓ} : {A : Type ℓ} → List A → (A → Action (Unit {0})) → Action (Unit {0})
for_each [] f s = (ok tt, s)
for_each (x ∷ xs) f s = (f x >> for_each xs f) s
