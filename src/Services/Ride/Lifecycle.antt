-- ===== src/Services/Ride/Lifecycle.antt =====
-- The life of a ride row as a step relation, for whole tables, with the rows that each operation of
-- services/ride.service.js may change.
pub mod Operations
pub mod Rows
pub mod Sweeps
pub mod Passengers
use ride_sharing_backend.Common.{
  ℕ, ◌≡◌, refl, ap, ◌∙◌, sym, Bool, true, false, ◌⊎◌, inl, inr, Option, none, some, List, [], ◌∷◌,
  arith, Bool-cases, ◌==◌, if◌then◌else◌, String,
}
use mathlib.Core.Option.{some-injective}
use mathlib.Core.Path.{subst}
use ride_sharing_backend.Common.Table.{Table, find, update, update_where}
use ride_sharing_backend.Model.{Ride, RideStatus, CancelledBy}
use ride_sharing_backend.Repositories.{assign}
use ride_sharing_backend.Services.Ride.Trip.{to_arrived, to_in_progress, to_completed}
use ride_sharing_backend.Services.Ride.Cancel.{to_cancelled, is_cancellable}

-- What may happen to a row: nothing, or one move of the life of a ride.
pub data Step (r r' : Ride) : Type 0 where
  stays : r' ≡ r → Step r r'
  accepts :
      (now driver_id vehicle_id : ℕ)
      → r.status ≡ RideStatus.requested
      → r.driver_id ≡ none
      → r' ≡ assign now driver_id vehicle_id r
      → Step r r'
  arrives : (now : ℕ) → r.status ≡ RideStatus.accepted → r' ≡ to_arrived now r → Step r r'
  starts : (now : ℕ) → r.status ≡ RideStatus.arrived → r' ≡ to_in_progress now r → Step r r'
  completes : (now : ℕ) → r.status ≡ RideStatus.in_progress → r' ≡ to_completed now r r → Step r r'
  cancels :
      (now : ℕ) (by : CancelledBy) (reason : Option String)
      → is_cancellable r.status ≡ true
      → r' ≡ to_cancelled now by reason r
      → Step r r'

-- Every row of a table under the same id, moved by at most one step.
abbrev pub RowsStep : Table Ride → Table Ride → Type 0
RowsStep [] [] = Unit
RowsStep [] (_ ∷ _) = ⊥
RowsStep (_ ∷ _) [] = ⊥
RowsStep ((j, r) ∷ t) ((i, r') ∷ t') = (i ≡ j) × Step r r' × RowsStep t t'

pub RowsStep-refl : (t : Table Ride) → RowsStep t t
RowsStep-refl [] = tt
RowsStep-refl ((j, r) ∷ t) = (refl, Step.stays refl, RowsStep-refl t)

some-Step : (v r : Ride) (f : Ride → Ride) → some v ≡ some r → Step r (f r) → Step v (f v)
some-Step v r f e h = subst (λ (x : Ride). Step x (f x)) (sym (some-injective v r e)) h

pub update-RowsStep :
    (k : ℕ) (f : Ride → Ride) (r : Ride) (t : Table Ride)
    → find k t ≡ some r
    → Step r (f r)
    → RowsStep t (update k f t)
update-RowsStep k f r [] e h = tt
update-RowsStep k f r ((j, v) ∷ t) e h = elim (Bool-cases (k == j)) [
  | inl same ↦ rw same (refl, some-Step v r f (rw same at e) h, RowsStep-refl t)
  | inr differs ↦ rw differs (refl, Step.stays refl, update-RowsStep k f r t (rw differs at e) h)
]

pub update_where-RowsStep :
    (p : ℕ → Ride → Bool) (f : Ride → Ride) (t : Table Ride)
    → ((j : ℕ) (r : Ride) → p j r ≡ true → Step r (f r))
    → RowsStep t (update_where p f t)
update_where-RowsStep p f [] h = tt
update_where-RowsStep p f ((j, v) ∷ t) h = elim (Bool-cases (p j v)) [
  | inl hit ↦ (refl, rw hit (h j v hit), update_where-RowsStep p f t h)
  | inr miss ↦ (refl, rw miss (Step.stays refl), update_where-RowsStep p f t h)
]
