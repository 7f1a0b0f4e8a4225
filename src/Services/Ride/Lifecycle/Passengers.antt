-- ===== src/Services/Ride/Lifecycle/Passengers.antt =====
-- A passenger's active rides over the steps of a table.
use ride_sharing_backend.Common.{ℕ, ◌≤◌, ◌≡◌, refl, none, [], ◌∷◌, arith, if◌then◌else◌}
use ride_sharing_backend.Common.Table.{Table, count}
use ride_sharing_backend.Model.{Ride}
use ride_sharing_backend.Repositories.{is_active_of_passenger, find_active_by_passenger}
use ride_sharing_backend.Services.Ride.Lifecycle.{Step, RowsStep}

abbrev pub active_rides : ℕ → Table Ride → ℕ
active_rides passenger_id = count (is_active_of_passenger passenger_id)

-- No passenger has two active rides.
abbrev pub AtMostOneActive : Table Ride → Type 0
AtMostOneActive t = (passenger_id : ℕ) → active_rides passenger_id t ≤ 1

-- A step keeps the passenger and never makes a ride active again.
Step-active :
    {r r' : Ride} (p : ℕ)
    → Step r r'
    → (if is_active_of_passenger p 0 r' then 1 else 0)
      ≤ (if is_active_of_passenger p 0 r then 1 else 0)
Step-active p (Step.stays e) = ground arith
Step-active p (Step.accepts now d v st none_yet e) = ground arith
Step-active p (Step.arrives now st e) = ground arith
Step-active p (Step.starts now st e) = ground arith
Step-active p (Step.completes now st e) = ground arith
Step-active p (Step.cancels now by reason c e) = ground arith

pub RowsStep-active_rides :
    (p : ℕ) (t t' : Table Ride) → RowsStep t t' → active_rides p t' ≤ active_rides p t
RowsStep-active_rides p [] [] h = ground arith
RowsStep-active_rides p [] (_ ∷ _) h = absurd h
RowsStep-active_rides p (_ ∷ _) [] h = absurd h
RowsStep-active_rides p ((j, r) ∷ t) ((i, r') ∷ t') (e, st, rest) =
    ground (arith, Step-active p st, RowsStep-active_rides p t t' rest)

pub none_active :
    (p : ℕ) (t : Table Ride) → find_active_by_passenger p t ≡ none → active_rides p t ≡ 0
none_active p [] h = refl
none_active p ((j, r) ∷ t) h = ground (arith, none_active p t)
