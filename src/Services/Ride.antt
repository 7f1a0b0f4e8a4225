-- ===== src/Services/Ride.antt =====
-- services/ride.service.js: what its operations share. The operations stand in the modules below.
pub mod Request
pub mod Matching
pub mod Trip
pub mod Cancel
pub mod Expiry
pub mod Views
pub mod Cases
pub mod Frame
pub mod Lifecycle
pub mod Evolution
pub mod History
pub mod Race
pub mod Secrecy
pub mod Sorting
pub mod Nearby
use ride_sharing_backend.Common.{
  ℕ, ◌+◌, ◌*◌, ◌/◌, String, Bool, true, false, ◌&&◌, not, Option, none, some, List, [], ◌∷◌, ◌==◌,
  if◌then◌else◌, is_some, holds,
}
use ride_sharing_backend.Common.Table.{find}
use ride_sharing_backend.Errors.{ApiError, forbidden, not_found, conflict}
use ride_sharing_backend.Model.{Ride, RideStatus, same_status, Driver, Passenger}
use ride_sharing_backend.Store.{
  Store, Action, Emitted, Payload, gets, or_throw, throw_if, pure, modify, ◌>>=◌, ◌>>◌, when,
}
use ride_sharing_backend.Repositories.{
  find_driver_by_user, find_passenger_by_user, passenger_user, driver_user,
}

-- Who reads a view of a ride.
pub data Viewer : Type 0 where
  passenger driver : Viewer

-- `const { otpCode, ...rest } = ride`
abbrev pub without_otp : Ride → Ride
without_otp r = record r { otp_code = none }

abbrev pub sanitize_ride : Viewer → Ride → Ride
sanitize_ride Viewer.passenger r = r
sanitize_ride Viewer.driver r = without_otp r

unfoldable pub get_own_passenger : ℕ → Action (ℕ × Passenger)
get_own_passenger user_id = do
  found ← gets (λ s. find_passenger_by_user user_id s.passengers)
  or_throw (forbidden "Only passenger accounts can perform this action") found

unfoldable pub get_own_driver : ℕ → Action (ℕ × Driver)
get_own_driver user_id = do
  found ← gets (λ s. find_driver_by_user user_id s.drivers)
  or_throw (forbidden "Only driver accounts can perform this action") found

abbrev pub ride_of : ℕ → Store → Option Ride
ride_of ride_id s = find ride_id s.rides

abbrev status_message : RideStatus → String
status_message RideStatus.accepted = "Ride must be in ACCEPTED status for this action"
status_message RideStatus.arrived = "Ride must be in ARRIVED status for this action"
status_message _ = "Ride must be in IN_PROGRESS status for this action"

-- `ride.driverId === driver.id`
abbrev pub is_driven_by : ℕ → Ride → Bool
is_driven_by driver_id r = holds (λ d. d == driver_id) r.driver_id

unfoldable pub get_assigned_ride_in_status : ℕ → ℕ → RideStatus → Action (ℕ × Driver × Ride)
unfolding get_own_driver
get_assigned_ride_in_status user_id ride_id expected = do
  (driver_id, own) ← get_own_driver user_id
  found ← gets (ride_of ride_id)
  ride ← or_throw (not_found "Ride not found") found
  throw_if (not (is_driven_by driver_id ride)) (not_found "Ride not found")
  throw_if (not (same_status ride.status expected)) (conflict (status_message expected))
  pure (driver_id, own, ride)

-- `emitToUser`; the foreign keys make the joined user exist.
abbrev pub emit_to : Option ℕ → Payload → Action (Unit {0})
emit_to none payload = pure tt
emit_to (some user) payload =
    modify (λ s. record s { emitted = record { to = user; payload = payload } ∷ s.emitted })

-- Reads the row again after a write, as the services do for the event and the answer.
unfoldable pub reload : ℕ → Action Ride
reload ride_id = do found ← gets (ride_of ride_id); or_throw (not_found "Record not found") found

unfoldable pub emit_to_passenger : Ride → Payload → Action (Unit {0})
emit_to_passenger r payload = do
  user ← gets (λ s. passenger_user s.passengers r)
  emit_to user payload

unfoldable pub emit_to_driver : Ride → Payload → Action (Unit {0})
emit_to_driver r payload = do user ← gets (λ s. driver_user s.drivers r); emit_to user payload
