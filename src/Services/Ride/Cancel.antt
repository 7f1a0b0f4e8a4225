-- ===== src/Services/Ride/Cancel.antt =====
-- `cancelRide`, by the passenger or the assigned driver.
use ride_sharing_backend.Common.{
  ℕ, Bool, true, false, not, Option, none, some, ◌∷◌, String, ◌==◌, if◌then◌else◌, holds,
}
use ride_sharing_backend.Errors.{ApiError, not_found, conflict}
use ride_sharing_backend.Model.{Ride, RideStatus, CancelledBy}
use ride_sharing_backend.Store.{
  Store, Payload, RideOutcome, Action, gets, or_throw, throw_if, pure, modify, transaction, ◌>>=◌,
  ◌>>◌,
}
use ride_sharing_backend.Repositories.{
  update_ride, set_available, record_status, passenger_user, driver_user,
}
use ride_sharing_backend.Services.Geo.{remove_pending_ride}
use ride_sharing_backend.Services.Ride.{
  Viewer, sanitize_ride, ride_of, reload, emit_to_passenger, emit_to_driver,
}

-- `CANCELLABLE_STATUSES`
abbrev pub is_cancellable : RideStatus → Bool
is_cancellable RideStatus.requested = true
is_cancellable RideStatus.accepted = true
is_cancellable RideStatus.arrived = true
is_cancellable _ = false

-- Which side the caller is on, the passenger's first.
unfoldable pub canceller : ℕ → Ride → Store → Option Viewer
canceller user_id r s =
    if holds (λ u. u == user_id) (passenger_user s.passengers r)
    then some Viewer.passenger
    else if holds (λ u. u == user_id) (driver_user s.drivers r)
    then some Viewer.driver
    else none

abbrev cancelled_by_of : Viewer → CancelledBy
cancelled_by_of Viewer.passenger = CancelledBy.passenger
cancelled_by_of Viewer.driver = CancelledBy.driver

abbrev pub to_cancelled : ℕ → CancelledBy → Option String → Ride → Ride
to_cancelled now by reason r = record r {
  status = RideStatus.cancelled;
  cancelled_at = some now;
  cancelled_by = some by;
  cancellation_reason = reason;
}

-- `...(ride.driverId ? [driverRepository.setAvailable(ride.driverId, true)] : [])`
abbrev pub free_driver : Option ℕ → Action (Unit {0})
free_driver none = pure tt
free_driver (some d) = set_available d true

unfoldable pub settle_cancellation : ℕ → Ride → CancelledBy → Option String → Action (Unit {0})
settle_cancellation ride_id r by reason = transaction do
  now ← gets (λ s. s.now)
  update_ride ride_id (to_cancelled now by reason)
  free_driver r.driver_id

abbrev notify_other_side : ℕ → Viewer → Ride → Action (Unit {0})
notify_other_side ride_id Viewer.passenger updated =
    emit_to_driver updated (Payload.ride_cancelled ride_id (sanitize_ride Viewer.driver updated))
notify_other_side ride_id Viewer.driver updated =
    emit_to_passenger updated
      (Payload.ride_cancelled ride_id (sanitize_ride Viewer.passenger updated))

abbrev not_cancellable : RideStatus → ApiError
not_cancellable RideStatus.in_progress = conflict "A ride in IN_PROGRESS status cannot be cancelled"
not_cancellable RideStatus.completed = conflict "A ride in COMPLETED status cannot be cancelled"
not_cancellable _ = conflict "A ride in CANCELLED status cannot be cancelled"

unfoldable pub cancel_ride : ℕ → ℕ → Option String → Action Ride
cancel_ride user_id ride_id reason = do
  found ← gets (ride_of ride_id)
  r ← or_throw (not_found "Ride not found") found
  side ← gets (canceller user_id r)
  by ← or_throw (not_found "Ride not found") side
  throw_if (not (is_cancellable r.status)) (not_cancellable r.status)
  settle_cancellation ride_id r (cancelled_by_of by) reason
  updated ← reload ride_id
  remove_pending_ride ride_id
  record_status ride_id RideStatus.cancelled reason
  modify (λ s. record s { ride_outcomes = RideOutcome.cancelled ∷ s.ride_outcomes })
  notify_other_side ride_id by updated
  pure (sanitize_ride by updated)
