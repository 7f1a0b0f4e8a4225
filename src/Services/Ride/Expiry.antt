-- ===== src/Services/Ride/Expiry.antt =====
-- `expireStaleRides`. The three queries run first; then each ride that one of them found is handled
-- in turn, so `sweep` takes the rows that the queries saw and `expire_stale_rides` composes the two.
pub mod Skipped
use ride_sharing_backend.Common.{
  ℕ, ◌+◌, ◌-◌, ◌*◌, not, some, [], ◌∷◌, String, ◌==◌, if◌then◌else◌, length,
}
use ride_sharing_backend.Common.Table.{Table}
use ride_sharing_backend.Model.{Ride, RideStatus, CancelledBy}
use ride_sharing_backend.Store.{
  Payload, RideOutcome, Action, gets, pure, modify, transaction, when, ◌>>=◌, ◌>>◌,
}
use ride_sharing_backend.Repositories.{
  try_update_status_if_currently, find_stale_requested, find_stale_accepted, find_stale_arrived,
  record_status,
}
use ride_sharing_backend.Services.Geo.{remove_pending_ride}
use ride_sharing_backend.Services.Ride.{Viewer, sanitize_ride, emit_to_passenger, emit_to_driver}
use ride_sharing_backend.Services.Ride.Cancel.{to_cancelled, free_driver}

-- The timeouts, in milliseconds.
abbrev pub requested_timeout : ℕ
requested_timeout = 5 * 60 * 1000

abbrev pub accepted_timeout : ℕ
accepted_timeout = 15 * 60 * 1000

abbrev pub arrived_timeout : ℕ
arrived_timeout = 15 * 60 * 1000

abbrev pub expiry_reason : RideStatus → String
expiry_reason RideStatus.requested = "No driver accepted within 5 minutes"
expiry_reason RideStatus.accepted = "Driver did not arrive within 15 minutes of accepting"
expiry_reason _ = "OTP was never completed within 15 minutes of driver arrival"

-- `{ ...ride, status: "CANCELLED" }`, over the row that the query saw.
abbrev shown_cancelled : Ride → Ride
shown_cancelled r = record r { status = RideStatus.cancelled }

unfoldable pub announce_expiry : ℕ → Ride → RideStatus → Action (Unit {0})
announce_expiry ride_id r observed = do
  record_status ride_id RideStatus.cancelled (some (expiry_reason observed))
  modify (λ s. record s { ride_outcomes = RideOutcome.expired ∷ s.ride_outcomes })
  emit_to_passenger r
      (Payload.ride_cancelled ride_id (sanitize_ride Viewer.passenger (shown_cancelled r)))

-- What follows a change in the first loop, and in the second and third.
unfoldable pub close_request : ℕ → Ride → Action (Unit {0})
unfolding announce_expiry
close_request ride_id r = do
  remove_pending_ride ride_id
  announce_expiry ride_id r RideStatus.requested

unfoldable pub tell_both_sides : ℕ → Ride → RideStatus → Action (Unit {0})
unfolding announce_expiry
tell_both_sides ride_id r observed = do
  announce_expiry ride_id r observed
  emit_to_driver r
      (Payload.ride_cancelled ride_id (sanitize_ride Viewer.driver (shown_cancelled r)))

-- The conditional write. It counts what it changed.
unfoldable pub try_expire : ℕ → RideStatus → Action ℕ
try_expire ride_id observed = do
  now ← gets (λ s. s.now)
  try_update_status_if_currently ride_id observed
      (to_cancelled now CancelledBy.system (some (expiry_reason observed)))

-- One round of the first loop, and of the second and third. The answer is what it adds to
-- `expiredCount`.
unfoldable pub expire_requested : ℕ × Ride → Action ℕ
unfolding try_expire close_request
expire_requested (ride_id, r) = do
  changed ← try_expire ride_id RideStatus.requested
  when (not (changed == 0)) (close_request ride_id r)
  pure (if changed == 0 then 0 else 1)

-- The transaction frees the driver whether or not the conditional write changed the row.
unfoldable pub settle_expiry : RideStatus → ℕ × Ride → Action ℕ
unfolding try_expire
settle_expiry observed (ride_id, r) =
    transaction do changed ← try_expire ride_id observed; free_driver r.driver_id; pure changed

unfoldable pub expire_assigned : RideStatus → ℕ × Ride → Action ℕ
unfolding settle_expiry tell_both_sides
expire_assigned observed (ride_id, r) = do
  changed ← settle_expiry observed (ride_id, r)
  when (not (changed == 0)) (tell_both_sides ride_id r observed)
  pure (if changed == 0 then 0 else 1)

-- A loop over the rides that a query found.
unfoldable pub sweep : (ℕ × Ride → Action ℕ) → Table Ride → Action ℕ
sweep expire [] = pure 0
sweep expire (r ∷ rides) = do changed ← expire r; rest ← sweep expire rides; pure (changed + rest)

pub record ExpiryReport : Type 0 where
  pub expired_requested : ℕ
  pub expired_accepted : ℕ
  pub expired_arrived : ℕ
  pub expired_count : ℕ

-- The three loops, one after the other.
unfoldable pub sweep_all : Table Ride → Table Ride → Table Ride → Action ℕ
unfolding expire_requested expire_assigned sweep
sweep_all stale_requested stale_accepted stale_arrived = do
  requested ← sweep expire_requested stale_requested
  accepted ← sweep (expire_assigned RideStatus.accepted) stale_accepted
  arrived ← sweep (expire_assigned RideStatus.arrived) stale_arrived
  pure (requested + accepted + arrived)

abbrev pub report : Table Ride → Table Ride → Table Ride → ℕ → ExpiryReport
report stale_requested stale_accepted stale_arrived expired_count = record {
  expired_requested = length stale_requested;
  expired_accepted = length stale_accepted;
  expired_arrived = length stale_arrived;
  expired_count = expired_count;
}

unfoldable pub expire_stale_rides : Action ExpiryReport
unfolding sweep_all
expire_stale_rides = do
  stale_requested ← gets (λ s. find_stale_requested (s.now - requested_timeout) s.rides)
  stale_accepted ← gets (λ s. find_stale_accepted (s.now - accepted_timeout) s.rides)
  stale_arrived ← gets (λ s. find_stale_arrived (s.now - arrived_timeout) s.rides)
  expired_count ← sweep_all stale_requested stale_accepted stale_arrived
  pure (report stale_requested stale_accepted stale_arrived expired_count)
