-- ===== src/Services/Ride/Trip.antt =====
-- The driver's side of an accepted ride: `markArrived`, `startRide` with its OTP, `completeRide`.
pub mod Guessing
use ride_sharing_backend.Common.{
  ℕ, ◌+◌, ◌*◌, ◌-◌, Bool, true, false, ◌&&◌, not, Option, none, some, List, [], ◌∷◌, ◌==◌, ltb,
  if◌then◌else◌, holds, String,
}
use ride_sharing_backend.Common.Table.{Table, find, put, remove}
use ride_sharing_backend.Errors.{bad_request, forbidden}
use ride_sharing_backend.Model.{Ride, RideStatus, Driver}
use ride_sharing_backend.Store.{
  Store, Counter, Redis, Payload, RideOutcome, Action, gets, throw_if, pure, modify, transaction,
  ◌>>=◌, ◌>>◌,
}
use ride_sharing_backend.Repositories.{
  update_ride, record_status, set_available, increment_driver_stats, increment_passenger_stats,
}
use ride_sharing_backend.Services.Geo.{redis_read, redis_write}
use ride_sharing_backend.Services.Ride.{
  Viewer, sanitize_ride, get_assigned_ride_in_status, reload, emit_to_passenger,
}

abbrev pub to_arrived : ℕ → Ride → Ride
to_arrived now r = record r { status = RideStatus.arrived; arrived_at = some now }

unfoldable pub mark_arrived : ℕ → ℕ → Action Ride
mark_arrived user_id ride_id = do
  (_, _, ride) ← get_assigned_ride_in_status user_id ride_id RideStatus.accepted
  now ← gets (λ s. s.now)
  update_ride ride_id (to_arrived now)
  updated ← reload ride_id
  record_status ride_id RideStatus.arrived none
  emit_to_passenger updated (Payload.ride_arrived ride_id (sanitize_ride Viewer.passenger updated))
  pure (sanitize_ride Viewer.driver updated)

abbrev pub max_otp_attempts : ℕ
max_otp_attempts = 5

-- `OTP_ATTEMPT_WINDOW_SECONDS` and `OTP_VALIDITY_MINUTES_AFTER_ARRIVAL`, in milliseconds.
abbrev pub otp_attempt_window : ℕ
otp_attempt_window = 15 * 60 * 1000

abbrev pub otp_validity : ℕ
otp_validity = 10 * 60 * 1000

-- A counter as a command sees it: gone once its time to live has run out.
abbrev pub live_counter : ℕ → Option Counter → Option Counter
live_counter now none = none
live_counter now (some c) = elim c.expires_at [
  | none ↦ some c
  | some t ↦ if ltb now t then some c else none
]

-- `INCR`: a missing counter starts at 1 with no time to live.
abbrev pub increment_counter : Option Counter → Counter
increment_counter none = record { value = 1; expires_at = none }
increment_counter (some c) = record c { value = c.value + 1 }

-- `if (attempts === 1) await redis.expire(...)`
abbrev pub with_window : ℕ → ℕ → Counter → Counter
with_window now window c = if c.value == 1 then record c { expires_at = some (now + window) } else c

abbrev pub count_attempt : ℕ → ℕ → Option Counter → Counter
count_attempt now window c = with_window now window (increment_counter (live_counter now c))

-- The `INCR` and `EXPIRE` of one attempt; the new count is what `incr` returned.
unfoldable pub count_otp_attempt : ℕ → Action ℕ
count_otp_attempt ride_id s =
    (redis_write (λ now r. record r {
      otp_attempts =
          put ride_id (count_attempt now otp_attempt_window (find ride_id r.otp_attempts))
            r.otp_attempts;
    })
        >> redis_read (λ _ r. elim (find ride_id r.otp_attempts) [ none ↦ 0 | some c ↦ c.value ]))
      s

unfoldable pub clear_otp_attempts : ℕ → Action (Unit {0})
clear_otp_attempts ride_id s =
    redis_write (λ _ r. record r { otp_attempts = remove ride_id r.otp_attempts }) s

-- `otpAgeMinutes > OTP_VALIDITY_MINUTES_AFTER_ARRIVAL`. `new Date(null)` is the epoch.
abbrev pub is_otp_expired : ℕ → Ride → Bool
is_otp_expired now r = elim r.arrived_at [
  | none ↦ ltb otp_validity now
  | some t ↦ ltb (t + otp_validity) now
]

abbrev pub to_in_progress : ℕ → Ride → Ride
to_in_progress now r = record r {
  status = RideStatus.in_progress;
  started_at = some now;
  otp_verified_at = some now;
}

unfoldable pub start_ride : ℕ → ℕ → ℕ → Action Ride
start_ride user_id ride_id otp_code = do
  (_, _, ride) ← get_assigned_ride_in_status user_id ride_id RideStatus.arrived
  now ← gets (λ s. s.now)
  throw_if (is_otp_expired now ride)
      (bad_request "This OTP has expired. Ask the passenger to cancel and request a new ride.")
  attempts ← count_otp_attempt ride_id
  throw_if (ltb max_otp_attempts attempts)
      (forbidden "Too many incorrect OTP attempts. Ask the passenger to cancel and re-request.")
  throw_if (not (holds (λ code. otp_code == code) ride.otp_code)) (bad_request "Incorrect OTP")
  clear_otp_attempts ride_id
  update_ride ride_id (to_in_progress now)
  updated ← reload ride_id
  record_status ride_id RideStatus.in_progress none
  emit_to_passenger updated (Payload.ride_started ride_id (sanitize_ride Viewer.passenger updated))
  pure (sanitize_ride Viewer.driver updated)

abbrev pub to_completed : ℕ → Ride → Ride → Ride
to_completed now ride r = record r {
  status = RideStatus.completed;
  completed_at = some now;
  actual_fare = some ride.estimated_fare;
}

-- The four writes of the transaction, in the order of the source.
unfoldable pub settle_completion : ℕ → ℕ → Ride → Action (Unit {0})
settle_completion ride_id driver_id ride = transaction do
  now ← gets (λ s. s.now)
  update_ride ride_id (to_completed now ride)
  set_available driver_id true
  increment_driver_stats driver_id ride.estimated_fare
  increment_passenger_stats ride.passenger_id

unfoldable pub complete_ride : ℕ → ℕ → Action Ride
complete_ride user_id ride_id = do
  (driver_id, _, ride) ← get_assigned_ride_in_status user_id ride_id RideStatus.in_progress
  settle_completion ride_id driver_id ride
  updated ← reload ride_id
  record_status ride_id RideStatus.completed none
  modify (λ s. record s { ride_outcomes = RideOutcome.completed ∷ s.ride_outcomes })
  emit_to_passenger updated
      (Payload.ride_completed ride_id (sanitize_ride Viewer.passenger updated))
  pure (sanitize_ride Viewer.driver updated)
