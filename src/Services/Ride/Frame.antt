-- ===== src/Services/Ride/Frame.antt =====
-- The parts of an operation that touch neither the rides nor the drivers: Redis, the status log and the
-- sockets.
use ride_sharing_backend.Common.{ℕ, ◌≡◌, inl, inr, Option, none, some, arith, Bool-cases, String}
use ride_sharing_backend.Model.{Ride, RideStatus, Point}
use ride_sharing_backend.Store.{Store, Payload}
use ride_sharing_backend.Repositories.{record_status, passenger_user, driver_user}
use ride_sharing_backend.Services.Geo.{remove_pending_ride, add_pending_ride, record_rejection}
use ride_sharing_backend.Services.Ride.{emit_to, emit_to_passenger, emit_to_driver, reload}
use ride_sharing_backend.Services.Ride.Trip.{count_otp_attempt, clear_otp_attempts}

-- The rides and drivers of a store are those of another.
pub record Same (s s' : Store) : Type 0 where
  pub rides : s'.rides ≡ s.rides
  pub drivers : s'.drivers ≡ s.drivers

pub count_otp_attempt-Same : (k : ℕ) (s : Store) → Same s (count_otp_attempt k s).1
unfolding count_otp_attempt
count_otp_attempt-Same k s = elim (Bool-cases s.redis.is_up) [
  | inl e ↦ ground arith
  | inr e ↦ ground arith
]

pub clear_otp_attempts-Same : (k : ℕ) (s : Store) → Same s (clear_otp_attempts k s).1
unfolding clear_otp_attempts
clear_otp_attempts-Same k s = ground arith

pub remove_pending_ride-Same : (k : ℕ) (s : Store) → Same s (remove_pending_ride k s).1
unfolding remove_pending_ride
remove_pending_ride-Same k s = ground arith

pub add_pending_ride-Same : (k : ℕ) (p : Point) (s : Store) → Same s (add_pending_ride k p s).1
unfolding add_pending_ride
add_pending_ride-Same k p s = ground arith

pub record_rejection-Same : (k d : ℕ) (s : Store) → Same s (record_rejection k d s).1
unfolding record_rejection
record_rejection-Same k d s = ground arith

pub record_status-Same :
    (k : ℕ) (st : RideStatus) (reason : Option String) (s : Store)
    → Same s (record_status k st reason s).1
unfolding record_status
record_status-Same k st reason s = ground arith

pub emit_to-Same : (u : Option ℕ) (p : Payload) (s : Store) → Same s (emit_to u p s).1
emit_to-Same none p s = ground arith
emit_to-Same (some u) p s = ground arith

pub emit_to_passenger-Same :
    (r : Ride) (p : Payload) (s : Store) → Same s (emit_to_passenger r p s).1
unfolding emit_to_passenger
emit_to_passenger-Same r p s = emit_to-Same (passenger_user s.passengers r) p s

pub emit_to_driver-Same : (r : Ride) (p : Payload) (s : Store) → Same s (emit_to_driver r p s).1
unfolding emit_to_driver
emit_to_driver-Same r p s = emit_to-Same (driver_user s.drivers r) p s

pub reload_lem : (k : ℕ) (s : Store) → (reload k s).1 ≡ s
unfolding reload
reload_lem k s = ground arith

pub ruleset frame = (
  count_otp_attempt-Same, clear_otp_attempts-Same, remove_pending_ride-Same, add_pending_ride-Same,
  record_rejection-Same, record_status-Same, emit_to_passenger-Same, emit_to_driver-Same,
  reload_lem,
)
