-- ===== src/Services/Driver.antt =====
-- services/driver.service.js. The great-circle distance between two points is a parameter, in
-- millimetres.
pub mod Presence
pub mod Location
use ride_sharing_backend.Common.{
  ℕ, ◌+◌, ◌-◌, ◌*◌, Bool, true, false, ◌&&◌, ◌||◌, not, Option, none, some, List, [], ◌∷◌, ltb, leb,
  length, if◌then◌else◌,
}
use ride_sharing_backend.Common.Table.{Table, find}
use ride_sharing_backend.Errors.{bad_request, forbidden}
use ride_sharing_backend.Model.{Driver, Vehicle, Point, Ride, RideStatus, same_status}
use ride_sharing_backend.Repositories.{
  is_approved, set_online_status, update_last_known_location, list_online,
  list_active_verified_by_driver, find_active_by_driver, passenger_user,
}
use ride_sharing_backend.Services.Geo.{
  set_driver_location, remove_driver_location, refresh_heartbeat, clear_heartbeat, has_heartbeat,
}
use ride_sharing_backend.Services.Ride.{get_own_driver, emit_to}
use ride_sharing_backend.Store.{Store, Payload, Action, ok, gets, throw_if, pure, when, ◌>>=◌, ◌>>◌}

abbrev pub is_empty : Table Vehicle → Bool
is_empty [] = true
is_empty (_ ∷ _) = false

unfoldable pub go_online : ℕ → Point → Action (Unit {0})
go_online user_id p = do
  (driver_id, own) ← get_own_driver user_id
  throw_if (not (is_approved own.verification_status))
      (forbidden "Your driver account is not yet approved")
  vehicles ← gets (λ s. list_active_verified_by_driver driver_id s.vehicles)
  throw_if (is_empty vehicles) (forbidden "Add a vehicle and get it verified before going online")
  set_online_status driver_id true true
  update_last_known_location driver_id p
  set_driver_location driver_id p
  refresh_heartbeat driver_id

unfoldable pub go_offline : ℕ → Action (Unit {0})
go_offline user_id = do
  (driver_id, _) ← get_own_driver user_id
  set_online_status driver_id false false
  remove_driver_location driver_id
  clear_heartbeat driver_id

-- One round of the heartbeat sweep: what it adds to `expiredCount`.
unfoldable pub expire_if_silent : ℕ → Bool → Action ℕ
expire_if_silent driver_id true s = (ok 0, s)
expire_if_silent driver_id false s =
    (set_online_status driver_id false false >> (remove_driver_location driver_id >> pure 1)) s

unfoldable pub expire_silent : ℕ → Action ℕ
expire_silent driver_id s = (has_heartbeat driver_id >>= expire_if_silent driver_id) s

unfoldable pub sweep_heartbeats : Table Driver → Action ℕ
sweep_heartbeats [] s = (ok 0, s)
sweep_heartbeats ((driver_id, _) ∷ online) s =
    (expire_silent driver_id >>= (λ one. sweep_heartbeats online >>= (λ rest. pure (one + rest)))) s

-- The answer: how many drivers were checked, and how many expired.
unfoldable pub expire_stale_heartbeats : Action (ℕ × ℕ)
expire_stale_heartbeats s =
    let online = list_online s.drivers in
    (sweep_heartbeats online >>= (λ expired. pure (length online, expired))) s

-- `MIN_ELAPSED_SECONDS_FOR_PLAUSIBILITY_CHECK` is 3 and `MAX_PLAUSIBLE_SPEED_KMH` is 200: with
-- millimetres and milliseconds, more than 200 km/h is 9 * distance > 500 * elapsed.
abbrev pub min_elapsed : ℕ
min_elapsed = 3000

abbrev pub is_too_fast : ℕ → ℕ → Bool
is_too_fast millimeters elapsed = leb min_elapsed elapsed && ltb (500 * elapsed) (9 * millimeters)

-- A ride whose passenger waits for the position.
abbrev pub watched : Option (ℕ × Ride) → Option (ℕ × Ride)
watched none = none
watched (some (ride_id, r)) =
    if same_status r.status RideStatus.requested then none else some (ride_id, r)

unfoldable pub show_passenger : Option (ℕ × Ride) → Point → Action (Unit {0})
show_passenger none p s = (ok tt, s)
show_passenger (some (ride_id, r)) p s =
    emit_to (passenger_user s.passengers r) (Payload.driver_location ride_id p) s

module _ (distance : Point → Point → ℕ) where
  -- The check needs a last known position and its time.
  unfoldable pub is_implausible : ℕ → Option Point → Option ℕ → Point → Bool
  is_implausible now (some last) (some at) p = is_too_fast (distance last p) (now - at)
  is_implausible now none at p = false
  is_implausible now (some last) none p = false

  unfoldable pub move_driver : ℕ → Point → Action (Unit {0})
  move_driver driver_id p = do
    update_last_known_location driver_id p
    set_driver_location driver_id p
    active ← gets (λ s. watched (find_active_by_driver driver_id s.rides))
    show_passenger active p

  unfoldable pub update_location : ℕ → Point → Action (Unit {0})
  update_location user_id p = do
    (driver_id, own) ← get_own_driver user_id
    throw_if (not own.is_online) (bad_request "Go online before sending location updates")
    refresh_heartbeat driver_id
    now ← gets (λ s. s.now)
    when (not (is_implausible now own.last_known own.last_location_at p)) (move_driver driver_id p)
