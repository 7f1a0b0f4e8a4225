-- ===== src/Repositories/Rides.antt =====
-- repositories/ride.repository.js and rideStatusLog.repository.js.
use ride_sharing_backend.Common.{
  ℕ, String, Bool, true, false, ◌&&◌, not, Option, none, some, ◌∷◌, ltb, ◌==◌, is_some, holds,
}
use ride_sharing_backend.Common.Table.{
  Table, find, find_first, find_many, update, update_where, count,
}
use ride_sharing_backend.Errors.{prisma, p2002, p2025}
use ride_sharing_backend.Model.{Ride, RideStatus, same_status, Driver, Passenger}
use ride_sharing_backend.Store.{Action, ok, err, modify}

-- `ACTIVE_STATUSES`
abbrev pub is_active_status : RideStatus → Bool
is_active_status RideStatus.completed = false
is_active_status RideStatus.cancelled = false
is_active_status _ = true

abbrev pub is_active_of_passenger : ℕ → ℕ → Ride → Bool
is_active_of_passenger passenger_id _ r =
    (r.passenger_id == passenger_id) && is_active_status r.status

abbrev pub is_active_of_driver : ℕ → ℕ → Ride → Bool
is_active_of_driver driver_id _ r =
    holds (λ d. d == driver_id) r.driver_id && is_active_status r.status

abbrev pub find_active_by_passenger : ℕ → Table Ride → Option (ℕ × Ride)
find_active_by_passenger passenger_id = find_first (is_active_of_passenger passenger_id)

abbrev pub find_active_by_driver : ℕ → Table Ride → Option (ℕ × Ride)
find_active_by_driver driver_id = find_first (is_active_of_driver driver_id)

-- The user behind the joined passenger and driver of `DETAIL_INCLUDE`.
abbrev pub passenger_user : Table Passenger → Ride → Option ℕ
passenger_user passengers r = elim (find r.passenger_id passengers) [
  | none ↦ none
  | some p ↦ some p.user_id
]

abbrev driver_user_of : Table Driver → Option ℕ → Option ℕ
driver_user_of drivers none = none
driver_user_of drivers (some d) = elim (find d drivers) [
  | none ↦ none
  | some row ↦ some row.user_id
]

abbrev pub driver_user : Table Driver → Ride → Option ℕ
driver_user drivers r = driver_user_of drivers r.driver_id

-- A ride's primary key is unique.
unfoldable pub create_ride : ℕ → Ride → Action (Unit {0})
create_ride id row s = elim (find id s.rides) [
  | none ↦ (ok tt, record s { rides = (id, row) ∷ s.rides })
  | some _ ↦ (err (prisma p2002 "id" ""), s)
]

-- The conditional write that settles the race for a ride: it counts the rows it changed.
abbrev pub is_open_request : ℕ → ℕ → Ride → Bool
is_open_request ride_id j r =
    (j == ride_id) && same_status r.status RideStatus.requested && not (is_some r.driver_id)

abbrev pub assign : ℕ → ℕ → ℕ → Ride → Ride
assign now driver_id vehicle_id r = record r {
  status = RideStatus.accepted;
  driver_id = some driver_id;
  vehicle_id = some vehicle_id;
  accepted_at = some now;
}

unfoldable pub try_assign_driver : ℕ → ℕ → ℕ → Action ℕ
try_assign_driver ride_id driver_id vehicle_id s = (
  ok (count (is_open_request ride_id) s.rides),
  record s {
    rides = update_where (is_open_request ride_id) (assign s.now driver_id vehicle_id) s.rides;
  },
)

-- `update({ where: { id: rideId }, data })`
unfoldable pub update_ride : ℕ → (Ride → Ride) → Action (Unit {0})
update_ride ride_id f s = elim (find ride_id s.rides) [
  | none ↦ (err (prisma p2025 "" ""), s)
  | some _ ↦ (ok tt, record s { rides = update ride_id f s.rides })
]

abbrev pub is_in_status : ℕ → RideStatus → ℕ → Ride → Bool
is_in_status ride_id expected j r = (j == ride_id) && same_status r.status expected

unfoldable pub try_update_status_if_currently : ℕ → RideStatus → (Ride → Ride) → Action ℕ
try_update_status_if_currently ride_id expected f s = (
  ok (count (is_in_status ride_id expected) s.rides),
  record s { rides = update_where (is_in_status ride_id expected) f s.rides },
)

-- The three queries for stale rides: a time that was never set is not older than the cutoff.
abbrev pub find_stale_requested : ℕ → Table Ride → Table Ride
find_stale_requested cutoff =
    find_many (λ _ r. same_status r.status RideStatus.requested && ltb r.requested_at cutoff)

abbrev pub find_stale_accepted : ℕ → Table Ride → Table Ride
find_stale_accepted cutoff =
    find_many
      (λ _ r. same_status r.status RideStatus.accepted && holds (λ t. ltb t cutoff) r.accepted_at)

abbrev pub find_stale_arrived : ℕ → Table Ride → Table Ride
find_stale_arrived cutoff =
    find_many
      (λ _ r. same_status r.status RideStatus.arrived && holds (λ t. ltb t cutoff) r.arrived_at)

unfoldable pub record_status : ℕ → RideStatus → Option String → Action (Unit {0})
record_status ride_id status reason = modify (λ s. record s {
  status_logs = record { ride_id = ride_id; status = status; reason = reason } ∷ s.status_logs;
})
