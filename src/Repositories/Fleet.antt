-- ===== src/Repositories/Fleet.antt =====
-- repositories/vehicle.repository.js and passenger.repository.js.
use ride_sharing_backend.Common.{ℕ, ◌+◌, Bool, ◌&&◌, Option, none, some, ◌==◌}
use ride_sharing_backend.Common.Table.{Table, find, find_first, find_many, update}
use ride_sharing_backend.Errors.{prisma, p2025}
use ride_sharing_backend.Model.{Vehicle, VehicleType, same_type, Passenger}
use ride_sharing_backend.Store.{Action, ok, err}

abbrev pub is_active_verified_of : ℕ → Vehicle → Bool
is_active_verified_of driver_id v = (v.driver_id == driver_id) && v.is_active && v.is_verified

abbrev pub list_active_verified_by_driver : ℕ → Table Vehicle → Table Vehicle
list_active_verified_by_driver driver_id = find_many (λ _ v. is_active_verified_of driver_id v)

abbrev pub find_active_verified_by_driver_and_type :
    ℕ → VehicleType → Table Vehicle → Option (ℕ × Vehicle)
find_active_verified_by_driver_and_type driver_id type =
    find_first (λ _ v. is_active_verified_of driver_id v && same_type v.type type)

abbrev pub find_passenger_by_user : ℕ → Table Passenger → Option (ℕ × Passenger)
find_passenger_by_user user_id = find_first (λ _ p. p.user_id == user_id)

abbrev pub with_one_more_ride : Passenger → Passenger
with_one_more_ride p = record p { total_rides = p.total_rides + 1 }

unfoldable pub increment_passenger_stats : ℕ → Action (Unit {0})
increment_passenger_stats id s = elim (find id s.passengers) [
  | none ↦ (err (prisma p2025 "" ""), s)
  | some _ ↦ (ok tt, record s { passengers = update id with_one_more_ride s.passengers })
]
