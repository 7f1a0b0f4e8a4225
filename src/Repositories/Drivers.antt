-- ===== src/Repositories/Drivers.antt =====
-- repositories/driver.repository.js.
use ride_sharing_backend.Common.{ℕ, ◌+◌, Bool, true, false, Option, none, some, ◌==◌, if◌then◌else◌}
use ride_sharing_backend.Common.Table.{Table, find, find_first, find_many, update}
use ride_sharing_backend.Errors.{prisma, p2025}
use ride_sharing_backend.Model.{Driver, DriverVerificationStatus, Point}
use ride_sharing_backend.Store.{Action, ok, err}

abbrev pub find_driver_by_user : ℕ → Table Driver → Option (ℕ × Driver)
find_driver_by_user user_id = find_first (λ _ d. d.user_id == user_id)

-- `update({ where: { id }, data })` on drivers.
unfoldable pub update_driver : ℕ → (Driver → Driver) → Action (Unit {0})
update_driver id f s = elim (find id s.drivers) [
  | none ↦ (err (prisma p2025 "" ""), s)
  | some _ ↦ (ok tt, record s { drivers = update id f s.drivers })
]

-- `status === "APPROVED"`
abbrev pub is_approved : DriverVerificationStatus → Bool
is_approved DriverVerificationStatus.approved = true
is_approved _ = false

abbrev pub with_verification : ℕ → DriverVerificationStatus → Driver → Driver
with_verification now status d = record d {
  verification_status = status;
  verified_at = if is_approved status then some now else none;
}

abbrev pub with_online : Bool → Bool → Driver → Driver
with_online is_online is_available d = record d {
  is_online = is_online;
  is_available = is_available;
}

abbrev pub with_available : Bool → Driver → Driver
with_available is_available d = record d { is_available = is_available }

abbrev pub with_location : ℕ → Point → Driver → Driver
with_location now p d = record d { last_known = some p; last_location_at = some now }

abbrev pub with_completed_ride : ℕ → Driver → Driver
with_completed_ride earnings d = record d {
  total_rides = d.total_rides + 1;
  total_earnings = d.total_earnings + earnings;
}

unfoldable pub set_verification_status : ℕ → DriverVerificationStatus → Action (Unit {0})
unfolding update_driver
set_verification_status id status s = update_driver id (with_verification s.now status) s

unfoldable pub set_online_status : ℕ → Bool → Bool → Action (Unit {0})
unfolding update_driver
set_online_status id is_online is_available s =
    update_driver id (with_online is_online is_available) s

unfoldable pub set_available : ℕ → Bool → Action (Unit {0})
unfolding update_driver
set_available id is_available s = update_driver id (with_available is_available) s

unfoldable pub update_last_known_location : ℕ → Point → Action (Unit {0})
unfolding update_driver
update_last_known_location id p s = update_driver id (with_location s.now p) s

unfoldable pub increment_driver_stats : ℕ → ℕ → Action (Unit {0})
unfolding update_driver
increment_driver_stats id earnings s = update_driver id (with_completed_ride earnings) s

abbrev pub list_online : Table Driver → Table Driver
list_online = find_many (λ _ d. d.is_online)
