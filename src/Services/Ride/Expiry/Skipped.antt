-- ===== src/Services/Ride/Expiry/Skipped.antt =====
-- A round of the expiry job for a ride that has moved on since the query saw it.
use ride_sharing_backend.Common.{ℕ, ◌≡◌, true, some, arith}
use ride_sharing_backend.Common.Table.{find, count, update, update_where-none}
use ride_sharing_backend.Model.{Ride, RideStatus, CancelledBy, Driver}
use ride_sharing_backend.Repositories.{
  is_in_status, try_update_status_if_currently, set_available, update_driver, with_available,
}
use ride_sharing_backend.Services.Ride.Cancel.{to_cancelled}
use ride_sharing_backend.Services.Ride.Expiry.{
  expire_assigned, settle_expiry, try_expire, expiry_reason,
}
use ride_sharing_backend.Store.{Store, ok}

-- If no row of the ride is in the status that the query saw any more, the round reports nothing expired and leaves the
-- rides, the log and the messages as they are, but it makes the driver of the row that the query saw available.
pub expire_assigned_late :
    (observed : RideStatus) (k d : ℕ) (seen : Ride) (row : Driver) (s : Store)
    → count (is_in_status k observed) s.rides ≡ 0
    → seen.driver_id ≡ some d
    → find d s.drivers ≡ some row
    → expire_assigned observed (k, seen) s
      ≡ (ok 0, record s { drivers = update d (with_available true) s.drivers })
unfolding expire_assigned settle_expiry try_expire try_update_status_if_currently set_available
    update_driver
expire_assigned_late observed k d seen row s moved_on of there = ground (
  arith,
  update_where-none (is_in_status k observed)
      (to_cancelled s.now CancelledBy.system (some (expiry_reason observed))) s.rides moved_on,
)
