-- ===== src/Services/Verification.antt =====
-- services/verification.service.js: an admin reviews drivers, vehicles and documents.
use ride_sharing_backend.Common.{
  ℕ, Bool, true, false, Option, none, some, List, [], ◌∷◌, ◌==◌, if◌then◌else◌, length,
}
use ride_sharing_backend.Common.Table.{Table, find, find_many}
use ride_sharing_backend.Errors.{not_found}
use ride_sharing_backend.Model.{
  Driver, DriverVerificationStatus, same_verification, Vehicle, VehicleDocument, VerificationStatus,
  User, NotificationChannel,
}
use ride_sharing_backend.Repositories.{
  set_verification_status, with_verified, update_vehicle, review_document_row, record_audit,
}
use ride_sharing_backend.Services.Auth.{logout_all_devices}
use ride_sharing_backend.Services.Notification.{notify}
use ride_sharing_backend.Services.Ride.Views.{page_of, Pagination, pagination_meta}
use ride_sharing_backend.Store.{
  Store, Action, AuditAction, ok, gets, or_throw, pure, when, ◌>>=◌, ◌>>◌,
}

abbrev has_verification : Option DriverVerificationStatus → Driver → Bool
has_verification none d = true
has_verification (some status) d = same_verification d.verification_status status

unfoldable pub list_drivers :
    ℕ → ℕ → Option DriverVerificationStatus → Action (Table Driver × Pagination)
list_drivers page limit status = do
  drivers ← gets (λ s. find_many (λ _ d. has_verification status d) s.drivers)
  pure (page_of page limit drivers, pagination_meta page limit (length drivers))

-- `findByIdWithDetails`: the driver with the joined user, and the vehicles with their documents.
pub record DriverDetails : Type 0 where
  pub driver : Driver
  pub user : Option User
  pub vehicles : List (Vehicle × Table VehicleDocument)

abbrev with_documents :
    Table VehicleDocument → Table Vehicle → List (Vehicle × Table VehicleDocument)
with_documents documents [] = []
with_documents documents ((id, v) ∷ t) =
    (v, find_many (λ _ x. x.vehicle_id == id) documents) ∷ with_documents documents t

abbrev details_of : ℕ → Store → Driver → DriverDetails
details_of id s d = record {
  driver = d;
  user = find d.user_id s.users;
  vehicles = with_documents s.documents (find_many (λ _ v. v.driver_id == id) s.vehicles);
}

unfoldable pub get_driver_by_id : ℕ → Action DriverDetails
get_driver_by_id id = do
  found ← gets (λ s. find id s.drivers)
  d ← or_throw (not_found "Driver not found") found
  gets (λ s. details_of id s d)

-- `verificationStatus === "SUSPENDED" || verificationStatus === "REJECTED"`
abbrev pub locks_out : DriverVerificationStatus → Bool
locks_out DriverVerificationStatus.suspended = true
locks_out DriverVerificationStatus.rejected = true
locks_out _ = false

unfoldable pub tell_driver : ℕ → ℕ → Option User → Action (Unit {0})
tell_driver notification_id user_id none s = (ok tt, s)
tell_driver notification_id user_id (some u) s =
    notify notification_id user_id u.email NotificationChannel.email "Driver application update" s

-- The lifetime of access tokens, the id of the notification and the reviewing admin are arguments.
unfoldable pub review_driver : ℕ → ℕ → ℕ → DriverVerificationStatus → ℕ → Action Driver
review_driver access_ttl notification_id driver_id status actor_id = do
  found ← gets (λ s. find driver_id s.drivers)
  d ← or_throw (not_found "Driver not found") found
  set_verification_status driver_id status
  written ← gets (λ s. find driver_id s.drivers)
  updated ← or_throw (not_found "Record not found") written
  when (locks_out status) (logout_all_devices access_ttl d.user_id)
  record_audit (record {
    actor_id = actor_id;
    action = AuditAction.driver_reviewed status;
    entity_id = driver_id;
  })
  user ← gets (λ s. find d.user_id s.users)
  tell_driver notification_id d.user_id user
  pure updated

unfoldable pub review_vehicle : ℕ → Bool → ℕ → Action Vehicle
review_vehicle vehicle_id is_verified actor_id = do
  found ← gets (λ s. find vehicle_id s.vehicles)
  or_throw (not_found "Vehicle not found") found
  updated ← update_vehicle vehicle_id (with_verified is_verified)
  record_audit (record {
    actor_id = actor_id;
    action = if is_verified then AuditAction.vehicle_verified else AuditAction.vehicle_unverified;
    entity_id = vehicle_id;
  })
  pure updated

unfoldable pub review_document : ℕ → VerificationStatus → ℕ → Action VehicleDocument
review_document document_id status actor_id = do
  found ← gets (λ s. find document_id s.documents)
  or_throw (not_found "Document not found") found
  updated ← review_document_row document_id status
  record_audit (record {
    actor_id = actor_id;
    action = AuditAction.document_reviewed status;
    entity_id = document_id;
  })
  pure updated
