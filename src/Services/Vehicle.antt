-- ===== src/Services/Vehicle.antt =====
-- services/vehicle.service.js. The file of a document that is removed is only noted as deleted.
pub mod Verified
use ride_sharing_backend.Common.{
  ℕ, String, Bool, true, false, not, ◌&&◌, ◌||◌, Option, none, some, ◌∷◌, ◌==◌, if◌then◌else◌,
  is_some,
}
use ride_sharing_backend.Common.Table.{Table, find, find_many}
use ride_sharing_backend.Errors.{forbidden, not_found, conflict}
use ride_sharing_backend.Model.{
  Driver, Vehicle, VehicleType, VehicleDocument, VehicleDocumentType, is_approved_document, Role,
}
use ride_sharing_backend.Repositories.{
  find_driver_by_user, VehicleData, create_vehicle, list_vehicles_by_driver, update_vehicle,
  deactivated, new_document, create_document, remove_document_row,
}
use ride_sharing_backend.Store.{
  Store, Action, ok, err, gets, or_throw, throw_if, pure, modify, ◌>>=◌, ◌>>◌,
}

-- The validated body of an edit: the fields that it has.
pub record VehiclePatch : Type 0 where
  pub type : Option VehicleType
  pub make : Option String
  pub model : Option String
  pub year : Option ℕ
  pub color : Option String
  pub plate_number : Option String
  pub capacity : Option ℕ

-- `IDENTITY_FIELDS.some((field) => field in data)`
abbrev pub touches_identity : VehiclePatch → Bool
touches_identity p = is_some p.make || is_some p.model || is_some p.year || is_some p.plate_number

abbrev pub or_old {ℓ} : {A : Type ℓ} → A → Option A → A
or_old old none = old
or_old old (some new) = new

abbrev pub patched : VehiclePatch → Vehicle → Vehicle
patched p v = record v {
  type = or_old v.type p.type;
  make = or_old v.make p.make;
  model = or_old v.model p.model;
  year = or_old v.year p.year;
  color = or_old v.color p.color;
  plate_number = or_old v.plate_number p.plate_number;
  capacity = or_old v.capacity p.capacity;
}

-- `touchesIdentity && vehicle.isVerified ? { ...data, isVerified: false } : data`, where `was` is
-- the row that was read.
abbrev pub edited : VehiclePatch → Vehicle → Vehicle → Vehicle
edited p was v =
    if touches_identity p && was.is_verified
    then record (patched p v) { is_verified = false }
    else patched p v

unfoldable pub get_own_driver_id : ℕ → Action ℕ
get_own_driver_id user_id = do
  found ← gets (λ s. find_driver_by_user user_id s.drivers)
  (id, _) ← or_throw (forbidden "Only driver accounts can manage vehicles") found
  pure id

unfoldable pub get_own_vehicle : ℕ → ℕ → Action Vehicle
get_own_vehicle vehicle_id driver_id = do
  found ← gets (λ s. find vehicle_id s.vehicles)
  v ← or_throw (not_found "Vehicle not found") found
  throw_if (not (v.driver_id == driver_id)) (not_found "Vehicle not found")
  pure v

unfoldable pub list : ℕ → Action (Table Vehicle)
list user_id = do
  driver_id ← get_own_driver_id user_id
  gets (λ s. list_vehicles_by_driver driver_id s.vehicles)

unfoldable pub get : ℕ → ℕ → Action Vehicle
get user_id vehicle_id = do
  driver_id ← get_own_driver_id user_id
  get_own_vehicle vehicle_id driver_id

-- The id of the new row is an argument.
unfoldable pub create : ℕ → ℕ → VehicleData → Action (ℕ × Vehicle)
create user_id id d = do driver_id ← get_own_driver_id user_id; create_vehicle id driver_id d

unfoldable pub update : ℕ → ℕ → VehiclePatch → Action Vehicle
update user_id vehicle_id p = do
  driver_id ← get_own_driver_id user_id
  was ← get_own_vehicle vehicle_id driver_id
  update_vehicle vehicle_id (edited p was)

unfoldable pub deactivate : ℕ → ℕ → Action Vehicle
deactivate user_id vehicle_id = do
  driver_id ← get_own_driver_id user_id
  get_own_vehicle vehicle_id driver_id
  update_vehicle vehicle_id deactivated

unfoldable pub add_document :
    ℕ → ℕ → ℕ → VehicleDocumentType → Option ℕ → String → Action VehicleDocument
add_document user_id vehicle_id id type expiry_date file_key = do
  driver_id ← get_own_driver_id user_id
  get_own_vehicle vehicle_id driver_id
  create_document id (new_document vehicle_id type file_key expiry_date)

-- The documents that are read with the vehicle.
unfoldable pub list_documents : ℕ → ℕ → Action (Table VehicleDocument)
list_documents user_id vehicle_id = do
  driver_id ← get_own_driver_id user_id
  get_own_vehicle vehicle_id driver_id
  gets (λ s. find_many (λ _ x. x.vehicle_id == vehicle_id) s.documents)

unfoldable pub delete_file : String → Action (Unit {0})
delete_file key = modify (λ s. record s { deleted_files = key ∷ s.deleted_files })

unfoldable pub remove_document : ℕ → ℕ → ℕ → Action (Unit {0})
remove_document user_id vehicle_id document_id = do
  driver_id ← get_own_driver_id user_id
  get_own_vehicle vehicle_id driver_id
  found ← gets (λ s. find document_id s.documents)
  x ← or_throw (not_found "Document not found") found
  throw_if (not (x.vehicle_id == vehicle_id)) (not_found "Document not found")
  throw_if (is_approved_document x.status)
      (conflict "An approved document cannot be removed directly — contact support")
  remove_document_row document_id
  delete_file x.file_url

abbrev is_admin_role : Role → Bool
is_admin_role Role.admin = true
is_admin_role _ = false

-- `!driver || document.vehicle.driverId !== driver.id`, with the document's vehicle joined.
abbrev owns_document : Option (ℕ × Driver) → Option Vehicle → Bool
owns_document (some d) (some v) = v.driver_id == d.0
owns_document _ _ = false

unfoldable pub get_document_for_download : ℕ → ℕ → Role → Action VehicleDocument
get_document_for_download document_id user_id role = do
  found ← gets (λ s. find document_id s.documents)
  x ← or_throw (not_found "Document not found") found
  owns ←
      gets
        (λ s. owns_document (find_driver_by_user user_id s.drivers) (find x.vehicle_id s.vehicles))
  throw_if (not (is_admin_role role || owns)) (forbidden "You do not have access to this document")
  pure x
