-- ===== src/Repositories/Vehicles.antt =====
-- repositories/vehicle.repository.js (the writes) and vehicleDocument.repository.js.
use ride_sharing_backend.Common.{
  ℕ, String, Bool, true, false, not, ◌&&◌, Option, none, some, ◌∷◌, ◌==◌,
}
use ride_sharing_backend.Common.Table.{Table, find, find_first, find_many, update, remove}
use ride_sharing_backend.Common.Text.{same_text}
use ride_sharing_backend.Errors.{prisma, p2002, p2025}
use ride_sharing_backend.Model.{
  Vehicle, VehicleType, VehicleDocument, VehicleDocumentType, VerificationStatus,
}
use ride_sharing_backend.Store.{Action, ok, err}

-- The validated body of a new vehicle.
pub record VehicleData : Type 0 where
  pub type : VehicleType
  pub make : String
  pub model : String
  pub year : ℕ
  pub color : String
  pub plate_number : String
  pub capacity : ℕ

abbrev pub new_vehicle : ℕ → VehicleData → Vehicle
new_vehicle driver_id d = record {
  driver_id = driver_id;
  type = d.type;
  make = d.make;
  model = d.model;
  year = d.year;
  color = d.color;
  plate_number = d.plate_number;
  capacity = d.capacity;
  is_verified = false;
  is_active = true;
}

-- `plateNumber` is unique: another row has the plate.
abbrev pub has_plate : ℕ → String → ℕ → Vehicle → Bool
has_plate id plate j v = not (id == j) && same_text v.plate_number plate

unfoldable pub create_vehicle : ℕ → ℕ → VehicleData → Action (ℕ × Vehicle)
create_vehicle id driver_id d s = elim (find id s.vehicles) [
  | some _ ↦ (err (prisma p2002 "id" ""), s)
  | none ↦ elim (find_first (has_plate id d.plate_number) s.vehicles) [
    | some _ ↦ (err (prisma p2002 "plateNumber" ""), s)
    | none ↦ (
      ok (id, new_vehicle driver_id d),
      record s { vehicles = (id, new_vehicle driver_id d) ∷ s.vehicles },
    )
  ]
]

abbrev pub list_vehicles_by_driver : ℕ → Table Vehicle → Table Vehicle
list_vehicles_by_driver driver_id = find_many (λ _ v. v.driver_id == driver_id)

-- `update({ where: { id }, data })` on vehicles: the row after the write.
unfoldable pub update_vehicle : ℕ → (Vehicle → Vehicle) → Action Vehicle
update_vehicle id f s = elim (find id s.vehicles) [
  | none ↦ (err (prisma p2025 "" ""), s)
  | some v ↦ elim (find_first (has_plate id ((f v).plate_number)) s.vehicles) [
    | some _ ↦ (err (prisma p2002 "plateNumber" ""), s)
    | none ↦ (ok (f v), record s { vehicles = update id f s.vehicles })
  ]
]

abbrev pub deactivated : Vehicle → Vehicle
deactivated v = record v { is_active = false }

abbrev pub with_verified : Bool → Vehicle → Vehicle
with_verified is_verified v = record v { is_verified = is_verified }

abbrev pub new_document : ℕ → VehicleDocumentType → String → Option ℕ → VehicleDocument
new_document vehicle_id type file_url expiry_date = record {
  vehicle_id = vehicle_id;
  type = type;
  file_url = file_url;
  status = VerificationStatus.pending;
  expiry_date = expiry_date;
  reviewed_at = none;
}

unfoldable pub create_document : ℕ → VehicleDocument → Action VehicleDocument
create_document id row s = elim (find id s.documents) [
  | some _ ↦ (err (prisma p2002 "id" ""), s)
  | none ↦ (ok row, record s { documents = (id, row) ∷ s.documents })
]

unfoldable pub remove_document_row : ℕ → Action (Unit {0})
remove_document_row id s = elim (find id s.documents) [
  | none ↦ (err (prisma p2025 "" ""), s)
  | some _ ↦ (ok tt, record s { documents = remove id s.documents })
]

abbrev pub with_review : ℕ → VerificationStatus → VehicleDocument → VehicleDocument
with_review now status x = record x { status = status; reviewed_at = some now }

unfoldable pub review_document_row : ℕ → VerificationStatus → Action VehicleDocument
review_document_row id status s = elim (find id s.documents) [
  | none ↦ (err (prisma p2025 "" ""), s)
  | some x ↦ (
    ok (with_review s.now status x),
    record s { documents = update id (with_review s.now status) s.documents },
  )
]
