-- ===== src/Http/Vehicles.antt =====
-- controllers/vehicle.controller.js, with the checks of an upload: vehicleOwnership.middleware.js and
-- the filter of upload.middleware.js. The bytes of a file are the library's.
use ride_sharing_backend.Common.{ℕ, String, Bool, ◌||◌, not, Option, none, some}
use ride_sharing_backend.Common.Text.{same_text}
use ride_sharing_backend.Errors.{bad_request}
use ride_sharing_backend.Http.{Config, Body, Reply, sends}
use ride_sharing_backend.Model.{VehicleDocument, VehicleDocumentType}
use ride_sharing_backend.Repositories.{VehicleData}
use ride_sharing_backend.Services.Admin.{AccessPayload}
use ride_sharing_backend.Services.Vehicle
use ride_sharing_backend.Services.Vehicle.{
  VehiclePatch, add_document, list_documents, remove_document, get_document_for_download,
}
use ride_sharing_backend.Store.{Action, or_throw, throw_if, pure, ◌>>=◌, ◌>>◌}

-- A file of a multipart body: its MIME type and the key under which it is stored.
pub record UploadedFile : Type 0 where
  pub mimetype : String
  pub file_key : String

pub data VehicleEndpoint : Type 0 where
  list : VehicleEndpoint
  create : ℕ → VehicleData → VehicleEndpoint
  get remove list_files : ℕ → VehicleEndpoint
  update : ℕ → VehiclePatch → VehicleEndpoint
  upload : ℕ → ℕ → VehicleDocumentType → Option ℕ → Option UploadedFile → VehicleEndpoint
  download : ℕ → VehicleEndpoint
  remove_file : ℕ → ℕ → VehicleEndpoint

-- `ALLOWED_MIME_TYPES`
abbrev is_allowed_type : String → Bool
is_allowed_type mimetype =
    same_text mimetype "application/pdf"
    || same_text mimetype "image/jpeg"
    || same_text mimetype "image/png"

-- `fileFilter` sees the files that the body has.
unfoldable pub file_filter : Option UploadedFile → Action (Unit {0})
file_filter none = pure tt
file_filter (some f) =
    throw_if (not (is_allowed_type f.mimetype))
      (bad_request "Only PDF, JPEG, or PNG files are allowed")

-- `requireOwnVehicle` and the filter run before the controller.
unfoldable pub upload_document :
    ℕ → ℕ → ℕ → VehicleDocumentType → Option ℕ → Option UploadedFile → Action VehicleDocument
upload_document user_id vehicle_id id type expiry_date file = do
  Vehicle.get user_id vehicle_id
  file_filter file
  f ← or_throw (bad_request "A document file is required") file
  add_document user_id vehicle_id id type expiry_date f.file_key

unfoldable pub vehicle_controller : Config → AccessPayload → VehicleEndpoint → Action Reply
vehicle_controller c u VehicleEndpoint.list = sends 200 "Success" (Vehicle.list u.sub) Body.vehicles
vehicle_controller c u (VehicleEndpoint.create id d) =
    sends 201 "Vehicle added" (Vehicle.create u.sub id d) (λ r. Body.new_vehicle r.0 r.1)
vehicle_controller c u (VehicleEndpoint.get id) =
    sends 200 "Success" (Vehicle.get u.sub id) Body.vehicle
vehicle_controller c u (VehicleEndpoint.update id p) =
    sends 200 "Vehicle updated" (Vehicle.update u.sub id p) Body.vehicle
vehicle_controller c u (VehicleEndpoint.remove id) =
    sends 200 "Vehicle deactivated" (Vehicle.deactivate u.sub id) (λ _. Body.nothing)
vehicle_controller c u (VehicleEndpoint.list_files id) =
    sends 200 "Success" (list_documents u.sub id) Body.documents
vehicle_controller c u (VehicleEndpoint.upload vehicle_id id type expiry_date file) =
    sends 201 "Document uploaded" (upload_document u.sub vehicle_id id type expiry_date file)
      Body.document
vehicle_controller c u (VehicleEndpoint.download document_id) =
    sends 200 "" (get_document_for_download document_id u.sub u.role) (λ x. Body.file x.file_url)
vehicle_controller c u (VehicleEndpoint.remove_file vehicle_id document_id) =
    sends 200 "Document removed" (remove_document u.sub vehicle_id document_id) (λ _. Body.nothing)
