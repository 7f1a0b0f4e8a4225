-- ===== src/Model/Fleet.antt =====
-- Documents of vehicles, and what a passenger keeps: saved locations and favourite drivers.
use ride_sharing_backend.Common.{ℕ, String, Bool, true, false, Option}
use ride_sharing_backend.Model.Rides.{Point}

pub data VehicleDocumentType : Type 0 where
  registration insurance permit pollution_certificate : VehicleDocumentType

pub data VerificationStatus : Type 0 where
  pending approved rejected : VerificationStatus

abbrev pub is_approved_document : VerificationStatus → Bool
is_approved_document VerificationStatus.approved = true
is_approved_document _ = false

pub record VehicleDocument : Type 0 where
  pub vehicle_id : ℕ
  pub type : VehicleDocumentType
  pub file_url : String
  pub status : VerificationStatus
  pub expiry_date : Option ℕ
  pub reviewed_at : Option ℕ

pub record SavedLocation : Type 0 where
  pub passenger_id : ℕ
  pub label : String
  pub address : String
  pub position : Point
  pub is_favorite : Bool

pub record FavoriteDriver : Type 0 where
  pub passenger_id : ℕ
  pub driver_id : ℕ
