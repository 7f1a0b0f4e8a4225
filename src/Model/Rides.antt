-- ===== src/Model/Rides.antt =====
-- Rides, drivers, passengers and vehicles.
use ride_sharing_backend.Common.{ℕ, String, Bool, true, false, Option}

pub data VehicleType : Type 0 where
  bike auto sedan suv hatchback : VehicleType

-- Equality of the enum's values, as `===` computes it.
abbrev pub same_type : VehicleType → VehicleType → Bool
same_type VehicleType.bike VehicleType.bike = true
same_type VehicleType.auto VehicleType.auto = true
same_type VehicleType.sedan VehicleType.sedan = true
same_type VehicleType.suv VehicleType.suv = true
same_type VehicleType.hatchback VehicleType.hatchback = true
same_type _ _ = false

pub data DriverVerificationStatus : Type 0 where
  pending approved rejected suspended : DriverVerificationStatus

abbrev pub same_verification : DriverVerificationStatus → DriverVerificationStatus → Bool
same_verification DriverVerificationStatus.pending DriverVerificationStatus.pending = true
same_verification DriverVerificationStatus.approved DriverVerificationStatus.approved = true
same_verification DriverVerificationStatus.rejected DriverVerificationStatus.rejected = true
same_verification DriverVerificationStatus.suspended DriverVerificationStatus.suspended = true
same_verification _ _ = false

pub data RideStatus : Type 0 where
  requested accepted arrived in_progress completed cancelled : RideStatus

abbrev pub same_status : RideStatus → RideStatus → Bool
same_status RideStatus.requested RideStatus.requested = true
same_status RideStatus.accepted RideStatus.accepted = true
same_status RideStatus.arrived RideStatus.arrived = true
same_status RideStatus.in_progress RideStatus.in_progress = true
same_status RideStatus.completed RideStatus.completed = true
same_status RideStatus.cancelled RideStatus.cancelled = true
same_status _ _ = false

pub data CancelledBy : Type 0 where
  passenger driver system : CancelledBy

-- A coordinate in units of 10⁻⁷ degree, shifted by 180 degrees so that it is not negative. The
-- services hand coordinates on and never compute with them.
pub record Point : Type 0 where
  pub lat : ℕ
  pub lng : ℕ

pub record Driver : Type 0 where
  pub user_id : ℕ
  pub license_number : String
  pub license_expiry : ℕ
  pub verification_status : DriverVerificationStatus
  pub verified_at : Option ℕ
  pub is_online : Bool
  pub is_available : Bool
  pub last_known : Option Point
  pub last_location_at : Option ℕ
  pub average_rating : ℕ
  pub total_rides : ℕ
  pub total_earnings : ℕ
  pub created_at : ℕ

pub record Passenger : Type 0 where
  pub user_id : ℕ
  pub average_rating : ℕ
  pub total_rides : ℕ

pub record Vehicle : Type 0 where
  pub driver_id : ℕ
  pub type : VehicleType
  pub make : String
  pub model : String
  pub year : ℕ
  pub color : String
  pub plate_number : String
  pub capacity : ℕ
  pub is_verified : Bool
  pub is_active : Bool

pub record Ride : Type 0 where
  pub passenger_id : ℕ
  pub driver_id : Option ℕ
  pub vehicle_id : Option ℕ
  pub status : RideStatus
  pub requested_vehicle_type : VehicleType
  pub pickup_address : String
  pub pickup : Point
  pub dropoff_address : String
  pub dropoff : Point
  pub route_polyline : Option String
  pub distance_meters : ℕ
  pub duration_seconds : ℕ
  pub otp_code : Option ℕ
  pub otp_verified_at : Option ℕ
  pub estimated_fare : ℕ
  pub actual_fare : Option ℕ
  pub currency : String
  pub cancelled_by : Option CancelledBy
  pub cancellation_reason : Option String
  pub requested_at : ℕ
  pub accepted_at : Option ℕ
  pub arrived_at : Option ℕ
  pub started_at : Option ℕ
  pub completed_at : Option ℕ
  pub cancelled_at : Option ℕ

pub record RideStatusLog : Type 0 where
  pub ride_id : ℕ
  pub status : RideStatus
  pub reason : Option String

pub data RatingDirection : Type 0 where
  passenger_to_driver driver_to_passenger : RatingDirection

abbrev pub same_direction : RatingDirection → RatingDirection → Bool
same_direction RatingDirection.passenger_to_driver RatingDirection.passenger_to_driver = true
same_direction RatingDirection.driver_to_passenger RatingDirection.driver_to_passenger = true
same_direction _ _ = false

pub record Rating : Type 0 where
  pub ride_id : ℕ
  pub rater_id : ℕ
  pub ratee_id : ℕ
  pub direction : RatingDirection
  pub value : ℕ
  pub comment : Option String
