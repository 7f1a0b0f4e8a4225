-- ===== src/Validators/Fleet.antt =====
-- validators/vehicle.validator.js, user.validator.js and auth.validator.js.
use ride_sharing_backend.Common.{ℕ, ◌+◌, String, Bool, ◌&&◌, ◌||◌, Option, leb, ltb, is_some}
use ride_sharing_backend.Repositories.{VehicleData, ProfilePatch}
use ride_sharing_backend.Services.SavedLocation.{LocationData, LocationPatch}
use ride_sharing_backend.Services.Vehicle.{VehiclePatch}
use ride_sharing_backend.Validators.{
  is_text, is_optional, is_point, is_lat, is_lng, is_phone, is_password,
}

-- `currentYear` is the year in which the process was started.
abbrev is_year : ℕ → ℕ → Bool
is_year current_year year = leb 1980 year && leb year (current_year + 1)

-- `createVehicleSchema`
unfoldable pub is_new_vehicle : ℕ → VehicleData → Bool
is_new_vehicle current_year d =
    is_text 1 50 d.make
    && is_text 1 50 d.model
    && is_year current_year d.year
    && is_text 1 30 d.color
    && is_text 1 20 d.plate_number
    && leb 1 d.capacity
    && leb d.capacity 8

-- `.partial()`, and the refinement that something is there.
abbrev has_vehicle_key : VehiclePatch → Bool
has_vehicle_key p =
    is_some p.type
    || is_some p.make
    || is_some p.model
    || is_some p.year
    || is_some p.color
    || is_some p.plate_number
    || is_some p.capacity

-- `updateVehicleSchema`
unfoldable pub is_vehicle_patch : ℕ → VehiclePatch → Bool
is_vehicle_patch current_year p =
    is_optional (is_text 1 50) p.make
    && is_optional (is_text 1 50) p.model
    && is_optional (is_year current_year) p.year
    && is_optional (is_text 1 30) p.color
    && is_optional (is_text 1 20) p.plate_number
    && is_optional (λ n. leb 1 n && leb n 8) p.capacity
    && has_vehicle_key p

-- `updateProfileSchema`
unfoldable pub is_profile_patch : ProfilePatch → Bool
is_profile_patch p =
    is_optional (is_text 1 50) p.first_name
    && is_optional (is_text 1 50) p.last_name
    && is_optional is_phone p.phone
    && (is_some p.first_name || is_some p.last_name || is_some p.phone)

-- `becomeDriverSchema`
unfoldable pub is_license : ℕ → String → ℕ → Bool
is_license now license_number license_expiry = is_text 1 50 license_number && ltb now license_expiry

-- `createSavedLocationSchema`
unfoldable pub is_new_location : LocationData → Bool
is_new_location d = is_text 1 50 d.label && is_text 1 255 d.address && is_point d.position

abbrev has_location_key : LocationPatch → Bool
has_location_key p =
    is_some p.label || is_some p.address || is_some p.lat || is_some p.lng || is_some p.is_favorite

-- `updateSavedLocationSchema`
unfoldable pub is_location_patch : LocationPatch → Bool
is_location_patch p =
    is_optional (is_text 1 50) p.label
    && is_optional (is_text 1 255) p.address
    && is_optional is_lat p.lat
    && is_optional is_lng p.lng
    && has_location_key p

-- `registerSchema`: the form of an address is the library's.
unfoldable pub is_registration :
    (String → Bool) → String → String → String → String → Option String → Bool
is_registration is_email email password first_name last_name phone =
    is_email email
    && is_password password
    && is_text 1 50 first_name
    && is_text 1 50 last_name
    && is_optional is_phone phone
