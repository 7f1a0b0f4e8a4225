-- ===== src/Services/Maps.antt =====
-- services/maps.service.js. The Directions API and the great-circle distance (utils/geo.util.js, which
-- is trigonometry in floating point) are arguments; the distance is in millimetres.
use ride_sharing_backend.Common.{
  ℕ, ◌+◌, ◌*◌, ◌/◌, ◌≤◌, String, Bool, true, false, Option, none, some, arith,
}

pub record Route : Type 0 where
  pub distance_meters : ℕ
  pub duration_seconds : ℕ
  pub polyline : Option String

-- `ROAD_DISTANCE_FACTOR` is 1.3 and `AVERAGE_SPEED_KMH` is 30. Both results are the nearest whole
-- number, a tie upwards, of the exact quotient: 13 * d / 10000 metres, 156 * d / 1000000 seconds.
unfoldable pub haversine_fallback : ℕ → Route
haversine_fallback millimeters = record {
  distance_meters = (13 * millimeters + 5000) / 10000;
  duration_seconds = (156 * millimeters + 500000) / 1000000;
  polyline = none;
}

-- `directions` is what the Google call comes to: `none` when it throws.
unfoldable pub compute_route : Bool → Option Route → ℕ → Route
compute_route false directions millimeters = haversine_fallback millimeters
compute_route true none millimeters = haversine_fallback millimeters
compute_route true (some route) millimeters = route

-- The fallback's speed is 30 km/h: its seconds and metres agree to within their rounding.
pub haversine_fallback_speed :
    (d : ℕ)
    → let r = haversine_fallback d in
      (25 * r.duration_seconds ≤ 3 * r.distance_meters + 15)
      × (3 * r.distance_meters ≤ 25 * r.duration_seconds + 15)
unfolding haversine_fallback
haversine_fallback_speed d = (omega arith, omega arith)
