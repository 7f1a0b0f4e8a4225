-- ===== src/Utils/Fare.antt =====
-- config/pricing.js and utils/fare.util.js. The rates are whole cents; the fare is the exact number
-- that the source approximates in floating point, rounded to the nearest cent as `toFixed(2)` does.
use ride_sharing_backend.Common.{ℕ, ◌+◌, ◌*◌, ◌/◌, ◌≤◌, ◌≡◌, String, arith}
use Prim.Native.Nat.{max}
use ride_sharing_backend.Model.{VehicleType}

pub record Rate : Type 0 where
  pub currency : String
  pub base_fare : ℕ
  pub per_km : ℕ
  pub per_min : ℕ

abbrev rate : ℕ → ℕ → ℕ → Rate
rate base_fare per_km per_min = record {
  currency = "USD";
  base_fare = base_fare;
  per_km = per_km;
  per_min = per_min;
}

unfoldable pub pricing : VehicleType → Rate
pricing VehicleType.bike = rate 200 50 10
pricing VehicleType.auto = rate 300 80 15
pricing VehicleType.hatchback = rate 400 100 18
pricing VehicleType.sedan = rate 500 120 20
pricing VehicleType.suv = rate 700 150 25

pub record Fare : Type 0 where
  pub amount : ℕ
  pub currency : String

-- `baseFare + perKm * distanceMeters / 1000 + perMin * durationSeconds / 60`, in units of 1/60000
-- cent.
abbrev pub exact_fare : Rate → ℕ → ℕ → ℕ
exact_fare r distance_meters duration_seconds =
    60000 * r.base_fare + 60 * (r.per_km * distance_meters) + 1000 * (r.per_min * duration_seconds)

-- The nearest cent, a tie upwards.
abbrev to_fixed : ℕ → ℕ
to_fixed x = (x + 30000) / 60000

unfoldable pub estimate_fare : ℕ → ℕ → VehicleType → Fare
estimate_fare distance_meters duration_seconds vehicle_type =
    let r = pricing vehicle_type in
    record {
      amount = to_fixed (max (exact_fare r distance_meters duration_seconds) (60000 * r.base_fare));
      currency = r.currency;
    }

-- A longer or slower trip never costs less.
pub estimate_fare_mono :
    (d d' t t' : ℕ) (v : VehicleType)
    → d ≤ d'
    → t ≤ t'
    → (estimate_fare d t v).amount ≤ (estimate_fare d' t' v).amount
unfolding estimate_fare pricing
estimate_fare_mono d d' t t' VehicleType.bike p q = omega arith
estimate_fare_mono d d' t t' VehicleType.auto p q = omega arith
estimate_fare_mono d d' t t' VehicleType.sedan p q = omega arith
estimate_fare_mono d d' t t' VehicleType.suv p q = omega arith
estimate_fare_mono d d' t t' VehicleType.hatchback p q = omega arith

-- A trip of whole kilometres and minutes costs the base fare, the rate of each kilometre and the rate of each minute.
estimate_fare-whole :
    (k m : ℕ) (v : VehicleType)
    → (estimate_fare (1000 * k) (60 * m) v).amount
      ≡ (pricing v).base_fare + (pricing v).per_km * k + (pricing v).per_min * m
unfolding estimate_fare pricing
estimate_fare-whole k m VehicleType.bike = omega arith
estimate_fare-whole k m VehicleType.auto = omega arith
estimate_fare-whole k m VehicleType.sedan = omega arith
estimate_fare-whole k m VehicleType.suv = omega arith
estimate_fare-whole k m VehicleType.hatchback = omega arith

-- For the rates of the vehicle type, a trip of at least k and at most k' kilometres, and of at least m and at most m'
-- minutes, costs at least the base fare with k kilometres and m minutes, and at most the base fare with k' kilometres
-- and m' minutes: the metres are charged as kilometres, the seconds as minutes, and rounding never leaves these bounds.
pub estimate_fare_between :
    (d t k k' m m' : ℕ) (v : VehicleType)
    → 1000 * k ≤ d
    → d ≤ 1000 * k'
    → 60 * m ≤ t
    → t ≤ 60 * m'
    → ((pricing v).base_fare + (pricing v).per_km * k + (pricing v).per_min * m
        ≤ (estimate_fare d t v).amount)
      × ((estimate_fare d t v).amount
          ≤ (pricing v).base_fare + (pricing v).per_km * k' + (pricing v).per_min * m')
estimate_fare_between d t k k' m m' v least_km most_km least_min most_min = (
  omega (
    arith,
    estimate_fare-whole k m v,
    estimate_fare_mono (1000 * k) d (60 * m) t v least_km least_min,
  ),
  omega (
    arith,
    estimate_fare-whole k' m' v,
    estimate_fare_mono d (1000 * k') t (60 * m') v most_km most_min,
  ),
)
