-- ===== src/Validators/Requests.antt =====
-- validators/ride.validator.js, rating.validator.js, payment.validator.js, coupon.validator.js and
-- wallet.validator.js.
use ride_sharing_backend.Common.{
  ℕ, ◌+◌, ◌-◌, String, Bool, false, not, ◌&&◌, ◌||◌, Option, leb, ltb, ◌==◌,
}
use ride_sharing_backend.Common.Int.{ℤ, abs}
use ride_sharing_backend.Model.{Coupon, DiscountType, Point}
use ride_sharing_backend.Services.Ride.Request.{RideRequest}
use ride_sharing_backend.Validators.{is_text, is_optional, is_point, all_digits}

-- `Math.abs(a - b) > 1e-5`, for a difference of 100 units of `Point`.
abbrev are_apart : ℕ → ℕ → Bool
are_apart a b = ltb 100 ((a - b) + (b - a))

-- `requestRideSchema`
unfoldable pub is_ride_request : RideRequest → Bool
is_ride_request q =
    is_text 1 255 q.pickup_address
    && is_point q.pickup
    && is_text 1 255 q.dropoff_address
    && is_point q.dropoff
    && (are_apart q.pickup.lat q.dropoff.lat || are_apart q.pickup.lng q.dropoff.lng)

-- `nearbyQuerySchema`, with the radius in tenths of a kilometre.
unfoldable pub is_nearby_query : Point → ℕ → Bool
is_nearby_query p radius = is_point p && leb 1 radius && leb radius 500

-- `startRideSchema`
unfoldable pub is_otp_code : String → Bool
is_otp_code t = is_text 4 4 t && all_digits t

-- `cancelRideSchema`
unfoldable pub is_cancellation : Option String → Bool
is_cancellation reason = is_optional (is_text 1 255) reason

-- `submitRatingSchema`
unfoldable pub is_submission : ℕ → Option String → Bool
is_submission value comment = leb 1 value && leb value 5 && is_optional (is_text 0 500) comment

-- `percentageCap`, for a value in hundredths of a percent.
abbrev pub is_over_cap : DiscountType → ℕ → Bool
is_over_cap DiscountType.percentage value = ltb 10000 value
is_over_cap DiscountType.fixed value = false

-- `createCouponSchema`; a description is not kept by the model.
unfoldable pub is_new_coupon : Coupon → Bool
is_new_coupon c =
    is_text 3 30 c.code
    && leb 1 c.discount_value
    && is_optional (leb 1) c.max_discount
    && is_optional (leb 1) c.min_ride_fare
    && is_optional (leb 1) c.usage_limit
    && leb 1 c.usage_per_user
    && ltb c.valid_from c.valid_to
    && not (is_over_cap c.discount_type c.discount_value)

-- `adjustWalletSchema`
unfoldable pub is_adjustment : ℤ → String → Bool
is_adjustment amount reason = not (abs amount == 0) && is_text 1 255 reason
