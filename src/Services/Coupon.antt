-- ===== src/Services/Coupon.antt =====
-- services/coupon.service.js.
pub mod Discount
use ride_sharing_backend.Common.{
  ℕ, ◌+◌, ◌*◌, ◌/◌, String, Bool, true, false, not, ◌||◌, Option, none, some, List, [], ◌∷◌, ltb,
  leb, is_some, holds, if◌then◌else◌,
}
use Prim.Native.Nat.{min}
use Prim.Native.String.{◌++◌ as append}
use ride_sharing_backend.Common.Table.{Table, find, find_many, count}
use ride_sharing_backend.Common.Text.{column_text}
use ride_sharing_backend.Errors.{bad_request, conflict, not_found}
use ride_sharing_backend.Model.{Coupon, DiscountType}
use ride_sharing_backend.Store.{Store, Action, gets, or_throw, throw_if, pure, ◌>>=◌, ◌>>◌}
use ride_sharing_backend.Repositories.{
  find_coupon_by_code, create_coupon_row, update_coupon_row, count_by_coupon,
  count_by_coupon_and_user,
}
use ride_sharing_backend.Services.Ride.Views.{page_of, Pagination, pagination_meta}

-- The discount before rounding, in units of 1/10000 cent: the fare and a fixed discount are cents, a
-- percentage is hundredths of a percent.
abbrev pub raw_discount : DiscountType → ℕ → ℕ → ℕ
raw_discount DiscountType.percentage value fare = fare * value
raw_discount DiscountType.fixed value fare = value * 10000

abbrev pub capped : Option ℕ → ℕ → ℕ
capped none x = x
capped (some most) x = min x (most * 10000)

-- `computeDiscount`: the exact amount that the source approximates in floating point, rounded to
-- the nearest cent as `toFixed(2)` does.
unfoldable pub compute_discount : Coupon → ℕ → ℕ
compute_discount c fare =
    (min (capped c.max_discount (raw_discount c.discount_type c.discount_value fare)) (fare * 10000)
      + 5000)
    / 10000

unfoldable pub is_below_minimum : Option ℕ → ℕ → Bool
is_below_minimum none fare = false
is_below_minimum (some least) fare = ltb fare least

abbrev pub minimum_message : Option ℕ → String
minimum_message none = "This coupon requires a minimum fare of null"
minimum_message (some least) = append "This coupon requires a minimum fare of " (column_text least)

-- The coupon's id and the discount on the fare.
unfoldable pub validate_coupon : String → ℕ → ℕ → Action (ℕ × ℕ)
validate_coupon code user_id fare = do
  found ← gets (λ s. find_coupon_by_code code s.coupons)
  (id, c) ← or_throw (bad_request "Invalid coupon code") found
  throw_if (not c.is_active) (bad_request "Invalid coupon code")
  now ← gets (λ s. s.now)
  throw_if (ltb now c.valid_from || ltb c.valid_to now)
      (bad_request "This coupon is not currently valid")
  throw_if (is_below_minimum c.min_ride_fare fare) (bad_request (minimum_message c.min_ride_fare))
  total ← gets (λ s. count_by_coupon id s.redemptions)
  throw_if (holds (λ most. leb most total) c.usage_limit)
      (bad_request "This coupon has reached its usage limit")
  own ← gets (λ s. count_by_coupon_and_user id user_id s.redemptions)
  throw_if (leb c.usage_per_user own) (bad_request "You have already used this coupon")
  pure (id, compute_discount c fare)

-- The new row's id is an argument.
unfoldable pub create_coupon : ℕ → Coupon → Action Coupon
create_coupon id data_ = do
  existing ← gets (λ s. find_coupon_by_code data_.code s.coupons)
  throw_if (is_some existing) (conflict "A coupon with this code already exists")
  create_coupon_row id data_

-- The data of an update are a change of the row; the code is not among its fields.
unfoldable pub update_coupon : ℕ → (Coupon → Coupon) → Action Coupon
update_coupon id data_ = do
  found ← gets (λ s. find id s.coupons)
  _ ← or_throw (not_found "Coupon not found") found
  update_coupon_row id data_
  updated ← gets (λ s. find id s.coupons)
  or_throw (not_found "Record not found") updated

abbrev is_active_filter : Option Bool → ℕ → Coupon → Bool
is_active_filter none _ c = true
is_active_filter (some true) _ c = c.is_active
is_active_filter (some false) _ c = not c.is_active

unfoldable pub list_coupons : ℕ → ℕ → Option Bool → Action (Table Coupon × Pagination)
list_coupons page limit is_active = gets (λ s. (
  page_of page limit (find_many (is_active_filter is_active) s.coupons),
  pagination_meta page limit (count (is_active_filter is_active) s.coupons),
))
