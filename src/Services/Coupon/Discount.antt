-- ===== src/Services/Coupon/Discount.antt =====
-- What a coupon takes off a fare, and when it may.
use ride_sharing_backend.Common.{
  ℕ, ◌+◌, ◌*◌, ◌/◌, String, ◌≤◌, ◌<◌, ◌≡◌, arith, true, false, ◌||◌, Option, none, some, ltb, leb,
  holds, Option-cases, Bool-cases, ◌⊎◌, inl, inr,
}
use Prim.Native.Nat.{min}
use ride_sharing_backend.Model.{Coupon, DiscountType}
use ride_sharing_backend.Errors.{ApiError, bad_request, api}
use ride_sharing_backend.Store.{Store, ok, err}
use ride_sharing_backend.Repositories.{
  find_coupon_by_code, count_by_coupon, count_by_coupon_and_user,
}
use ride_sharing_backend.Services.Coupon.{
  raw_discount, capped, compute_discount, validate_coupon, is_below_minimum, minimum_message,
}

-- A nullable bound.
abbrev pub IsAtMost : ℕ → Option ℕ → Type 0
IsAtMost n none = Unit
IsAtMost n (some most) = n ≤ most

-- A discount is never more than the fare, and never more than the coupon's own maximum.
pub compute_discount_bounded :
    (c : Coupon) (fare : ℕ)
    → (compute_discount c fare ≤ fare) × IsAtMost (compute_discount c fare) c.max_discount
unfolding compute_discount
compute_discount_bounded c fare = elim (Option-cases c.max_discount) [
  | inl e ↦ ground arith
  | inr (most, e) ↦ rw e (omega arith, omega arith)
]

-- What a coupon names: an amount, or a percentage of the fare in the nearest cent, a tie upwards. The
-- percentage is in hundredths.
abbrev pub IsNominal : DiscountType → ℕ → ℕ → ℕ → Type 0
IsNominal DiscountType.fixed value fare n = n ≡ value
IsNominal DiscountType.percentage value fare n =
    (10000 * n ≤ fare * value + 5000) × (fare * value + 5000 < 10000 * n + 10000)

abbrev at_most : Option ℕ → ℕ → ℕ
at_most none n = n
at_most (some most) n = min n most

-- The nominal discount, cut to the coupon's maximum and to the fare.
abbrev pub IsDiscount : Coupon → ℕ → ℕ → Type 0
IsDiscount c fare d =
    (n : ℕ) × IsNominal c.discount_type c.discount_value fare n
    × (d ≡ min (at_most c.max_discount n) fare)

nominal : DiscountType → ℕ → ℕ → ℕ
nominal kind value fare = (raw_discount kind value fare + 5000) / 10000

nominal-IsNominal :
    (kind : DiscountType) (value fare : ℕ) → IsNominal kind value fare (nominal kind value fare)
unfolding nominal
nominal-IsNominal DiscountType.fixed value fare = omega arith
nominal-IsNominal DiscountType.percentage value fare = (omega arith, omega arith)

-- Rounding to whole cents commutes with cutting at whole cents.
rounded_cut :
    (raw fare : ℕ) (most : Option ℕ)
    → (min (capped most raw) (fare * 10000) + 5000) / 10000
      ≡ min (at_most most ((raw + 5000) / 10000)) fare
rounded_cut raw fare none = omega arith
rounded_cut raw fare (some most) = omega arith

pub compute_discount-IsDiscount :
    (c : Coupon) (fare : ℕ) → IsDiscount c fare (compute_discount c fare)
unfolding compute_discount nominal
compute_discount-IsDiscount c fare = (
  nominal c.discount_type c.discount_value fare,
  nominal-IsNominal c.discount_type c.discount_value fare,
  rounded_cut (raw_discount c.discount_type c.discount_value fare) fare c.max_discount,
)

abbrev pub IsBelow : ℕ → Option ℕ → Type 0
IsBelow n none = Unit
IsBelow n (some limit) = n < limit

not_full : (n : ℕ) (limit : Option ℕ) → holds (λ most. leb most n) limit ≡ false → IsBelow n limit
not_full n none h = tt
not_full n (some limit) h = ground arith

-- What a validated coupon promises: it is the active coupon of its code, within its dates, for a
-- fare that reaches its minimum, with a use left over all and for this user.
pub record Redeemable (code : String) (user_id fare id : ℕ) (c : Coupon) (s : Store) : Type 0 where
  pub found : find_coupon_by_code code s.coupons ≡ some (id, c)
  pub active : c.is_active ≡ true
  pub started : c.valid_from ≤ s.now
  pub not_over : s.now ≤ c.valid_to
  pub reaches : is_below_minimum c.min_ride_fare fare ≡ false
  pub left : IsBelow (count_by_coupon id s.redemptions) c.usage_limit
  pub left_for_user : count_by_coupon_and_user id user_id s.redemptions < c.usage_per_user

-- Validation answers with a redeemable coupon and its discount, or with an error; it changes nothing.
pub validate_coupon_cases :
    (code : String) (user_id fare : ℕ) (s : Store)
    → ((e : ApiError) × (validate_coupon code user_id fare s ≡ (err (api e), s)))
      ⊎ ((id : ℕ) × (c : Coupon) × Redeemable code user_id fare id c s
          × (validate_coupon code user_id fare s ≡ (ok (id, compute_discount c fare), s)))
unfolding validate_coupon
validate_coupon_cases code user_id fare s =
    elim (Option-cases (find_coupon_by_code code s.coupons)) [
      | inl e ↦ inl (bad_request "Invalid coupon code", ground arith)
      | inr ((id, c), e) ↦ elim (Bool-cases c.is_active) [
        | inr a ↦ inl (bad_request "Invalid coupon code", ground arith)
        | inl a ↦ elim (Bool-cases (ltb s.now c.valid_from || ltb c.valid_to s.now)) [
          | inl t ↦ inl (bad_request "This coupon is not currently valid", ground arith)
          | inr t ↦ elim (Bool-cases (is_below_minimum c.min_ride_fare fare)) [
            | inl m ↦ inl (bad_request (minimum_message c.min_ride_fare), ground arith)
            | inr m ↦
                elim (Bool-cases
                  (holds (λ most. leb most (count_by_coupon id s.redemptions)) c.usage_limit)) [
                    | inl u ↦
                        inl (bad_request "This coupon has reached its usage limit", ground arith)
                    | inr u ↦
                        elim (Bool-cases (
                          leb c.usage_per_user
                            (count_by_coupon_and_user id user_id s.redemptions))) [
                              | inl v ↦
                                  inl
                                    (bad_request "You have already used this coupon", ground arith)
                              | inr v ↦ inr (
                                id,
                                c,
                                record {
                                  found = e;
                                  active = a;
                                  started = ground arith;
                                  not_over = ground arith;
                                  reaches = m;
                                  left =
                                      not_full (count_by_coupon id s.redemptions) c.usage_limit u;
                                  left_for_user = ground arith;
                                },
                                ground arith,
                              )
                            ]
                  ]
          ]
        ]
      ]
    ]
