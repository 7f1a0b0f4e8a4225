-- ===== src/Repositories/Payments.antt =====
-- repositories/payment.repository.js, refund.repository.js, coupon.repository.js and
-- couponRedemption.repository.js.
use ride_sharing_backend.Common.{
  ℕ, ◌+◌, Bool, true, false, ◌&&◌, ◌||◌, Option, none, some, List, [], ◌∷◌, ◌==◌, any,
  if◌then◌else◌, holds,
}
use ride_sharing_backend.Common.Table.{Table, find, find_first, update}
use ride_sharing_backend.Common.Text.{same_text}
use ride_sharing_backend.Errors.{prisma, p2002, p2025}
use ride_sharing_backend.Model.{
  Payment, PaymentStatus, Refund, RefundStatus, Coupon, CouponRedemption,
}
use ride_sharing_backend.Store.{Action, ok, err}
use Prim.Native.String.{String}

abbrev same_intent : Option ℕ → Option ℕ → Bool
same_intent none b = false
same_intent (some a) b = holds (λ j. a == j) b

-- `rideId` and `stripePaymentIntentId` are unique, and so is the id; an absent intent never collides.
abbrev pub payment_collides : ℕ → Payment → ℕ → Payment → Bool
payment_collides id row j p =
    (j == id)
    || (p.ride_id == row.ride_id)
    || same_intent row.stripe_payment_intent_id p.stripe_payment_intent_id

unfoldable pub create_payment : ℕ → Payment → Action Payment
create_payment id row s = elim (find_first (payment_collides id row) s.payments) [
  | some _ ↦ (err (prisma p2002 "rideId" ""), s)
  | none ↦ (ok row, record s { payments = (id, row) ∷ s.payments })
]

abbrev pub find_payment_by_ride : ℕ → Table Payment → Option (ℕ × Payment)
find_payment_by_ride ride_id = find_first (λ _ p. p.ride_id == ride_id)

abbrev pub find_payment_by_intent : ℕ → Table Payment → Option (ℕ × Payment)
find_payment_by_intent intent_id =
    find_first (λ _ p. holds (λ j. j == intent_id) p.stripe_payment_intent_id)

abbrev pub with_payment_status : PaymentStatus → (Payment → Payment) → Payment → Payment
with_payment_status status extra p = let q = extra p in record q { status = status }

-- `updateStatus(id, status, extra)`
unfoldable pub update_payment_status : ℕ → PaymentStatus → (Payment → Payment) → Action (Unit {0})
update_payment_status id status extra s = elim (find id s.payments) [
  | none ↦ (err (prisma p2025 "" ""), s)
  | some _ ↦
      (ok tt, record s { payments = update id (with_payment_status status extra) s.payments })
]

-- `stripeRefundId` is unique, and so is the id.
abbrev pub refund_collides : ℕ → Refund → ℕ → Refund → Bool
refund_collides id row j r = (j == id) || same_intent row.stripe_refund_id r.stripe_refund_id

unfoldable pub create_refund_row : ℕ → Refund → Action Refund
create_refund_row id row s = elim (find_first (refund_collides id row) s.refunds) [
  | some _ ↦ (err (prisma p2002 "stripeRefundId" ""), s)
  | none ↦ (ok row, record s { refunds = (id, row) ∷ s.refunds })
]

abbrev pub is_completed_refund : RefundStatus → Bool
is_completed_refund RefundStatus.completed = true
is_completed_refund _ = false

-- `sumCompletedByPayment`, in cents.
abbrev pub sum_completed_by_payment : ℕ → Table Refund → ℕ
sum_completed_by_payment payment_id [] = 0
sum_completed_by_payment payment_id ((_, r) ∷ t) =
    (if (r.payment_id == payment_id) && is_completed_refund r.status then r.amount else 0)
    + sum_completed_by_payment payment_id t

abbrev pub find_coupon_by_code : String → Table Coupon → Option (ℕ × Coupon)
find_coupon_by_code code = find_first (λ _ c. same_text c.code code)

unfoldable pub create_coupon_row : ℕ → Coupon → Action Coupon
create_coupon_row id row s = elim (find id s.coupons) [
  | some _ ↦ (err (prisma p2002 "id" ""), s)
  | none ↦ (ok row, record s { coupons = (id, row) ∷ s.coupons })
]

unfoldable pub update_coupon_row : ℕ → (Coupon → Coupon) → Action (Unit {0})
update_coupon_row id change s = elim (find id s.coupons) [
  | none ↦ (err (prisma p2025 "" ""), s)
  | some _ ↦ (ok tt, record s { coupons = update id change s.coupons })
]

-- Counts of redemptions, over all users and for one.
abbrev pub count_by_coupon : ℕ → List CouponRedemption → ℕ
count_by_coupon coupon_id [] = 0
count_by_coupon coupon_id (r ∷ rs) =
    (if r.coupon_id == coupon_id then 1 else 0) + count_by_coupon coupon_id rs

abbrev pub count_by_coupon_and_user : ℕ → ℕ → List CouponRedemption → ℕ
count_by_coupon_and_user coupon_id user_id [] = 0
count_by_coupon_and_user coupon_id user_id (r ∷ rs) =
    (if (r.coupon_id == coupon_id) && (r.user_id == user_id) then 1 else 0)
    + count_by_coupon_and_user coupon_id user_id rs

-- `rideId` is unique among the redemptions.
unfoldable pub create_redemption : CouponRedemption → Action (Unit {0})
create_redemption row s = elim (any (λ r. r.ride_id == row.ride_id) s.redemptions) [
  | true ↦ (err (prisma p2002 "rideId" ""), s)
  | false ↦ (ok tt, record s { redemptions = row ∷ s.redemptions })
]
