-- ===== src/Services/Payment.antt =====
-- services/payment.service.js: paying for a ride, and reading payments.
pub mod Stripe
pub mod Refund
pub mod Charge
pub mod Once
pub mod History
pub mod Settled
pub mod Held
pub mod Webhook
pub mod RefundCases
pub mod Refunds
pub mod Coupons
use ride_sharing_backend.Common.{
  ℕ, ◌-◌, ◌*◌, String, Bool, true, false, not, ◌||◌, Option, none, some, List, [], ◌∷◌, ◌==◌,
  is_some, holds, if◌then◌else◌,
}
use ride_sharing_backend.Common.Table.{Table, find, find_many, count}
use ride_sharing_backend.Errors.{Thrown, bad_request, conflict, not_found, internal, other}
use ride_sharing_backend.Model.{
  Ride, RideStatus, same_status, Payment, PaymentMethod, PaymentProvider, PaymentStatus, Role,
  Wallet, WalletTransactionReason, CouponRedemption,
}
use ride_sharing_backend.Store.{
  Store, StripeCall, Action, ok, err, gets, or_throw, throw_if, throw, pure, modify, transaction,
  ◌>>=◌, ◌>>◌,
}
use ride_sharing_backend.Repositories.{
  passenger_user, driver_user, find_payment_by_ride, create_payment, create_redemption,
  find_wallet_by_user,
}
use ride_sharing_backend.Services.Coupon.{validate_coupon}
use ride_sharing_backend.Services.Ride.{ride_of}
use ride_sharing_backend.Services.Ride.Views.{is_admin, page_of, Pagination, pagination_meta}
use ride_sharing_backend.Services.Wallet.{debit_with_entry}
use ride_sharing_backend.Utils.Money.{to_stripe_cents}

-- `Number(ride.actualFare)`: null is 0.
abbrev pub fare_of : Option ℕ → ℕ
fare_of none = 0
fare_of (some fare) = fare

-- A price: the coupon's id, the discount and what is left to pay, in cents.
pub record Price : Type 0 where
  pub coupon_id : Option ℕ
  pub discount : ℕ
  pub amount : ℕ

-- A discount is a whole number of cents, so nothing is left for `toFixed(2)` to round.
unfoldable pub price_of : Option String → ℕ → ℕ → Action Price
price_of none user_id fare s = (ok (record { coupon_id = none; discount = 0; amount = fare }), s)
price_of (some code) user_id fare s =
    (validate_coupon code user_id fare
        >>= (λ v. pure (record { coupon_id = some v.0; discount = v.1; amount = fare - v.1 })))
      s

abbrev pub count_outcome : PaymentMethod → Bool → Action (Unit {0})
count_outcome method is_completed =
    modify (λ s. record s { payment_outcomes = (method, is_completed) ∷ s.payment_outcomes })

abbrev pub paid_now : ℕ → ℕ → Ride → ℕ → PaymentMethod → PaymentProvider → ℕ → Payment
paid_now user_id ride_id r amount method provider now = record {
  ride_id = ride_id;
  payer_id = user_id;
  amount = amount;
  currency = r.currency;
  method = method;
  provider = provider;
  status = PaymentStatus.completed;
  stripe_payment_intent_id = none;
  failure_reason = none;
  paid_at = some now;
}

unfoldable pub pay_cash : ℕ → ℕ → ℕ → Ride → ℕ → Action Payment
pay_cash id user_id ride_id r amount = do
  now ← gets (λ s. s.now)
  p ←
      create_payment id
        (paid_now user_id ride_id r amount PaymentMethod.cash PaymentProvider.cash now)
  count_outcome PaymentMethod.cash true
  pure p

-- Debit, ledger entry and payment row land together.
unfoldable pub charge_wallet : ℕ → ℕ → ℕ → ℕ → Ride → ℕ → Action Payment
charge_wallet wallet_id id user_id ride_id r amount = do
  debit_with_entry user_id wallet_id WalletTransactionReason.ride_payment (10 * amount)
      (some ride_id) (bad_request "Insufficient wallet balance")
  now ← gets (λ s. s.now)
  create_payment id
      (paid_now user_id ride_id r amount PaymentMethod.wallet PaymentProvider.wallet now)

unfoldable pub pay_wallet : ℕ → ℕ → ℕ → Ride → ℕ → Action Payment
pay_wallet id user_id ride_id r amount = do
  found ← gets (λ s. find_wallet_by_user user_id s.wallets)
  (wallet_id, _) ← or_throw (bad_request "Wallet not found") found
  p ← transaction (charge_wallet wallet_id id user_id ride_id r amount)
  count_outcome PaymentMethod.wallet true
  pure p

abbrev pub pending_card : ℕ → ℕ → Ride → ℕ → ℕ → Payment
pending_card user_id ride_id r amount intent_id = record {
  ride_id = ride_id;
  payer_id = user_id;
  amount = amount;
  currency = r.currency;
  method = PaymentMethod.card;
  provider = PaymentProvider.stripe;
  status = PaymentStatus.pending;
  stripe_payment_intent_id = some intent_id;
  failure_reason = none;
  paid_at = none;
}

abbrev pub ask_stripe : StripeCall → Action (Unit {0})
ask_stripe call = modify (λ s. record s { stripe_calls = call ∷ s.stripe_calls })

-- A row that cannot be written cancels the intent; whether that works is only logged.
unfoldable pub create_or_cancel : ℕ → ℕ → Payment → Action Payment
create_or_cancel intent_id id row s =
    let (r, s') = create_payment id row s in
    elim r [
      | ok p ↦ (ok p, s')
      | err e ↦ (ask_stripe (StripeCall.cancel_payment_intent intent_id) >> throw e) s'
    ]

-- What Stripe is configured to and answers: the intent's id, or `none` when the call throws. The
-- ride's id is the idempotency key.
unfoldable pub pay_card : Bool → Option ℕ → ℕ → ℕ → ℕ → Ride → ℕ → Action Payment
pay_card is_configured intent id user_id ride_id r amount = do
  throw_if (not is_configured) (internal "Card payments are not configured on this server")
  ask_stripe (StripeCall.create_payment_intent ride_id (to_stripe_cents (10 * amount)))
  elim intent [
    | none ↦ throw (other "Stripe error")
    | some intent_id ↦
        create_or_cancel intent_id id (pending_card user_id ride_id r amount intent_id)
  ]

-- The request, with what the outside world adds: the id of the new row and Stripe's answer.
pub record PayRequest : Type 0 where
  pub method : PaymentMethod
  pub coupon_code : Option String
  pub payment_id : ℕ
  pub is_configured : Bool
  pub intent : Option ℕ

unfoldable pub pay_by : PaymentMethod → PayRequest → ℕ → ℕ → Ride → ℕ → Action Payment
pay_by PaymentMethod.cash q user_id ride_id r amount =
    pay_cash q.payment_id user_id ride_id r amount
pay_by PaymentMethod.wallet q user_id ride_id r amount =
    pay_wallet q.payment_id user_id ride_id r amount
pay_by PaymentMethod.card q user_id ride_id r amount =
    pay_card q.is_configured q.intent q.payment_id user_id ride_id r amount

-- `if (couponId)`
unfoldable pub redeem : Option ℕ → ℕ → ℕ → ℕ → Action (Unit {0})
redeem none discount user_id ride_id = pure tt
redeem (some coupon_id) discount user_id ride_id = create_redemption (record {
  coupon_id = coupon_id;
  user_id = user_id;
  ride_id = ride_id;
  discount_applied = discount;
})

-- The ride, if it is the caller's, completed and not paid.
unfoldable pub payable_ride : ℕ → ℕ → Action Ride
payable_ride user_id ride_id = do
  found ← gets (ride_of ride_id)
  r ← or_throw (not_found "Ride not found") found
  is_own ← gets (λ s. holds (λ u. u == user_id) (passenger_user s.passengers r))
  throw_if (not is_own) (not_found "Ride not found")
  throw_if (not (same_status r.status RideStatus.completed))
      (conflict "Only a completed ride can be paid for")
  paid ← gets (λ s. find_payment_by_ride ride_id s.payments)
  throw_if (is_some paid) (conflict "This ride has already been paid for")
  pure r

unfoldable pub pay_for_ride : ℕ → ℕ → PayRequest → Action Payment
pay_for_ride user_id ride_id q = do
  r ← payable_ride user_id ride_id
  price ← price_of q.coupon_code user_id (fare_of r.actual_fare)
  p ← pay_by q.method q user_id ride_id r price.amount
  redeem price.coupon_id price.discount user_id ride_id
  pure p

unfoldable pub get_payment_for_ride : ℕ → Role → ℕ → Action Payment
get_payment_for_ride user_id role ride_id = do
  found ← gets (ride_of ride_id)
  r ← or_throw (not_found "Ride not found") found
  is_passenger ← gets (λ s. holds (λ u. u == user_id) (passenger_user s.passengers r))
  is_driver ← gets (λ s. holds (λ u. u == user_id) (driver_user s.drivers r))
  throw_if (not (is_passenger || is_driver || is_admin role)) (not_found "Ride not found")
  paid ← gets (λ s. find_payment_by_ride ride_id s.payments)
  (_, p) ← or_throw (not_found "No payment recorded for this ride yet") paid
  pure p

unfoldable pub get_payment_by_id : ℕ → Action Payment
get_payment_by_id id = do
  found ← gets (λ s. find id s.payments)
  or_throw (not_found "Payment not found") found

abbrev same_payment_status : PaymentStatus → PaymentStatus → Bool
same_payment_status PaymentStatus.pending PaymentStatus.pending = true
same_payment_status PaymentStatus.completed PaymentStatus.completed = true
same_payment_status PaymentStatus.failed PaymentStatus.failed = true
same_payment_status PaymentStatus.refunded PaymentStatus.refunded = true
same_payment_status PaymentStatus.partially_refunded PaymentStatus.partially_refunded = true
same_payment_status _ _ = false

abbrev has_payment_status : Option PaymentStatus → Payment → Bool
has_payment_status none p = true
has_payment_status (some status) p = same_payment_status p.status status

unfoldable pub list_payments : ℕ → ℕ → Option PaymentStatus → Action (Table Payment × Pagination)
list_payments page limit status = gets (λ s. (
  page_of page limit (find_many (λ _ p. has_payment_status status p) s.payments),
  pagination_meta page limit (count (λ _ p. has_payment_status status p) s.payments),
))
