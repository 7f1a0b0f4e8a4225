-- ===== src/Tests/Money.antt =====
-- Payments, wallets, coupons and fares at concrete inputs.
use ride_sharing_backend.Common.{
  ℕ, ◌+◌, ◌*◌, ◌≤◌, ◌≡◌, inl, refl, true, false, none, some, List, [], ◌∷◌, arith,
}
use ride_sharing_backend.Common.Int.{pos}
use ride_sharing_backend.Common.Table.{find}
use ride_sharing_backend.Errors.{Thrown, other}
use ride_sharing_backend.Errors.Normalize.{error_handler, error_handler_hides}
use ride_sharing_backend.Model.{
  Ride, RideStatus, Payment, PaymentMethod, PaymentProvider, PaymentStatus, VehicleType,
}
use ride_sharing_backend.Repositories.{
  passenger_user, find_payment_by_ride, create_payment, create_redemption,
}
use ride_sharing_backend.Services.Coupon.{compute_discount, validate_coupon, is_below_minimum}
use ride_sharing_backend.Services.Payment.{
  PayRequest, pay_for_ride, fare_of, paid_now, payable_ride, price_of, pay_by, pay_cash, redeem,
}
use ride_sharing_backend.Services.Payment.History.{MoneyCall, run, run-HasLedger}
use ride_sharing_backend.Services.Payment.Coupons.{
  Attempt, IsWithinLimits, run as run_attempts, run-IsWithinLimits, unredeemed-IsWithinLimits,
}
use ride_sharing_backend.Services.Payment.Charge.{IsDiscountOf}
use ride_sharing_backend.Services.Payment.Once.{pay_for_ride_charges, pay_for_ride_once}
use ride_sharing_backend.Services.Payment.Refund.{RefundRequest, refund_payment}
use ride_sharing_backend.Services.Payment.Refunds.{IsCovered, refund_payment-IsCovered}
use ride_sharing_backend.Services.Payment.Stripe.{Intent, Purpose, StripeEvent}
use ride_sharing_backend.Services.Payment.Webhook.{
  handle_all, final_status, handle_all-final_status, success_completes,
}
use ride_sharing_backend.Services.Ride.{ride_of}
use ride_sharing_backend.Services.Wallet.{confirm_top_up}
use ride_sharing_backend.Services.Wallet.Balance.{HasLedger, deliveries, confirm_top_up_once}
use ride_sharing_backend.Store.{Store, ok, err}
use ride_sharing_backend.Tests.Samples.{
  empty, with_ride, completed_ride, card_payment, with_payment, sample_coupon,
}
use ride_sharing_backend.Utils.Fare.{estimate_fare, pricing, estimate_fare_between}

confirm_top_up_once_example : deliveries 1 2500 70 3 empty ≡ (confirm_top_up 1 2500 70 empty).1
confirm_top_up_once_example = confirm_top_up_once 1 2500 70 2 empty

-- A failure, a success, and the failure delivered again.
abbrev intent : Intent
intent = record {
  id = 70;
  amount = 1300;
  purpose = Purpose.ride_payment;
  last_payment_error = none;
}

abbrev events : List StripeEvent
events =
    StripeEvent.payment_failed intent
    ∷ StripeEvent.succeeded intent
    ∷ StripeEvent.payment_failed intent
    ∷ []

success_completes_example :
    (p' : Payment) × (find 60 (handle_all events (with_payment card_payment)).payments ≡ some p')
    × (p'.status ≡ PaymentStatus.completed)
success_completes_example =
    success_completes 70 60 card_payment events (with_payment card_payment)
      (record { by_id = refl; by_intent = refl; unique = refl }) refl

handle_all-final_status_example :
    (p' : Payment) × (find 60 (handle_all events (with_payment card_payment)).payments ≡ some p')
    × (p'.status ≡ final_status 70 events PaymentStatus.pending)
handle_all-final_status_example =
    handle_all-final_status 70 60 card_payment events (with_payment card_payment)
      (record { by_id = refl; by_intent = refl; unique = refl })

abbrev completed_payment : Payment
completed_payment = record card_payment {
  status = PaymentStatus.completed;
  provider = PaymentProvider.wallet;
}

abbrev refund_request : RefundRequest
refund_request = record {
  amount = some 5000;
  reason = "late";
  refund_id = 80;
  notification_id = 90;
  is_configured = false;
  answer = none;
}

refund_payment-IsCovered_example :
    let t = (refund_payment 60 refund_request 9 (with_payment completed_payment)).1 in
    IsCovered t.payments t.refunds
refund_payment-IsCovered_example =
    refund_payment-IsCovered 60 refund_request 9 (with_payment completed_payment)
      (ground arith, refl, tt)

abbrev by_cash : PayRequest
by_cash = record {
  method = PaymentMethod.cash;
  coupon_code = none;
  payment_id = 60;
  is_configured = false;
  intent = none;
}

-- A top-up that is reported twice, a payment from the wallet, a refund and an adjustment.
abbrev top_up : StripeEvent
top_up =
    StripeEvent.succeeded (record {
      id = 71;
      amount = 2500;
      purpose = Purpose.wallet_topup 1;
      last_payment_error = none;
    })

abbrev money_calls : List (ℕ × MoneyCall)
money_calls =
    (1000, MoneyCall.reports top_up)
    ∷ (1001, MoneyCall.reports top_up)
    ∷ (2000, MoneyCall.pays 1 40 (record by_cash { method = PaymentMethod.wallet }))
    ∷ (3000, MoneyCall.refunds 60 refund_request 9)
    ∷ (4000, MoneyCall.adjusts 1 (pos 12345) 9)
    ∷ []

run-HasLedger_example : HasLedger (run money_calls (with_ride completed_ride))
run-HasLedger_example =
    run-HasLedger money_calls (with_ride completed_ride) (tt, (tt, (tt, (tt, (inl refl, tt)))))
      (refl, refl, tt)

abbrev paid_in_cash : Payment
paid_in_cash = paid_now 1 40 completed_ride 1300 PaymentMethod.cash PaymentProvider.cash 1000

abbrev after_cash : Store
after_cash = record (with_payment paid_in_cash) {
  payment_outcomes = (PaymentMethod.cash, true) ∷ [];
}

cash_paid : pay_for_ride 1 40 by_cash (with_ride completed_ride) ≡ (ok paid_in_cash, after_cash)
unfolding pay_for_ride payable_ride price_of pay_by pay_cash create_payment redeem
cash_paid = refl

pay_for_ride_once_example :
    (e : Thrown) × (pay_for_ride 1 40 by_cash after_cash ≡ (err e, after_cash))
pay_for_ride_once_example =
    pay_for_ride_once 1 40 by_cash paid_in_cash (with_ride completed_ride) after_cash cash_paid 1
      by_cash

-- 10.5 % of 13.00 is 1.365, which rounds to 1.37.
discount_of_sample : compute_discount sample_coupon 1300 ≡ 137
unfolding compute_discount
discount_of_sample = refl

abbrev with_coupon : Store
with_coupon = record empty { coupons = (5, sample_coupon) ∷ [] }

coupon_accepted : validate_coupon "SAVE" 1 1300 with_coupon ≡ (ok (5, 137), with_coupon)
unfolding validate_coupon compute_discount is_below_minimum
coupon_accepted = refl

-- The ride for 13.00, paid in cash with the coupon.
abbrev to_save : Store
to_save = record (with_ride completed_ride) { coupons = (5, sample_coupon) ∷ [] }

abbrev with_code : PayRequest
with_code = record by_cash { coupon_code = some "SAVE" }

abbrev saved : Payment
saved = paid_now 1 40 completed_ride 1163 PaymentMethod.cash PaymentProvider.cash 1000

abbrev after_saving : Store
after_saving = (pay_for_ride 1 40 with_code to_save).1

saved_paid : pay_for_ride 1 40 with_code to_save ≡ (ok saved, after_saving)
unfolding pay_for_ride payable_ride price_of pay_by pay_cash create_payment redeem validate_coupon
    compute_discount is_below_minimum create_redemption
saved_paid = refl

pay_for_ride_charges_example :
    (r : Ride) × (discount : ℕ) × (ride_of 40 to_save ≡ some r)
    × (passenger_user to_save.passengers r ≡ some 1)
    × (r.status ≡ RideStatus.completed)
    × (find_payment_by_ride 40 to_save.payments ≡ none)
    × (saved.ride_id ≡ 40)
    × (saved.payer_id ≡ 1)
    × (1163 + discount ≡ fare_of r.actual_fare)
    × IsDiscountOf (some "SAVE") 1 (fare_of r.actual_fare) discount to_save
    × (after_saving.payments ≡ (60, saved) ∷ [])
pay_for_ride_charges_example =
    pay_for_ride_charges 1 40 with_code saved to_save after_saving saved_paid

-- 5.4 km and 9.5 minutes in a sedan: between the price of 5 km and 9 minutes and that of 6 km and 10 minutes.
estimate_fare_between_example :
    (500 + 120 * 5 + 20 * 9 ≤ (estimate_fare 5400 570 VehicleType.sedan).amount)
    × ((estimate_fare 5400 570 VehicleType.sedan).amount ≤ 500 + 120 * 6 + 20 * 10)
unfolding pricing
estimate_fare_between_example =
    estimate_fare_between 5400 570 5 6 9 10 VehicleType.sedan (omega arith) (omega arith)
      (omega arith) (omega arith)

error_handler_hides_example :
    (error_handler true (other "connection refused") ≡ error_handler true (other "out of memory"))
    × ((error_handler true (other "connection refused")).status ≡ 500)
    × ((error_handler true (other "connection refused")).logged ≡ true)
    × ((error_handler true (other "connection refused")).stack_sent ≡ false)
error_handler_hides_example = error_handler_hides "connection refused" "out of memory"

-- The passenger pays for the ride with the coupon, and tries to do so again.
abbrev attempt : ℕ → Attempt
attempt at = record {
  at = at;
  user_id = 1;
  ride_id = 40;
  request = record by_cash { coupon_code = some "SAVE" };
}

abbrev with_ride_and_coupon : Store
with_ride_and_coupon = record (with_ride completed_ride) { coupons = (5, sample_coupon) ∷ [] }

run-IsWithinLimits_example :
    IsWithinLimits (run_attempts (attempt 1000 ∷ attempt 2000 ∷ []) with_ride_and_coupon)
run-IsWithinLimits_example =
    run-IsWithinLimits (attempt 1000 ∷ attempt 2000 ∷ []) with_ride_and_coupon (refl, tt)
      (unredeemed-IsWithinLimits with_ride_and_coupon refl)
