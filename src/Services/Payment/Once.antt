-- ===== src/Services/Payment/Once.antt =====
-- A ride is paid for once.
use ride_sharing_backend.Common.{ℕ, ◌+◌, ◌≡◌, ◌≢◌, sym, ap, ◌∙◌, inl, inr, none, some, ◌∷◌, arith}
use ride_sharing_backend.Errors.{Thrown}
use ride_sharing_backend.Model.{Ride, RideStatus, Payment}
use ride_sharing_backend.Store.{Store, ok, err}
use ride_sharing_backend.Repositories.{passenger_user, find_payment_by_ride}
use ride_sharing_backend.Services.Ride.{ride_of}
use ride_sharing_backend.Services.Payment.{fare_of, PayRequest, pay_for_ride, payable_ride}
use ride_sharing_backend.Services.Payment.Charge.{IsDiscountOf, Payable-cases, pay_for_ride_cases}

-- A payment that is answered is the one new row, for the ride and by the caller, whose own completed ride it was and
-- which had no payment; its amount and the discount make up the fare. Without a coupon's code there is no discount.
-- With a code it is that of the code's coupon, which the caller could redeem: its fixed value or its percentage of the
-- fare in the nearest cent, cut to the coupon's maximum and to the fare.
pub pay_for_ride_charges :
    (user_id ride_id : ℕ) (q : PayRequest) (p : Payment) (s t : Store)
    → pay_for_ride user_id ride_id q s ≡ (ok p, t)
    → (r : Ride) × (discount : ℕ) × (ride_of ride_id s ≡ some r)
      × (passenger_user s.passengers r ≡ some user_id)
      × (r.status ≡ RideStatus.completed)
      × (find_payment_by_ride ride_id s.payments ≡ none)
      × (p.ride_id ≡ ride_id)
      × (p.payer_id ≡ user_id)
      × (p.amount + discount ≡ fare_of r.actual_fare)
      × IsDiscountOf q.coupon_code user_id (fare_of r.actual_fare) discount s
      × (t.payments ≡ (q.payment_id, p) ∷ s.payments)
pay_for_ride_charges user_id ride_id q p s t h = elim (pay_for_ride_cases user_id ride_id q s) [
  | inl (e, u, _, x) ↦ ground arith
  | inr (p', u, c, x) ↦
      let ep : p' ≡ p = ground arith in
      let eu : u ≡ t = ground arith in
      (
        c.ride,
        c.discount,
        c.payable.found,
        c.payable.own,
        c.payable.completed,
        c.payable.unpaid,
        ap (λ (a : Payment). a.ride_id) (sym ep) ∙ c.of_ride,
        ap (λ (a : Payment). a.payer_id) (sym ep) ∙ c.by_payer,
        ap (λ (a : Payment). a.amount + c.discount) (sym ep) ∙ c.split,
        c.priced,
        ap (λ (a : Store). a.payments) (sym eu)
            ∙ c.stored
            ∙ ap (λ a. (q.payment_id, a) ∷ s.payments) ep,
      )
]

-- A ride with a payment takes no other.
not_payable :
    (user_id ride_id : ℕ) (s : Store)
    → find_payment_by_ride ride_id s.payments ≢ none
    → (e : Thrown) × (payable_ride user_id ride_id s ≡ (err e, s))
not_payable user_id ride_id s n = elim (Payable-cases user_id ride_id s) [
  | inl h ↦ h
  | inr (r, c, _) ↦ ground (arith, n, c.unpaid)
]

-- After a payment that is answered, every further attempt to pay for the ride, by anyone and in any
-- way, ends with an error and changes nothing.
pub pay_for_ride_once :
    (user_id ride_id : ℕ) (q : PayRequest) (p : Payment) (s t : Store)
    → pay_for_ride user_id ride_id q s ≡ (ok p, t)
    → (other_user : ℕ) (q' : PayRequest)
    → (e : Thrown) × (pay_for_ride other_user ride_id q' t ≡ (err e, t))
unfolding pay_for_ride
pay_for_ride_once user_id ride_id q p s t h other_user q' =
    elim (pay_for_ride_cases user_id ride_id q s) [
      | inl (e, u, _, x) ↦ ground arith
      | inr (p', u, c, x) ↦
          let eu : u ≡ t = ground arith in
          let stored : t.payments ≡ (q.payment_id, p') ∷ s.payments =
            ap (λ (a : Store). a.payments) (sym eu) ∙ c.stored in
          let taken : find_payment_by_ride ride_id t.payments ≢ none =
            λ z. ground (arith, stored, c.of_ride) in
          let (e, f) = not_payable other_user ride_id t taken in (e, ground arith)
    ]
