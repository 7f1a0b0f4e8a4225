-- ===== src/Services/Payment/Charge.antt =====
-- What `payForRide` charges, and what it leaves behind.
use ride_sharing_backend.Common.{
  ℕ, ◌+◌, ◌-◌, ◌≡◌, refl, ◌∙◌, String, ◌⊎◌, inl, inr, Option, none, some, ◌∷◌, arith, Bool-cases,
  Option-cases, ◌==◌, holds, holds→eq, any,
}
use ride_sharing_backend.Errors.{Thrown, api, prisma, p2002, conflict, not_found}
use ride_sharing_backend.Model.{Coupon, Ride, RideStatus, same_status, Payment}
use ride_sharing_backend.Store.{Store, ok, err}
use ride_sharing_backend.Repositories.{passenger_user, find_payment_by_ride, create_redemption}
use ride_sharing_backend.Services.Ride.{ride_of}
use ride_sharing_backend.Services.Ride.Cases.{same_status→eq}
use ride_sharing_backend.Services.Coupon.{compute_discount}
use ride_sharing_backend.Services.Coupon.Discount.{
  Redeemable, IsDiscount, compute_discount-IsDiscount, validate_coupon_cases,
  compute_discount_bounded,
}
use ride_sharing_backend.Services.Payment.{
  fare_of, Price, price_of, PayRequest, redeem, payable_ride, pay_for_ride,
}
use ride_sharing_backend.Services.Payment.Settled.{pay_by_cases}
use ride_sharing_backend.Services.Wallet.Balance.{HasLedger}

-- The ride that may be paid for.
pub record Payable (user_id ride_id : ℕ) (r : Ride) (s : Store) : Type 0 where
  pub found : ride_of ride_id s ≡ some r
  pub own : passenger_user s.passengers r ≡ some user_id
  pub completed : r.status ≡ RideStatus.completed
  pub unpaid : find_payment_by_ride ride_id s.payments ≡ none

pub Payable-cases :
    (user_id ride_id : ℕ) (s : Store)
    → ((e : Thrown) × (payable_ride user_id ride_id s ≡ (err e, s)))
      ⊎ ((r : Ride) × Payable user_id ride_id r s × (payable_ride user_id ride_id s ≡ (ok r, s)))
unfolding payable_ride
Payable-cases user_id ride_id s = elim (Option-cases (ride_of ride_id s)) [
  | inl e ↦ inl (api (not_found "Ride not found"), ground arith)
  | inr (r, e) ↦ elim (Bool-cases (holds (λ u. u == user_id) (passenger_user s.passengers r))) [
    | inr o ↦ inl (api (not_found "Ride not found"), ground arith)
    | inl o ↦ elim (Bool-cases (same_status r.status RideStatus.completed)) [
      | inr c ↦ inl (api (conflict "Only a completed ride can be paid for"), ground arith)
      | inl c ↦ elim (Option-cases (find_payment_by_ride ride_id s.payments)) [
        | inr (p, f) ↦ inl (api (conflict "This ride has already been paid for"), ground arith)
        | inl f ↦ inr (
          r,
          record {
            found = e;
            own = holds→eq user_id (passenger_user s.passengers r) o;
            completed = same_status→eq r.status RideStatus.completed c;
            unpaid = f;
          },
          ground arith,
        )
      ]
    ]
  ]
]

-- Where a discount comes from: without a code there is none, with a code it is that of the coupon, which the user may
-- redeem.
abbrev pub IsDiscountOf : Option String → ℕ → ℕ → ℕ → Store → Type 0
IsDiscountOf none user_id fare discount s = discount ≡ 0
IsDiscountOf (some code) user_id fare discount s =
    (id : ℕ) × (c : Coupon) × Redeemable code user_id fare id c s × IsDiscount c fare discount

-- A price splits the fare into the discount and the amount.
pub price_cases :
    (code : Option String) (user_id fare : ℕ) (s : Store)
    → ((e : Thrown) × (price_of code user_id fare s ≡ (err e, s)))
      ⊎ ((price : Price) × (price.amount + price.discount ≡ fare)
          × IsDiscountOf code user_id fare price.discount s
          × (price_of code user_id fare s ≡ (ok price, s)))
unfolding price_of
price_cases none user_id fare s =
    inr (record { coupon_id = none; discount = 0; amount = fare }, omega arith, refl, refl)
price_cases (some code) user_id fare s = elim (validate_coupon_cases code user_id fare s) [
  | inl (e, h) ↦ inl (api e, ground arith)
  | inr (id, c, good, h) ↦
      let d = compute_discount c fare in
      inr (
        record { coupon_id = some id; discount = d; amount = fare - d },
        (let (most, _) = compute_discount_bounded c fare in omega arith),
        (id, c, good, compute_discount-IsDiscount c fare),
        ground arith,
      )
]

-- The end of a payment: the coupon's redemption, which changes neither payments nor wallets.
redeem_cases :
    (coupon_id : Option ℕ) (discount user_id ride_id : ℕ) (s : Store)
    → ((e : Thrown) × (redeem coupon_id discount user_id ride_id s ≡ (err e, s)))
      ⊎ ((t : Store) × (t.payments ≡ s.payments)
          × (HasLedger s → HasLedger t)
          × (redeem coupon_id discount user_id ride_id s ≡ (ok tt, t)))
unfolding redeem create_redemption
redeem_cases none discount user_id ride_id s = inr (s, refl, (λ h. h), refl)
redeem_cases (some c) discount user_id ride_id s =
    elim (Bool-cases (any (λ r. r.ride_id == ride_id) s.redemptions)) [
      | inl e ↦ inl (prisma p2002 "rideId" "", ground arith)
      | inr e ↦ inr (
        record s {
          redemptions =
              record {
                coupon_id = c;
                user_id = user_id;
                ride_id = ride_id;
                discount_applied = discount;
              }
              ∷ s.redemptions;
        },
        refl,
        (λ h. h),
        ground arith,
      )
    ]

-- How paying for a ride ends: with an error that leaves the ledger as good as it was, or with one new payment.
pub record Charged (user_id ride_id : ℕ) (q : PayRequest) (p : Payment) (s t : Store) : Type 0 where
  pub ride : Ride
  pub payable : Payable user_id ride_id ride s
  pub discount : ℕ
  pub split : p.amount + discount ≡ fare_of ride.actual_fare
  pub priced : IsDiscountOf q.coupon_code user_id (fare_of ride.actual_fare) discount s
  pub of_ride : p.ride_id ≡ ride_id
  pub by_payer : p.payer_id ≡ user_id
  pub stored : t.payments ≡ (q.payment_id, p) ∷ s.payments
  pub ledger : HasLedger s → HasLedger t

pub pay_for_ride_cases :
    (user_id ride_id : ℕ) (q : PayRequest) (s : Store)
    → ((e : Thrown) × (t : Store) × (HasLedger s → HasLedger t)
        × (pay_for_ride user_id ride_id q s ≡ (err e, t)))
      ⊎ ((p : Payment) × (t : Store) × Charged user_id ride_id q p s t
          × (pay_for_ride user_id ride_id q s ≡ (ok p, t)))
unfolding pay_for_ride
pay_for_ride_cases user_id ride_id q s = elim (Payable-cases user_id ride_id s) [
  | inl (e, h) ↦ inl (e, s, (λ l. l), ground arith)
  | inr (r, good, h) ↦ elim (price_cases q.coupon_code user_id (fare_of r.actual_fare) s) [
    | inl (e, g) ↦ inl (e, s, (λ l. l), ground arith)
    | inr (price, split, priced, g) ↦
        elim (pay_by_cases q.method q user_id ride_id r price.amount s) [
          | inl (e, t, u, f) ↦ inl (e, t, u.ledger, ground arith)
          | inr (p, t, paid, f) ↦
              elim (redeem_cases price.coupon_id price.discount user_id ride_id t) [
                | inl (e, x) ↦ inl (e, t, paid.ledger, ground arith)
                | inr (t', same, keep, x) ↦ inr (
                  p,
                  t',
                  record {
                    ride = r;
                    payable = good;
                    discount = price.discount;
                    split = ground (arith, paid.for_amount);
                    priced = priced;
                    of_ride = paid.of_ride;
                    by_payer = paid.by_payer;
                    stored = same ∙ paid.stored;
                    ledger = λ l. keep (paid.ledger l);
                  },
                  ground arith,
                )
              ]
        ]
  ]
]

-- Paying for a ride, in whichever way and however it ends, keeps every wallet's balance equal to its credits less its
-- debits.
pub pay_for_ride-HasLedger :
    (user_id ride_id : ℕ) (q : PayRequest) (s : Store)
    → HasLedger s
    → HasLedger (pay_for_ride user_id ride_id q s).1
pay_for_ride-HasLedger user_id ride_id q s h = elim (pay_for_ride_cases user_id ride_id q s) [
  | inl (e, t, keep, x) ↦ rw x (keep h)
  | inr (p, t, c, x) ↦ rw x (c.ledger h)
]
