-- ===== src/Services/Payment/Settled.antt =====
-- The three ways to pay: each answers with the payment that it wrote, or with an error.
use ride_sharing_backend.Common.{
  ℕ, ◌*◌, ◌≡◌, refl, Bool, true, false, ◌⊎◌, inl, inr, Option, none, some, ◌∷◌, arith, Option-cases,
}
use ride_sharing_backend.Common.Table.{find_first}
use ride_sharing_backend.Errors.{ApiError, Thrown, api, prisma, p2002, other, bad_request, internal}
use ride_sharing_backend.Model.{
  Ride, Payment, PaymentMethod, PaymentProvider, WalletTransactionReason,
}
use ride_sharing_backend.Store.{Store, StripeCall, Result, ok, err}
use ride_sharing_backend.Repositories.{create_payment, payment_collides, find_wallet_by_user}
use ride_sharing_backend.Services.Payment.{
  PayRequest, pay_by, pay_cash, pay_wallet, charge_wallet, pay_card, create_or_cancel, paid_now,
  pending_card,
}
use ride_sharing_backend.Utils.Money.{to_stripe_cents}
use ride_sharing_backend.Services.Wallet.Entries.{debit_cases, with_debit}
use ride_sharing_backend.Services.Wallet.Balance.{HasLedger, Debited-HasLedger}

-- The store `t` is `s` with the payment `p`, whose amount is `amount`, and with a ledger kept.
pub record Paid (id user_id ride_id amount : ℕ) (p : Payment) (s t : Store) : Type 0 where
  pub of_ride : p.ride_id ≡ ride_id
  pub by_payer : p.payer_id ≡ user_id
  pub for_amount : p.amount ≡ amount
  pub stored : t.payments ≡ (id, p) ∷ s.payments
  pub redemptions : t.redemptions ≡ s.redemptions
  pub coupons : t.coupons ≡ s.coupons
  pub ledger : HasLedger s → HasLedger t

-- An error leaves the payments and the ledger as they were.
pub record Unpaid (s t : Store) : Type 0 where
  pub payments : t.payments ≡ s.payments
  pub redemptions : t.redemptions ≡ s.redemptions
  pub coupons : t.coupons ≡ s.coupons
  pub ledger : HasLedger s → HasLedger t

abbrev pub Outcome : (id user_id ride_id amount : ℕ) (s : Store) → Result Payment × Store → Type 0
Outcome id user_id ride_id amount s m =
    ((e : Thrown) × (t : Store) × Unpaid s t × (m ≡ (err e, t)))
    ⊎ ((p : Payment) × (t : Store) × Paid id user_id ride_id amount p s t × (m ≡ (ok p, t)))

pub cash_cases :
    (id user_id ride_id : ℕ) (r : Ride) (amount : ℕ) (s : Store)
    → Outcome id user_id ride_id amount s (pay_cash id user_id ride_id r amount s)
unfolding pay_cash create_payment
cash_cases id user_id ride_id r amount s =
    let row = paid_now user_id ride_id r amount PaymentMethod.cash PaymentProvider.cash s.now in
    elim (Option-cases (find_first (payment_collides id row) s.payments)) [
      | inr (x, e) ↦ inl (
        prisma p2002 "rideId" "",
        s,
        record { payments = refl; redemptions = refl; coupons = refl; ledger = λ h. h },
        ground arith,
      )
      | inl e ↦ inr (
        row,
        record s {
          payments = (id, row) ∷ s.payments;
          payment_outcomes = (PaymentMethod.cash, true) ∷ s.payment_outcomes;
        },
        record {
          of_ride = refl;
          by_payer = refl;
          for_amount = refl;
          stored = refl;
          redemptions = refl;
          coupons = refl;
          ledger = λ h. h;
        },
        ground arith,
      )
    ]

pub card_cases :
    (is_configured : Bool) (intent : Option ℕ) (id user_id ride_id : ℕ) (r : Ride) (amount : ℕ)
    (s : Store)
    → Outcome id user_id ride_id amount s
        (pay_card is_configured intent id user_id ride_id r amount s)
unfolding pay_card create_or_cancel create_payment
card_cases false intent id user_id ride_id r amount s = inl (
  api (internal "Card payments are not configured on this server"),
  s,
  record { payments = refl; redemptions = refl; coupons = refl; ledger = λ h. h },
  ground arith,
)
card_cases true none id user_id ride_id r amount s = inl (
  other "Stripe error",
  _,
  record { payments = refl; redemptions = refl; coupons = refl; ledger = λ h. h },
  refl,
)
card_cases true (some intent_id) id user_id ride_id r amount s =
    let row = pending_card user_id ride_id r amount intent_id in
    let asked =
      StripeCall.create_payment_intent ride_id (to_stripe_cents (10 * amount)) ∷ s.stripe_calls in
    elim (Option-cases (find_first (payment_collides id row) s.payments)) [
      | inr (x, e) ↦ inl (
        prisma p2002 "rideId" "",
        record s { stripe_calls = StripeCall.cancel_payment_intent intent_id ∷ asked },
        record { payments = refl; redemptions = refl; coupons = refl; ledger = λ h. h },
        ground arith,
      )
      | inl e ↦ inr (
        row,
        record s { payments = (id, row) ∷ s.payments; stripe_calls = asked },
        record {
          of_ride = refl;
          by_payer = refl;
          for_amount = refl;
          stored = refl;
          redemptions = refl;
          coupons = refl;
          ledger = λ h. h;
        },
        ground arith,
      )
    ]

untouched : (s : Store) → Unpaid s s
untouched s = record { payments = refl; redemptions = refl; coupons = refl; ledger = λ h. h }

pub wallet_cases :
    (id user_id ride_id : ℕ) (r : Ride) (amount : ℕ) (s : Store)
    → Outcome id user_id ride_id amount s (pay_wallet id user_id ride_id r amount s)
unfolding pay_wallet charge_wallet create_payment
wallet_cases id user_id ride_id r amount s =
    let row = paid_now user_id ride_id r amount PaymentMethod.wallet PaymentProvider.wallet s.now in
    let poor : ApiError = bad_request "Insufficient wallet balance" in
    let reason = WalletTransactionReason.ride_payment in
    elim (Option-cases (find_wallet_by_user user_id s.wallets)) [
      | inl e ↦ inl (api (bad_request "Wallet not found"), s, untouched s, ground arith)
      | inr ((k, w0), e) ↦ elim (debit_cases user_id k reason (10 * amount) (some ride_id) poor s) [
        | inl (x, t, q) ↦ inl (x, s, untouched s, ground arith)
        | inr (w, c) ↦ elim (Option-cases (find_first (payment_collides id row) s.payments)) [
          | inr (x, f) ↦ inl (prisma p2002 "rideId" "", s, untouched s, ground (arith, c.done))
          | inl f ↦
              let t1 = with_debit k reason (10 * amount) w.balance (some ride_id) s in
              inr (
                row,
                record t1 {
                  payments = (id, row) ∷ s.payments;
                  payment_outcomes = (PaymentMethod.wallet, true) ∷ s.payment_outcomes;
                },
                record {
                  of_ride = refl;
                  by_payer = refl;
                  for_amount = refl;
                  stored = refl;
                  redemptions = refl;
                  coupons = refl;
                  ledger =
                      Debited-HasLedger user_id k reason (10 * amount) (some ride_id) poor w s
                        (omega arith) c;
                },
                ground (arith, c.done),
              )
        ]
      ]
    ]

pub pay_by_cases :
    (m : PaymentMethod) (q : PayRequest) (user_id ride_id : ℕ) (r : Ride) (amount : ℕ) (s : Store)
    → Outcome q.payment_id user_id ride_id amount s (pay_by m q user_id ride_id r amount s)
unfolding pay_by
pay_by_cases PaymentMethod.cash q user_id ride_id r amount s =
    cash_cases q.payment_id user_id ride_id r amount s
pay_by_cases PaymentMethod.wallet q user_id ride_id r amount s =
    wallet_cases q.payment_id user_id ride_id r amount s
pay_by_cases PaymentMethod.card q user_id ride_id r amount s =
    card_cases q.is_configured q.intent q.payment_id user_id ride_id r amount s
