-- ===== src/Services/Payment/History.antt =====
-- Any history of calls that move money, with the webhook's events among them.
use ride_sharing_backend.Common.{
  ℕ, String, Bool, true, false, Option, ◌%◌, ◌≡◌, ◌≢◌, ◌⊎◌, inl, inr, List, [], ◌∷◌, All, arith,
  Option-cases, Bool-cases,
}
use ride_sharing_backend.Common.Int.{ℤ, pos, abs}
use ride_sharing_backend.Common.Table.{find, update}
use ride_sharing_backend.Model.{Payment, PaymentMethod, PaymentStatus}
use ride_sharing_backend.Repositories.{
  find_payment_by_intent, update_payment_status, with_payment_status,
}
use ride_sharing_backend.Services.Payment.{pay_for_ride, PayRequest, count_outcome}
use ride_sharing_backend.Services.Payment.Charge.{pay_for_ride-HasLedger}
use ride_sharing_backend.Services.Payment.Refund.{refund_payment, RefundRequest}
use ride_sharing_backend.Services.Payment.Refunds.{refund_payment-HasLedger}
use ride_sharing_backend.Services.Payment.Stripe.{
  StripeEvent, Purpose, handle_stripe_event, on_succeeded, on_failed, complete_payment,
  fail_payment, is_completed, is_pending, with_paid_at, with_failure,
}
use ride_sharing_backend.Services.Wallet.{adjust_balance}
use ride_sharing_backend.Services.Wallet.Balance.{
  HasLedger, confirm_top_up-HasLedger, adjust_balance-HasLedger,
}
use ride_sharing_backend.Store.{Store, Action, ◌>>◌}

-- A user pays for a ride, an admin refunds a payment or adjusts a user's balance, and Stripe reports.
pub data MoneyCall : Type 0 where
  pays : ℕ → ℕ → PayRequest → MoneyCall
  refunds : ℕ → RefundRequest → ℕ → MoneyCall
  adjusts : ℕ → ℤ → ℕ → MoneyCall
  reports : StripeEvent → MoneyCall

unfoldable pub after : MoneyCall → Store → Store
after (MoneyCall.pays user_id ride_id q) s = (pay_for_ride user_id ride_id q s).1
after (MoneyCall.refunds payment_id q actor_id) s = (refund_payment payment_id q actor_id s).1
after (MoneyCall.adjusts user_id amount actor_id) s = (adjust_balance user_id amount actor_id s).1
after (MoneyCall.reports e) s = (handle_stripe_event e s).1

-- The calls in the order in which they run, each with its time.
unfoldable pub run : List (ℕ × MoneyCall) → Store → Store
unfolding after
run [] s = s
run ((t, c) ∷ cs) s = run cs (after c (record s { now = t }))

-- An adjustment does not take an amount that is half a cent off a whole one.
abbrev pub IsRounded : MoneyCall → Type 0
IsRounded (MoneyCall.adjusts user_id amount actor_id) =
    (amount ≡ pos (abs amount)) ⊎ (abs amount % 10 ≢ 5)
IsRounded (MoneyCall.pays user_id ride_id q) = Unit
IsRounded (MoneyCall.refunds payment_id q actor_id) = Unit
IsRounded (MoneyCall.reports e) = Unit

-- An outcome that is written to a payment's row leaves the wallets alone.
update_payment_status-HasLedger :
    (id : ℕ) (status : PaymentStatus) (extra : Payment → Payment) (done : Bool) (s : Store)
    → HasLedger s
    → HasLedger
        ((update_payment_status id status extra >> count_outcome PaymentMethod.card done) s).1
unfolding update_payment_status
update_payment_status-HasLedger id status extra done s h =
    let write : Action (Unit {0}) =
      (update_payment_status id status extra >> count_outcome PaymentMethod.card done) in
    elim (Option-cases (find id s.payments)) [
      | inl e ↦ let none_there : (write s).1 ≡ s = ground arith in rw none_there h
      | inr (p, e) ↦
          let written : (write s).1 ≡ record s {
            payments = update id (with_payment_status status extra) s.payments;
            payment_outcomes = (PaymentMethod.card, done) ∷ s.payment_outcomes;
          } =
            ground arith in
          rw written h
    ]

complete_payment-HasLedger :
    (id : ℕ) (p : Payment) (s : Store) → HasLedger s → HasLedger (complete_payment id p s).1
unfolding complete_payment
complete_payment-HasLedger id p s h = elim (Bool-cases (is_completed p.status)) [
  | inl e ↦ rw (e, complete_payment) h
  | inr e ↦
      rw (e, complete_payment)
        (update_payment_status-HasLedger id PaymentStatus.completed (with_paid_at s.now) true s h)
]

fail_payment-HasLedger :
    (message : Option String) (id : ℕ) (p : Payment) (s : Store)
    → HasLedger s
    → HasLedger (fail_payment message id p s).1
unfolding fail_payment
fail_payment-HasLedger message id p s h = elim (Bool-cases (is_pending p.status)) [
  | inr e ↦ rw (e, fail_payment) h
  | inl e ↦
      rw (e, fail_payment)
        (update_payment_status-HasLedger id PaymentStatus.failed (with_failure message) false s h)
]

on_succeeded-HasLedger :
    (p : Purpose) (amount id : ℕ) (s : Store)
    → HasLedger s
    → HasLedger (on_succeeded p amount id s).1
unfolding on_succeeded
on_succeeded-HasLedger (Purpose.wallet_topup user_id) amount id s h =
    confirm_top_up-HasLedger user_id amount id s h
on_succeeded-HasLedger Purpose.ride_payment amount id s h =
    elim (Option-cases (find_payment_by_intent id s.payments)) [
      | inl e ↦ rw (e, on_succeeded) h
      | inr (p, e) ↦ rw (e, on_succeeded) (complete_payment-HasLedger p.0 p.1 s h)
    ]

on_failed-HasLedger :
    (p : Purpose) (error : Option String) (id : ℕ) (s : Store)
    → HasLedger s
    → HasLedger (on_failed p error id s).1
unfolding on_failed
on_failed-HasLedger (Purpose.wallet_topup user_id) error id s h = h
on_failed-HasLedger Purpose.ride_payment error id s h =
    elim (Option-cases (find_payment_by_intent id s.payments)) [
      | inl e ↦ rw (e, on_failed) h
      | inr (p, e) ↦ rw (e, on_failed) (fail_payment-HasLedger error p.0 p.1 s h)
    ]

after-HasLedger : (c : MoneyCall) (s : Store) → IsRounded c → HasLedger s → HasLedger (after c s)
unfolding after handle_stripe_event
after-HasLedger (MoneyCall.pays user_id ride_id q) s r h =
    pay_for_ride-HasLedger user_id ride_id q s h
after-HasLedger (MoneyCall.refunds payment_id q actor_id) s r h =
    refund_payment-HasLedger payment_id q actor_id s h
after-HasLedger (MoneyCall.adjusts user_id amount actor_id) s r h =
    adjust_balance-HasLedger user_id amount actor_id s r h
after-HasLedger (MoneyCall.reports (StripeEvent.succeeded i)) s r h =
    on_succeeded-HasLedger i.purpose i.amount i.id s h
after-HasLedger (MoneyCall.reports (StripeEvent.payment_failed i)) s r h =
    on_failed-HasLedger i.purpose i.last_payment_error i.id s h
after-HasLedger (MoneyCall.reports StripeEvent.other_event) s r h = h

-- Over any history of payments in every way, refunds, adjustments by admins and events of Stripe, repeated and in any
-- order, whether the calls succeed or end in an error, every wallet's balance stays equal to its credits less its
-- debits. No adjustment takes an amount that is half a cent off a whole one.
pub run-HasLedger :
    (cs : List (ℕ × MoneyCall)) (s : Store)
    → All (λ (c : ℕ × MoneyCall). IsRounded c.1) cs
    → HasLedger s
    → HasLedger (run cs s)
unfolding run
run-HasLedger [] s r h = h
run-HasLedger ((t, c) ∷ cs) s (r, rs) h =
    run-HasLedger cs (after c (record s { now = t })) rs
      (after-HasLedger c (record s { now = t }) r h)
