-- ===== src/Services/Payment/Stripe.antt =====
-- `handleStripeEvent`, for an event whose signature the webhook's controller has verified.
use ride_sharing_backend.Common.{ℕ, String, Bool, true, false, Option, none, some}
use ride_sharing_backend.Model.{Payment, PaymentMethod, PaymentStatus}
use ride_sharing_backend.Store.{Action, ok, pure, ◌>>◌}
use ride_sharing_backend.Repositories.{find_payment_by_intent, update_payment_status}
use ride_sharing_backend.Services.Payment.{count_outcome}
use ride_sharing_backend.Services.Wallet.{confirm_top_up}

-- The intent's metadata: a top-up names its user.
pub data Purpose : Type 0 where
  wallet_topup : ℕ → Purpose
  ride_payment : Purpose

pub record Intent : Type 0 where
  pub id : ℕ
  pub amount : ℕ
  pub purpose : Purpose
  pub last_payment_error : Option String

pub data StripeEvent : Type 0 where
  succeeded payment_failed : Intent → StripeEvent
  other_event : StripeEvent

abbrev pub is_completed : PaymentStatus → Bool
is_completed PaymentStatus.completed = true
is_completed _ = false

abbrev pub is_pending : PaymentStatus → Bool
is_pending PaymentStatus.pending = true
is_pending _ = false

abbrev pub with_paid_at : ℕ → Payment → Payment
with_paid_at now p = record p { paid_at = some now }

abbrev reason_of : Option String → String
reason_of none = "Payment failed"
reason_of (some message) = message

abbrev pub with_failure : Option String → Payment → Payment
with_failure message p = record p { failure_reason = some (reason_of message) }

unfoldable pub complete_payment : ℕ → Payment → Action (Unit {0})
complete_payment id p s = elim (is_completed p.status) [
  | true ↦ (ok tt, s)
  | false ↦
      (update_payment_status id PaymentStatus.completed (with_paid_at s.now)
          >> count_outcome PaymentMethod.card true)
        s
]

unfoldable pub fail_payment : Option String → ℕ → Payment → Action (Unit {0})
fail_payment message id p s = elim (is_pending p.status) [
  | false ↦ (ok tt, s)
  | true ↦
      (update_payment_status id PaymentStatus.failed (with_failure message)
          >> count_outcome PaymentMethod.card false)
        s
]

-- The two events, by the intent's purpose, amount or last error, and id.
unfoldable pub on_succeeded : Purpose → ℕ → ℕ → Action (Unit {0})
on_succeeded (Purpose.wallet_topup user_id) amount id s = confirm_top_up user_id amount id s
on_succeeded Purpose.ride_payment amount id s = elim (find_payment_by_intent id s.payments) [
  | none ↦ (ok tt, s)
  | some p ↦ complete_payment p.0 p.1 s
]

unfoldable pub on_failed : Purpose → Option String → ℕ → Action (Unit {0})
on_failed (Purpose.wallet_topup user_id) error id s = (ok tt, s)
on_failed Purpose.ride_payment error id s = elim (find_payment_by_intent id s.payments) [
  | none ↦ (ok tt, s)
  | some p ↦ fail_payment error p.0 p.1 s
]

unfoldable pub handle_stripe_event : StripeEvent → Action (Unit {0})
unfolding on_succeeded on_failed
handle_stripe_event (StripeEvent.succeeded i) = on_succeeded i.purpose i.amount i.id
handle_stripe_event (StripeEvent.payment_failed i) = on_failed i.purpose i.last_payment_error i.id
handle_stripe_event StripeEvent.other_event = pure tt
