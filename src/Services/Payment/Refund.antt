-- ===== src/Services/Payment/Refund.antt =====
-- `refundPayment`. The amount of a request is a whole number of mills; the tolerance of 0.001 is one
-- mill, and the comparisons are exact where the source compares floating-point numbers.
use ride_sharing_backend.Common.{
  ℕ, ◌+◌, ◌-◌, ◌*◌, String, Bool, true, false, not, ◌||◌, Option, none, some, ◌∷◌, ◌==◌, ltb, leb,
  if◌then◌else◌,
}
use Prim.Native.String.{◌++◌ as append}
use ride_sharing_backend.Common.Table.{find}
use ride_sharing_backend.Common.Text.{to_fixed_text}
use ride_sharing_backend.Errors.{bad_request, conflict, not_found, internal, other}
use ride_sharing_backend.Model.{
  Payment, PaymentProvider, PaymentStatus, Refund, RefundStatus, NotificationChannel,
}
use ride_sharing_backend.Store.{
  StripeCall, AuditAction, Action, ok, gets, or_throw, throw_if, throw, pure, modify, transaction,
  ◌>>=◌, ◌>>◌,
}
use ride_sharing_backend.Repositories.{
  create_refund_row, sum_completed_by_payment, update_payment_status,
}
use ride_sharing_backend.Services.Payment.{ask_stripe}
use ride_sharing_backend.Services.Wallet.{credit_refund}
use ride_sharing_backend.Services.Notification.{notify}
use ride_sharing_backend.Utils.Money.{to_column, to_stripe_cents}

-- The request, with what the outside world adds: the ids of the new rows, and Stripe's answer, which
-- is a refund's id with whether its status is "succeeded", or `none` when the call throws.
pub record RefundRequest : Type 0 where
  pub amount : Option ℕ
  pub reason : String
  pub refund_id : ℕ
  pub notification_id : ℕ
  pub is_configured : Bool
  pub answer : Option (ℕ × Bool)

abbrev pub is_refundable : PaymentStatus → Bool
is_refundable PaymentStatus.completed = true
is_refundable PaymentStatus.partially_refunded = true
is_refundable _ = false

abbrev pub status_name : PaymentStatus → String
status_name PaymentStatus.pending = "PENDING"
status_name PaymentStatus.completed = "COMPLETED"
status_name PaymentStatus.failed = "FAILED"
status_name PaymentStatus.refunded = "REFUNDED"
status_name PaymentStatus.partially_refunded = "PARTIALLY_REFUNDED"

-- `amount ?? remaining`, in mills, for cents paid and cents refunded.
abbrev pub refund_amount : Option ℕ → ℕ → ℕ → ℕ
refund_amount (some mills) paid already = mills
refund_amount none paid already = 10 * (paid - already)

-- `refundAmount <= 0 || refundAmount > remaining + 0.001`
abbrev pub is_out_of_range : ℕ → ℕ → ℕ → Bool
is_out_of_range mills paid already = (mills == 0) || ltb (10 * paid + 1) (mills + 10 * already)

-- `remaining.toFixed(2)`
abbrev pub remaining_text : ℕ → ℕ → String
remaining_text paid already =
    if ltb paid already
    then append "-" (to_fixed_text (already - paid))
    else to_fixed_text (paid - already)

-- `totalRefunded >= amount - 0.001`
abbrev pub refunded_status : ℕ → ℕ → ℕ → PaymentStatus
refunded_status mills paid already =
    if leb (10 * paid) (10 * already + mills + 1)
    then PaymentStatus.refunded
    else PaymentStatus.partially_refunded

abbrev pub refund_row : ℕ → ℕ → String → RefundStatus → Option ℕ → Option ℕ → Refund
refund_row payment_id mills reason status stripe_refund_id processed_at = record {
  payment_id = payment_id;
  amount = to_column mills;
  reason = reason;
  status = status;
  stripe_refund_id = stripe_refund_id;
  processed_at = processed_at;
}

abbrev pub stripe_row : ℕ → ℕ → String → ℕ → Bool → ℕ → Refund
stripe_row payment_id mills reason stripe_id true now =
    refund_row payment_id mills reason RefundStatus.completed (some stripe_id) (some now)
stripe_row payment_id mills reason stripe_id false now =
    refund_row payment_id mills reason RefundStatus.pending (some stripe_id) none

unfoldable pub record_stripe_refund :
    RefundRequest → ℕ → ℕ → PaymentStatus → ℕ → Bool → Action Refund
record_stripe_refund q payment_id mills status stripe_id is_done = do
  now ← gets (λ s. s.now)
  row ← create_refund_row q.refund_id (stripe_row payment_id mills q.reason stripe_id is_done now)
  update_payment_status payment_id status (λ p. p)
  pure row

-- The payment's id is recorded in place of its intent's.
unfoldable pub refund_by_stripe : RefundRequest → ℕ → ℕ → PaymentStatus → Action Refund
refund_by_stripe q payment_id mills status = do
  throw_if (not q.is_configured) (internal "Card payments are not configured on this server")
  already ← gets (λ s. sum_completed_by_payment payment_id s.refunds)
  ask_stripe (StripeCall.create_refund payment_id already (to_stripe_cents mills))
  elim q.answer [
    | none ↦ throw (other "Stripe error")
    | some a ↦ transaction (record_stripe_refund q payment_id mills status a.0 a.1)
  ]

-- The refund's own id keys the ledger entry.
unfoldable pub refund_to_wallet : RefundRequest → ℕ → Payment → ℕ → PaymentStatus → Action Refund
refund_to_wallet q payment_id p mills status = do
  now ← gets (λ s. s.now)
  row ←
      create_refund_row q.refund_id
        (refund_row payment_id mills q.reason RefundStatus.completed none (some now))
  credit_refund p.payer_id mills q.refund_id
  update_payment_status payment_id status (λ x. x)
  pure row

unfoldable pub refund_by :
    PaymentProvider → RefundRequest → ℕ → Payment → ℕ → PaymentStatus → Action Refund
refund_by PaymentProvider.stripe q payment_id p mills status s =
    refund_by_stripe q payment_id mills status s
refund_by PaymentProvider.wallet q payment_id p mills status s =
    transaction (refund_to_wallet q payment_id p mills status) s
refund_by PaymentProvider.cash q payment_id p mills status s =
    transaction (refund_to_wallet q payment_id p mills status) s

unfoldable pub record_refund_audit : ℕ → ℕ → Action (Unit {0})
record_refund_audit actor_id payment_id = modify (λ s. record s {
  audit_logs =
      record { actor_id = actor_id; action = AuditAction.payment_refunded; entity_id = payment_id }
      ∷ s.audit_logs;
})

unfoldable pub notify_payer : RefundRequest → ℕ → Action (Unit {0})
notify_payer q payer_id s = elim (find payer_id s.users) [
  | none ↦ (ok tt, s)
  | some payer ↦
      notify q.notification_id payer_id payer.email NotificationChannel.email "Refund processed" s
]

-- The checks: the payment, the mills to refund and the payment's new status.
unfoldable pub check_refund : RefundRequest → ℕ → Action (Payment × ℕ × PaymentStatus)
check_refund q payment_id = do
  found ← gets (λ s. find payment_id s.payments)
  p ← or_throw (not_found "Payment not found") found
  throw_if (not (is_refundable p.status))
      (conflict (append "Cannot refund a payment in " (append (status_name p.status) " status")))
  already ← gets (λ s. sum_completed_by_payment payment_id s.refunds)
  throw_if (is_out_of_range (refund_amount q.amount p.amount already) p.amount already) (
      bad_request (append "Refund amount must be between 0 and " (remaining_text p.amount already)))
  pure (
    p,
    refund_amount q.amount p.amount already,
    refunded_status (refund_amount q.amount p.amount already) p.amount already,
  )

unfoldable pub refund_payment : ℕ → RefundRequest → ℕ → Action (Option Payment × Refund)
refund_payment payment_id q actor_id = do
  (p, mills, status) ← check_refund q payment_id
  row ← refund_by p.provider q payment_id p mills status
  updated ← gets (λ s. find payment_id s.payments)
  record_refund_audit actor_id payment_id
  notify_payer q p.payer_id
  pure (updated, row)
