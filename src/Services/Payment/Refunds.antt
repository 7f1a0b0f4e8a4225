-- ===== src/Services/Payment/Refunds.antt =====
-- What refunds add up to.
use ride_sharing_backend.Common.{
  ℕ, ◌+◌, ◌*◌, ◌≤◌, ◌≡◌, refl, inl, inr, none, some, [], ◌∷◌, arith, Bool-cases, Option-cases, ◌==◌,
}
use ride_sharing_backend.Common.Table.{Table, find, update, find-update}
use ride_sharing_backend.Model.{Payment, PaymentStatus, Refund}
use ride_sharing_backend.Store.{AuditAction, Store}
use ride_sharing_backend.Repositories.{sum_completed_by_payment, with_payment_status}
use ride_sharing_backend.Services.Payment.Refund.{
  RefundRequest, refund_payment, record_refund_audit, notify_payer,
}
use ride_sharing_backend.Services.Notification.{notify, create_notification, deliver, enqueue_email}
use ride_sharing_backend.Services.Wallet.Balance.{HasLedger}
use ride_sharing_backend.Utils.Money.{to_column}
use ride_sharing_backend.Services.Payment.RefundCases.{
  Checked, check_cases, Untouched, Refunded, refund_by_cases,
}

-- The completed refunds of each payment stay within its amount.
abbrev pub IsCovered : Table Payment → Table Refund → Type 0
IsCovered [] rs = Unit
IsCovered ((k, p) ∷ t) rs =
    (sum_completed_by_payment k rs ≤ p.amount) × (find k t ≡ none) × IsCovered t rs

-- One more refund of the payment `k`, which is within its amount.
IsCovered-elsewhere :
    (k id : ℕ) (row : Refund) (t : Table Payment) (rs : Table Refund)
    → row.payment_id ≡ k
    → find k t ≡ none
    → IsCovered t rs
    → IsCovered t ((id, row) ∷ rs)
IsCovered-elsewhere k id row [] rs e n c = tt
IsCovered-elsewhere k id row ((j, p) ∷ t) rs e n (le, fresh, c) =
    (ground arith, fresh, IsCovered-elsewhere k id row t rs e (ground arith) c)

IsCovered-here :
    (k id : ℕ) (row : Refund) (p : Payment) (status : PaymentStatus) (t : Table Payment)
    (rs : Table Refund)
    → row.payment_id ≡ k
    → find k t ≡ some p
    → row.amount + sum_completed_by_payment k rs ≤ p.amount
    → IsCovered t rs
    → IsCovered (update k (with_payment_status status (λ x. x)) t) ((id, row) ∷ rs)
IsCovered-here k id row p status [] rs e f le c = tt
IsCovered-here k id row p status ((j, v) ∷ t) rs e f le (lv, fresh, c) =
    elim (Bool-cases (k == j)) [
      | inl h ↦ rw h (ground arith, fresh, IsCovered-elsewhere k id row t rs e (ground arith) c)
      | inr h ↦ rw h (
        ground arith,
        ground (arith, find-update k j (with_payment_status status (λ x. x)) t),
        IsCovered-here k id row p status t rs e (ground arith) le c,
      )
    ]

-- What the audit log and the payer's notification leave alone.
record Quiet (s t : Store) : Type 0 where
  payments : t.payments ≡ s.payments
  refunds : t.refunds ≡ s.refunds
  wallets : t.wallets ≡ s.wallets
  wallet_transactions : t.wallet_transactions ≡ s.wallet_transactions

quiet : (s : Store) → Quiet s s
quiet s = record { payments = refl; refunds = refl; wallets = refl; wallet_transactions = refl }

notify_payer-Quiet :
    (q : RefundRequest) (payer_id : ℕ) (s : Store) → Quiet s (notify_payer q payer_id s).1
unfolding notify_payer notify create_notification deliver enqueue_email
notify_payer-Quiet q payer_id s = elim (Option-cases (find payer_id s.users)) [
  | inl e ↦ ground (arith, quiet s)
  | inr (u, e) ↦ elim (Option-cases (find q.notification_id s.notifications)) [
    | inr (n, f) ↦ ground (arith, quiet s)
    | inl f ↦ elim (Bool-cases s.redis.is_up) [ inl g ↦ ground arith | inr g ↦ ground arith ]
  ]
]

-- Each payment's completed refunds stay within its amount, and the wallets' ledger is kept.
record Keeps (s t : Store) : Type 0 where
  covered : IsCovered s.payments s.refunds → IsCovered t.payments t.refunds
  ledger : HasLedger s → HasLedger t

Keeps-nothing : (s t : Store) → Quiet s t → Keeps s t
Keeps-nothing s t c = record {
  covered = λ h. rw (c.payments, c.refunds) h;
  ledger = λ h. rw (c.wallets, c.wallet_transactions) h;
}

Keeps-Untouched : (s t : Store) → Untouched s t → Keeps s t
Keeps-Untouched s t u = record { covered = λ h. rw (u.payments, u.refunds) h; ledger = u.ledger }

Keeps-trans : (s t u : Store) → Keeps s t → Keeps t u → Keeps s u
Keeps-trans s t u a b = record {
  covered = λ h. b.covered (a.covered h);
  ledger = λ h. b.ledger (a.ledger h);
}

-- A refund within the range leaves no cent too much: the tolerance of a mill never rounds up to one.
within :
    (mills already paid : ℕ)
    → mills + 10 * already ≤ 10 * paid + 1
    → to_column mills + already ≤ paid
unfolding to_column
within mills already paid h = omega arith

Keeps-Refunded :
    (k mills : ℕ) (p : Payment) (status : PaymentStatus) (row : Refund) (s t : Store)
    → Checked k p mills status s
    → Refunded k mills status row s t
    → Keeps s t
Keeps-Refunded k mills p status row s t c r = record {
  covered = λ h.
      rw (r.payments, r.refunds)
        (IsCovered-here k r.id row p status s.payments s.refunds r.of_payment c.found
          (rw (r.amount) (within mills (sum_completed_by_payment k s.refunds) p.amount c.fits)) h);
  ledger = r.ledger;
}

refund_payment-Keeps :
    (k : ℕ) (q : RefundRequest) (actor_id : ℕ) (s : Store)
    → Keeps s (refund_payment k q actor_id s).1
unfolding refund_payment record_refund_audit
refund_payment-Keeps k q actor_id s = elim (check_cases q k s) [
  | inl (e, h) ↦
      let left : (refund_payment k q actor_id s).1 ≡ s = ground arith in
      rw left (Keeps-nothing s s (quiet s))
  | inr (p, mills, status, c, h) ↦ elim (refund_by_cases p.provider q k p mills status s c.found) [
    | inl (e, t, u, g) ↦
        let left : (refund_payment k q actor_id s).1 ≡ t = ground arith in
        rw left (Keeps-Untouched s t u)
    | inr (row, t, r, g) ↦
        let audited : Store = record t {
          audit_logs =
              record { actor_id = actor_id; action = AuditAction.payment_refunded; entity_id = k }
              ∷ t.audit_logs;
        } in
        let left : (refund_payment k q actor_id s).1 ≡ (notify_payer q p.payer_id audited).1 =
          ground arith in
        rw left (
          Keeps-trans s t (notify_payer q p.payer_id audited).1
            (Keeps-Refunded k mills p status row s t c r)
            (Keeps-nothing t _ (
              let n = notify_payer-Quiet q p.payer_id audited in
              record {
                payments = n.payments;
                refunds = n.refunds;
                wallets = n.wallets;
                wallet_transactions = n.wallet_transactions;
              })))
  ]
]

-- A refund, of whatever amount and by whatever provider, leaves the completed refunds of every payment within that
-- payment's amount if they were so before.
pub refund_payment-IsCovered :
    (payment_id : ℕ) (q : RefundRequest) (actor_id : ℕ) (s : Store)
    → IsCovered s.payments s.refunds
    → let t = (refund_payment payment_id q actor_id s).1 in IsCovered t.payments t.refunds
refund_payment-IsCovered payment_id q actor_id s =
    (refund_payment-Keeps payment_id q actor_id s).covered

-- A refund keeps every wallet's balance equal to its credits less its debits, also when it fails halfway.
pub refund_payment-HasLedger :
    (payment_id : ℕ) (q : RefundRequest) (actor_id : ℕ) (s : Store)
    → HasLedger s
    → HasLedger (refund_payment payment_id q actor_id s).1
refund_payment-HasLedger payment_id q actor_id s =
    (refund_payment-Keeps payment_id q actor_id s).ledger
