-- ===== src/Services/Payment/RefundCases.antt =====
-- How the steps of `refundPayment` end.
use ride_sharing_backend.Common.{
  ℕ, ◌+◌, ◌*◌, ◌≤◌, ◌≡◌, ◌≢◌, refl, String, Bool, true, false, ◌⊎◌, inl, inr, Option, none, some,
  ◌∷◌, arith, Bool-cases, Option-cases,
}
use Prim.Native.String.{◌++◌ as append}
use ride_sharing_backend.Common.Table.{find, find_first, update}
use ride_sharing_backend.Errors.{
  Thrown, api, prisma, p2002, other, bad_request, conflict, not_found, internal,
}
use ride_sharing_backend.Model.{
  Payment, PaymentProvider, PaymentStatus, Refund, RefundStatus, WalletTransactionReason,
}
use ride_sharing_backend.Store.{Store, StripeCall, Result, ok, err, transaction}
use ride_sharing_backend.Repositories.{
  create_refund_row, refund_collides, sum_completed_by_payment, update_payment_status,
  with_payment_status, find_wallet_by_user,
}
use ride_sharing_backend.Services.Payment.Refund.{
  RefundRequest, check_refund, is_refundable, status_name, refund_amount, is_out_of_range,
  remaining_text, refunded_status, refund_row, stripe_row, record_stripe_refund, refund_by_stripe,
  refund_to_wallet, refund_by,
}
use ride_sharing_backend.Services.Wallet.{credit_refund, read_wallet}
use ride_sharing_backend.Services.Wallet.Entries.{credit_cases, with_credit}
use ride_sharing_backend.Services.Wallet.Balance.{HasLedger, Credited-HasLedger}
use ride_sharing_backend.Utils.Money.{to_column, to_stripe_cents}

-- What the checks leave: a refundable payment, and mills that fit what is left of it.
pub record Checked (payment_id : ℕ) (p : Payment) (mills : ℕ) (status : PaymentStatus) (s : Store)
    : Type 0 where
  pub found : find payment_id s.payments ≡ some p
  pub refundable : is_refundable p.status ≡ true
  pub fits : mills + 10 * sum_completed_by_payment payment_id s.refunds ≤ 10 * p.amount + 1
  pub positive : mills ≢ 0
  pub status_is :
      status ≡ refunded_status mills p.amount (sum_completed_by_payment payment_id s.refunds)

pub check_cases :
    (q : RefundRequest) (payment_id : ℕ) (s : Store)
    → ((e : Thrown) × (check_refund q payment_id s ≡ (err e, s)))
      ⊎ ((p : Payment) × (mills : ℕ) × (status : PaymentStatus) × Checked payment_id p mills status
            s
          × (check_refund q payment_id s ≡ (ok (p, mills, status), s)))
unfolding check_refund
check_cases q payment_id s = elim (Option-cases (find payment_id s.payments)) [
  | inl e ↦ inl (api (not_found "Payment not found"), ground arith)
  | inr (p, e) ↦
      let already = sum_completed_by_payment payment_id s.refunds in
      let mills = refund_amount q.amount p.amount already in
      elim (Bool-cases (is_refundable p.status)) [
        | inr f ↦ inl (
          api (
              conflict
                (append "Cannot refund a payment in " (append (status_name p.status) " status"))),
          ground arith,
        )
        | inl f ↦ elim (Bool-cases (is_out_of_range mills p.amount already)) [
          | inl g ↦ inl (
            api (
                bad_request (
                  append "Refund amount must be between 0 and " (remaining_text p.amount already))),
            ground arith,
          )
          | inr g ↦ inr (
            p,
            mills,
            refunded_status mills p.amount already,
            record {
              found = e;
              refundable = f;
              fits = ground arith;
              positive = ground arith;
              status_is = refl;
            },
            ground arith,
          )
        ]
      ]
]

pub record Untouched (s t : Store) : Type 0 where
  pub payments : t.payments ≡ s.payments
  pub refunds : t.refunds ≡ s.refunds
  pub ledger : HasLedger s → HasLedger t

pub record Refunded (k mills : ℕ) (status : PaymentStatus) (row : Refund) (s t : Store)
    : Type 0 where
  pub id : ℕ
  pub of_payment : row.payment_id ≡ k
  pub amount : row.amount ≡ to_column mills
  pub refunds : t.refunds ≡ (id, row) ∷ s.refunds
  pub payments : t.payments ≡ update k (with_payment_status status (λ x. x)) s.payments
  pub ledger : HasLedger s → HasLedger t

abbrev pub Outcome :
    (k mills : ℕ) (status : PaymentStatus) (s : Store) → Result Refund × Store → Type 0
Outcome k mills status s m =
    ((e : Thrown) × (t : Store) × Untouched s t × (m ≡ (err e, t)))
    ⊎ ((row : Refund) × (t : Store) × Refunded k mills status row s t × (m ≡ (ok row, t)))

same : (s : Store) → Untouched s s
same s = record { payments = refl; refunds = refl; ledger = λ h. h }

wallet_cases :
    (q : RefundRequest) (k : ℕ) (p : Payment) (mills : ℕ) (status : PaymentStatus) (s : Store)
    → find k s.payments ≡ some p
    → Outcome k mills status s (transaction (refund_to_wallet q k p mills status) s)
unfolding refund_to_wallet credit_refund read_wallet create_refund_row update_payment_status
wallet_cases q k p mills status s f =
    let row = refund_row k mills q.reason RefundStatus.completed none (some s.now) in
    let reason = WalletTransactionReason.refund in
    let s1 : Store = record s { refunds = (q.refund_id, row) ∷ s.refunds } in
    elim (Option-cases (find_first (refund_collides q.refund_id row) s.refunds)) [
      | inr (x, e) ↦ inl (prisma p2002 "stripeRefundId" "", s, same s, ground arith)
      | inl e ↦ elim (Option-cases (find_wallet_by_user p.payer_id s.wallets)) [
        | inl g ↦ inl (other "Cannot read properties of null", s, same s, ground arith)
        | inr ((w, w0), g) ↦ elim (credit_cases p.payer_id w reason mills (some q.refund_id) s1) [
          | inl (x, t, h) ↦ inl (x, s, same s, ground arith)
          | inr (w1, c) ↦
              let s2 = with_credit w reason mills w1.balance (some q.refund_id) s1 in
              inr (
                row,
                record s2 { payments = update k (with_payment_status status (λ x. x)) s.payments },
                record {
                  id = q.refund_id;
                  of_payment = refl;
                  amount = refl;
                  refunds = refl;
                  payments = refl;
                  ledger = Credited-HasLedger p.payer_id w reason mills (some q.refund_id) w1 s1 c;
                },
                ground (arith, c.done),
              )
        ]
      ]
    ]

stripe_row_lem :
    (k mills : ℕ) (reason : String) (id : ℕ) (b : Bool) (now : ℕ)
    → ((stripe_row k mills reason id b now).payment_id ≡ k)
      × ((stripe_row k mills reason id b now).amount ≡ to_column mills)
stripe_row_lem k mills reason id true now = (refl, refl)
stripe_row_lem k mills reason id false now = (refl, refl)

-- The store in which Stripe has been asked for the refund.
asked : ℕ → ℕ → Store → Store
asked k mills s = record s {
  stripe_calls =
      StripeCall.create_refund k (sum_completed_by_payment k s.refunds) (to_stripe_cents mills)
      ∷ s.stripe_calls;
}

stripe_cases :
    (q : RefundRequest) (answer : Option (ℕ × Bool)) (k : ℕ) (p : Payment) (mills : ℕ)
    (status : PaymentStatus) (s : Store)
    → q.answer ≡ answer
    → q.is_configured ≡ true
    → find k s.payments ≡ some p
    → Outcome k mills status s (refund_by_stripe q k mills status s)
unfolding refund_by_stripe record_stripe_refund create_refund_row update_payment_status asked
stripe_cases q none k p mills status s a c f = inl (
  other "Stripe error",
  asked k mills s,
  record { payments = refl; refunds = refl; ledger = λ h. h },
  ground arith,
)
stripe_cases q (some (id, b)) k p mills status s a c f =
    let row = stripe_row k mills q.reason id b s.now in
    let (of_payment, amount) = stripe_row_lem k mills q.reason id b s.now in
    elim (Option-cases (find_first (refund_collides q.refund_id row) s.refunds)) [
      | inr (x, e) ↦ inl (
        prisma p2002 "stripeRefundId" "",
        asked k mills s,
        record { payments = refl; refunds = refl; ledger = λ h. h },
        ground arith,
      )
      | inl e ↦ inr (
        row,
        record (asked k mills s) {
          refunds = (q.refund_id, row) ∷ s.refunds;
          payments = update k (with_payment_status status (λ x. x)) s.payments;
        },
        record {
          id = q.refund_id;
          of_payment = of_payment;
          amount = amount;
          refunds = refl;
          payments = refl;
          ledger = λ h. h;
        },
        ground arith,
      )
    ]

unconfigured_cases :
    (q : RefundRequest) (k mills : ℕ) (status : PaymentStatus) (s : Store)
    → q.is_configured ≡ false
    → Outcome k mills status s (refund_by_stripe q k mills status s)
unfolding refund_by_stripe
unconfigured_cases q k mills status s c =
    inl (api (internal "Card payments are not configured on this server"), s, same s, ground arith)

pub refund_by_cases :
    (provider : PaymentProvider) (q : RefundRequest) (k : ℕ) (p : Payment) (mills : ℕ)
    (status : PaymentStatus) (s : Store)
    → find k s.payments ≡ some p
    → Outcome k mills status s (refund_by provider q k p mills status s)
unfolding refund_by
refund_by_cases PaymentProvider.wallet q k p mills status s f = wallet_cases q k p mills status s f
refund_by_cases PaymentProvider.cash q k p mills status s f = wallet_cases q k p mills status s f
refund_by_cases PaymentProvider.stripe q k p mills status s f = elim (Bool-cases q.is_configured) [
  | inl c ↦ stripe_cases q q.answer k p mills status s refl c f
  | inr c ↦ unconfigured_cases q k mills status s c
]
