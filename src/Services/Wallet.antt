-- ===== src/Services/Wallet.antt =====
-- services/wallet.service.js.
pub mod Ledger
pub mod Entries
pub mod Balance
use ride_sharing_backend.Common.{
  length, ℕ, ◌+◌, ◌*◌, Bool, true, false, ◌||◌, not, Option, none, some, List, [], ◌∷◌, String,
  ◌==◌, ltb, if◌then◌else◌,
}
use ride_sharing_backend.Common.Int.{ℤ, pos, negsuc, abs}
use ride_sharing_backend.Common.Table.{find}
use ride_sharing_backend.Errors.{
  ApiError, bad_request, not_found, internal, Thrown, api, prisma, p2002, other, PrismaCode,
}
use ride_sharing_backend.Model.{
  Wallet, WalletTransaction, WalletTransactionType, WalletTransactionReason,
}
use ride_sharing_backend.Store.{
  Store, StripeCall, AuditAction, Action, Result, ok, err, gets, or_throw, throw_if, pure, throw,
  modify, transaction, ◌>>=◌, ◌>>◌,
}
use ride_sharing_backend.Repositories.{find_wallet_by_user, try_debit, credit, create_transaction}
use ride_sharing_backend.Services.Ride.Views.{page_of, Pagination, pagination_meta}
use ride_sharing_backend.Utils.Money.{to_stripe_cents, from_stripe_cents, to_column}

-- `MIN_TOPUP` and `MAX_TOPUP`, in mills.
abbrev pub min_topup : ℕ
min_topup = 5 * 1000

abbrev pub max_topup : ℕ
max_topup = 1000 * 1000

-- The answer of Stripe is an argument: the intent's id, or `none` when the call throws.
unfoldable pub initiate_top_up : Bool → Option ℕ → ℕ → ℕ → Action ℕ
initiate_top_up is_configured intent user_id mills = do
  throw_if (not is_configured) (internal "Card payments are not configured on this server")
  throw_if (ltb mills min_topup || ltb max_topup mills)
      (bad_request "Top-up amount must be between $5 and $1000")
  modify (λ s. record s {
    stripe_calls = StripeCall.create_top_up_intent user_id (to_stripe_cents mills) ∷ s.stripe_calls;
  })
  elim intent [ none ↦ throw (other "Stripe error") | some id ↦ pure id ]

-- A ledger row, with the balance that was read back after the change.
abbrev pub ledger_row :
    ℕ → WalletTransactionType → WalletTransactionReason → ℕ → ℕ → Option ℕ → WalletTransaction
ledger_row wallet_id type reason mills balance_after reference_id = record {
  wallet_id = wallet_id;
  type = type;
  reason = reason;
  amount = to_column mills;
  balance_after = balance_after;
  reference_id = reference_id;
}

-- `const updated = await walletRepository.findByUserId(userId, tx)`; a missing row is a TypeError.
unfoldable pub read_wallet : ℕ → Action (ℕ × Wallet)
read_wallet user_id s = elim (find_wallet_by_user user_id s.wallets) [
  | none ↦ (err (other "Cannot read properties of null"), s)
  | some w ↦ (ok w, s)
]

-- Credit and ledger entry, as `confirmTopUp`, `adjustBalance` and `creditRefund` chain them.
unfoldable pub credit_with_entry : ℕ → ℕ → WalletTransactionReason → ℕ → Option ℕ → Action Wallet
credit_with_entry user_id wallet_id reason mills reference_id = do
  credit wallet_id mills
  (_, updated) ← read_wallet user_id
  create_transaction
      (ledger_row wallet_id WalletTransactionType.credit reason mills updated.balance reference_id)
  pure updated

unfoldable pub debit_with_entry :
    ℕ → ℕ → WalletTransactionReason → ℕ → Option ℕ → ApiError → Action Wallet
debit_with_entry user_id wallet_id reason mills reference_id insufficient = do
  changed ← try_debit wallet_id mills
  throw_if (changed == 0) insufficient
  (_, updated) ← read_wallet user_id
  create_transaction
      (ledger_row wallet_id WalletTransactionType.debit reason mills updated.balance reference_id)
  pure updated

-- `if (err.code === "P2002") return; throw err;`
abbrev pub swallow_duplicate : Thrown → Result (Unit {0})
swallow_duplicate (prisma PrismaCode.p2002 target code) = ok tt
swallow_duplicate e = err e

abbrev pub catch_duplicate : Action Wallet → Action (Unit {0})
catch_duplicate m s =
    let (r, s') = m s in elim r [ ok _ ↦ (ok tt, s') | err e ↦ (swallow_duplicate e, s') ]

unfoldable pub confirm_top_up : ℕ → ℕ → ℕ → Action (Unit {0})
confirm_top_up user_id amount_cents intent_id s = elim (find_wallet_by_user user_id s.wallets) [
  | none ↦ (ok tt, s)
  | some (wallet_id, _) ↦
      catch_duplicate
        (transaction (
          credit_with_entry user_id wallet_id WalletTransactionReason.topup
            (from_stripe_cents amount_cents) (some intent_id)))
        s
]

-- `adjustBalance`: the sign of the amount picks the branch.
abbrev pub adjustment : ℕ → ℕ → ℤ → Action Wallet
adjustment user_id wallet_id (pos mills) =
    credit_with_entry user_id wallet_id WalletTransactionReason.adjustment mills none
adjustment user_id wallet_id (negsuc n) =
    debit_with_entry user_id wallet_id WalletTransactionReason.adjustment (abs (negsuc n)) none
      (bad_request "Insufficient wallet balance for this adjustment")

unfoldable pub adjust_balance : ℕ → ℤ → ℕ → Action Wallet
adjust_balance target_user_id amount actor_id = do
  found ← gets (λ s. find_wallet_by_user target_user_id s.wallets)
  (wallet_id, _) ← or_throw (not_found "Wallet not found") found
  updated ← transaction (adjustment target_user_id wallet_id amount)
  modify (λ s. record s {
    audit_logs =
        record { actor_id = actor_id; action = AuditAction.wallet_adjusted; entity_id = wallet_id }
        ∷ s.audit_logs;
  })
  pure updated

-- `creditRefund`, inside the transaction of its caller.
unfoldable pub credit_refund : ℕ → ℕ → ℕ → Action Wallet
credit_refund user_id mills reference_id = do
  (wallet_id, _) ← read_wallet user_id
  credit_with_entry user_id wallet_id WalletTransactionReason.refund mills (some reference_id)

abbrev of_wallet : ℕ → List WalletTransaction → List WalletTransaction
of_wallet wallet_id [] = []
of_wallet wallet_id (x ∷ xs) =
    let rest = of_wallet wallet_id xs in if x.wallet_id == wallet_id then x ∷ rest else rest

-- `getWallet`: the wallet, a page of its ledger, newest entry first, and the pages.
unfoldable pub get_wallet : ℕ → ℕ → ℕ → Action (Wallet × List WalletTransaction × Pagination)
get_wallet user_id page limit = do
  found ← gets (λ s. find_wallet_by_user user_id s.wallets)
  (wallet_id, w) ← or_throw (not_found "Wallet not found") found
  entries ← gets (λ s. of_wallet wallet_id s.wallet_transactions)
  pure (w, page_of page limit entries, pagination_meta page limit (length entries))
