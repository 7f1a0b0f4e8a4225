-- ===== src/Repositories/Wallets.antt =====
-- repositories/wallet.repository.js. Amounts are mills; a balance and a ledger amount are columns of
-- whole cents, which the database rounds.
use ride_sharing_backend.Common.{
  ℕ, ◌+◌, ◌-◌, ◌*◌, Bool, true, false, ◌&&◌, Option, none, some, ◌∷◌, any, ◌==◌, leb, holds,
}
use ride_sharing_backend.Common.Table.{Table, find, find_first, update, update_where, count}
use ride_sharing_backend.Errors.{prisma, p2002, p2025}
use ride_sharing_backend.Model.{Wallet, WalletTransaction, same_reason}
use ride_sharing_backend.Store.{Action, ok, err}
use ride_sharing_backend.Utils.Money.{to_column}

abbrev pub find_wallet_by_user : ℕ → Table Wallet → Option (ℕ × Wallet)
find_wallet_by_user user_id = find_first (λ _ w. w.user_id == user_id)

-- `where: { id: walletId, balance: { gte: amount } }`
abbrev pub can_debit : ℕ → ℕ → ℕ → Wallet → Bool
can_debit wallet_id mills j w = (j == wallet_id) && leb mills (10 * w.balance)

abbrev pub debited : ℕ → Wallet → Wallet
debited mills w = record w { balance = to_column (10 * w.balance - mills) }

abbrev pub credited : ℕ → Wallet → Wallet
credited mills w = record w { balance = to_column (10 * w.balance + mills) }

unfoldable pub try_debit : ℕ → ℕ → Action ℕ
try_debit wallet_id mills s = (
  ok (count (can_debit wallet_id mills) s.wallets),
  record s { wallets = update_where (can_debit wallet_id mills) (debited mills) s.wallets },
)

unfoldable pub credit : ℕ → ℕ → Action (Unit {0})
credit wallet_id mills s = elim (find wallet_id s.wallets) [
  | none ↦ (err (prisma p2025 "" ""), s)
  | some _ ↦ (ok tt, record s { wallets = update wallet_id (credited mills) s.wallets })
]

-- The unique constraint on (walletId, reason, referenceId): a null reference never collides.
abbrev same_reference : Option ℕ → Option ℕ → Bool
same_reference none b = false
same_reference (some a) b = holds (λ j. a == j) b

abbrev pub collides : WalletTransaction → WalletTransaction → Bool
collides x y =
    (x.wallet_id == y.wallet_id)
    && same_reason x.reason y.reason
    && same_reference x.reference_id y.reference_id

unfoldable pub create_transaction : WalletTransaction → Action (Unit {0})
create_transaction row s = elim (any (collides row) s.wallet_transactions) [
  | true ↦ (err (prisma p2002 "walletId,reason,referenceId" ""), s)
  | false ↦ (ok tt, record s { wallet_transactions = row ∷ s.wallet_transactions })
]
