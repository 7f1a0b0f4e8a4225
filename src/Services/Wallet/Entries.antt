-- ===== src/Services/Wallet/Entries.antt =====
-- How the two chains of wallet.service.js end: with an error, or with the change and its ledger entry.
use ride_sharing_backend.Common.{
  ℕ, ◌≡◌, ◌≢◌, false, ◌⊎◌, inl, inr, Option, none, ◌∷◌, arith, Bool-cases, Option-cases, ◌==◌, any,
}
use ride_sharing_backend.Common.Table.{find, update, update_where, count}
use ride_sharing_backend.Errors.{ApiError, Thrown, api, prisma, p2002, p2025, other}
use ride_sharing_backend.Model.{Wallet, WalletTransactionType, WalletTransactionReason}
use ride_sharing_backend.Store.{Store, ok, err}
use ride_sharing_backend.Repositories.{
  can_debit, debited, credited, find_wallet_by_user, credit, try_debit, create_transaction,
  collides,
}
use ride_sharing_backend.Services.Wallet.{
  ledger_row, credit_with_entry, debit_with_entry, read_wallet,
}

-- The store after a credit, or a debit, with its entry.
abbrev pub with_credit : ℕ → WalletTransactionReason → ℕ → ℕ → Option ℕ → Store → Store
with_credit k reason mills after reference s = record s {
  wallets = update k (credited mills) s.wallets;
  wallet_transactions =
      ledger_row k WalletTransactionType.credit reason mills after reference
      ∷ s.wallet_transactions;
}

abbrev pub with_debit : ℕ → WalletTransactionReason → ℕ → ℕ → Option ℕ → Store → Store
with_debit k reason mills after reference s = record s {
  wallets = update_where (can_debit k mills) (debited mills) s.wallets;
  wallet_transactions =
      ledger_row k WalletTransactionType.debit reason mills after reference ∷ s.wallet_transactions;
}

pub record Credited (user_id k : ℕ) (reason : WalletTransactionReason) (mills : ℕ)
    (reference : Option ℕ) (w : Wallet) (s : Store) : Type 0 where
  pub exists : find k s.wallets ≢ none
  pub fresh :
      any
        (collides (ledger_row k WalletTransactionType.credit reason mills w.balance reference))
        s.wallet_transactions
      ≡ false
  pub done :
      credit_with_entry user_id k reason mills reference s
      ≡ (ok w, with_credit k reason mills w.balance reference s)

pub credit_cases :
    (user_id k : ℕ) (reason : WalletTransactionReason) (mills : ℕ) (reference : Option ℕ)
    (s : Store)
    → ((e : Thrown) × (t : Store) × (credit_with_entry user_id k reason mills reference s
          ≡ (err e, t)))
      ⊎ ((w : Wallet) × Credited user_id k reason mills reference w s)
unfolding credit_with_entry credit read_wallet create_transaction
credit_cases user_id k reason mills reference s = elim (Option-cases (find k s.wallets)) [
  | inl e ↦ inl (prisma p2025 "" "", s, ground arith)
  | inr (row, e) ↦
      let s' : Store = record s { wallets = update k (credited mills) s.wallets } in
      elim (Option-cases (find_wallet_by_user user_id s'.wallets)) [
        | inl f ↦ inl (other "Cannot read properties of null", s', ground arith)
        | inr ((j, w), f) ↦
            let entry =
              ledger_row k WalletTransactionType.credit reason mills w.balance reference in
            elim (Bool-cases (any (collides entry) s.wallet_transactions)) [
              | inl dup ↦ inl (prisma p2002 "walletId,reason,referenceId" "", s', ground arith)
              | inr new ↦
                  inr (w, record { exists = ground arith; fresh = new; done = ground arith })
            ]
      ]
]

pub record Debited (user_id k : ℕ) (reason : WalletTransactionReason) (mills : ℕ)
    (reference : Option ℕ) (insufficient : ApiError) (w : Wallet) (s : Store) : Type 0 where
  pub covered : count (can_debit k mills) s.wallets ≢ 0
  pub done :
      debit_with_entry user_id k reason mills reference insufficient s
      ≡ (ok w, with_debit k reason mills w.balance reference s)

pub debit_cases :
    (user_id k : ℕ) (reason : WalletTransactionReason) (mills : ℕ) (reference : Option ℕ)
    (insufficient : ApiError) (s : Store)
    → ((e : Thrown) × (t : Store) × (debit_with_entry user_id k reason mills reference insufficient
            s
          ≡ (err e, t)))
      ⊎ ((w : Wallet) × Debited user_id k reason mills reference insufficient w s)
unfolding debit_with_entry try_debit read_wallet create_transaction
debit_cases user_id k reason mills reference insufficient s =
    let s' : Store = record s {
      wallets = update_where (can_debit k mills) (debited mills) s.wallets;
    } in
    elim (Bool-cases (count (can_debit k mills) s.wallets == 0)) [
      | inl z ↦ inl (api insufficient, s', ground arith)
      | inr z ↦ elim (Option-cases (find_wallet_by_user user_id s'.wallets)) [
        | inl f ↦ inl (other "Cannot read properties of null", s', ground arith)
        | inr ((j, w), f) ↦
            let entry = ledger_row k WalletTransactionType.debit reason mills w.balance reference in
            elim (Bool-cases (any (collides entry) s.wallet_transactions)) [
              | inl dup ↦ inl (prisma p2002 "walletId,reason,referenceId" "", s', ground arith)
              | inr new ↦ inr (w, record { covered = ground arith; done = ground arith })
            ]
      ]
    ]
