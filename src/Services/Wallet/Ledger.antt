-- ===== src/Services/Wallet/Ledger.antt =====
-- The ledger: a wallet's balance and its debits make up its credits.
use ride_sharing_backend.Common.{
  ℕ, ◌+◌, ◌%◌, ◌≡◌, ◌≢◌, refl, Bool, inl, inr, Option, none, List, [], ◌∷◌, arith, Bool-cases, ◌==◌,
  if◌then◌else◌,
}
use ride_sharing_backend.Common.Table.{Table, find, update, update_where, count, find-update}
use ride_sharing_backend.Model.{
  Wallet, WalletTransaction, WalletTransactionType, WalletTransactionReason,
}
use ride_sharing_backend.Repositories.{can_debit, debited, credited}
use ride_sharing_backend.Services.Wallet.{ledger_row}
use ride_sharing_backend.Utils.Money.{to_column}

abbrev signed : WalletTransactionType → WalletTransactionType → ℕ → ℕ
signed WalletTransactionType.credit WalletTransactionType.credit n = n
signed WalletTransactionType.debit WalletTransactionType.debit n = n
signed _ _ n = 0

-- The sum of a wallet's ledger amounts of one type.
abbrev pub total_of : WalletTransactionType → ℕ → List WalletTransaction → ℕ
total_of type w [] = 0
total_of type w (x ∷ xs) =
    (if x.wallet_id == w then signed type x.type x.amount else 0) + total_of type w xs

abbrev pub IsBalanced : List WalletTransaction → ℕ × Wallet → Type 0
IsBalanced xs (w, row) =
    row.balance + total_of WalletTransactionType.debit w xs
    ≡ total_of WalletTransactionType.credit w xs

-- Every wallet of the table is balanced, and no id stands twice.
abbrev pub IsLedger : List WalletTransaction → Table Wallet → Type 0
IsLedger xs [] = Unit
IsLedger xs ((w, row) ∷ t) = IsBalanced xs (w, row) × (find w t ≡ none) × IsLedger xs t

-- A ledger entry of one wallet leaves the others balanced.
IsLedger-other :
    (x : WalletTransaction) (xs : List WalletTransaction) (t : Table Wallet)
    → find x.wallet_id t ≡ none
    → IsLedger xs t
    → IsLedger (x ∷ xs) t
IsLedger-other x xs [] n h = tt
IsLedger-other x xs ((w, row) ∷ t) n (b, u, h) = elim (Bool-cases (x.wallet_id == w)) [
  | inl hit ↦ ground arith
  | inr miss ↦ (ground arith, u, IsLedger-other x xs t (ground arith) h)
]

-- The entry of a credit that was applied to its wallet keeps the ledger.
pub credited-IsLedger :
    (k mills after : ℕ) (reason : WalletTransactionReason) (reference : Option ℕ)
    (xs : List WalletTransaction) (t : Table Wallet)
    → IsLedger xs t
    → find k t ≢ none
    → IsLedger
        (ledger_row k WalletTransactionType.credit reason mills after reference ∷ xs)
        (update k (credited mills) t)
unfolding to_column
credited-IsLedger k mills after reason reference xs [] h f = absurd (f refl)
credited-IsLedger k mills after reason reference xs ((w, row) ∷ t) (b, u, h) f =
    elim (Bool-cases (k == w)) [
      | inl hit ↦ rw hit (
        ground arith,
        u,
        IsLedger-other (ledger_row k WalletTransactionType.credit reason mills after reference) xs t
            (ground arith) h,
      )
      | inr miss ↦ rw miss (
        ground arith,
        ground (arith, find-update k w (credited mills) t),
        credited-IsLedger k mills after reason reference xs t h (rw miss at f),
      )
    ]

find-update_where :
    (p : ℕ → Wallet → Bool) (f : Wallet → Wallet) (k : ℕ) (t : Table Wallet)
    → find k t ≡ none
    → find k (update_where p f t) ≡ none
find-update_where p f k [] h = refl
find-update_where p f k ((j, v) ∷ t) h = ground (arith, find-update_where p f k t)

no_debit :
    (k mills : ℕ) (t : Table Wallet)
    → find k t ≡ none
    → update_where (can_debit k mills) (debited mills) t ≡ t
no_debit k mills [] h = refl
no_debit k mills ((j, v) ∷ t) h = ground (arith, no_debit k mills t)

count-no_debit :
    (k mills : ℕ) (t : Table Wallet) → find k t ≡ none → count (can_debit k mills) t ≡ 0
count-no_debit k mills [] h = refl
count-no_debit k mills ((j, v) ∷ t) h = ground (arith, count-no_debit k mills t)

-- The entry of a debit that found enough money keeps the ledger, unless the amount is half a cent
-- off a whole one.
pub debited-IsLedger :
    (k mills after : ℕ) (reason : WalletTransactionReason) (reference : Option ℕ)
    (xs : List WalletTransaction) (t : Table Wallet)
    → mills % 10 ≢ 5
    → IsLedger xs t
    → count (can_debit k mills) t ≢ 0
    → IsLedger
        (ledger_row k WalletTransactionType.debit reason mills after reference ∷ xs)
        (update_where (can_debit k mills) (debited mills) t)
unfolding to_column
debited-IsLedger k mills after reason reference xs [] m h f = absurd (f refl)
debited-IsLedger k mills after reason reference xs ((w, row) ∷ t) m (b, u, h) f =
    elim (Bool-cases (k == w)) [
      | inl hit ↦
          let gone : find k t ≡ none = ground arith in
          (
            ground (arith, count-no_debit k mills t gone),
            ground (arith, no_debit k mills t gone),
            rw (no_debit k mills t gone) (
                IsLedger-other
                  (ledger_row k WalletTransactionType.debit reason mills after reference) xs t gone
                  h),
          )
      | inr miss ↦ (
        ground arith,
        find-update_where (can_debit k mills) (debited mills) w t u,
        debited-IsLedger k mills after reason reference xs t m h (ground arith),
      )
    ]
