-- ===== src/Services/Wallet/Balance.antt =====
-- Every operation of wallet.service.js keeps the ledger, and top-ups are credited once.
use ride_sharing_backend.Common.{
  ℕ, zero, suc, ◌%◌, ◌≡◌, ◌≢◌, refl, sym, ap, ◌∙◌, true, ◌⊎◌, inl, inr, Option, none, some, [], ◌∷◌,
  arith, Option-cases, any,
}
use ride_sharing_backend.Common.Int.{ℤ, pos, negsuc, abs}
use ride_sharing_backend.Common.Table.{Table, update}
use ride_sharing_backend.Errors.{ApiError, bad_request}
use ride_sharing_backend.Model.{Wallet, WalletTransactionType, WalletTransactionReason}
use ride_sharing_backend.Store.{Store}
use ride_sharing_backend.Repositories.{credited, find_wallet_by_user, collides}
use ride_sharing_backend.Services.Wallet.{ledger_row, confirm_top_up, adjust_balance}
use ride_sharing_backend.Services.Wallet.Ledger.{IsLedger, credited-IsLedger, debited-IsLedger}
use ride_sharing_backend.Services.Wallet.Entries.{
  with_credit, with_debit, Credited, Debited, credit_cases, debit_cases,
}
use ride_sharing_backend.Utils.Money.{from_stripe_cents}

-- The wallets and their ledger fit together.
abbrev pub HasLedger : Store → Type 0
HasLedger s = IsLedger s.wallet_transactions s.wallets

pub Credited-HasLedger :
    (user_id k : ℕ) (reason : WalletTransactionReason) (mills : ℕ) (reference : Option ℕ)
    (w : Wallet) (s : Store)
    → Credited user_id k reason mills reference w s
    → HasLedger s
    → HasLedger (with_credit k reason mills w.balance reference s)
Credited-HasLedger user_id k reason mills reference w s c h =
    credited-IsLedger k mills w.balance reason reference s.wallet_transactions s.wallets h c.exists

pub Debited-HasLedger :
    (user_id k : ℕ) (reason : WalletTransactionReason) (mills : ℕ) (reference : Option ℕ)
    (insufficient : ApiError) (w : Wallet) (s : Store)
    → mills % 10 ≢ 5
    → Debited user_id k reason mills reference insufficient w s
    → HasLedger s
    → HasLedger (with_debit k reason mills w.balance reference s)
Debited-HasLedger user_id k reason mills reference insufficient w s m c h =
    debited-IsLedger k mills w.balance reason reference s.wallet_transactions s.wallets m h
      c.covered

-- A confirmed top-up keeps every wallet's balance equal to its credits less its debits.
pub confirm_top_up-HasLedger :
    (user_id cents intent_id : ℕ) (s : Store)
    → HasLedger s
    → HasLedger (confirm_top_up user_id cents intent_id s).1
unfolding confirm_top_up
confirm_top_up-HasLedger user_id cents intent_id s h =
    elim (Option-cases (find_wallet_by_user user_id s.wallets)) [
      | inl e ↦ ground arith
      | inr ((k, row), e) ↦
          elim (credit_cases user_id k WalletTransactionReason.topup (from_stripe_cents cents)
            (some intent_id) s) [
              | inl (x, t, q) ↦ ground arith
              | inr (w, c) ↦ ground (
                arith,
                c.done,
                Credited-HasLedger user_id k WalletTransactionReason.topup (from_stripe_cents cents)
                    (some intent_id) w s c h,
              )
            ]
    ]

-- So does an adjustment by an administrator, unless it takes an amount that is half a cent off a whole one.
pub adjust_balance-HasLedger :
    (user_id : ℕ) (amount : ℤ) (actor_id : ℕ) (s : Store)
    → (amount ≡ pos (abs amount)) ⊎ (abs amount % 10 ≢ 5)
    → HasLedger s
    → HasLedger (adjust_balance user_id amount actor_id s).1
unfolding adjust_balance
adjust_balance-HasLedger user_id (pos mills) actor_id s m h =
    elim (Option-cases (find_wallet_by_user user_id s.wallets)) [
      | inl e ↦ ground arith
      | inr ((k, row), e) ↦
          elim (credit_cases user_id k WalletTransactionReason.adjustment mills none s) [
            | inl (x, t, q) ↦ ground arith
            | inr (w, c) ↦ ground (
              arith,
              c.done,
              Credited-HasLedger user_id k WalletTransactionReason.adjustment mills none w s c h,
            )
          ]
    ]
adjust_balance-HasLedger user_id (negsuc n) actor_id s m h =
    let refusal : ApiError = bad_request "Insufficient wallet balance for this adjustment" in
    elim (Option-cases (find_wallet_by_user user_id s.wallets)) [
      | inl e ↦ ground arith
      | inr ((k, row), e) ↦
          elim (debit_cases user_id k WalletTransactionReason.adjustment (suc n) none refusal s) [
            | inl (x, t, q) ↦ ground arith
            | inr (w, c) ↦ ground (
              arith,
              c.done,
              Debited-HasLedger user_id k WalletTransactionReason.adjustment (suc n) none refusal w
                  s (ground arith) c h,
            )
          ]
    ]

-- A credit leaves each wallet with its owner.
abbrev id_of : Option (ℕ × Wallet) → Option ℕ
id_of none = none
id_of (some (k, _)) = some k

owner-update :
    (user_id k mills : ℕ) (t : Table Wallet)
    → id_of (find_wallet_by_user user_id (update k (credited mills) t))
      ≡ id_of (find_wallet_by_user user_id t)
owner-update user_id k mills [] = refl
owner-update user_id k mills ((i, v) ∷ t) = ground (arith, owner-update user_id k mills t)

-- Once the ledger has an intent's entry, a delivery of the intent's event changes nothing.
delivered :
    (user_id cents intent_id k after : ℕ) (s : Store)
    → id_of (find_wallet_by_user user_id s.wallets) ≡ some k
    → let entry =
        ledger_row k WalletTransactionType.credit WalletTransactionReason.topup
          (from_stripe_cents cents)
          after
          (some intent_id) in
      any (collides entry) s.wallet_transactions ≡ true
      → (confirm_top_up user_id cents intent_id s).1 ≡ s
unfolding confirm_top_up
delivered user_id cents intent_id k after s own dup =
    elim (Option-cases (find_wallet_by_user user_id s.wallets)) [
      | inl e ↦ ground arith
      | inr ((j, row), e) ↦
          elim (credit_cases user_id j WalletTransactionReason.topup (from_stripe_cents cents)
            (some intent_id) s) [
              | inl (x, t, q) ↦ ground arith
              | inr (w, c) ↦ ground (arith, c.fresh)
            ]
    ]

-- Stripe delivers an event at least once; these are `n` deliveries of one event.
unfoldable pub deliveries : ℕ → ℕ → ℕ → ℕ → Store → Store
deliveries user_id cents intent_id zero s = s
deliveries user_id cents intent_id (suc n) s =
    deliveries user_id cents intent_id n (confirm_top_up user_id cents intent_id s).1

-- One delivery either changes nothing or leaves a store in which its entry stands.
settled :
    (user_id cents intent_id : ℕ) (s : Store)
    → let s' = (confirm_top_up user_id cents intent_id s).1 in
      (confirm_top_up user_id cents intent_id s').1 ≡ s'
unfolding confirm_top_up
settled user_id cents intent_id s = elim (Option-cases (find_wallet_by_user user_id s.wallets)) [
  | inl e ↦ ground arith
  | inr ((k, row), e) ↦
      elim (credit_cases user_id k WalletTransactionReason.topup (from_stripe_cents cents)
        (some intent_id) s) [
          | inl (x, t, q) ↦ ground arith
          | inr (w, c) ↦
              let s1 =
                with_credit k WalletTransactionReason.topup (from_stripe_cents cents) w.balance
                  (some intent_id) s in
              let first : (confirm_top_up user_id cents intent_id s).1 ≡ s1 =
                ground (arith, c.done) in
              let own : id_of (find_wallet_by_user user_id s1.wallets) ≡ some k =
                owner-update user_id k (from_stripe_cents cents) s.wallets ∙ ap id_of e in
              ap (λ (q : Store). (confirm_top_up user_id cents intent_id q).1) first
              ∙ delivered user_id cents intent_id k w.balance s1 own (ground arith)
              ∙ sym first
        ]
]

-- However often Stripe delivers the event of one top-up, the store ends as after one delivery.
pub confirm_top_up_once :
    (user_id cents intent_id n : ℕ) (s : Store)
    → deliveries user_id cents intent_id (suc n) s ≡ (confirm_top_up user_id cents intent_id s).1
unfolding deliveries confirm_top_up
confirm_top_up_once user_id cents intent_id zero s = refl
confirm_top_up_once user_id cents intent_id (suc n) s =
    confirm_top_up_once user_id cents intent_id n (confirm_top_up user_id cents intent_id s).1
    ∙ settled user_id cents intent_id s
