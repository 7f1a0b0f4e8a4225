-- ===== src/Services/Payment/Held.antt =====
-- What the two handlers of the webhook do to one payment of the table.
use ride_sharing_backend.Common.{
  ℕ, String, ◌≡◌, ◌≢◌, refl, ◌∙◌, Bool, true, false, ◌⊎◌, inl, inr, Option, none, some, [], ◌∷◌,
  arith, Bool-cases, Option-cases, ◌==◌, if◌then◌else◌, holds,
}
use mathlib.Core.Path.{subst}
use ride_sharing_backend.Common.Table.{Table, find, find_first, update, count, find-update}
use ride_sharing_backend.Model.{Payment, PaymentStatus, WalletTransactionReason}
use ride_sharing_backend.Store.{Store}
use ride_sharing_backend.Repositories.{
  find_payment_by_intent, update_payment_status, with_payment_status, find_wallet_by_user,
}
use ride_sharing_backend.Services.Payment.Stripe.{
  complete_payment, fail_payment, is_completed, is_pending, with_paid_at, with_failure,
}
use ride_sharing_backend.Services.Wallet.{confirm_top_up}
use ride_sharing_backend.Services.Wallet.Entries.{credit_cases}
use ride_sharing_backend.Utils.Money.{from_stripe_cents}

-- The payment `p` is the row of id `k` and of intent `i`, and no other row has that id.
pub record Held (i k : ℕ) (p : Payment) (t : Table Payment) : Type 0 where
  pub by_id : find k t ≡ some p
  pub by_intent : find_payment_by_intent i t ≡ some (k, p)
  pub unique : count (λ j _. j == k) t ≡ 1

absent :
    (k j : ℕ) (p : Payment) (q : ℕ → Payment → Bool) (t : Table Payment)
    → count (λ m _. m == k) t ≡ 0
    → find_first q t ≡ some (j, p)
    → k ≢ j
absent k j p q [] z f = cc
absent k j p q ((m, v) ∷ t) z f = elim (Bool-cases (q m v)) [
  | inl h ↦ ground arith
  | inr h ↦ ground (arith, absent k j p q t)
]

only_row :
    (k : ℕ) (p p' : Payment) (q : ℕ → Payment → Bool) (t : Table Payment)
    → count (λ m _. m == k) t ≡ 1
    → find k t ≡ some p
    → find_first q t ≡ some (k, p')
    → p' ≡ p
only_row k p p' q [] u f g = cc
only_row k p p' q ((m, v) ∷ t) u f g = elim (Bool-cases (q m v)) [
  | inl h ↦ ground arith
  | inr h ↦ elim (Bool-cases (k == m)) [
    | inl e ↦ ground (arith, absent k k p' q t)
    | inr e ↦ ground (arith, only_row k p p' q t)
  ]
]

count_ids :
    (k j : ℕ) (f : Payment → Payment) (t : Table Payment)
    → count (λ m _. m == k) (update j f t) ≡ count (λ m _. m == k) t
count_ids k j f [] = refl
count_ids k j f ((m, v) ∷ t) = ground (arith, count_ids k j f t)

-- A change of a payment that leaves its intent alone.
abbrev KeepsIntent : (Payment → Payment) → Type 0
KeepsIntent f = (q : Payment) → (f q).stripe_payment_intent_id ≡ q.stripe_payment_intent_id

module _ (f : Payment → Payment) (keeps : KeepsIntent f) where
  intent_elsewhere :
      (i k j : ℕ) (p : Payment) (t : Table Payment)
      → k ≢ j
      → find_payment_by_intent i t ≡ some (k, p)
      → find_payment_by_intent i (update j f t) ≡ some (k, p)
  intent_elsewhere i k j p [] n h = cc
  intent_elsewhere i k j p ((m, v) ∷ t) n h = ground (arith, keeps v, intent_elsewhere i k j p t n)

  intent_here :
      (i k : ℕ) (p : Payment) (t : Table Payment)
      → find k t ≡ some p
      → find_payment_by_intent i t ≡ some (k, p)
      → count (λ m _. m == k) t ≡ 1
      → find_payment_by_intent i (update k f t) ≡ some (k, f p)
  intent_here i k p [] g h u = cc
  intent_here i k p ((m, v) ∷ t) g h u = elim (Bool-cases (k == m)) [
    | inl e ↦ elim (Bool-cases (holds (λ j. j == i) v.stripe_payment_intent_id)) [
      | inl e' ↦ ground (arith, keeps v)
      | inr e' ↦
          ground (arith, absent k k p (λ _ q. holds (λ j. j == i) q.stripe_payment_intent_id) t)
    ]
    | inr e ↦ ground (arith, keeps v, intent_here i k p t)
  ]

  Held-elsewhere :
      (i k j : ℕ) (p : Payment) (t : Table Payment)
      → k ≢ j
      → Held i k p t
      → Held i k p (update j f t)
  Held-elsewhere i k j p t n h = record {
    by_id = ground (arith, find-update j k f t, h.by_id);
    by_intent = intent_elsewhere i k j p t n h.by_intent;
    unique = count_ids k j f t ∙ h.unique;
  }

  Held-here :
      (i k : ℕ) (p : Payment) (t : Table Payment) → Held i k p t → Held i k (f p) (update k f t)
  Held-here i k p t h = record {
    by_id = ground (arith, find-update k k f t, h.by_id);
    by_intent = intent_here i k p t h.by_id h.by_intent h.unique;
    unique = count_ids k k f t ∙ h.unique;
  }

pub confirm_top_up-payments :
    (user_id cents intent_id : ℕ) (s : Store)
    → (confirm_top_up user_id cents intent_id s).1.payments ≡ s.payments
unfolding confirm_top_up
confirm_top_up-payments user_id cents intent_id s =
    elim (Option-cases (find_wallet_by_user user_id s.wallets)) [
      | inl e ↦ ground arith
      | inr ((k, row), e) ↦
          elim (credit_cases user_id k WalletTransactionReason.topup (from_stripe_cents cents)
            (some intent_id) s) [
              | inl (x, t, q) ↦ ground arith
              | inr (w, c) ↦ ground (arith, c.done)
            ]
    ]

found_intent :
    (i k : ℕ) (p : Payment) (t : Table Payment)
    → find_payment_by_intent i t ≡ some (k, p)
    → p.stripe_payment_intent_id ≡ some i
found_intent i k p [] h = cc
found_intent i k p ((m, v) ∷ t) h = elim (Option-cases v.stripe_payment_intent_id) [
  | inl e ↦ ground (arith, found_intent i k p t)
  | inr (j, e) ↦ ground (arith, found_intent i k p t)
]

-- What is left of a held payment, with its status after a step.
unfoldable pub Follows : (i k : ℕ) → PaymentStatus → Table Payment → Type 0
Follows i k st t = (p : Payment) × Held i k p t × (p.status ≡ st)

pub stays :
    (i k : ℕ) (p : Payment) (t t' : Table Payment) → t' ≡ t → Held i k p t → Follows i k p.status t'
unfolding Follows
stays i k p t t' e h = rw e (p, h, refl)

writes :
    (i k : ℕ) (p : Payment) (st : PaymentStatus) (f : Payment → Payment) (t t' : Table Payment)
    → KeepsIntent f
    → t' ≡ update k (with_payment_status st f) t
    → Held i k p t
    → Follows i k st t'
unfolding Follows
writes i k p st f t t' keeps e h =
    rw e (with_payment_status st f p, Held-here (with_payment_status st f) keeps i k p t h, refl)

-- The handlers write at most the row that they are given.
is_completed→eq : (st : PaymentStatus) → is_completed st ≡ true → st ≡ PaymentStatus.completed
is_completed→eq st h = ground arith

is_pending→eq : (st : PaymentStatus) → is_pending st ≡ true → st ≡ PaymentStatus.pending
is_pending→eq st h = ground arith

pub complete_here :
    (i k : ℕ) (p : Payment) (s : Store)
    → Held i k p s.payments
    → Follows i k PaymentStatus.completed (complete_payment k p s).1.payments
unfolding complete_payment update_payment_status
complete_here i k p s h = elim (Bool-cases (is_completed p.status)) [
  | inl e ↦
      subst (λ st. Follows i k st (complete_payment k p s).1.payments) (is_completed→eq p.status e)
        (stays i k p s.payments _ (ground arith) h)
  | inr e ↦
      writes i k p PaymentStatus.completed (with_paid_at s.now) s.payments _ (λ q. refl)
        (ground (arith, h.by_id)) h
]

pub fail_here :
    (message : Option String) (i k : ℕ) (p : Payment) (s : Store)
    → Held i k p s.payments
    → Follows i k
        (if is_pending p.status then PaymentStatus.failed else p.status)
        (fail_payment message k p s).1.payments
unfolding fail_payment update_payment_status
fail_here message i k p s h = elim (Bool-cases (is_pending p.status)) [
  | inl e ↦ rw e (
      writes i k p PaymentStatus.failed (with_failure message) s.payments _ (λ q. refl)
        (ground (arith, h.by_id)) h)
  | inr e ↦ rw e (stays i k p s.payments _ (ground arith) h)
]

-- A handler that is given another row leaves the held one.
passes :
    (i k j : ℕ) (p : Payment) (f : Payment → Payment) (t t' : Table Payment)
    → KeepsIntent f
    → k ≢ j
    → t' ≡ update j f t
    → Held i k p t
    → Follows i k p.status t'
unfolding Follows
passes i k j p f t t' keeps n e h = rw e (p, Held-elsewhere f keeps i k j p t n h, refl)

pub complete_elsewhere :
    (i k j : ℕ) (p v : Payment) (s : Store)
    → k ≢ j
    → Held i k p s.payments
    → Follows i k p.status (complete_payment j v s).1.payments
unfolding complete_payment update_payment_status
complete_elsewhere i k j p v s n h = elim (Bool-cases (is_completed v.status)) [
  | inl e ↦ stays i k p s.payments _ (ground arith) h
  | inr e ↦ elim (Option-cases (find j s.payments)) [
    | inl f ↦ stays i k p s.payments _ (ground arith) h
    | inr (w, f) ↦
        passes i k j p (with_payment_status PaymentStatus.completed (with_paid_at s.now)) s.payments
          _ (λ q. refl) n (ground arith) h
  ]
]

pub fail_elsewhere :
    (message : Option String) (i k j : ℕ) (p v : Payment) (s : Store)
    → k ≢ j
    → Held i k p s.payments
    → Follows i k p.status (fail_payment message j v s).1.payments
unfolding fail_payment update_payment_status
fail_elsewhere message i k j p v s n h = elim (Bool-cases (is_pending v.status)) [
  | inr e ↦ stays i k p s.payments _ (ground arith) h
  | inl e ↦ elim (Option-cases (find j s.payments)) [
    | inl f ↦ stays i k p s.payments _ (ground arith) h
    | inr (w, f) ↦
        passes i k j p (with_payment_status PaymentStatus.failed (with_failure message)) s.payments
          _ (λ q. refl) n (ground arith) h
  ]
]

-- The row that an intent's event finds is the held one exactly if the intent is.
pub same_intent_cases :
    (i k x : ℕ) (p : Payment) (t : Table Payment)
    → Held i k p t
    → ((x == i) ≡ true)
      ⊎ ((((x == i) ≡ false) × (find_payment_by_intent x t ≡ none))
          ⊎ (((x == i) ≡ false)
              × (j : ℕ) × (v : Payment) × (k ≢ j)
              × (find_payment_by_intent x t ≡ some (j, v))))
same_intent_cases i k x p t h = elim (Bool-cases (x == i)) [
  | inl e ↦ inl e
  | inr e ↦ elim (Option-cases (find_payment_by_intent x t)) [
    | inl f ↦ inr (inl (e, f))
    | inr ((j, v), f) ↦ inr (
        inr (
          e,
          j,
          v,
          (λ q. ground (
            arith,
            only_row k p v (λ _ a. holds (λ m. m == x) a.stripe_payment_intent_id) t h.unique
                h.by_id,
            found_intent x j v t f,
            found_intent i k p t h.by_intent,
          )),
          f,
        ))
  ]
]
