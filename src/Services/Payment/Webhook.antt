-- ===== src/Services/Payment/Webhook.antt =====
-- The webhook over any sequence of events: Stripe redelivers events and keeps no order.
use ride_sharing_backend.Common.{
  ℕ, String, ◌≡◌, refl, ap, ◌∙◌, Bool, true, false, ◌&&◌, ◌||◌, inl, inr, Option, some, List, [],
  ◌∷◌, arith, ◌==◌, if◌then◌else◌,
}
use ride_sharing_backend.Common.Table.{find}
use ride_sharing_backend.Model.{Payment, PaymentStatus}
use ride_sharing_backend.Store.{Store}
use ride_sharing_backend.Repositories.{find_payment_by_intent}
use ride_sharing_backend.Services.Payment.Stripe.{
  Purpose, StripeEvent, handle_stripe_event, on_succeeded, on_failed, is_pending,
}
use ride_sharing_backend.Services.Payment.Held.{
  Held, Follows, stays, complete_here, fail_here, complete_elsewhere, fail_elsewhere,
  confirm_top_up-payments, same_intent_cases,
}

-- The events in the order in which they are handled; an error ends one event's handling alone.
unfoldable pub handle_all : List StripeEvent → Store → Store
handle_all [] s = s
handle_all (e ∷ es) s = handle_all es (handle_stripe_event e s).1

-- An event about the ride payment of intent `i`, by the event's purpose and intent.
abbrev pub is_about : ℕ → Purpose → ℕ → Bool
is_about i (Purpose.wallet_topup _) id = false
is_about i Purpose.ride_payment id = id == i

-- What an event means for the payment of intent `i`.
abbrev pub next_status : ℕ → StripeEvent → PaymentStatus → PaymentStatus
next_status i (StripeEvent.succeeded x) st =
    if is_about i x.purpose x.id then PaymentStatus.completed else st
next_status i (StripeEvent.payment_failed x) st =
    if is_about i x.purpose x.id && is_pending st then PaymentStatus.failed else st
next_status i StripeEvent.other_event st = st

module _ (i k : ℕ) (p : Payment) (s : Store) (h : Held i k p s.payments) where
  own_row : (x : ℕ) → (x == i) ≡ true → find_payment_by_intent x s.payments ≡ some (k, p)
  own_row x e = ground (arith, h.by_intent)

  event_succeeded :
      (purpose : Purpose) (amount id : ℕ)
      → Follows i k
          (if is_about i purpose id then PaymentStatus.completed else p.status)
          (on_succeeded purpose amount id s).1.payments
  unfolding on_succeeded
  event_succeeded (Purpose.wallet_topup user_id) amount id =
      stays i k p s.payments _ (confirm_top_up-payments user_id amount id s) h
  event_succeeded Purpose.ride_payment amount id = elim (same_intent_cases i k id p s.payments h) [
    | inl e ↦ rw (own_row id e, e, on_succeeded) (complete_here i k p s h)
    | inr (inl (e, f)) ↦ rw (f, e, on_succeeded) (stays i k p s.payments _ refl h)
    | inr (inr (e, j, v, n, f)) ↦ rw (f, e, on_succeeded) (complete_elsewhere i k j p v s n h)
  ]

  event_failed :
      (purpose : Purpose) (error : Option String) (id : ℕ)
      → Follows i k
          (if is_about i purpose id && is_pending p.status then PaymentStatus.failed else p.status)
          (on_failed purpose error id s).1.payments
  unfolding on_failed
  event_failed (Purpose.wallet_topup user_id) error id = stays i k p s.payments _ refl h
  event_failed Purpose.ride_payment error id = elim (same_intent_cases i k id p s.payments h) [
    | inl e ↦ rw (own_row id e, e, on_failed) (fail_here error i k p s h)
    | inr (inl (e, f)) ↦ rw (f, e, on_failed) (stays i k p s.payments _ refl h)
    | inr (inr (e, j, v, n, f)) ↦ rw (f, e, on_failed) (fail_elsewhere error i k j p v s n h)
  ]

  event-Follows :
      (e : StripeEvent)
      → Follows i k (next_status i e p.status) (handle_stripe_event e s).1.payments
  unfolding handle_stripe_event
  event-Follows (StripeEvent.succeeded x) = event_succeeded x.purpose x.amount x.id
  event-Follows (StripeEvent.payment_failed x) = event_failed x.purpose x.last_payment_error x.id
  event-Follows StripeEvent.other_event = stays i k p s.payments _ refl h

-- The statuses that the events about one intent lead to, by themselves.
unfoldable pub final_status : ℕ → List StripeEvent → PaymentStatus → PaymentStatus
final_status i [] st = st
final_status i (e ∷ es) st = final_status i es (next_status i e st)

-- Whatever other events are handled in between, a card payment's status is what the events about its own
-- intent lead to: success completes it, a failure fails it only while it is pending.
pub handle_all-final_status :
    (i k : ℕ) (p : Payment) (es : List StripeEvent) (s : Store)
    → Held i k p s.payments
    → (p' : Payment) × (find k (handle_all es s).payments ≡ some p')
      × (p'.status ≡ final_status i es p.status)
unfolding handle_all final_status Follows
handle_all-final_status i k p [] s h = (p, h.by_id, refl)
handle_all-final_status i k p (e ∷ es) s h =
    let (p1, h1, st1) = event-Follows i k p s h e in
    let (p', f, st) = handle_all-final_status i k p1 es (handle_stripe_event e s).1 h1 in
    (p', f, st ∙ ap (final_status i es) st1)

-- Some event reports that the ride payment of the intent succeeded.
abbrev pub has_success : ℕ → List StripeEvent → Bool
has_success i [] = false
has_success i (StripeEvent.succeeded x ∷ es) = is_about i x.purpose x.id || has_success i es
has_success i (_ ∷ es) = has_success i es

completed_stays :
    (i : ℕ) (es : List StripeEvent)
    → final_status i es PaymentStatus.completed ≡ PaymentStatus.completed
unfolding final_status
completed_stays i [] = refl
completed_stays i (StripeEvent.succeeded x ∷ es) = ground (arith, completed_stays i es)
completed_stays i (StripeEvent.payment_failed x ∷ es) = ground (arith, completed_stays i es)
completed_stays i (StripeEvent.other_event ∷ es) = completed_stays i es

success_wins :
    (i : ℕ) (es : List StripeEvent) (st : PaymentStatus)
    → has_success i es ≡ true
    → final_status i es st ≡ PaymentStatus.completed
unfolding final_status
success_wins i [] st h = cc
success_wins i (StripeEvent.succeeded x ∷ es) st h =
    ground (arith, completed_stays i es, success_wins i es st)
success_wins i (StripeEvent.payment_failed x ∷ es) st h = success_wins i es _ h
success_wins i (StripeEvent.other_event ∷ es) st h = success_wins i es st h

-- However Stripe orders and repeats its events, a payment whose success is among them ends up completed: no failure
-- that is delivered before or after takes that back.
pub success_completes :
    (i k : ℕ) (p : Payment) (es : List StripeEvent) (s : Store)
    → Held i k p s.payments
    → has_success i es ≡ true
    → (p' : Payment) × (find k (handle_all es s).payments ≡ some p')
      × (p'.status ≡ PaymentStatus.completed)
success_completes i k p es s h c =
    let (p', f, st) = handle_all-final_status i k p es s h in
    (p', f, st ∙ success_wins i es p.status c)
