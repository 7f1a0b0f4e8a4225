-- ===== src/Services/Analytics/Trends.antt =====
-- The figures of the dashboard, of the trends and of the report agree.
use ride_sharing_backend.Common.{
  ℕ, ◌+◌, ◌-◌, ◌*◌, ◌≤◌, ◌<◌, ◌≡◌, refl, ◌∙◌, Bool, true, ◌&&◌, if◌then◌else◌, inl, inr, none, some,
  List, [], ◌∷◌, All, arith, ltb, ◌==◌, Bool-cases, length,
}
use ride_sharing_backend.Common.Table.{Table, count}
use ride_sharing_backend.Model.{
  User, Role, Ride, RideStatus, same_status, Payment, same_payment_status, PaymentStatus,
}
use ride_sharing_backend.Repositories.Reports.{
  RevenueTrend, add_revenue, revenue_trends, is_revenue, sum_revenue, group_counts, sum_counts,
  roles, ride_statuses, payment_statuses, is_paid, is_since, sum_amounts,
}
use ride_sharing_backend.Repositories.{same_role}
use ride_sharing_backend.Services.Analytics.{get_revenue_trends, get_dashboard, dashboard_of, day}
use ride_sharing_backend.Services.Report.{generate_summary, summary_of}
use ride_sharing_backend.Store.{Store, ok}

abbrev pub total_revenue : List RevenueTrend → ℕ
total_revenue [] = 0
total_revenue (b ∷ bs) = b.revenue + total_revenue bs

-- The periods rise strictly, so none stands twice.
abbrev pub IsAscending : List RevenueTrend → Type 0
IsAscending [] = Unit
IsAscending (b ∷ bs) = All (λ (c : RevenueTrend). b.period < c.period) bs × IsAscending bs

total_revenue-add_revenue :
    (p a : ℕ) (bs : List RevenueTrend) → total_revenue (add_revenue p a bs) ≡ a + total_revenue bs
total_revenue-add_revenue p a [] = omega arith
total_revenue-add_revenue p a (b ∷ bs) = ground (arith, total_revenue-add_revenue p a bs)

add_revenue_above :
    (q p a : ℕ) (bs : List RevenueTrend)
    → q < p
    → All (λ (c : RevenueTrend). q < c.period) bs
    → All (λ (c : RevenueTrend). q < c.period) (add_revenue p a bs)
add_revenue_above q p a [] lt h = (lt, tt)
add_revenue_above q p a (b ∷ bs) lt (h, hs) = elim (Bool-cases (p == b.period)) [
  | inl e ↦ rw e (h, hs)
  | inr e ↦ elim (Bool-cases (ltb p b.period)) [
    | inl e' ↦ rw (e, e') (lt, (h, hs))
    | inr e' ↦ rw (e, e') (h, add_revenue_above q p a bs lt hs)
  ]
]

above_weaker :
    (q p : ℕ) (bs : List RevenueTrend)
    → q < p
    → All (λ (c : RevenueTrend). p < c.period) bs
    → All (λ (c : RevenueTrend). q < c.period) bs
above_weaker q p [] lt h = tt
above_weaker q p (b ∷ bs) lt (h, hs) = (omega arith, above_weaker q p bs lt hs)

add_revenue-IsAscending :
    (p a : ℕ) (bs : List RevenueTrend) → IsAscending bs → IsAscending (add_revenue p a bs)
add_revenue-IsAscending p a [] h = (tt, tt)
add_revenue-IsAscending p a (b ∷ bs) (h, hs) = elim (Bool-cases (p == b.period)) [
  | inl e ↦ rw e (h, hs)
  | inr e ↦ elim (Bool-cases (ltb p b.period)) [
    | inl e' ↦
        let lt : p < b.period = ground arith in
        rw (e, e') ((lt, above_weaker p b.period bs lt h), (h, hs))
    | inr e' ↦
        rw (e, e')
          (add_revenue_above b.period p a bs (ground arith) h, add_revenue-IsAscending p a bs hs)
  ]
]

module _ (trunc : ℕ → ℕ) (from to : ℕ) where
  trends_total :
      (t : Table Payment) → total_revenue (revenue_trends trunc from to t) ≡ sum_revenue from to t
  trends_total [] = refl
  trends_total ((j, x) ∷ t) = elim (Bool-cases (is_revenue from to x)) [
    | inl e ↦ rw e (
        omega (
          arith,
          total_revenue-add_revenue _ x.amount (revenue_trends trunc from to t),
          trends_total t,
        ))
    | inr e ↦ rw e (omega (arith, trends_total t))
  ]

  trends-IsAscending : (t : Table Payment) → IsAscending (revenue_trends trunc from to t)
  trends-IsAscending [] = tt
  trends-IsAscending ((j, x) ∷ t) = elim (Bool-cases (is_revenue from to x)) [
    | inl e ↦
        rw e (
          add_revenue-IsAscending _ x.amount (revenue_trends trunc from to t)
            (trends-IsAscending t))
    | inr e ↦ rw e (trends-IsAscending t)
  ]

  -- The revenue trends of a period add up to the revenue that the report of the same period states, whatever the interval
  -- by which they are grouped, and their groups stand in ascending order, each once.
  pub get_revenue_trends_total :
      (s : Store)
      → (bs : List RevenueTrend) × (get_revenue_trends trunc from to s ≡ (ok bs, s))
        × (generate_summary from to s ≡ (ok (summary_of from to s), s))
        × (total_revenue bs ≡ (summary_of from to s).revenue)
        × IsAscending bs
  unfolding get_revenue_trends generate_summary
  get_revenue_trends_total s = (
    revenue_trends trunc from to s.payments,
    refl,
    refl,
    trends_total s.payments,
    trends-IsAscending s.payments,
  )

module _ {ℓ κ} {K : Type κ} {V : Type ℓ} (is_of : K → V → Bool) where
  -- The numbers of rows of each value, and how many of the values a row has.
  abbrev sums : List K → Table V → ℕ
  sums [] t = 0
  sums (k ∷ ks) t = count (λ _ v. is_of k v) t + sums ks t

  abbrev hits : List K → V → ℕ
  hits [] v = 0
  hits (k ∷ ks) v = (if is_of k v then 1 else 0) + hits ks v

  sum_counts-group_counts :
      (ks : List K) (t : Table V) → sum_counts (group_counts is_of ks t) ≡ sums ks t
  sum_counts-group_counts [] t = refl
  sum_counts-group_counts (k ∷ ks) t = elim (Bool-cases (count (λ _ v. is_of k v) t == 0)) [
    | inl e ↦
        let z : count (λ _ v. is_of k v) t ≡ 0 = ground arith in
        rw e (omega (arith, z, sum_counts-group_counts ks t))
    | inr e ↦ rw e (omega (arith, sum_counts-group_counts ks t))
  ]

  sums-empty : (ks : List K) → sums ks [] ≡ 0
  sums-empty [] = refl
  sums-empty (k ∷ ks) = omega (arith, sums-empty ks)

  sums-cons :
      (ks : List K) (j : ℕ) (v : V) (t : Table V) → sums ks ((j, v) ∷ t) ≡ hits ks v + sums ks t
  sums-cons [] j v t = omega arith
  sums-cons (k ∷ ks) j v t = omega (arith, sums-cons ks j v t)

  -- If every row has exactly one of the values, the groups add up to the rows.
  groups_total :
      (ks : List K)
      → ((v : V) → hits ks v ≡ 1)
      → (t : Table V) → sum_counts (group_counts is_of ks t) ≡ length t
  groups_total ks one t = sum_counts-group_counts ks t ∙ by_rows t
    where
      by_rows : (u : Table V) → sums ks u ≡ length u
      by_rows [] = sums-empty ks
      by_rows ((j, v) ∷ u) = omega (arith, sums-cons ks j v u, one v, by_rows u)

one_role : (r : Role) → hits (λ k (x : Role). same_role x k) roles r ≡ 1
one_role Role.passenger = refl
one_role Role.driver = refl
one_role Role.admin = refl

one_status : (x : RideStatus) → hits (λ k (y : RideStatus). same_status y k) ride_statuses x ≡ 1
one_status RideStatus.requested = refl
one_status RideStatus.accepted = refl
one_status RideStatus.arrived = refl
one_status RideStatus.in_progress = refl
one_status RideStatus.completed = refl
one_status RideStatus.cancelled = refl

one_payment_status :
    (x : PaymentStatus)
    → hits (λ k (y : PaymentStatus). same_payment_status y k) payment_statuses x ≡ 1
one_payment_status PaymentStatus.pending = refl
one_payment_status PaymentStatus.completed = refl
one_payment_status PaymentStatus.failed = refl
one_payment_status PaymentStatus.refunded = refl
one_payment_status PaymentStatus.partially_refunded = refl

sum_amounts_mono :
    (p q : Payment → Bool) (t : Table Payment)
    → ((x : Payment) → p x ≡ true → q x ≡ true)
    → sum_amounts p t ≤ sum_amounts q t
sum_amounts_mono p q [] h = omega arith
sum_amounts_mono p q ((j, x) ∷ t) h = elim (Bool-cases (p x)) [
  | inl e ↦ rw (e, h x e) (omega (arith, sum_amounts_mono p q t h))
  | inr e ↦ rw e (omega (arith, sum_amounts_mono p q t h))
]

is_since_earlier :
    (a b : ℕ) (x : Payment)
    → b ≤ a
    → (is_paid x.status && is_since (some a) x.paid_at) ≡ true
    → (is_paid x.status && is_since (some b) x.paid_at) ≡ true
is_since_earlier a b x le h = ground arith

-- The dashboard's figures fit together: the users by role add up to the total, which is the number of users; the rides by
-- status and the payments by status add up to the numbers of rides and payments; and the revenue of
-- the last week is part of that of the last month, which is part of that of all time.
pub get_dashboard_adds_up :
    (s : Store)
    → let d = dashboard_of s in
      (get_dashboard s ≡ (ok d, s))
      × (d.users_total ≡ length s.users)
      × (sum_counts d.users_by_role ≡ d.users_total)
      × (sum_counts d.rides_by_status ≡ length s.rides)
      × (sum_counts d.payments_by_status ≡ length s.payments)
      × (d.revenue_7_days ≤ d.revenue_30_days)
      × (d.revenue_30_days ≤ d.revenue_all_time)
unfolding get_dashboard
get_dashboard_adds_up s = (
  refl,
  groups_total (λ k (u : User). same_role u.role k) roles (λ u. one_role u.role) s.users,
  refl,
  groups_total (λ k (r : Ride). same_status r.status k) ride_statuses (λ r. one_status r.status)
      s.rides,
  groups_total (λ k (x : Payment). same_payment_status x.status k) payment_statuses
      (λ x. one_payment_status x.status) s.payments,
  sum_amounts_mono
      (λ (x : Payment). is_paid x.status && is_since (some (s.now - 7 * day)) x.paid_at)
      (λ (x : Payment). is_paid x.status && is_since (some (s.now - 30 * day)) x.paid_at) s.payments
      (λ x. is_since_earlier (s.now - 7 * day) (s.now - 30 * day) x (omega arith)),
  sum_amounts_mono
      (λ (x : Payment). is_paid x.status && is_since (some (s.now - 30 * day)) x.paid_at)
      (λ (x : Payment). is_paid x.status && is_since none x.paid_at) s.payments
      (λ x h. ground arith),
)
