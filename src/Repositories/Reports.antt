-- ===== src/Repositories/Reports.antt =====
-- repositories/report.repository.js and analytics.repository.js: aggregating reads. A period that
-- DATE_TRUNC gives is a number; an average is kept as its sum and its count.
use ride_sharing_backend.Common.{
  ℕ, ◌+◌, ◌-◌, Bool, true, false, ◌&&◌, Option, none, some, List, [], ◌∷◌, ltb, leb, ◌==◌,
  if◌then◌else◌, holds, is_some, length, take,
}
use ride_sharing_backend.Common.Table.{Table, count, find_many}
use ride_sharing_backend.Model.{
  User, Role, Driver, DriverVerificationStatus, same_verification, same_payment_status, Vehicle,
  Ride, RideStatus, same_status, Payment, PaymentStatus,
}
use ride_sharing_backend.Repositories.Rides.{is_active_status}
use ride_sharing_backend.Repositories.Users.{same_role}

-- `{ gte: from, lt: to }` on a nullable time.
abbrev pub is_within : ℕ → ℕ → Option ℕ → Bool
is_within from to = holds (λ t. leb from t && ltb t to)

abbrev pub count_completed_rides : ℕ → ℕ → Table Ride → ℕ
count_completed_rides from to =
    count (λ _ r. same_status r.status RideStatus.completed && is_within from to r.completed_at)

abbrev pub count_cancelled_rides : ℕ → ℕ → Table Ride → ℕ
count_cancelled_rides from to =
    count (λ _ r. same_status r.status RideStatus.cancelled && is_within from to r.cancelled_at)

abbrev pub is_paid : PaymentStatus → Bool
is_paid status = same_payment_status status PaymentStatus.completed

-- `aggregate({ where, _sum: { amount: true } })`
abbrev pub sum_amounts : (Payment → Bool) → Table Payment → ℕ
sum_amounts p [] = 0
sum_amounts p ((_, x) ∷ t) = (if p x then x.amount else 0) + sum_amounts p t

abbrev pub is_revenue : ℕ → ℕ → Payment → Bool
is_revenue from to x = is_paid x.status && is_within from to x.paid_at

abbrev pub sum_revenue : ℕ → ℕ → Table Payment → ℕ
sum_revenue from to = sum_amounts (is_revenue from to)

abbrev pub is_since : Option ℕ → Option ℕ → Bool
is_since none paid_at = true
is_since (some since) paid_at = holds (leb since) paid_at

abbrev pub sum_revenue_since : Option ℕ → Table Payment → ℕ
sum_revenue_since since = sum_amounts (λ x. is_paid x.status && is_since since x.paid_at)

abbrev pub count_new_users : ℕ → ℕ → Table User → ℕ
count_new_users from to = count (λ _ u. is_within from to (some u.created_at))

abbrev pub count_new_drivers : ℕ → ℕ → Table Driver → ℕ
count_new_drivers from to = count (λ _ d. is_within from to (some d.created_at))

abbrev pub count_online_drivers : Table Driver → ℕ
count_online_drivers = count (λ _ d. d.is_online)

-- The users that a report goes to.
abbrev pub list_active_admins : Table User → Table User
list_active_admins = find_many (λ _ u. same_role u.role Role.admin && u.is_active)

-- `groupBy` and `toCountMap`: the values of an enum that occur, each with its number of rows.
abbrev pub group_counts {ℓ κ} :
    {K : Type κ} {V : Type ℓ} → (K → V → Bool) → List K → Table V → List (K × ℕ)
group_counts is_of [] t = []
group_counts is_of (k ∷ ks) t =
    let rest = group_counts is_of ks t in
    let n = count (λ _ v. is_of k v) t in if n == 0 then rest else (k, n) ∷ rest

-- `Object.values(counts).reduce((sum, n) => sum + n, 0)`
abbrev pub sum_counts {κ} : {K : Type κ} → List (K × ℕ) → ℕ
sum_counts [] = 0
sum_counts ((_, n) ∷ ks) = n + sum_counts ks

abbrev pub roles : List Role
roles = Role.passenger ∷ Role.driver ∷ Role.admin ∷ []

abbrev pub count_users_by_role : Table User → List (Role × ℕ)
count_users_by_role = group_counts (λ k u. same_role u.role k) roles

abbrev pub ride_statuses : List RideStatus
ride_statuses =
    RideStatus.requested ∷ RideStatus.accepted ∷ RideStatus.arrived ∷ RideStatus.in_progress
    ∷ RideStatus.completed ∷ RideStatus.cancelled ∷ []

abbrev pub count_rides_by_status : Table Ride → List (RideStatus × ℕ)
count_rides_by_status = group_counts (λ k r. same_status r.status k) ride_statuses

abbrev pub driver_statuses : List DriverVerificationStatus
driver_statuses =
    DriverVerificationStatus.pending ∷ DriverVerificationStatus.approved
    ∷ DriverVerificationStatus.rejected ∷ DriverVerificationStatus.suspended ∷ []

abbrev pub count_drivers_by_verification_status : Table Driver → List (DriverVerificationStatus × ℕ)
count_drivers_by_verification_status =
    group_counts (λ k d. same_verification d.verification_status k) driver_statuses

abbrev pub payment_statuses : List PaymentStatus
payment_statuses =
    PaymentStatus.pending ∷ PaymentStatus.completed ∷ PaymentStatus.failed ∷ PaymentStatus.refunded
    ∷ PaymentStatus.partially_refunded ∷ []

abbrev pub count_payments_by_status : Table Payment → List (PaymentStatus × ℕ)
count_payments_by_status = group_counts (λ k x. same_payment_status x.status k) payment_statuses

abbrev pub count_active_rides : Table Ride → ℕ
count_active_rides = count (λ _ r. is_active_status r.status)

pub record VehicleCounts : Type 0 where
  pub total : ℕ
  pub verified : ℕ
  pub pending_verification : ℕ

abbrev pub count_vehicles : Table Vehicle → VehicleCounts
count_vehicles t = record {
  total = length t;
  verified = count (λ _ v. v.is_verified) t;
  pending_verification = length t - count (λ _ v. v.is_verified) t;
}

-- A row of `revenueTrends`.
pub record RevenueTrend : Type 0 where
  pub period : ℕ
  pub revenue : ℕ
  pub payment_count : ℕ

-- One payment in its group, with the groups in ascending order.
abbrev pub add_revenue : ℕ → ℕ → List RevenueTrend → List RevenueTrend
add_revenue p a [] = record { period = p; revenue = a; payment_count = 1 } ∷ []
add_revenue p a (b ∷ bs) =
    let rest = add_revenue p a bs in
    if p == b.period
    then record b { revenue = a + b.revenue; payment_count = 1 + b.payment_count } ∷ bs
    else if ltb p b.period
    then record { period = p; revenue = a; payment_count = 1 } ∷ b ∷ bs
    else b ∷ rest

abbrev paid_time : Option ℕ → ℕ
paid_time none = 0
paid_time (some t) = t

-- `SELECT DATE_TRUNC(...) ... WHERE ... GROUP BY period ORDER BY period ASC`, by the truncation of
-- the interval.
abbrev pub revenue_trends : (ℕ → ℕ) → ℕ → ℕ → Table Payment → List RevenueTrend
revenue_trends trunc from to [] = []
revenue_trends trunc from to ((_, x) ∷ t) =
    let rest = revenue_trends trunc from to t in
    if is_revenue from to x then add_revenue (trunc (paid_time x.paid_at)) x.amount rest else rest

-- A row of `rideTrends`; `avgFare` is the quotient of the last two.
pub record RideTrend : Type 0 where
  pub period : ℕ
  pub requested : ℕ
  pub completed : ℕ
  pub cancelled : ℕ
  pub fares : ℕ
  pub fare_count : ℕ

abbrev fare_or_zero : Option ℕ → ℕ
fare_or_zero none = 0
fare_or_zero (some fare) = fare

abbrev one_if : Bool → ℕ
one_if true = 1
one_if false = 0

abbrev with_ride_counted : Ride → RideTrend → RideTrend
with_ride_counted r b =
    let done = same_status r.status RideStatus.completed in
    record b {
      requested = 1 + b.requested;
      completed = one_if done + b.completed;
      cancelled = one_if (same_status r.status RideStatus.cancelled) + b.cancelled;
      fares = (if done then fare_or_zero r.actual_fare else 0) + b.fares;
      fare_count = one_if (done && is_some r.actual_fare) + b.fare_count;
    }

abbrev empty_trend : ℕ → RideTrend
empty_trend p = record {
  period = p;
  requested = 0;
  completed = 0;
  cancelled = 0;
  fares = 0;
  fare_count = 0;
}

abbrev pub add_ride : ℕ → Ride → List RideTrend → List RideTrend
add_ride p r [] = with_ride_counted r (empty_trend p) ∷ []
add_ride p r (b ∷ bs) =
    let rest = add_ride p r bs in
    if p == b.period
    then with_ride_counted r b ∷ bs
    else if ltb p b.period
    then with_ride_counted r (empty_trend p) ∷ b ∷ bs
    else b ∷ rest

abbrev pub ride_trends : (ℕ → ℕ) → ℕ → ℕ → Table Ride → List RideTrend
ride_trends trunc from to [] = []
ride_trends trunc from to ((_, r) ∷ t) =
    let rest = ride_trends trunc from to t in
    if is_within from to (some r.requested_at) then add_ride (trunc r.requested_at) r rest else rest

-- `SORT_FIELD`
pub data TopBy : Type 0 where
  earnings rides rating : TopBy

abbrev pub sort_field : TopBy → Driver → ℕ
sort_field TopBy.earnings d = d.total_earnings
sort_field TopBy.rides d = d.total_rides
sort_field TopBy.rating d = d.average_rating

abbrev is_ranked : TopBy → Driver → Bool
is_ranked TopBy.rating d = ltb 0 d.total_rides
is_ranked _ d = true

abbrev pub insert_descending : TopBy → ℕ × Driver → Table Driver → Table Driver
insert_descending by x [] = x ∷ []
insert_descending by x (y ∷ ys) =
    let rest = insert_descending by x ys in
    if leb (sort_field by y.1) (sort_field by x.1) then x ∷ y ∷ ys else y ∷ rest

abbrev pub sort_descending : TopBy → Table Driver → Table Driver
sort_descending by [] = []
sort_descending by (x ∷ xs) = insert_descending by x (sort_descending by xs)

abbrev pub top_drivers : TopBy → ℕ → Table Driver → Table Driver
top_drivers by limit t = take limit (sort_descending by (find_many (λ _ d. is_ranked by d) t))
