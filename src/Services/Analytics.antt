-- ===== src/Services/Analytics.antt =====
-- services/analytics.service.js.
pub mod Trends
use ride_sharing_backend.Common.{ℕ, ◌-◌, ◌*◌, Option, none, some, List}
use ride_sharing_backend.Common.Table.{Table}
use ride_sharing_backend.Model.{Role, RideStatus, Driver, DriverVerificationStatus, PaymentStatus}
use ride_sharing_backend.Repositories.Reports.{
  count_users_by_role, count_drivers_by_verification_status, count_payments_by_status, sum_counts,
  count_new_users, count_vehicles, VehicleCounts, count_active_rides, count_rides_by_status,
  count_online_drivers, sum_revenue_since, ride_trends, revenue_trends, RideTrend, RevenueTrend,
  TopBy, top_drivers,
}
use ride_sharing_backend.Store.{Store, Action, gets}

-- `DAY_MS`
abbrev pub day : ℕ
day = 24 * 60 * 60 * 1000

pub record Dashboard : Type 0 where
  pub generated_at : ℕ
  pub users_total : ℕ
  pub users_by_role : List (Role × ℕ)
  pub new_last_7_days : ℕ
  pub drivers_by_verification_status : List (DriverVerificationStatus × ℕ)
  pub online_now : ℕ
  pub vehicles : VehicleCounts
  pub rides_active : ℕ
  pub rides_by_status : List (RideStatus × ℕ)
  pub revenue_all_time : ℕ
  pub revenue_7_days : ℕ
  pub revenue_30_days : ℕ
  pub payments_by_status : List (PaymentStatus × ℕ)

abbrev pub dashboard_of : Store → Dashboard
dashboard_of s = record {
  generated_at = s.now;
  users_total = sum_counts (count_users_by_role s.users);
  users_by_role = count_users_by_role s.users;
  new_last_7_days = count_new_users (s.now - 7 * day) s.now s.users;
  drivers_by_verification_status = count_drivers_by_verification_status s.drivers;
  online_now = count_online_drivers s.drivers;
  vehicles = count_vehicles s.vehicles;
  rides_active = count_active_rides s.rides;
  rides_by_status = count_rides_by_status s.rides;
  revenue_all_time = sum_revenue_since none s.payments;
  revenue_7_days = sum_revenue_since (some (s.now - 7 * day)) s.payments;
  revenue_30_days = sum_revenue_since (some (s.now - 30 * day)) s.payments;
  payments_by_status = count_payments_by_status s.payments;
}

unfoldable pub get_dashboard : Action Dashboard
get_dashboard = gets dashboard_of

unfoldable pub get_ride_trends : (ℕ → ℕ) → ℕ → ℕ → Action (List RideTrend)
get_ride_trends trunc from to = gets (λ s. ride_trends trunc from to s.rides)

unfoldable pub get_revenue_trends : (ℕ → ℕ) → ℕ → ℕ → Action (List RevenueTrend)
get_revenue_trends trunc from to = gets (λ s. revenue_trends trunc from to s.payments)

unfoldable pub get_top_drivers : TopBy → ℕ → Action (Table Driver)
get_top_drivers by limit = gets (λ s. top_drivers by limit s.drivers)
