-- ===== src/Tests/Office.antt =====
-- Vehicles, administration, jobs and reports at concrete inputs.
use ride_sharing_backend.Common.{
  ℕ, ◌+◌, ◌≤◌, ◌≡◌, refl, Bool, true, false, none, some, List, [], ◌∷◌, arith, inl, inr, length,
  ◌/◌, ◌==◌,
}
use ride_sharing_backend.Common.Table.{find}
use ride_sharing_backend.Errors.{Thrown, api, unauthorized, other}
use ride_sharing_backend.Jobs.Delivery.{runs_of, status_of, run_job_settles}
use ride_sharing_backend.Jobs.Redelivery.{run_job_redelivered}
use ride_sharing_backend.Jobs.Email.{Run, run_job}
use ride_sharing_backend.Model.{
  Role, User, NotificationChannel, NotificationStatus, Notification, EmailJob, Payment,
  PaymentStatus,
}
use ride_sharing_backend.Repositories.{with_active}
use ride_sharing_backend.Repositories.Reports.{RevenueTrend, sum_counts}
use ride_sharing_backend.Services.Admin.{Bearer, set_user_active_status, authenticate}
use ride_sharing_backend.Services.Admin.Banned.{ban_locks_out, ban_without_redis}
use ride_sharing_backend.Services.Analytics.{get_revenue_trends, get_dashboard, dashboard_of}
use ride_sharing_backend.Services.Analytics.Trends.{
  total_revenue, IsAscending, get_revenue_trends_total, get_dashboard_adds_up,
}
use ride_sharing_backend.Services.Auth.Sessions.{login, refresh}
use ride_sharing_backend.Services.Report.{generate_summary, summary_of}
use ride_sharing_backend.Services.Token.{Fresh, refresh_row, reuse_error}
use ride_sharing_backend.Services.Token.Rotation.{open_sessions}
use ride_sharing_backend.Repositories.{find_driver_by_user, promote_to_driver, with_driver_role}
use ride_sharing_backend.Services.Auth.{sanitize_user}
use ride_sharing_backend.Services.Driver.{go_online}
use ride_sharing_backend.Services.Ride.Matching.{accept_ride}
use ride_sharing_backend.Services.User.{become_driver, or_type_error}
use ride_sharing_backend.Services.User.Promotion.{not_approved, become_driver_waits}
use ride_sharing_backend.Services.Vehicle.Verified.{
  FleetCall, run, notes, AreNoted, identity_of, run-AreNoted,
}
use ride_sharing_backend.Services.Vehicle.{VehiclePatch}
use ride_sharing_backend.Store.{Store, AuditAction, at_time, ok, err}
use ride_sharing_backend.Tests.Samples.{empty, here, card_payment, sample_user, sample_vehicle}

abbrev new_plate : VehiclePatch
new_plate = record {
  type = none;
  make = none;
  model = none;
  year = none;
  color = none;
  plate_number = some "CD 2";
  capacity = none;
}

-- A driver changes the plate of a verified vehicle, and an admin verifies it again.
abbrev fleet_calls : List FleetCall
fleet_calls = FleetCall.edits 2 30 new_plate ∷ FleetCall.reviews 30 true 9 ∷ []

run-AreNoted_example :
    AreNoted
      (notes fleet_calls empty
        ((30, identity_of (sample_vehicle 20)) ∷ (31, identity_of (sample_vehicle 21)) ∷ []))
      (run fleet_calls empty).vehicles
run-AreNoted_example =
    run-AreNoted fleet_calls empty
      ((30, identity_of (sample_vehicle 20)) ∷ (31, identity_of (sample_vehicle 21)) ∷ [])
      ((λ _. inl (refl, refl)), ((λ _. inr (inl (refl, refl))), tt))

-- The user whose account is deactivated has a session.
abbrev plus_one : ℕ → ℕ
plus_one n = n + 1

abbrev one_session : Store
one_session = record empty { refresh_tokens = (100, refresh_row 1 8 5000) ∷ [] }

abbrev fresh : Fresh
fresh = record { id = 101; raw = 9 }

ban_locks_out_example :
    let t = (set_user_active_status 900 1 false 9 one_session).1 in
    (open_sessions 1 t.refresh_tokens ≡ 0)
    × ((refresh plus_one 4000 (some 7) fresh (at_time 1500 t)).0 ≡ err (api reuse_error))
    × ((authenticate
          (Bearer.verified (record { sub = 1; role = Role.passenger }))
          (at_time 1600 t)).0
        ≡ err (api (unauthorized "Your session has been revoked. Please log in again.")))
    × ((e : Thrown) × ((login plus_one 4000
            (λ p h. p == h)
            (λ _. 7)
            "ann@example.com"
            99
            fresh
            (at_time 1500 t)).0
          ≡ err e))
    × (t.audit_logs
        ≡ record { actor_id = 9; action = AuditAction.user_deactivated; entity_id = 1 } ∷ [])
ban_locks_out_example =
    ban_locks_out 900 1 9 (sample_user Role.passenger) one_session refl refl plus_one 4000 7 100
      (refresh_row 1 8 5000) fresh (λ p h. p == h) (λ _. 7) "ann@example.com" 99 Role.passenger 1500
      1600 refl refl refl refl (omega arith)

abbrev without_redis : Store
without_redis = record one_session { redis = record (empty.redis) { is_up = false } }

ban_without_redis_example :
    let (r, t) = set_user_active_status 900 1 false 9 without_redis in
    (r ≡ err (other "Redis is unreachable"))
    × (t.audit_logs ≡ [])
    × (find 1 t.users ≡ some (with_active false (sample_user Role.passenger)))
    × (open_sessions 1 t.refresh_tokens ≡ 0)
ban_without_redis_example =
    ban_without_redis 900 1 9 (sample_user Role.passenger) without_redis refl refl refl

abbrev pending : Notification
pending = record {
  user_id = 1;
  channel = NotificationChannel.email;
  title = "Verify your email";
  status = NotificationStatus.pending;
  is_read = false;
  sent_at = none;
}

abbrev job : EmailJob
job = record { notification_id = 80; to = "ann@example.com"; subject = "Verify your email" }

abbrev with_job : Store
with_job = record empty { notifications = (80, pending) ∷ [] }

abbrev answers : List (ℕ × Bool)
answers = (1000, false) ∷ (6000, true) ∷ (16000, true) ∷ []

-- The second answer takes the mail.
run_job_settles_example :
    let t = run_job 1 0 0 (runs_of answers) job with_job in
    (status_of 80 t ≡ some NotificationStatus.sent) × (t.emails_sent ≡ job ∷ [])
run_job_settles_example = run_job_settles 1 job pending answers with_job refl refl (omega arith)

-- The queue redelivers a stalled job once. One crash: two mails, and no third; two crashes: two mails.
run_job_redelivered_example :
    let t = run_job 1 0 0 ((1000, Run.crashes) ∷ (2000, Run.delivers) ∷ []) job with_job in
    (length
        (run_job 1 0 0
          ((1000, Run.crashes) ∷ (2000, Run.crashes) ∷ (3000, Run.delivers) ∷ [])
          job
          with_job).emails_sent
      ≤ 2)
    × (length t.emails_sent ≡ 2)
    × (status_of 80 t ≡ some NotificationStatus.sent)
    × ((run_job 1 1 0 ((3000, Run.delivers) ∷ []) job t).emails_sent ≡ t.emails_sent)
run_job_redelivered_example =
    run_job_redelivered 1 job pending
      ((1000, Run.crashes) ∷ (2000, Run.crashes) ∷ (3000, Run.delivers) ∷ []) (1000 ∷ []) 2000 1 0
      ((3000, Run.delivers) ∷ []) with_job refl refl (omega arith)

-- Two payments of one day, and one of the next.
abbrev paid : ℕ → ℕ → Payment
paid amount at = record card_payment {
  amount = amount;
  status = PaymentStatus.completed;
  paid_at = some at;
}

abbrev with_payments : Store
with_payments = record empty {
  payments = (61, paid 1300 50) ∷ (62, paid 700 120) ∷ (63, paid 500 20) ∷ [];
}

get_revenue_trends_total_example :
    (bs : List RevenueTrend) × (get_revenue_trends (λ t. t / 100) 10 200 with_payments
      ≡ (ok bs, with_payments))
    × (generate_summary 10 200 with_payments
        ≡ (ok (summary_of 10 200 with_payments), with_payments))
    × (total_revenue bs ≡ 2500)
    × IsAscending bs
get_revenue_trends_total_example = get_revenue_trends_total (λ t. t / 100) 10 200 with_payments

get_dashboard_adds_up_example :
    let d = dashboard_of with_payments in
    (get_dashboard with_payments ≡ (ok d, with_payments))
    × (d.users_total ≡ 2)
    × (sum_counts d.users_by_role ≡ d.users_total)
    × (sum_counts d.rides_by_status ≡ 0)
    × (sum_counts d.payments_by_status ≡ 3)
    × (d.revenue_7_days ≤ d.revenue_30_days)
    × (d.revenue_30_days ≤ d.revenue_all_time)
get_dashboard_adds_up_example = get_dashboard_adds_up with_payments

-- Passenger 1 becomes a driver.
abbrev promoted : Store
promoted = (become_driver 1 22 "L 9" 9999 empty).1

promoted_ok :
    become_driver 1 22 "L 9" 9999 empty
    ≡ (ok (sanitize_user (with_driver_role (sample_user Role.passenger))), promoted)
unfolding become_driver or_type_error promote_to_driver
promoted_ok = refl

become_driver_waits_example :
    let w = at_time 5000 promoted in
    ((was : User) × (find 1 (empty.users) ≡ some was) × (was.role ≡ Role.passenger))
    × (find_driver_by_user 1 (empty.drivers) ≡ none)
    × (go_online 1 here w ≡ (err not_approved, w))
    × (accept_ride 1 40 w ≡ (err not_approved, w))
    × ((e : Thrown) × (become_driver 1 23 "L 8" 9999 w ≡ (err e, w)))
become_driver_waits_example =
    become_driver_waits 1 22 "L 9" 9999
      (sanitize_user (with_driver_role (sample_user Role.passenger))) empty promoted promoted_ok
      5000 here 40 23 "L 8" 9999
