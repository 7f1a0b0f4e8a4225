-- ===== src/Services/Report.antt =====
-- services/report.service.js. The body of the mail is left out.
use ride_sharing_backend.Common.{ℕ, suc, [], ◌∷◌}
use ride_sharing_backend.Common.Table.{Table}
use ride_sharing_backend.Model.{User, NotificationChannel}
use ride_sharing_backend.Repositories.Reports.{
  count_completed_rides, count_cancelled_rides, sum_revenue, count_new_users, count_new_drivers,
  count_online_drivers, list_active_admins,
}
use ride_sharing_backend.Services.Notification.{notify}
use ride_sharing_backend.Store.{Store, Action, Result, ok, err, gets, pure, ◌>>=◌, ◌>>◌}

pub record Summary : Type 0 where
  pub from : ℕ
  pub to : ℕ
  pub rides_completed : ℕ
  pub rides_cancelled : ℕ
  pub revenue : ℕ
  pub new_users : ℕ
  pub new_drivers : ℕ
  pub currently_online_drivers : ℕ

abbrev pub summary_of : ℕ → ℕ → Store → Summary
summary_of from to s = record {
  from = from;
  to = to;
  rides_completed = count_completed_rides from to s.rides;
  rides_cancelled = count_cancelled_rides from to s.rides;
  revenue = sum_revenue from to s.payments;
  new_users = count_new_users from to s.users;
  new_drivers = count_new_drivers from to s.drivers;
  currently_online_drivers = count_online_drivers s.drivers;
}

unfoldable pub generate_summary : ℕ → ℕ → Action Summary
generate_summary from to = gets (summary_of from to)

-- The first failure of two.
abbrev first_error : Result (Unit {0}) → Result (Unit {0}) → Result (Unit {0})
first_error (ok _) r = r
first_error (err e) r = err e

-- `Promise.all` over the admins: every send is tried, and the first failure is thrown. The ids of
-- the notifications count from the given one.
unfoldable pub notify_all : ℕ → Table User → Action (Unit {0})
notify_all id [] s = (ok tt, s)
notify_all id ((admin_id, u) ∷ admins) s =
    let (r, s') = notify id admin_id u.email NotificationChannel.email "Daily Ops Summary" s in
    let (rs, s'') = notify_all (suc id) admins s' in (first_error r rs, s'')

unfoldable pub generate_and_email_summary : ℕ → ℕ → ℕ → Action Summary
generate_and_email_summary id from to = do
  summary ← generate_summary from to
  admins ← gets (λ s. list_active_admins s.users)
  notify_all id admins
  pure summary
