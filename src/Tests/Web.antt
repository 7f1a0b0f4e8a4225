-- ===== src/Tests/Web.antt =====
-- Requests through the routers, and the web client, at concrete inputs.
use ride_sharing_backend.Client.{
  Client, Session, reload_page, remove_session, persist_sessions, toast,
}
use ride_sharing_backend.Client.App.{NavItem, log_out_locally, active_label, nav_items}
use ride_sharing_backend.Client.Api
use ride_sharing_backend.Client.Api.{Tokens}
use ride_sharing_backend.Client.Stored.{Event, run, run-reload_page, IsStored}
use ride_sharing_backend.Common.{
  ℕ, ◌+◌, ◌≡◌, ◌==◌, String, refl, inr, true, false, ◌⊎◌, none, some, List, [], ◌∷◌, arith,
}
use ride_sharing_backend.Errors.{ApiError, api, unauthorized}
use ride_sharing_backend.Http.{Config}
use ride_sharing_backend.Http.Admin.{AdminEndpoint, AccountEndpoint, CouponEndpoint}
use ride_sharing_backend.Http.Guards.{admin_router_closed, banned_user_shut_out}
use ride_sharing_backend.Http.Rated.{
  Submission, HasAverages, IsAverage, run as run_ratings, run-HasAverages,
}
use ride_sharing_backend.Http.Rides.{RideEndpoint}
use ride_sharing_backend.Http.Routes.{Protected, Endpoint, serve}
use ride_sharing_backend.Model.{Role}
use ride_sharing_backend.Services.Admin.{AccessPayload, Bearer}
use ride_sharing_backend.Sockets.{Socket}
use ride_sharing_backend.Sockets.Spaced.{
  Pings, kept, IsSpaced, after_pings, accept_all, after_pings-IsSpaced,
}
use ride_sharing_backend.Store.{at_time, err}
use ride_sharing_backend.Tests.Samples.{
  empty, here, find_all, sample_user, with_ride, completed_ride,
}

abbrev config : Config
config = record {
  search = find_all;
  distance = λ _ _. 0;
  contains = λ _ _. true;
  trunc = λ t. t;
  hash = λ n. n + 1;
  bcrypt_hash = λ n. n + 1;
  bcrypt_compare = λ p h. p + 1 == h;
  lock_key = λ _. 7;
  access_ttl = 900;
  refresh_ttl = 4000;
}

abbrev passenger : AccessPayload
passenger = record { sub = 1; role = Role.passenger }

abbrev admin_user : AccessPayload
admin_user = record { sub = 9; role = Role.admin }

-- A passenger asks for the list of coupons.
admin_router_closed_example :
    (x : ApiError) × (serve config
        (Bearer.verified passenger)
        (Endpoint.protected
          (Protected.admin (AdminEndpoint.coupons (CouponEndpoint.list 1 10 none))))
        empty
      ≡ (err (api x), empty))
    × ((x.status_code ≡ 401) ⊎ (x.status_code ≡ 403))
admin_router_closed_example =
    admin_router_closed config (Bearer.verified passenger)
      (AdminEndpoint.coupons (CouponEndpoint.list 1 10 none)) empty refl

-- Passenger 1 is deactivated by admin 9, and then asks for a ride.
banned_user_shut_out_example :
    let t =
      (serve config
        (Bearer.verified admin_user)
        (Endpoint.protected
          (Protected.admin (AdminEndpoint.accounts (AccountEndpoint.user_status 1 false))))
        empty).1 in
    serve config
      (Bearer.verified passenger)
      (Endpoint.protected (Protected.rides (RideEndpoint.get 40)))
      (at_time 1500 t)
    ≡ (
      err (api (unauthorized "Your session has been revoked. Please log in again.")),
      at_time 1500 t,
    )
banned_user_shut_out_example =
    banned_user_shut_out config admin_user 1 (sample_user Role.passenger) empty
      (Protected.rides (RideEndpoint.get 40)) Role.passenger 1500 refl refl refl refl refl
      (omega arith)

abbrev session : Role → ℕ → Session
session role n = record { user = sample_user role; access_token = n; refresh_token = n + 1 }

-- A passenger and a driver are logged in.
abbrev page : Client
page = record {
  sessions = (1, session Role.passenger 100) ∷ (2, session Role.driver 200) ∷ [];
  active_user_id = some 1;
  view = "dashboard";
  adding_account = false;
  toasts = [];
  stored_sessions = (1, session Role.passenger 100) ∷ (2, session Role.driver 200) ∷ [];
  stored_active = some 1;
}

abbrev renewed : Tokens
renewed = record { access_token = 201; refresh_token = none }

abbrev page_events : List Event
page_events =
    Event.requested false 1 401 200 [] (some renewed)
    ∷ Event.removed 1
    ∷ Event.reloaded
    ∷ Event.switched 2
    ∷ []

run-reload_page_example :
    let d = run page_events page in
    ((reload_page d).sessions ≡ d.sessions)
    × ((id : ℕ) → d.active_user_id ≡ some id → (reload_page d).active_user_id ≡ some id)
unfolding IsStored
run-reload_page_example = run-reload_page page_events page (refl, refl)

-- The passenger sends a value that is off the scale, then 5; the driver answers with 4.
abbrev submission : AccessPayload → ℕ → Submission
submission u value = record { user = u; ride_id = 40; value = value; comment = none }

abbrev driver : AccessPayload
driver = record { sub = 2; role = Role.driver }

abbrev submissions : List Submission
submissions = submission passenger 9 ∷ submission passenger 5 ∷ submission driver 4 ∷ []

five : IsAverage 500
five = inr (omega arith, omega arith)

run-HasAverages_example : HasAverages (run_ratings "value" submissions (with_ride completed_ride))
unfolding HasAverages
run-HasAverages_example =
    run-HasAverages "value" submissions (with_ride completed_ride)
      (tt, (five, (five, tt)), (five, tt))

-- A driver's client emits four payloads: the second comes too early, the third does not parse.
abbrev connection : Socket
connection = record { user_id = 2; role = Role.driver; last_location_at = 0 }

abbrev pings : Pings
pings = (5000, some here) ∷ (6000, some here) ∷ (7000, none) ∷ (9500, some here) ∷ []

kept_three : kept pings 0 ≡ (5000, some here) ∷ (7000, none) ∷ (9500, some here) ∷ []
unfolding kept
kept_three = refl

after_pings-IsSpaced_example :
    let handled = kept pings 0 in
    IsSpaced 0 handled
    × (at_time 0 (after_pings (λ _ _. 0) pings connection empty).1
        ≡ at_time 0 (accept_all (λ _ _. 0) handled connection empty))
after_pings-IsSpaced_example = after_pings-IsSpaced (λ _ _. 0) pings connection empty

-- An admin who logs out on the view of the admin leaves it to the passenger whose session is next, though the
-- passenger's menu does not have it.
abbrev admin_page : Client
admin_page = record page {
  sessions = (1, session Role.passenger 100) ∷ (9, session Role.admin 300) ∷ [];
  active_user_id = some 9;
  view = "admin";
}

abbrev labels : List NavItem → List String
labels [] = []
labels (n ∷ ns) = n.label ∷ labels ns

view_left_over :
    let c = log_out_locally admin_page in
    (c.active_user_id ≡ some 1)
    × (c.view ≡ "admin")
    × (active_label c ≡ "Admin")
    × (labels (nav_items c)
        ≡ "Dashboard" ∷ "Rides" ∷ "Wallet" ∷ "Ratings" ∷ "Notifications" ∷ "Profile" ∷ [])
unfolding log_out_locally remove_session persist_sessions toast active_label nav_items
view_left_over = (refl, refl, refl, refl)
