-- ===== src/Tests/Rides.antt =====
-- The ride service at concrete inputs.
use ride_sharing_backend.Common.{
  leb, inl, inr, ◌⊎◌, true, ℕ, ◌≡◌, refl, Option, none, some, List, [], ◌∷◌, arith,
}
use ride_sharing_backend.Common.Table.{find}
use ride_sharing_backend.Model.{Ride, RideStatus}
use ride_sharing_backend.Repositories.{
  assign, create_ride, record_status, try_assign_driver, set_available, update_driver, update_ride,
  increment_driver_stats, increment_passenger_stats,
}
use ride_sharing_backend.Services.Ride.Expiry.{expire_assigned}
use ride_sharing_backend.Services.Ride.Expiry.Skipped.{expire_assigned_late}
use ride_sharing_backend.Common.Table.{update}
use ride_sharing_backend.Repositories.{with_available}
use ride_sharing_backend.Services.Ride.History.{
  Call, run, after, run-Life, run-AllConsistent, run-AtMostOneActive,
}
use ride_sharing_backend.Services.Ride.Lifecycle.Rows.{Life, AllConsistent}
use ride_sharing_backend.Services.Ride.Lifecycle.Passengers.{AtMostOneActive}
use ride_sharing_backend.Services.Ride.{without_otp}
use ride_sharing_backend.Services.Ride.Trip.{to_arrived}
use ride_sharing_backend.Services.Ride.Views.{get_ride, is_admin}
use ride_sharing_backend.Services.Ride.Secrecy.{DriverAnswers-blank, get_ride_private}
use ride_sharing_backend.Services.Ride.Sorting.{IsSorted, count_offers}
use ride_sharing_backend.Services.Ride.Nearby.{list_nearby-IsSorted}
use ride_sharing_backend.Services.Geo.{Geosearch}
use ride_sharing_backend.Repositories.{passenger_user, driver_user}
use ride_sharing_backend.Model.{Role}
use ride_sharing_backend.Store.{Store, RideOffer, ok}
use ride_sharing_backend.Services.Ride.Race.{race, race_first_wins}
use ride_sharing_backend.Services.Ride.Trip.Guessing.{guess_all, otp_five_guesses}
use ride_sharing_backend.Services.Ride.{
  get_own_passenger, get_own_driver, reload, emit_to_passenger, get_assigned_ride_in_status,
}
use ride_sharing_backend.Services.Ride.Request.{
  request_ride, publish_request, dispatch_ride_offer, offer_to, sanitize_ride_offer,
}
use ride_sharing_backend.Services.Ride.Matching.{
  list_nearby, accept_ride, check_acceptance, claim_ride,
}
use ride_sharing_backend.Services.Ride.Trip.{
  mark_arrived, start_ride, count_otp_attempt, clear_otp_attempts, complete_ride, settle_completion,
}
use ride_sharing_backend.Services.Geo.{
  add_pending_ride, remove_pending_ride, find_nearby_online_drivers,
}
use ride_sharing_backend.Utils.Fare.{estimate_fare, pricing}
use ride_sharing_backend.Store.{ok}
use ride_sharing_backend.Tests.Samples.{
  empty, up_redis, here, with_ride, requested_ride, arrived_ride, request, route, find_all,
  sample_driver,
}

-- A whole trip, from the request to the completion.
abbrev trip : List (ℕ × Call)
trip =
    (1000, Call.requests 1 request route 40 1234)
    ∷ (2000, Call.accepts 2 40)
    ∷ (3000, Call.arrives 2 40)
    ∷ (4000, Call.starts 2 40 1111)
    ∷ (5000, Call.starts 2 40 1234)
    ∷ (9000, Call.completes 2 40)
    ∷ []

abbrev status_of : Option Ride → Option RideStatus
status_of none = none
status_of (some r) = some r.status

trip_completes : status_of (find 40 (run find_all trip empty).rides) ≡ some RideStatus.completed
unfolding run after request_ride publish_request dispatch_ride_offer offer_to get_own_passenger
    get_own_driver create_ride record_status add_pending_ride remove_pending_ride
    find_nearby_online_drivers sanitize_ride_offer estimate_fare pricing accept_ride
    check_acceptance claim_ride try_assign_driver set_available update_driver reload
    emit_to_passenger mark_arrived get_assigned_ride_in_status update_ride start_ride
    count_otp_attempt clear_otp_attempts complete_ride settle_completion increment_driver_stats
    increment_passenger_stats
trip_completes = refl

run-Life_example :
    (r' : Ride) × (find 40 (run find_all trip (with_ride requested_ride)).rides ≡ some r')
    × Life requested_ride r'
run-Life_example = run-Life find_all trip (with_ride requested_ride) 40 requested_ride refl

run-AllConsistent_example : AllConsistent (run find_all trip (with_ride requested_ride)).rides
run-AllConsistent_example =
    run-AllConsistent find_all trip (with_ride requested_ride) ((refl, refl, refl, refl), tt)

race_first_wins_example :
    ((race 40 ((20, 30) ∷ (21, 31) ∷ []) (with_ride requested_ride)).0 ≡ ok 1 ∷ ok 0 ∷ [])
    × (find 40 (race 40 ((20, 30) ∷ (21, 31) ∷ []) (with_ride requested_ride)).1.rides
        ≡ some (assign 1000 20 30 requested_ride))
race_first_wins_example =
    race_first_wins 40 20 30 ((21, 31) ∷ []) requested_ride (with_ride requested_ride) refl refl
      refl refl

-- Five wrong guesses, and the right one too late to count.
abbrev guesses : List (ℕ × ℕ)
guesses = (3000, 1) ∷ (3001, 2) ∷ (3002, 3) ∷ (3003, 4) ∷ (3004, 5) ∷ (3005, 1234) ∷ []

otp_five_guesses_example :
    find 40 (guess_all 2 40 guesses (with_ride arrived_ride)).rides ≡ some arrived_ride
otp_five_guesses_example =
    otp_five_guesses 2 40 20 2000 1234 (sample_driver 2) arrived_ride (with_ride arrived_ride)
      guesses refl refl refl refl refl refl refl refl (ground arith) (ground arith)

run-AtMostOneActive_example : AtMostOneActive (run find_all trip empty).rides
run-AtMostOneActive_example = run-AtMostOneActive find_all trip empty (λ p. omega arith)

abbrev accepted_ride : Ride
accepted_ride = record requested_ride {
  status = RideStatus.accepted;
  driver_id = some 20;
  vehicle_id = some 30;
  accepted_at = some 1000;
}

arrives :
    (mark_arrived 2 40 (with_ride accepted_ride)).0
    ≡ ok (without_otp (to_arrived 1000 accepted_ride))
unfolding mark_arrived get_assigned_ride_in_status get_own_driver update_ride reload record_status
    emit_to_passenger
arrives = refl

DriverAnswers-blank_example : (without_otp (to_arrived 1000 accepted_ride)).otp_code ≡ none
DriverAnswers-blank_example =
    DriverAnswers-blank 2 40 1234 (with_ride accepted_ride)
      (without_otp (to_arrived 1000 accepted_ride)) (inr (inl arrives))

driver_reads :
    (get_ride 2 Role.driver 40 (with_ride arrived_ride)).0 ≡ ok (without_otp arrived_ride)
unfolding get_ride
driver_reads = refl

get_ride_private_example :
    ((passenger_user empty.passengers (without_otp arrived_ride) ≡ some 2)
      ⊎ ((without_otp arrived_ride).otp_code ≡ none))
    × ((passenger_user empty.passengers (without_otp arrived_ride) ≡ some 2)
        ⊎ (driver_user empty.drivers (without_otp arrived_ride) ≡ some 2)
        ⊎ (is_admin Role.driver ≡ true))
get_ride_private_example =
    get_ride_private 2 40 Role.driver (with_ride arrived_ride) (without_otp arrived_ride)
      driver_reads

-- Three rides in the search, of which the driver rejected one; a fourth is far away.
abbrev find_three : Geosearch
find_three pending p radius = (43, 300) ∷ (41, 100) ∷ (42, 200) ∷ []

abbrev with_pending : Store
with_pending = record empty {
  rides =
      (40, requested_ride)
      ∷ (41, requested_ride)
      ∷ (42, requested_ride)
      ∷ (43, requested_ride)
      ∷ [];
  redis = record up_redis {
    rejected_by = (42, record { drivers = 20 ∷ []; expires_at = 5000 }) ∷ [];
  };
}

list_nearby-IsSorted_example :
    (os : List RideOffer) × (list_nearby find_three 2 here 5 with_pending ≡ (ok os, with_pending))
    × IsSorted os
    × (count_offers (λ o. leb o.distance 250) os ≡ 1)
unfolding sanitize_ride_offer
list_nearby-IsSorted_example =
    list_nearby-IsSorted find_three 2 20 (sample_driver 2) here 5 (λ o. leb o.distance 250)
      with_pending refl

-- The driver arrives after the query has seen the ride as accepted, and before its round.
abbrev seen_accepted : Ride
seen_accepted = record arrived_ride { status = RideStatus.accepted }

expire_assigned_late_example :
    expire_assigned RideStatus.accepted (40, seen_accepted) (with_ride arrived_ride) ≡ (
      ok 0,
      record (with_ride arrived_ride) { drivers = update 20 (with_available true) (empty.drivers) },
    )
expire_assigned_late_example =
    expire_assigned_late RideStatus.accepted 40 20 seen_accepted (sample_driver 2)
      (with_ride arrived_ride) refl refl refl
