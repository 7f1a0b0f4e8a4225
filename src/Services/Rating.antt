-- ===== src/Services/Rating.antt =====
-- services/rating.service.js.
pub mod Once
use ride_sharing_backend.Common.{
  ℕ, ◌*◌, String, Bool, true, false, ◌||◌, not, Option, none, some, List, [], ◌∷◌, ◌==◌, holds,
  if◌then◌else◌,
}
use ride_sharing_backend.Common.Table.{Table, find, update}
use ride_sharing_backend.Errors.{conflict, not_found}
use ride_sharing_backend.Model.{
  Rating, RatingDirection, Ride, RideStatus, same_status, Role, Driver, Passenger,
}
use ride_sharing_backend.Repositories.{
  create_rating, count_received, is_rated, average_for_user, with_driver_rating,
  with_passenger_rating, find_driver_by_user, find_passenger_by_user, passenger_user, driver_user,
}
use ride_sharing_backend.Services.Ride.{Viewer, ride_of}
use ride_sharing_backend.Services.Ride.Views.{page_of, Pagination, pagination_meta}
use ride_sharing_backend.Services.Ride.Cancel.{canceller}
use ride_sharing_backend.Store.{Store, Action, ok, err, gets, or_throw, throw_if, pure, ◌>>=◌, ◌>>◌}

abbrev pub direction_of : Viewer → RatingDirection
direction_of Viewer.passenger = RatingDirection.passenger_to_driver
direction_of Viewer.driver = RatingDirection.driver_to_passenger

-- Who is rated: the other side's user.
abbrev pub ratee_of : Viewer → Ride → Store → Option ℕ
ratee_of Viewer.passenger r s = driver_user s.drivers r
ratee_of Viewer.driver r s = passenger_user s.passengers r

abbrev pub rate_driver : ℕ → Option (ℕ × Driver) → Table Driver → Table Driver
rate_driver average none t = t
rate_driver average (some found) t = update found.0 (with_driver_rating average) t

abbrev pub rate_passenger : ℕ → Option (ℕ × Passenger) → Table Passenger → Table Passenger
rate_passenger average none t = t
rate_passenger average (some found) t = update found.0 (with_passenger_rating average) t

-- `refreshAverageRating`: over all ratings of the user.
unfoldable pub refresh_average_rating : RatingDirection → ℕ → Action (Unit {0})
refresh_average_rating RatingDirection.passenger_to_driver user_id s = (
  ok tt,
  record s {
    drivers =
        rate_driver (average_for_user user_id s.ratings) (find_driver_by_user user_id s.drivers)
          s.drivers;
  },
)
refresh_average_rating RatingDirection.driver_to_passenger user_id s = (
  ok tt,
  record s {
    passengers =
        rate_passenger (average_for_user user_id s.ratings)
          (find_passenger_by_user user_id s.passengers) s.passengers;
  },
)

unfoldable pub submit_rating : ℕ → ℕ → ℕ → Option String → Action Rating
submit_rating user_id ride_id value comment = do
  found ← gets (ride_of ride_id)
  r ← or_throw (not_found "Ride not found") found
  side ← gets (canceller user_id r)
  by ← or_throw (not_found "Ride not found") side
  throw_if (not (same_status r.status RideStatus.completed))
      (conflict "Only a completed ride can be rated")
  other ← gets (ratee_of by r)
  ratee_id ← or_throw (conflict "This ride has no counterpart to rate") other
  existing ← gets (λ s. is_rated ride_id (direction_of by) s.ratings)
  throw_if existing (conflict "You have already rated this ride")
  rating ← create_rating (record {
    ride_id = ride_id;
    rater_id = user_id;
    ratee_id = ratee_id;
    direction = direction_of by;
    value = value;
    comment = comment;
  })
  refresh_average_rating (direction_of by) ratee_id
  pure rating

abbrev of_ride : ℕ → List Rating → List Rating
of_ride ride_id [] = []
of_ride ride_id (x ∷ xs) =
    let rest = of_ride ride_id xs in if x.ride_id == ride_id then x ∷ rest else rest

abbrev is_admin_role : Role → Bool
is_admin_role Role.admin = true
is_admin_role _ = false

unfoldable pub get_ratings_for_ride : ℕ → Role → ℕ → Action (List Rating)
get_ratings_for_ride user_id role ride_id = do
  found ← gets (ride_of ride_id)
  r ← or_throw (not_found "Ride not found") found
  is_passenger ← gets (λ s. holds (λ u. u == user_id) (passenger_user s.passengers r))
  is_driver ← gets (λ s. holds (λ u. u == user_id) (driver_user s.drivers r))
  throw_if (not (is_passenger || is_driver || is_admin_role role)) (not_found "Ride not found")
  gets (λ s. of_ride ride_id s.ratings)

abbrev received_by : ℕ → List Rating → List Rating
received_by ratee_id [] = []
received_by ratee_id (x ∷ xs) =
    let rest = received_by ratee_id xs in if x.ratee_id == ratee_id then x ∷ rest else rest

-- The newest rating stands first; the joined name of the rater is left out.
unfoldable pub list_my_received_ratings : ℕ → ℕ → ℕ → Action (List Rating × Pagination)
list_my_received_ratings user_id page limit = gets (λ s. (
  page_of page limit (received_by user_id s.ratings),
  pagination_meta page limit (count_received user_id s.ratings),
))
