-- ===== src/Repositories/Ratings.antt =====
-- repositories/rating.repository.js, and the average that drivers and passengers keep of it.
use ride_sharing_backend.Common.{
  ℕ, ◌+◌, ◌*◌, ◌/◌, Bool, true, false, ◌&&◌, List, [], ◌∷◌, ◌==◌, any, if◌then◌else◌,
}
use ride_sharing_backend.Errors.{prisma, p2002}
use ride_sharing_backend.Model.{Rating, RatingDirection, same_direction, Driver, Passenger}
use ride_sharing_backend.Store.{Action, ok, err}

-- `rideId` and `direction` are unique together.
abbrev pub is_rating_of : ℕ → RatingDirection → Rating → Bool
is_rating_of ride_id direction x = (x.ride_id == ride_id) && same_direction x.direction direction

abbrev pub is_rated : ℕ → RatingDirection → List Rating → Bool
is_rated ride_id direction = any (is_rating_of ride_id direction)

unfoldable pub create_rating : Rating → Action Rating
create_rating row s = elim (is_rated row.ride_id row.direction s.ratings) [
  | true ↦ (err (prisma p2002 "rideId,direction" ""), s)
  | false ↦ (ok row, record s { ratings = row ∷ s.ratings })
]

-- The ratings that a user has received, in either direction: their number and their sum.
abbrev pub count_received : ℕ → List Rating → ℕ
count_received ratee_id [] = 0
count_received ratee_id (x ∷ xs) =
    (if x.ratee_id == ratee_id then 1 else 0) + count_received ratee_id xs

abbrev pub sum_received : ℕ → List Rating → ℕ
sum_received ratee_id [] = 0
sum_received ratee_id (x ∷ xs) =
    (if x.ratee_id == ratee_id then x.value else 0) + sum_received ratee_id xs

-- `Number(average.toFixed(2))` of `_avg.value ?? 0`, in hundredths: the nearest one, a tie upwards.
-- The arithmetic is exact: a double that stands just below a tie, as 4.005 does, is not modelled.
abbrev pub rounded_average : ℕ → ℕ → ℕ
rounded_average sum n = if n == 0 then 0 else (200 * sum + n) / (2 * n)

abbrev pub average_for_user : ℕ → List Rating → ℕ
average_for_user ratee_id xs =
    rounded_average (sum_received ratee_id xs) (count_received ratee_id xs)

abbrev pub with_driver_rating : ℕ → Driver → Driver
with_driver_rating average d = record d { average_rating = average }

abbrev pub with_passenger_rating : ℕ → Passenger → Passenger
with_passenger_rating average p = record p { average_rating = average }
