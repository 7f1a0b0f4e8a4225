-- ===== src/Http/Rated.antt =====
-- The ratings that come through the validator of routes/ride.routes.js, and the averages kept of them.
use native.Mathlib.Nat.{le-div_iff_mul-le, div-lt_iff_lt-mul}
use ride_sharing_backend.Common.{
  ℕ, ◌+◌, ◌*◌, ◌/◌, ◌≤◌, ◌<◌, ◌≡◌, refl, ap, String, ◌⊎◌, inl, inr, Option, none, some, List, [],
  ◌∷◌, arith, Bool-cases, ◌==◌, All,
}
use ride_sharing_backend.Common.Table.{Table, update}
use ride_sharing_backend.Http.{Reply}
use ride_sharing_backend.Http.Rides.{RatingEndpoint, rating_controller}
use ride_sharing_backend.Model.{Rating, RatingDirection, Driver, Passenger}
use ride_sharing_backend.Repositories.{
  count_received, sum_received, rounded_average, average_for_user, with_driver_rating,
  with_passenger_rating, find_driver_by_user, find_passenger_by_user,
}
use ride_sharing_backend.Services.Ride.{Viewer}
use ride_sharing_backend.Services.Admin.{AccessPayload}
use ride_sharing_backend.Services.Rating.{
  submit_rating, refresh_average_rating, rate_driver, rate_passenger, direction_of,
}
use ride_sharing_backend.Services.Rating.Once.{submit_rating_cases, stored}
use ride_sharing_backend.Store.{Store, Action, Result, ◌>>◌}
use ride_sharing_backend.Validators.{validate}
use ride_sharing_backend.Validators.Requests.{is_submission}

-- A request to rate: who sends it, for which ride, and what.
pub record Submission : Type 0 where
  pub user : AccessPayload
  pub ride_id : ℕ
  pub value : ℕ
  pub comment : Option String

-- `router.post("/:id/rating", validate(submitRatingSchema), ratingController.submit)`
unfoldable pub post_rating : String → Submission → Action Reply
post_rating field_errors q =
    (validate field_errors (is_submission q.value q.comment)
      >> rating_controller q.user (RatingEndpoint.submit q.ride_id q.value q.comment))

unfoldable pub run : String → List Submission → Store → Store
run field_errors [] s = s
run field_errors (q ∷ qs) s = run field_errors qs (post_rating field_errors q s).1

-- No rating yet, or an average between 1.00 and 5.00, in hundredths.
abbrev pub IsAverage : ℕ → Type 0
IsAverage n = (n ≡ 0) ⊎ ((100 ≤ n) × (n ≤ 500))

abbrev pub IsStars : Rating → Type 0
IsStars x = (1 ≤ x.value) × (x.value ≤ 5)

-- Every rating is between 1 and 5, and so is every average that is kept.
unfoldable pub HasAverages : Store → Type 0
HasAverages s =
    All IsStars s.ratings
    × All (λ (x : ℕ × Driver). IsAverage x.1.average_rating) s.drivers
    × All (λ (x : ℕ × Passenger). IsAverage x.1.average_rating) s.passengers

sum_between :
    (u : ℕ) (xs : List Rating)
    → All IsStars xs
    → (count_received u xs ≤ sum_received u xs) × (sum_received u xs ≤ 5 * count_received u xs)
sum_between u [] h = (omega arith, omega arith)
sum_between u (x ∷ xs) (h, hs) = ground (arith, sum_between u xs hs)

rounded_average-IsAverage : (sum n : ℕ) → n ≤ sum → sum ≤ 5 * n → IsAverage (rounded_average sum n)
rounded_average-IsAverage sum n low high = elim (Bool-cases (n == 0)) [
  | inl e ↦ rw e (inl refl)
  | inr e ↦
      let pos : 0 < 2 * n = ground arith in
      let least : 100 ≤ (200 * sum + n) / (2 * n) = (le-div_iff_mul-le pos).1 (omega arith) in
      let most : (200 * sum + n) / (2 * n) < 501 = (div-lt_iff_lt-mul pos).1 (omega arith) in
      rw e (inr (least, omega arith))
]

update-All :
    {V : Type 0} (P : V → Type 0) (k : ℕ) (f : V → V) (t : Table V)
    → ((v : V) → P (f v))
    → All (λ (x : ℕ × V). P x.1) t
    → All (λ (x : ℕ × V). P x.1) (update k f t)
update-All P k f [] g h = tt
update-All P k f ((j, v) ∷ t) g (h, hs) = elim (Bool-cases (k == j)) [
  | inl e ↦ rw e (g v, hs)
  | inr e ↦ rw e (h, update-All P k f t g hs)
]

average_for_user-IsAverage :
    (u : ℕ) (xs : List Rating) → All IsStars xs → IsAverage (average_for_user u xs)
average_for_user-IsAverage u xs h =
    let (low, high) = sum_between u xs h in
    rounded_average-IsAverage (sum_received u xs) (count_received u xs) low high

rate_driver-All :
    (average : ℕ) (found : Option (ℕ × Driver)) (t : Table Driver)
    → IsAverage average
    → All (λ (x : ℕ × Driver). IsAverage x.1.average_rating) t
    → All (λ (x : ℕ × Driver). IsAverage x.1.average_rating) (rate_driver average found t)
rate_driver-All average none t a h = h
rate_driver-All average (some found) t a h =
    update-All (λ (d : Driver). IsAverage d.average_rating) found.0 (with_driver_rating average) t
      (λ _. a) h

rate_passenger-All :
    (average : ℕ) (found : Option (ℕ × Passenger)) (t : Table Passenger)
    → IsAverage average
    → All (λ (x : ℕ × Passenger). IsAverage x.1.average_rating) t
    → All (λ (x : ℕ × Passenger). IsAverage x.1.average_rating) (rate_passenger average found t)
rate_passenger-All average none t a h = h
rate_passenger-All average (some found) t a h =
    update-All (λ (p : Passenger). IsAverage p.average_rating) found.0
      (with_passenger_rating average) t (λ _. a) h

refresh_average_rating-HasAverages :
    (d : RatingDirection) (u : ℕ) (s : Store)
    → HasAverages s
    → HasAverages (refresh_average_rating d u s).1
unfolding HasAverages refresh_average_rating
refresh_average_rating-HasAverages RatingDirection.passenger_to_driver u s (r, d, p) = (
  r,
  rate_driver-All (average_for_user u s.ratings) (find_driver_by_user u s.drivers) s.drivers
      (average_for_user-IsAverage u s.ratings r) d,
  p,
)
refresh_average_rating-HasAverages RatingDirection.driver_to_passenger u s (r, d, p) = (
  r,
  d,
  rate_passenger-All (average_for_user u s.ratings) (find_passenger_by_user u s.passengers)
      s.passengers (average_for_user-IsAverage u s.ratings r) p,
)

stored-HasAverages :
    (user_id ride_id value : ℕ) (comment : Option String) (s : Store) (by : Viewer) (u : ℕ)
    → (1 ≤ value) × (value ≤ 5)
    → HasAverages s
    → HasAverages (stored user_id ride_id value comment s by u)
unfolding HasAverages
stored-HasAverages user_id ride_id value comment s by u v (r, d, p) = ((v, r), d, p)

submit_rating-HasAverages :
    (user_id ride_id value : ℕ) (comment : Option String) (s : Store)
    → (1 ≤ value) × (value ≤ 5)
    → HasAverages s
    → HasAverages (submit_rating user_id ride_id value comment s).1
submit_rating-HasAverages user_id ride_id value comment s v h =
    elim (submit_rating_cases user_id ride_id value comment s) [
      | inl (e, q) ↦
          let same : (submit_rating user_id ride_id value comment s).1 ≡ s = ground arith in
          rw same h
      | inr (by, u, r, _, _, _, _, q) ↦
          let same : (submit_rating user_id ride_id value comment s).1
              ≡ (refresh_average_rating (direction_of by) u
                  (stored user_id ride_id value comment s by u)).1 =
            ap (λ (z : Result Rating × Store). z.1) q in
          rw same (
            refresh_average_rating-HasAverages (direction_of by) u _
              (stored-HasAverages user_id ride_id value comment s by u v h))
    ]

-- A refused request leaves the store as it is; an accepted one carries a value from 1 to 5.
post_rating_cases :
    (field_errors : String) (q : Submission) (s : Store)
    → ((post_rating field_errors q s).1 ≡ s)
      ⊎ ((1 ≤ q.value)
          × (q.value ≤ 5)
          × ((post_rating field_errors q s).1
              ≡ (submit_rating q.user.sub q.ride_id q.value q.comment s).1))
unfolding post_rating validate is_submission rating_controller
post_rating_cases field_errors q s = elim (Bool-cases (is_submission q.value q.comment)) [
  | inl e ↦ inr (ground arith, ground arith, ground arith)
  | inr e ↦ inl (ground arith)
]

-- If every rating and every kept average is within the scale, then after any ratings that the route is sent, by any users
-- with any values, every rating is from 1 to 5, and every average of a driver or a passenger is 0 or from 1.00 to 5.00.
pub run-HasAverages :
    (field_errors : String) (qs : List Submission) (s : Store)
    → HasAverages s
    → HasAverages (run field_errors qs s)
unfolding run
run-HasAverages field_errors [] s h = h
run-HasAverages field_errors (q ∷ qs) s h =
    run-HasAverages field_errors qs (post_rating field_errors q s).1
      (elim (post_rating_cases field_errors q s) [
        | inl same ↦ rw same h
        | inr (low, high, same) ↦
            rw same
              (submit_rating-HasAverages q.user.sub q.ride_id q.value q.comment s (low, high) h)
      ])
