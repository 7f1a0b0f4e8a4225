-- ===== src/Services/Rating/Once.antt =====
-- What a rating leaves behind.
use ride_sharing_backend.Common.{
  ℕ, ◌≡◌, refl, sym, ap, ◌∙◌, String, true, false, ◌⊎◌, inl, inr, Option, some, ◌∷◌, arith,
  Bool-cases, Option-cases,
}
use ride_sharing_backend.Model.{
  Ride, RideStatus, same_status, Rating, RatingDirection, same_direction,
}
use ride_sharing_backend.Repositories.{is_rated, create_rating}
use ride_sharing_backend.Errors.{Thrown, api, not_found, conflict}
use ride_sharing_backend.Services.Ride.{Viewer, ride_of}
use ride_sharing_backend.Services.Ride.Cancel.{canceller}
use ride_sharing_backend.Services.Ride.Cases.{same_status→eq}
use ride_sharing_backend.Services.Rating.{
  direction_of, ratee_of, submit_rating, refresh_average_rating,
}
use ride_sharing_backend.Store.{Store, Result, ok, err}

refresh_average_rating-ratings :
    (d : RatingDirection) (user_id : ℕ) (s : Store)
    → ((refresh_average_rating d user_id s).0 ≡ ok tt)
      × ((refresh_average_rating d user_id s).1.ratings ≡ s.ratings)
unfolding refresh_average_rating
refresh_average_rating-ratings RatingDirection.passenger_to_driver user_id s = (refl, refl)
refresh_average_rating-ratings RatingDirection.driver_to_passenger user_id s = (refl, refl)

-- What a rating that is about to be written comes to.
module _ (user_id ride_id value : ℕ) (comment : Option String) (s : Store) where
  -- The row by one side of the ride about the user of the other.
  abbrev pub row : Viewer → ℕ → Rating
  row by ratee_id = record {
    ride_id = ride_id;
    rater_id = user_id;
    ratee_id = ratee_id;
    direction = direction_of by;
    value = value;
    comment = comment;
  }

  abbrev pub stored : Viewer → ℕ → Store
  stored by ratee_id = record s { ratings = row by ratee_id ∷ s.ratings }

  -- A submission is refused and changes nothing, or writes its row and refreshes the average.
  pub submit_rating_cases :
      ((e : Thrown) × (submit_rating user_id ride_id value comment s ≡ (err e, s)))
      ⊎ ((by : Viewer) × (ratee_id : ℕ) × (r : Ride) × (ride_of ride_id s ≡ some r)
          × (canceller user_id r s ≡ some by)
          × (r.status ≡ RideStatus.completed)
          × (is_rated ride_id (direction_of by) s.ratings ≡ false)
          × (submit_rating user_id ride_id value comment s ≡ (
            ok (row by ratee_id),
            (refresh_average_rating (direction_of by) ratee_id (stored by ratee_id)).1,
          )))
  unfolding submit_rating create_rating
  submit_rating_cases = elim (Option-cases (ride_of ride_id s)) [
    | inl e ↦ inl (api (not_found "Ride not found"), ground arith)
    | inr (r, e) ↦ elim (Option-cases (canceller user_id r s)) [
      | inl f ↦ inl (api (not_found "Ride not found"), ground arith)
      | inr (by, f) ↦ elim (Bool-cases (same_status r.status RideStatus.completed)) [
        | inr g ↦ inl (api (conflict "Only a completed ride can be rated"), ground arith)
        | inl g ↦ elim (Option-cases (ratee_of by r s)) [
          | inl h ↦ inl (api (conflict "This ride has no counterpart to rate"), ground arith)
          | inr (u, h) ↦ elim (Bool-cases (is_rated ride_id (direction_of by) s.ratings)) [
            | inl k ↦ inl (api (conflict "You have already rated this ride"), ground arith)
            | inr k ↦ inr (
              by,
              u,
              r,
              e,
              f,
              same_status→eq r.status RideStatus.completed g,
              k,
              ground (arith, refresh_average_rating-ratings (direction_of by) u (stored by u)),
            )
          ]
        ]
      ]
    ]
  ]

same_direction_refl : (d : RatingDirection) → same_direction d d ≡ true
same_direction_refl RatingDirection.passenger_to_driver = refl
same_direction_refl RatingDirection.driver_to_passenger = refl

-- An answered rating is about a completed ride, is the first of its side for the ride, and is written on top of the
-- ratings; whatever the other side has rated stays.
pub submit_rating_first :
    (user_id ride_id value : ℕ) (comment : Option String) (x : Rating) (s : Store)
    → (submit_rating user_id ride_id value comment s).0 ≡ ok x
    → ((submit_rating user_id ride_id value comment s).1.ratings ≡ x ∷ s.ratings)
      × (is_rated ride_id x.direction s.ratings ≡ false)
      × (is_rated ride_id x.direction (submit_rating user_id ride_id value comment s).1.ratings
          ≡ true)
      × ((r : Ride) × (ride_of ride_id s ≡ some r) × (r.status ≡ RideStatus.completed))
submit_rating_first user_id ride_id value comment x s h =
    elim (submit_rating_cases user_id ride_id value comment s) [
      | inl (e, q) ↦ ground arith
      | inr (by, u, r, e, _, g, k, q) ↦
          let same : row user_id ride_id value comment s by u ≡ x = ground arith in
          let on_top : (submit_rating user_id ride_id value comment s).1.ratings ≡ x ∷ s.ratings =
            ap (λ (z : Result Rating × Store). z.1.ratings) q
            ∙ (refresh_average_rating-ratings (direction_of by) u
                (stored user_id ride_id value comment s by u)).1
            ∙ ap (λ (y : Rating). y ∷ s.ratings) same in
          (
            on_top,
            ap (λ (y : Rating). is_rated ride_id y.direction s.ratings) (sym same) ∙ k,
            ap (is_rated ride_id x.direction) on_top
                ∙ ground (arith, same, same_direction_refl x.direction),
            (r, e, g),
          )
    ]
