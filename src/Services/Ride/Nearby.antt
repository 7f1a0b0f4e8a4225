-- ===== src/Services/Ride/Nearby.antt =====
-- Which rides `listNearby` offers to a driver.
use ride_sharing_backend.Common.{
  ℕ, ◌+◌, ◌≡◌, refl, ap, ◌∙◌, Bool, false, ◌&&◌, not, any, includes, is_some, some, inl, inr, List,
  [], ◌∷◌, arith, Bool-cases, if◌then◌else◌,
}
use mathlib.Core.Option.{get_or}
use ride_sharing_backend.Common.Table.{Table, find, find_many, count}
use ride_sharing_backend.Model.{
  Ride, RideStatus, same_status, VehicleType, same_type, Point, Vehicle, Driver,
}
use ride_sharing_backend.Repositories.{
  find_driver_by_user, list_active_verified_by_driver, is_active_verified_of, is_approved,
}
use ride_sharing_backend.Services.Geo.{
  Geosearch, find_nearby_pending_rides, is_rejected_by_driver, live_rejections,
}
use ride_sharing_backend.Services.Ride.{get_own_driver}
use ride_sharing_backend.Services.Ride.Request.{sanitize_ride_offer}
use ride_sharing_backend.Services.Ride.Matching.{
  sort_by_distance, has_type, is_candidate, offer_of, offers_of, list_nearby,
}
use ride_sharing_backend.Store.{Store, RideOffer, ok}
use ride_sharing_backend.Services.Ride.Sorting.{IsSorted, count_offers, sort_by_distance-IsSorted}

-- The search, which finds nothing while Redis is down.
abbrev pub found_near : Geosearch → Point → ℕ → Store → List (ℕ × ℕ)
found_near search p radius_km s =
    if s.redis.is_up then search s.redis.rides_pending p radius_km else []

abbrev pub has_rejected : ℕ → ℕ → Store → Bool
has_rejected driver_id ride_id s =
    if s.redis.is_up
    then includes driver_id (live_rejections s.now (find ride_id s.redis.rejected_by))
    else false

abbrev pub owns_type : ℕ → VehicleType → Table Vehicle → Bool
owns_type driver_id type = any (λ v. is_active_verified_of driver_id v.1 && same_type v.1.type type)

-- A ride that a driver may take: found by the search, requested, without a driver, of a type of which the driver has an
-- active and verified vehicle.
abbrev pub is_takable : List (ℕ × ℕ) → ℕ → Store → ℕ → Ride → Bool
is_takable nearby driver_id s ride_id r =
    is_some (find ride_id nearby)
    && (same_status r.status RideStatus.requested
        && not (is_some r.driver_id)
        && owns_type driver_id r.requested_vehicle_type s.vehicles)

abbrev pub offer_for : List (ℕ × ℕ) → Store → ℕ → Ride → RideOffer
offer_for nearby s ride_id r = sanitize_ride_offer ride_id r (get_or (find ride_id nearby) 0) s

has_type-find_many :
    (driver_id : ℕ) (type : VehicleType) (vehicles : Table Vehicle)
    → has_type type (list_active_verified_by_driver driver_id vehicles)
      ≡ owns_type driver_id type vehicles
has_type-find_many driver_id type [] = refl
has_type-find_many driver_id type ((id, v) ∷ vehicles) =
    elim (Bool-cases (is_active_verified_of driver_id v)) [
      | inl e ↦ ground (arith, e, has_type-find_many driver_id type vehicles)
      | inr e ↦ ground (arith, e, has_type-find_many driver_id type vehicles)
    ]

found_near_lem :
    (search : Geosearch) (p : Point) (radius_km : ℕ) (s : Store)
    → find_nearby_pending_rides search p radius_km s ≡ (ok (found_near search p radius_km s), s)
unfolding find_nearby_pending_rides
found_near_lem search p radius_km s = ground (arith, Bool-cases s.redis.is_up)

has_rejected_lem :
    (driver_id ride_id : ℕ) (s : Store)
    → is_rejected_by_driver ride_id driver_id s ≡ (ok (has_rejected driver_id ride_id s), s)
unfolding is_rejected_by_driver
has_rejected_lem driver_id ride_id s = ground (arith, Bool-cases s.redis.is_up)

-- The offers for rows that the query has found, in the table's order.
offers_for : ℕ → List (ℕ × ℕ) → Store → Table Ride → List RideOffer
offers_for driver_id nearby s [] = []
offers_for driver_id nearby s ((id, r) ∷ rows) =
    let rest = offers_for driver_id nearby s rows in
    if has_rejected driver_id id s then rest else offer_for nearby s id r ∷ rest

offers_for_lem :
    (driver_id : ℕ) (nearby : List (ℕ × ℕ)) (rows : Table Ride) (s : Store)
    → offers_of driver_id nearby rows s ≡ (ok (offers_for driver_id nearby s rows), s)
unfolding offers_of offers_for offer_of
offers_for_lem driver_id nearby [] s = refl
offers_for_lem driver_id nearby ((id, r) ∷ rows) s =
    elim (Bool-cases (has_rejected driver_id id s)) [
      | inl e ↦
          ground (arith, e, has_rejected_lem driver_id id s, offers_for_lem driver_id nearby rows s)
      | inr e ↦
          ground (arith, e, has_rejected_lem driver_id id s, offers_for_lem driver_id nearby rows s)
    ]

is_candidate_lem :
    (driver_id : ℕ) (nearby : List (ℕ × ℕ)) (s : Store) (id : ℕ) (r : Ride)
    → (is_some (find id nearby)
        && is_candidate (list_active_verified_by_driver driver_id s.vehicles) r)
      ≡ is_takable nearby driver_id s id r
is_candidate_lem driver_id nearby s id r =
    ap
      (λ b.
        is_some (find id nearby)
        && (same_status r.status RideStatus.requested && not (is_some r.driver_id) && b))
      (has_type-find_many driver_id r.requested_vehicle_type s.vehicles)

-- The offers that pass a test are as many as the rows that are offered and whose offer passes it.
offers_for-count :
    (driver_id : ℕ) (nearby : List (ℕ × ℕ)) (s : Store) (accepts : RideOffer → Bool)
    (rows : Table Ride)
    → let q : ℕ → Ride → Bool = λ id r.
      is_some (find id nearby)
      && is_candidate (list_active_verified_by_driver driver_id s.vehicles) r in
      count_offers accepts (offers_for driver_id nearby s (find_many q rows))
      ≡ count
          (λ id r.
            is_takable nearby driver_id s id r
            && not (has_rejected driver_id id s)
            && accepts (offer_for nearby s id r))
          rows
unfolding offers_for
offers_for-count driver_id nearby s accepts [] = refl
offers_for-count driver_id nearby s accepts ((id, r) ∷ rows) =
    let ih = offers_for-count driver_id nearby s accepts rows in
    let same = is_candidate_lem driver_id nearby s id r in
    elim (Bool-cases (is_takable nearby driver_id s id r)) [
      | inr e ↦ rw (same, e) (omega (arith, ih))
      | inl e ↦ elim (Bool-cases (has_rejected driver_id id s)) [
        | inl f ↦ rw (same, e, f) (omega (arith, ih))
        | inr f ↦
            rw (same, e, f) (ap (λ n. (if accepts (offer_for nearby s id r) then 1 else 0) + n) ih)
      ]
    ]

-- A driver asks for the rides near a position. The answer is a list of offers, nearest first, and nothing changes. While
-- the driver is online, available and approved, each ride that the search finds is offered once if it is
-- requested, without a driver, of a type of which the driver has an active and verified vehicle, and not rejected
-- by the driver, and nothing else is offered: any test of offers is passed by as many of the answer as there are
-- rows of such rides whose offer, with the distance of the search, passes it. Otherwise, or while Redis is down, the
-- list is empty.
pub list_nearby-IsSorted :
    (search : Geosearch) (user_id driver_id : ℕ) (own : Driver) (p : Point) (radius_km : ℕ)
    (accepts : RideOffer → Bool) (s : Store)
    → find_driver_by_user user_id s.drivers ≡ some (driver_id, own)
    → let nearby = found_near search p radius_km s in
      (os : List RideOffer) × (list_nearby search user_id p radius_km s ≡ (ok os, s))
      × IsSorted os
      × (count_offers accepts os ≡ (
          if own.is_online && own.is_available && is_approved own.verification_status
          then count
              (λ id r.
                is_takable nearby driver_id s id r
                && not (has_rejected driver_id id s)
                && accepts (offer_for nearby s id r))
              s.rides
          else 0))
unfolding list_nearby get_own_driver
list_nearby-IsSorted search user_id driver_id own p radius_km accepts s mine =
    let nearby = found_near search p radius_km s in
    let q : ℕ → Ride → Bool = λ id r.
      is_some (find id nearby)
      && is_candidate (list_active_verified_by_driver driver_id s.vehicles) r in
    let rows = find_many q s.rides in
    let offers = offers_for driver_id nearby s rows in
    let (sorted, counted) = sort_by_distance-IsSorted offers accepts in
    let found = found_near_lem search p radius_km s in
    let made = offers_for_lem driver_id nearby rows s in
    elim (Bool-cases (own.is_online && own.is_available && is_approved own.verification_status)) [
      | inl e ↦ (
        sort_by_distance offers,
        ground (arith, mine, e, found, made),
        sorted,
        rw e (counted ∙ offers_for-count driver_id nearby s accepts s.rides),
      )
      | inr e ↦ ([], ground (arith, mine, e, found, made), tt, rw e refl)
    ]
