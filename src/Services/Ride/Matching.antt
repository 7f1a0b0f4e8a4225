-- ===== src/Services/Ride/Matching.antt =====
-- The driver's discovery and acceptance: `listNearby`, `acceptRide`, `rejectRide`.
use ride_sharing_backend.Common.{
  ℕ, Bool, false, ◌&&◌, not, none, List, [], ◌∷◌, ◌++◌, ◌==◌, leb, if◌then◌else◌, is_some, any,
}
use mathlib.Core.Option.{get_or}
use ride_sharing_backend.Common.Table.{Table, find, find_many}
use ride_sharing_backend.Errors.{ApiError, bad_request, forbidden, conflict}
use ride_sharing_backend.Model.{
  Ride, RideStatus, same_status, VehicleType, same_type, Point, Vehicle,
}
use ride_sharing_backend.Store.{
  Payload, RideOffer, Action, gets, or_throw, throw_if, pure, ◌>>=◌, ◌>>◌,
}
use ride_sharing_backend.Repositories.{
  find_active_by_driver, try_assign_driver, set_available, record_status,
  list_active_verified_by_driver, find_active_verified_by_driver_and_type, is_approved,
}
use ride_sharing_backend.Services.Geo.{
  Geosearch, remove_pending_ride, find_nearby_pending_rides, is_rejected_by_driver,
  record_rejection,
}
use ride_sharing_backend.Services.Ride.{
  Viewer, sanitize_ride, get_own_driver, ride_of, reload, emit_to_passenger,
}
use ride_sharing_backend.Services.Ride.Request.{sanitize_ride_offer}

-- `eligibleTypes.has(type)`
abbrev pub has_type : VehicleType → Table Vehicle → Bool
has_type type = any (λ v. same_type v.1.type type)

abbrev pub is_candidate : Table Vehicle → Ride → Bool
is_candidate vehicles r =
    same_status r.status RideStatus.requested
    && not (is_some r.driver_id)
    && has_type r.requested_vehicle_type vehicles

-- One candidate's offer, with its distance from the search, unless the driver rejected the ride.
unfoldable pub offer_of : ℕ → List (ℕ × ℕ) → ℕ × Ride → Action (List RideOffer)
offer_of driver_id nearby (ride_id, r) = do
  rejected ← is_rejected_by_driver ride_id driver_id
  gets (λ s.
      if rejected
      then []
      else sanitize_ride_offer ride_id r (get_or (find ride_id nearby) 0) s ∷ [])

unfoldable pub offers_of : ℕ → List (ℕ × ℕ) → Table Ride → Action (List RideOffer)
unfolding offer_of
offers_of driver_id nearby [] = pure []
offers_of driver_id nearby (c ∷ candidates) = do
  offers ← offer_of driver_id nearby c
  rest ← offers_of driver_id nearby candidates
  pure (offers ++ rest)

-- `.sort((a, b) => a.distanceKm - b.distanceKm)`, which is stable.
unfoldable pub insert_by_distance : RideOffer → List RideOffer → List RideOffer
insert_by_distance o [] = o ∷ []
insert_by_distance o (p ∷ ps) =
    let rest = insert_by_distance o ps in if leb o.distance p.distance then o ∷ p ∷ ps else p ∷ rest

unfoldable pub sort_by_distance : List RideOffer → List RideOffer
unfolding insert_by_distance
sort_by_distance [] = []
sort_by_distance (o ∷ os) = insert_by_distance o (sort_by_distance os)

unfoldable pub list_nearby : Geosearch → ℕ → Point → ℕ → Action (List RideOffer)
list_nearby search user_id p radius_km = do
  (driver_id, own) ← get_own_driver user_id
  vehicles ← gets (λ s. list_active_verified_by_driver driver_id s.vehicles)
  nearby ← find_nearby_pending_rides search p radius_km
  candidates ←
      gets (λ s. find_many (λ id r. is_some (find id nearby) && is_candidate vehicles r) s.rides)
  offers ← offers_of driver_id nearby candidates
  pure (
      if own.is_online && own.is_available && is_approved own.verification_status
      then sort_by_distance offers
      else [])

abbrev pub no_vehicle : VehicleType → ApiError
no_vehicle VehicleType.bike = bad_request "A verified BIKE is required to accept this ride"
no_vehicle VehicleType.auto = bad_request "A verified AUTO is required to accept this ride"
no_vehicle VehicleType.sedan = bad_request "A verified SEDAN is required to accept this ride"
no_vehicle VehicleType.suv = bad_request "A verified SUV is required to accept this ride"
no_vehicle VehicleType.hatchback =
    bad_request "A verified HATCHBACK is required to accept this ride"

-- The reads and checks of `acceptRide`: the caller's driver id and the vehicle to assign.
unfoldable pub check_acceptance : ℕ → ℕ → Action (ℕ × ℕ)
check_acceptance user_id ride_id = do
  (driver_id, own) ← get_own_driver user_id
  throw_if (not (is_approved own.verification_status))
      (forbidden "Your driver account is not yet approved")
  throw_if (not (own.is_online && own.is_available))
      (bad_request "Go online and be available before accepting rides")
  active ← gets (λ s. find_active_by_driver driver_id s.rides)
  throw_if (is_some active) (conflict "You already have an active ride")
  found ← gets (ride_of ride_id)
  r ← or_throw (conflict "Ride is no longer available") found
  throw_if (not (same_status r.status RideStatus.requested))
      (conflict "Ride is no longer available")
  vehicle ←
      gets
        (λ s. find_active_verified_by_driver_and_type driver_id r.requested_vehicle_type s.vehicles)
  (vehicle_id, _) ← or_throw (no_vehicle r.requested_vehicle_type) vehicle
  pure (driver_id, vehicle_id)

-- The writes of `acceptRide`, from the conditional one on.
unfoldable pub claim_ride : ℕ → ℕ → ℕ → Action Ride
claim_ride ride_id driver_id vehicle_id = do
  assigned ← try_assign_driver ride_id driver_id vehicle_id
  throw_if (assigned == 0)
      (conflict "Ride is no longer available — another driver already accepted it")
  set_available driver_id false
  remove_pending_ride ride_id
  record_status ride_id RideStatus.accepted none
  updated ← reload ride_id
  emit_to_passenger updated (Payload.ride_accepted ride_id (sanitize_ride Viewer.passenger updated))
  pure (sanitize_ride Viewer.driver updated)

unfoldable pub accept_ride : ℕ → ℕ → Action Ride
unfolding check_acceptance claim_ride
accept_ride user_id ride_id = do
  (driver_id, vehicle_id) ← check_acceptance user_id ride_id
  claim_ride ride_id driver_id vehicle_id

unfoldable pub reject_ride : ℕ → ℕ → Action (Unit {0})
reject_ride user_id ride_id = do
  (driver_id, _) ← get_own_driver user_id
  record_rejection ride_id driver_id
