-- ===== src/Services/Ride/Request.antt =====
-- `requestRide` and the dispatch of its offer. The route comes from the maps service, the new
-- row's id from the database and the OTP from `generateOtp`; they are arguments.
use ride_sharing_backend.Common.{ℕ, Bool, ◌&&◌, none, some, String, is_some, holds, any}
use ride_sharing_backend.Common.Table.{Table, find}
use ride_sharing_backend.Errors.{conflict}
use ride_sharing_backend.Model.{Ride, RideStatus, VehicleType, same_type, Point, Driver, Vehicle}
use ride_sharing_backend.Store.{
  Store, Payload, RideOffer, Action, gets, throw_if, pure, when, for_each, ◌>>=◌, ◌>>◌,
}
use ride_sharing_backend.Repositories.{
  find_active_by_passenger, create_ride, record_status, is_active_verified_of, is_approved,
}
use ride_sharing_backend.Services.Geo.{Geosearch, add_pending_ride, find_nearby_online_drivers}
use ride_sharing_backend.Services.Ride.{get_own_passenger, without_otp, emit_to}
use ride_sharing_backend.Services.Maps.{Route}
use ride_sharing_backend.Utils.Fare.{estimate_fare}

-- The validated body of `POST /rides`.
pub record RideRequest : Type 0 where
  pub pickup_address : String
  pub pickup : Point
  pub dropoff_address : String
  pub dropoff : Point
  pub requested_vehicle_type : VehicleType

abbrev pub default_search_radius_km : ℕ
default_search_radius_km = 5

-- `sanitizeRideOffer`: neither the OTP nor the passenger's phone number and last name.
unfoldable pub sanitize_ride_offer : ℕ → Ride → ℕ → Store → RideOffer
sanitize_ride_offer ride_id r distance s =
    let passenger = find r.passenger_id s.passengers in
    record {
      ride_id = ride_id;
      ride = without_otp r;
      distance = distance;
      first_name = elim passenger [
        | none ↦ none
        | some p ↦ elim (find p.user_id s.users) [ none ↦ none | some u ↦ some u.first_name ]
      ];
      rating = elim passenger [ none ↦ none | some p ↦ some p.average_rating ];
    }

abbrev pub serves : ℕ → VehicleType → Table Vehicle → Bool
serves driver_id type = any (λ v. is_active_verified_of driver_id v.1 && same_type v.1.type type)

-- `eligible`, over a driver that was found.
abbrev pub is_eligible : ℕ → VehicleType → Table Vehicle → Driver → Bool
is_eligible driver_id type vehicles d =
    d.is_online
    && d.is_available
    && is_approved d.verification_status
    && serves driver_id type vehicles

unfoldable pub offer_to : ℕ → Ride → ℕ × ℕ → Action (Unit {0})
offer_to ride_id r (driver_id, distance) = do
  found ← gets (λ s. find driver_id s.drivers)
  vehicles ← gets (λ s. s.vehicles)
  offer ← gets (sanitize_ride_offer ride_id r distance)
  when (holds (is_eligible driver_id r.requested_vehicle_type vehicles) found)
      (emit_to (elim found [ none ↦ none | some d ↦ some d.user_id ]) (Payload.ride_offer offer))

unfoldable pub dispatch_ride_offer : Geosearch → ℕ → Ride → Action (Unit {0})
dispatch_ride_offer search ride_id r = do
  nearby ← find_nearby_online_drivers search r.pickup default_search_radius_km
  for_each nearby (offer_to ride_id r)

-- The row that `requestRide` creates, with the defaults of the schema.
abbrev pub new_ride : ℕ → RideRequest → Route → ℕ → ℕ → Ride
new_ride passenger_id q route otp now =
    let fare =
      estimate_fare route.distance_meters route.duration_seconds q.requested_vehicle_type in
    record {
      passenger_id = passenger_id;
      driver_id = none;
      vehicle_id = none;
      status = RideStatus.requested;
      requested_vehicle_type = q.requested_vehicle_type;
      pickup_address = q.pickup_address;
      pickup = q.pickup;
      dropoff_address = q.dropoff_address;
      dropoff = q.dropoff;
      route_polyline = route.polyline;
      distance_meters = route.distance_meters;
      duration_seconds = route.duration_seconds;
      otp_code = some otp;
      otp_verified_at = none;
      estimated_fare = fare.amount;
      actual_fare = none;
      currency = fare.currency;
      cancelled_by = none;
      cancellation_reason = none;
      requested_at = now;
      accepted_at = none;
      arrived_at = none;
      started_at = none;
      completed_at = none;
      cancelled_at = none;
    }

-- The writes that follow the new row: its log entry, its place in the geoset, its offers.
unfoldable pub publish_request : Geosearch → ℕ → Ride → Action (Unit {0})
publish_request search ride_id r = do
  record_status ride_id RideStatus.requested none
  add_pending_ride ride_id r.pickup
  dispatch_ride_offer search ride_id r

unfoldable pub request_ride : Geosearch → ℕ → RideRequest → Route → ℕ → ℕ → Action Ride
request_ride search user_id q route ride_id otp = do
  (passenger_id, _) ← get_own_passenger user_id
  existing ← gets (λ s. find_active_by_passenger passenger_id s.rides)
  throw_if (is_some existing) (conflict "You already have an active ride in progress")
  now ← gets (λ s. s.now)
  let r = new_ride passenger_id q route otp now
  create_ride ride_id r
  publish_request search ride_id r
  pure r
