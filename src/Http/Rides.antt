-- ===== src/Http/Rides.antt =====
-- controllers/ride.controller.js, payment.controller.js and rating.controller.js.
use ride_sharing_backend.Common.{ℕ, String, Option}
use ride_sharing_backend.Http.{Config, Body, Reply, sends}
use ride_sharing_backend.Model.{RideStatus, Point}
use ride_sharing_backend.Services.Admin.{AccessPayload}
use ride_sharing_backend.Services.Maps.{Route}
use ride_sharing_backend.Services.Payment.{PayRequest, pay_for_ride, get_payment_for_ride}
use ride_sharing_backend.Services.Rating.{
  submit_rating, get_ratings_for_ride, list_my_received_ratings,
}
use ride_sharing_backend.Services.Ride.Cancel.{cancel_ride}
use ride_sharing_backend.Services.Ride.Matching.{list_nearby, accept_ride, reject_ride}
use ride_sharing_backend.Services.Ride.Request.{RideRequest, request_ride}
use ride_sharing_backend.Services.Ride.Trip.{mark_arrived, start_ride, complete_ride}
use ride_sharing_backend.Services.Ride.Views.{get_ride, list_passenger_history, list_driver_history}
use ride_sharing_backend.Store.{Action}

pub data RideEndpoint : Type 0 where
  history driver_history : ℕ → ℕ → Option RideStatus → RideEndpoint
  nearby : Point → ℕ → RideEndpoint
  request : RideRequest → Route → ℕ → ℕ → RideEndpoint
  get accept reject arrived complete : ℕ → RideEndpoint
  start : ℕ → ℕ → RideEndpoint
  cancel : ℕ → Option String → RideEndpoint

unfoldable pub ride_controller : Config → AccessPayload → RideEndpoint → Action Reply
ride_controller c u (RideEndpoint.history page limit status) =
    sends 200 "Success" (list_passenger_history u.sub page limit status) (λ r. Body.rides r.0 r.1)
ride_controller c u (RideEndpoint.driver_history page limit status) =
    sends 200 "Success" (list_driver_history u.sub page limit status) (λ r. Body.rides r.0 r.1)
ride_controller c u (RideEndpoint.nearby p radius_km) =
    sends 200 "Success" (list_nearby c.search u.sub p radius_km) Body.offers
ride_controller c u (RideEndpoint.request q route ride_id otp) =
    sends 201 "Ride requested" (request_ride c.search u.sub q route ride_id otp) Body.ride
ride_controller c u (RideEndpoint.get id) = sends 200 "Success" (get_ride u.sub u.role id) Body.ride
ride_controller c u (RideEndpoint.accept id) =
    sends 200 "Ride accepted" (accept_ride u.sub id) Body.ride
ride_controller c u (RideEndpoint.reject id) =
    sends 200 "Ride declined" (reject_ride u.sub id) (λ _. Body.nothing)
ride_controller c u (RideEndpoint.arrived id) =
    sends 200 "Marked as arrived" (mark_arrived u.sub id) Body.ride
ride_controller c u (RideEndpoint.start id otp_code) =
    sends 200 "Ride started" (start_ride u.sub id otp_code) Body.ride
ride_controller c u (RideEndpoint.complete id) =
    sends 200 "Ride completed" (complete_ride u.sub id) Body.ride
ride_controller c u (RideEndpoint.cancel id reason) =
    sends 200 "Ride cancelled" (cancel_ride u.sub id reason) Body.ride

pub data PaymentEndpoint : Type 0 where
  pay : ℕ → PayRequest → PaymentEndpoint
  get_for_ride : ℕ → PaymentEndpoint

unfoldable pub payment_controller : AccessPayload → PaymentEndpoint → Action Reply
payment_controller u (PaymentEndpoint.pay id q) =
    sends 201 "Payment initiated" (pay_for_ride u.sub id q) Body.payment
payment_controller u (PaymentEndpoint.get_for_ride id) =
    sends 200 "Success" (get_payment_for_ride u.sub u.role id) Body.payment

pub data RatingEndpoint : Type 0 where
  submit : ℕ → ℕ → Option String → RatingEndpoint
  get_for_ride : ℕ → RatingEndpoint
  my_received : ℕ → ℕ → RatingEndpoint

unfoldable pub rating_controller : AccessPayload → RatingEndpoint → Action Reply
rating_controller u (RatingEndpoint.submit id value comment) =
    sends 201 "Rating submitted" (submit_rating u.sub id value comment) Body.rating
rating_controller u (RatingEndpoint.get_for_ride id) =
    sends 200 "Success" (get_ratings_for_ride u.sub u.role id) Body.ratings
rating_controller u (RatingEndpoint.my_received page limit) =
    sends 200 "Success" (list_my_received_ratings u.sub page limit) (λ r. Body.ratings_page r.0 r.1)
