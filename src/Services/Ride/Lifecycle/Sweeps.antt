-- ===== src/Services/Ride/Lifecycle/Sweeps.antt =====
-- `requestRide` adds one row, and the rounds of the expiry job move rows by a cancellation at most.
use ride_sharing_backend.Common.{
  ℕ, ◌≡◌, refl, true, ◌⊎◌, inl, inr, Option, none, some, List, [], ◌∷◌, arith, Bool-cases,
  Option-cases, String, ap, ◌∙◌,
}
use ride_sharing_backend.Common.Table.{find, update_where}
use ride_sharing_backend.Model.{Ride, RideStatus, CancelledBy, Passenger}
use ride_sharing_backend.Store.{Store, for_each}
use ride_sharing_backend.Repositories.{
  create_ride, record_status, find_active_by_passenger, find_passenger_by_user, is_in_status,
  try_update_status_if_currently, set_available,
}
use ride_sharing_backend.Services.Geo.{
  Geosearch, add_pending_ride, remove_pending_ride, find_nearby_online_drivers,
}
use ride_sharing_backend.Services.Maps.{Route}
use ride_sharing_backend.Services.Ride.{get_own_passenger, emit_to_passenger, emit_to_driver}
use ride_sharing_backend.Services.Ride.Request.{
  request_ride, dispatch_ride_offer, publish_request, offer_to, new_ride, RideRequest,
}
use ride_sharing_backend.Services.Ride.Cancel.{to_cancelled, is_cancellable}
use ride_sharing_backend.Services.Ride.Expiry.{
  expire_requested, expire_assigned, settle_expiry, expiry_reason, close_request, tell_both_sides,
  try_expire,
}
use ride_sharing_backend.Services.Ride.Cases.{same_status→eq}
use ride_sharing_backend.Services.Ride.Frame.{Same, add_pending_ride-Same, record_status-Same}
use ride_sharing_backend.Services.Ride.Lifecycle.{
  Step, RowsStep, RowsStep-refl, update_where-RowsStep,
}

offer_to-Same : (k : ℕ) (r : Ride) (n : ℕ × ℕ) (s : Store) → Same s (offer_to k r n s).1
unfolding offer_to
offer_to-Same k r (d, distance) s = ground arith

for_each_offer-Same :
    (k : ℕ) (r : Ride) (ns : List (ℕ × ℕ)) (s : Store) → Same s (for_each ns (offer_to k r) s).1
for_each_offer-Same k r [] s = ground arith
for_each_offer-Same k r (n ∷ ns) s =
    ground (arith, offer_to-Same k r n s, for_each_offer-Same k r ns (offer_to k r n s).1)

dispatch-Same :
    (search : Geosearch) (k : ℕ) (r : Ride) (s : Store)
    → Same s (dispatch_ride_offer search k r s).1
unfolding dispatch_ride_offer find_nearby_online_drivers
dispatch-Same search k r s = elim (Bool-cases s.redis.is_up) [
  | inl up ↦ ground (arith, for_each_offer-Same k r (search s.redis.drivers_online r.pickup 5) s)
  | inr down ↦ ground arith
]

publish-Same :
    (search : Geosearch) (k : ℕ) (r : Ride) (s : Store) → Same s (publish_request search k r s).1
unfolding publish_request
publish-Same search k r s =
    let first = (record_status k RideStatus.requested none s).1 in
    let second = (add_pending_ride k r.pickup first).1 in
    ground (
      arith,
      record_status-Same k RideStatus.requested none s,
      add_pending_ride-Same k r.pickup first,
      dispatch-Same search k r second,
    )

-- A request is refused and changes no ride, or adds the new row for a passenger who has no active ride, under an
-- id that was free.
pub request_ride_rows :
    (search : Geosearch) (user_id : ℕ) (q : RideRequest) (route : Route) (ride_id otp : ℕ)
    (s : Store)
    → ((request_ride search user_id q route ride_id otp s).1.rides ≡ s.rides)
      ⊎ ((p : ℕ) × (row : Passenger) × (find_passenger_by_user user_id s.passengers ≡ some (p, row))
          × (find_active_by_passenger p s.rides ≡ none)
          × (find ride_id s.rides ≡ none)
          × ((request_ride search user_id q route ride_id otp s).1.rides
              ≡ (ride_id, new_ride p q route otp s.now) ∷ s.rides))
unfolding request_ride get_own_passenger create_ride
request_ride_rows search user_id q route ride_id otp s =
    elim (Option-cases (find_passenger_by_user user_id s.passengers)) [
      | inl e ↦ inl (ground arith)
      | inr ((p, row), e) ↦ elim (Option-cases (find_active_by_passenger p s.rides)) [
        | inr (a, f) ↦ inl (ground arith)
        | inl f ↦ elim (Option-cases (find ride_id s.rides)) [
          | inr (a, g) ↦ inl (ground arith)
          | inl g ↦
              let r = new_ride p q route otp s.now in
              inr (
                p,
                row,
                e,
                f,
                g,
                ground (
                  arith,
                  publish-Same search ride_id r (record s { rides = (ride_id, r) ∷ s.rides }),
                ),
              )
        ]
      ]
    ]

is_in_status-Step :
    (observed : RideStatus) (k now : ℕ) (reason : Option String)
    → is_cancellable observed ≡ true
    → (j : ℕ) (r : Ride) → is_in_status k observed j r ≡ true
    → Step r (to_cancelled now CancelledBy.system reason r)
is_in_status-Step observed k now reason c j r h =
    Step.cancels now CancelledBy.system reason
      (ap is_cancellable (same_status→eq r.status observed (ground arith)) ∙ c) refl

abbrev expired : ℕ → RideStatus → Store → Store
expired k observed s = record s {
  rides =
      update_where (is_in_status k observed)
        (to_cancelled s.now CancelledBy.system (some (expiry_reason observed))) s.rides;
}

expired-RowsStep :
    (k : ℕ) (observed : RideStatus) (s : Store)
    → is_cancellable observed ≡ true
    → RowsStep s.rides (expired k observed s).rides
expired-RowsStep k observed s c =
    update_where-RowsStep (is_in_status k observed)
      (to_cancelled s.now CancelledBy.system (some (expiry_reason observed))) s.rides
      (is_in_status-Step observed k s.now (some (expiry_reason observed)) c)

close_request-Same : (k : ℕ) (r : Ride) (s : Store) → Same s (close_request k r s).1
unfolding close_request record_status emit_to_passenger remove_pending_ride
close_request-Same k r s = ground arith

tell_both_sides-Same :
    (k : ℕ) (r : Ride) (st : RideStatus) (s : Store) → Same s (tell_both_sides k r st s).1
unfolding tell_both_sides record_status emit_to_passenger emit_to_driver
tell_both_sides-Same k r st s = ground arith

pub expire_requested-RowsStep :
    (e : ℕ × Ride) (s : Store) → RowsStep s.rides (expire_requested e s).1.rides
unfolding expire_requested try_expire try_update_status_if_currently
expire_requested-RowsStep (k, seen) s = ground (
  arith,
  expired-RowsStep k RideStatus.requested s refl,
  close_request-Same k seen (expired k RideStatus.requested s),
)

settle_expiry_rides :
    (observed : RideStatus) (k : ℕ) (seen : Ride) (s : Store)
    → ((settle_expiry observed (k, seen) s).1.rides ≡ s.rides)
      ⊎ ((settle_expiry observed (k, seen) s).1.rides ≡ (expired k observed s).rides)
unfolding settle_expiry try_expire try_update_status_if_currently set_available
settle_expiry_rides observed k seen s = elim (Option-cases seen.driver_id) [
  | inl e ↦ ground arith
  | inr (d, e) ↦ ground arith
]

pub expire_assigned-RowsStep :
    (observed : RideStatus) (e : ℕ × Ride) (s : Store)
    → is_cancellable observed ≡ true
    → RowsStep s.rides (expire_assigned observed e s).1.rides
unfolding expire_assigned
expire_assigned-RowsStep observed (k, seen) s c = ground (
  arith,
  RowsStep-refl s.rides,
  expired-RowsStep k observed s c,
  settle_expiry_rides observed k seen s,
  tell_both_sides-Same k seen observed (settle_expiry observed (k, seen) s).1,
)
