-- ===== src/Services/Ride/Lifecycle/Operations.antt =====
-- Each operation of services/ride.service.js moves the rows by the steps of a ride's life.
use ride_sharing_backend.Common.{
  ℕ, ◌≡◌, refl, true, inl, inr, Option, arith, Bool-cases, Option-cases, String,
}
use ride_sharing_backend.Common.Table.{find}
use ride_sharing_backend.Model.{Ride, RideStatus, CancelledBy}
use ride_sharing_backend.Store.{Store}
use ride_sharing_backend.Repositories.{
  update_ride, record_status, try_assign_driver, set_available, increment_driver_stats,
  increment_passenger_stats, is_open_request, assign,
}
use ride_sharing_backend.Services.Geo.{remove_pending_ride, record_rejection}
use ride_sharing_backend.Services.Ride.{reload, emit_to_passenger, emit_to_driver}
use ride_sharing_backend.Services.Ride.Trip.{
  mark_arrived, start_ride, complete_ride, settle_completion, count_otp_attempt, clear_otp_attempts,
  to_arrived, to_in_progress, to_completed,
}
use ride_sharing_backend.Services.Ride.Cancel.{
  cancel_ride, settle_cancellation, to_cancelled, is_cancellable,
}
use ride_sharing_backend.Services.Ride.Matching.{accept_ride, reject_ride, claim_ride}
use ride_sharing_backend.Services.Ride.Cases.{
  own_driver_cases, check_cases, Assigned-cases, same_status→eq,
}
use ride_sharing_backend.Services.Ride.Lifecycle.{
  Step, RowsStep, RowsStep-refl, update-RowsStep, update_where-RowsStep,
}

pub mark_arrived-RowsStep :
    (user_id ride_id : ℕ) (s : Store) → RowsStep s.rides (mark_arrived user_id ride_id s).1.rides
unfolding mark_arrived update_ride reload record_status emit_to_passenger
mark_arrived-RowsStep user_id ride_id s =
    elim (Assigned-cases user_id ride_id RideStatus.accepted s) [
      | inl (e, q) ↦ ground (arith, RowsStep-refl s.rides)
      | inr (d, own, r, a, q) ↦ ground (
        arith,
        RowsStep-refl s.rides,
        update-RowsStep ride_id (to_arrived s.now) r s.rides a.found
            (Step.arrives s.now a.status refl),
      )
    ]

pub start_ride-RowsStep :
    (user_id ride_id otp : ℕ) (s : Store)
    → RowsStep s.rides (start_ride user_id ride_id otp s).1.rides
unfolding start_ride update_ride reload record_status emit_to_passenger count_otp_attempt
    clear_otp_attempts
start_ride-RowsStep user_id ride_id otp s =
    elim (Assigned-cases user_id ride_id RideStatus.arrived s) [
      | inl (e, q) ↦ ground (arith, RowsStep-refl s.rides)
      | inr (d, own, r, a, q) ↦ ground (
        arith,
        RowsStep-refl s.rides,
        update-RowsStep ride_id (to_in_progress s.now) r s.rides a.found
            (Step.starts s.now a.status refl),
      )
    ]

pub complete_ride-RowsStep :
    (user_id ride_id : ℕ) (s : Store) → RowsStep s.rides (complete_ride user_id ride_id s).1.rides
unfolding complete_ride settle_completion update_ride reload record_status emit_to_passenger
    set_available increment_driver_stats increment_passenger_stats
complete_ride-RowsStep user_id ride_id s =
    elim (Assigned-cases user_id ride_id RideStatus.in_progress s) [
      | inl (e, q) ↦ ground (arith, RowsStep-refl s.rides)
      | inr (d, own, r, a, q) ↦ ground (
        arith,
        RowsStep-refl s.rides,
        update-RowsStep ride_id (to_completed s.now r) r s.rides a.found
            (Step.completes s.now a.status refl),
      )
    ]

pub cancel_ride-RowsStep :
    (user_id ride_id : ℕ) (reason : Option String) (s : Store)
    → RowsStep s.rides (cancel_ride user_id ride_id reason s).1.rides
unfolding cancel_ride settle_cancellation update_ride set_available reload emit_to_passenger
    emit_to_driver record_status remove_pending_ride
cancel_ride-RowsStep user_id ride_id reason s = elim (Option-cases (find ride_id s.rides)) [
  | inl e ↦ ground (arith, RowsStep-refl s.rides)
  | inr (r, e) ↦ elim (Bool-cases (is_cancellable r.status)) [
    | inr c ↦ ground (arith, RowsStep-refl s.rides)
    | inl c ↦
        let cancelled = λ (by : CancelledBy).
          update-RowsStep ride_id (to_cancelled s.now by reason) r s.rides e
            (Step.cancels s.now by reason c refl) in
        ground (
          arith,
          RowsStep-refl s.rides,
          cancelled CancelledBy.passenger,
          cancelled CancelledBy.driver,
        )
  ]
]

is_open_request-Step :
    (k now d v j : ℕ) (r : Ride) → is_open_request k j r ≡ true → Step r (assign now d v r)
is_open_request-Step k now d v j r h =
    Step.accepts now d v (same_status→eq r.status RideStatus.requested (ground arith))
      (ground arith) refl

claim_ride-RowsStep :
    (ride_id d v : ℕ) (s : Store) → RowsStep s.rides (claim_ride ride_id d v s).1.rides
unfolding claim_ride try_assign_driver set_available reload emit_to_passenger record_status
    remove_pending_ride
claim_ride-RowsStep ride_id d v s = ground (
  arith,
  update_where-RowsStep (is_open_request ride_id) (assign s.now d v) s.rides
      (is_open_request-Step ride_id s.now d v),
)

pub accept_ride-RowsStep :
    (user_id ride_id : ℕ) (s : Store) → RowsStep s.rides (accept_ride user_id ride_id s).1.rides
unfolding accept_ride
accept_ride-RowsStep user_id ride_id s = elim (check_cases user_id ride_id s) [
  | inl (e, q) ↦ ground (arith, RowsStep-refl s.rides)
  | inr (d, v, own, r, c, q) ↦ ground (arith, claim_ride-RowsStep ride_id d v s)
]

pub reject_ride-RowsStep :
    (user_id ride_id : ℕ) (s : Store) → RowsStep s.rides (reject_ride user_id ride_id s).1.rides
unfolding reject_ride record_rejection
reject_ride-RowsStep user_id ride_id s = elim (own_driver_cases user_id s) [
  | inl (e, q) ↦ ground (arith, RowsStep-refl s.rides)
  | inr (d, own, m, q) ↦ ground (arith, RowsStep-refl s.rides)
]
