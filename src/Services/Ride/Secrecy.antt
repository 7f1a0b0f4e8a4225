-- ===== src/Services/Ride/Secrecy.antt =====
-- What a driver is told: no answer of the driver's calls carries the ride's OTP.
use ride_sharing_backend.Common.{
  ℕ, ◌≡◌, sym, ap, ◌∙◌, true, ◌⊎◌, inl, inr, none, some, arith, Bool-cases, Option-cases, ◌==◌,
  holds, holds→eq,
}
use ride_sharing_backend.Model.{Ride, Role}
use ride_sharing_backend.Repositories.{passenger_user, driver_user}
use ride_sharing_backend.Services.Ride.{without_otp, ride_of}
use ride_sharing_backend.Services.Ride.Matching.{accept_ride, claim_ride}
use ride_sharing_backend.Services.Ride.Trip.{mark_arrived, start_ride, complete_ride}
use ride_sharing_backend.Services.Ride.Views.{get_ride, is_admin}
use ride_sharing_backend.Store.{Store, ok}

mark_arrived_blank :
    (user_id ride_id : ℕ) (s : Store) (r : Ride)
    → (mark_arrived user_id ride_id s).0 ≡ ok r
    → r.otp_code ≡ none
unfolding mark_arrived
mark_arrived_blank user_id ride_id s r h = ground arith

accept_ride_blank :
    (user_id ride_id : ℕ) (s : Store) (r : Ride)
    → (accept_ride user_id ride_id s).0 ≡ ok r
    → r.otp_code ≡ none
unfolding accept_ride claim_ride
accept_ride_blank user_id ride_id s r h = ground arith

start_ride_blank :
    (user_id ride_id otp : ℕ) (s : Store) (r : Ride)
    → (start_ride user_id ride_id otp s).0 ≡ ok r
    → r.otp_code ≡ none
unfolding start_ride
start_ride_blank user_id ride_id otp s r h = ground arith

complete_ride_blank :
    (user_id ride_id : ℕ) (s : Store) (r : Ride)
    → (complete_ride user_id ride_id s).0 ≡ ok r
    → r.otp_code ≡ none
unfolding complete_ride
complete_ride_blank user_id ride_id s r h = ground arith

-- The ride that a driver's call answers with, whichever call it is.
abbrev pub DriverAnswers : ℕ → ℕ → ℕ → Store → Ride → Type 0
DriverAnswers user_id ride_id otp s r =
    ((accept_ride user_id ride_id s).0 ≡ ok r)
    ⊎ ((mark_arrived user_id ride_id s).0 ≡ ok r)
    ⊎ ((start_ride user_id ride_id otp s).0 ≡ ok r)
    ⊎ ((complete_ride user_id ride_id s).0 ≡ ok r)

-- Whatever ride a driver's call answers with, on accepting, arriving, starting or completing, its OTP is blanked out.
pub DriverAnswers-blank :
    (user_id ride_id otp : ℕ) (s : Store) (r : Ride)
    → DriverAnswers user_id ride_id otp s r
    → r.otp_code ≡ none
DriverAnswers-blank user_id ride_id otp s r (inl h) = accept_ride_blank user_id ride_id s r h
DriverAnswers-blank user_id ride_id otp s r (inr (inl h)) = mark_arrived_blank user_id ride_id s r h
DriverAnswers-blank user_id ride_id otp s r (inr (inr (inl h))) =
    start_ride_blank user_id ride_id otp s r h
DriverAnswers-blank user_id ride_id otp s r (inr (inr (inr h))) =
    complete_ride_blank user_id ride_id s r h

-- Who is not the ride's passenger never reads its OTP from it, an administrator included, and only its passenger, its
-- driver and administrators read it at all.
pub get_ride_private :
    (user_id ride_id : ℕ) (role : Role) (s : Store) (r : Ride)
    → (get_ride user_id role ride_id s).0 ≡ ok r
    → ((passenger_user s.passengers r ≡ some user_id) ⊎ (r.otp_code ≡ none))
      × ((passenger_user s.passengers r ≡ some user_id)
          ⊎ (driver_user s.drivers r ≡ some user_id)
          ⊎ (is_admin role ≡ true))
unfolding get_ride
get_ride_private user_id ride_id role s r h = elim (Option-cases (ride_of ride_id s)) [
  | inl e ↦ ground arith
  | inr (q, e) ↦ elim (Bool-cases (holds (λ u. u == user_id) (passenger_user s.passengers q))) [
    | inl p ↦
        let same : q ≡ r = ground arith in
        let own : passenger_user s.passengers r ≡ some user_id =
          ap (passenger_user s.passengers) (sym same)
          ∙ holds→eq user_id (passenger_user s.passengers q) p in
        (inl own, inl own)
    | inr p ↦ elim (Bool-cases (holds (λ u. u == user_id) (driver_user s.drivers q))) [
      | inl d ↦
          let same : without_otp q ≡ r = ground arith in
          let drives : driver_user s.drivers r ≡ some user_id =
            ap (driver_user s.drivers) (sym same) ∙ holds→eq user_id (driver_user s.drivers q) d in
          (inr (ground arith), inr (inl drives))
      | inr d ↦ (inr (ground arith), inr (inr (ground arith)))
    ]
  ]
]
