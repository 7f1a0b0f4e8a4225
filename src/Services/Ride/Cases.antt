-- ===== src/Services/Ride/Cases.antt =====
-- What the guards of the ride operations leave behind: the caller's driver row and the assigned ride, or
-- an error with the store unchanged.
use ride_sharing_backend.Common.{
  ℕ, ◌≡◌, true, ◌&&◌, ◌⊎◌, inl, inr, Option, none, some, arith, Bool-cases, Option-cases, holds,
  ◌==◌,
}
use ride_sharing_backend.Common.Table.{find}
use ride_sharing_backend.Errors.{Thrown, api, forbidden, not_found, conflict, bad_request}
use ride_sharing_backend.Model.{Ride, RideStatus, same_status, Driver}
use ride_sharing_backend.Store.{Store, ok, err}
use ride_sharing_backend.Repositories.{
  find_driver_by_user, find_active_by_driver, is_approved, find_active_verified_by_driver_and_type,
}
use ride_sharing_backend.Services.Ride.Matching.{check_acceptance, no_vehicle}
use ride_sharing_backend.Services.Ride.{
  get_own_driver, get_assigned_ride_in_status, is_driven_by, status_message,
}

pub same_status→eq : (a b : RideStatus) → same_status a b ≡ true → a ≡ b
same_status→eq RideStatus.requested b h = ground arith
same_status→eq RideStatus.accepted b h = ground arith
same_status→eq RideStatus.arrived b h = ground arith
same_status→eq RideStatus.in_progress b h = ground arith
same_status→eq RideStatus.completed b h = ground arith
same_status→eq RideStatus.cancelled b h = ground arith

pub own_driver_cases :
    (user_id : ℕ) (s : Store)
    → ((e : Thrown) × (get_own_driver user_id s ≡ (err e, s)))
      ⊎ ((d : ℕ) × (own : Driver) × (find_driver_by_user user_id s.drivers ≡ some (d, own))
          × (get_own_driver user_id s ≡ (ok (d, own), s)))
unfolding get_own_driver
own_driver_cases user_id s = elim (Option-cases (find_driver_by_user user_id s.drivers)) [
  | inl e ↦ inl (api (forbidden "Only driver accounts can perform this action"), ground arith)
  | inr ((d, own), e) ↦ inr (d, own, e, ground arith)
]

-- The assigned ride in the expected status, or an error.
pub record Assigned (user_id ride_id : ℕ) (expected : RideStatus) (d : ℕ) (own : Driver) (r : Ride)
    (s : Store) : Type 0 where
  pub mine : find_driver_by_user user_id s.drivers ≡ some (d, own)
  pub found : find ride_id s.rides ≡ some r
  pub driven : r.driver_id ≡ some d
  pub status : r.status ≡ expected

is_driven_by→eq : (d : ℕ) (o : Option ℕ) → holds (λ j. j == d) o ≡ true → o ≡ some d
is_driven_by→eq d none h = cc
is_driven_by→eq d (some j) h = ground arith

pub Assigned-cases :
    (user_id ride_id : ℕ) (expected : RideStatus) (s : Store)
    → ((e : Thrown) × (get_assigned_ride_in_status user_id ride_id expected s ≡ (err e, s)))
      ⊎ ((d : ℕ) × (own : Driver) × (r : Ride) × Assigned user_id ride_id expected d own r s
          × (get_assigned_ride_in_status user_id ride_id expected s ≡ (ok (d, own, r), s)))
unfolding get_assigned_ride_in_status
Assigned-cases user_id ride_id expected s = elim (own_driver_cases user_id s) [
  | inl (e, q) ↦ inl (e, ground arith)
  | inr (d, own, mine, q) ↦ elim (Option-cases (find ride_id s.rides)) [
    | inl m ↦ inl (api (not_found "Ride not found"), ground arith)
    | inr (r, m) ↦ elim (Bool-cases (is_driven_by d r)) [
      | inr b ↦ inl (api (not_found "Ride not found"), ground arith)
      | inl b ↦ elim (Bool-cases (same_status r.status expected)) [
        | inr c ↦ inl (api (conflict (status_message expected)), ground arith)
        | inl c ↦ inr (
          d,
          own,
          r,
          record {
            mine = mine;
            found = m;
            driven = is_driven_by→eq d r.driver_id b;
            status = same_status→eq r.status expected c;
          },
          ground arith,
        )
      ]
    ]
  ]
]

-- What has been read when the checks of `acceptRide` have passed.
pub record Acceptable (user_id ride_id d : ℕ) (own : Driver) (r : Ride) (s : Store) : Type 0 where
  pub mine : find_driver_by_user user_id s.drivers ≡ some (d, own)
  pub approved : is_approved own.verification_status ≡ true
  pub online : own.is_online ≡ true
  pub available : own.is_available ≡ true
  pub free : find_active_by_driver d s.rides ≡ none
  pub found : find ride_id s.rides ≡ some r
  pub status : r.status ≡ RideStatus.requested

vehicle_cases :
    (user_id ride_id d : ℕ) (own : Driver) (r : Ride) (s : Store)
    → Acceptable user_id ride_id d own r s
    → get_own_driver user_id s ≡ (ok (d, own), s)
    → ((e : Thrown) × (check_acceptance user_id ride_id s ≡ (err e, s)))
      ⊎ ((d : ℕ) × (v : ℕ) × (own : Driver) × (r : Ride) × Acceptable user_id ride_id d own r s
          × (check_acceptance user_id ride_id s ≡ (ok (d, v), s)))
unfolding check_acceptance
vehicle_cases user_id ride_id d own r s a q =
    elim (Option-cases
      (find_active_verified_by_driver_and_type d r.requested_vehicle_type s.vehicles)) [
        | inl e ↦ inl (api (no_vehicle r.requested_vehicle_type), ground arith)
        | inr ((v, row), e) ↦ inr (d, v, own, r, a, ground arith)
      ]

pub check_cases :
    (user_id ride_id : ℕ) (s : Store)
    → ((e : Thrown) × (check_acceptance user_id ride_id s ≡ (err e, s)))
      ⊎ ((d : ℕ) × (v : ℕ) × (own : Driver) × (r : Ride) × Acceptable user_id ride_id d own r s
          × (check_acceptance user_id ride_id s ≡ (ok (d, v), s)))
unfolding check_acceptance
check_cases user_id ride_id s = elim (own_driver_cases user_id s) [
  | inl (e, q) ↦ inl (e, ground arith)
  | inr (d, own, mine, q) ↦ elim (Bool-cases (is_approved own.verification_status)) [
    | inr n ↦ inl (api (forbidden "Your driver account is not yet approved"), ground arith)
    | inl approved ↦ elim (Bool-cases (own.is_online && own.is_available)) [
      | inr n ↦
          inl (api (bad_request "Go online and be available before accepting rides"), ground arith)
      | inl on ↦ elim (Option-cases (find_active_by_driver d s.rides)) [
        | inr (a, m) ↦ inl (api (conflict "You already have an active ride"), ground arith)
        | inl free ↦ elim (Option-cases (find ride_id s.rides)) [
          | inl m ↦ inl (api (conflict "Ride is no longer available"), ground arith)
          | inr (r, found) ↦ elim (Bool-cases (same_status r.status RideStatus.requested)) [
            | inr n ↦ inl (api (conflict "Ride is no longer available"), ground arith)
            | inl st ↦
                vehicle_cases user_id ride_id d own r s
                  (record {
                    mine = mine;
                    approved = approved;
                    online = ground arith;
                    available = ground arith;
                    free = free;
                    found = found;
                    status = same_status→eq r.status RideStatus.requested st;
                  })
                  q
          ]
        ]
      ]
    ]
  ]
]
