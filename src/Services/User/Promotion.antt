-- ===== src/Services/User/Promotion.antt =====
-- What a user who has just become a driver may do.
use ride_sharing_backend.Common.{
  ℕ, ◌≡◌, refl, ap, sym, ◌∙◌, String, true, false, ◌⊎◌, inl, inr, none, some, ◌∷◌, arith,
  Bool-cases, Option-cases,
}
use ride_sharing_backend.Common.Table.{find, find_first, update}
use ride_sharing_backend.Errors.{Thrown, api, forbidden, conflict, other, prisma, p2002}
use ride_sharing_backend.Model.{User, Role, Driver, Point}
use ride_sharing_backend.Repositories.{
  find_driver_by_user, is_approved, new_driver, promote_to_driver, driver_collides,
  with_driver_role,
}
use ride_sharing_backend.Services.Driver.{go_online}
use ride_sharing_backend.Services.Ride.{get_own_driver}
use ride_sharing_backend.Services.Ride.Matching.{accept_ride, check_acceptance}
use ride_sharing_backend.Services.User.{become_driver, is_passenger_role, or_type_error}
use ride_sharing_backend.Store.{Store, at_time, ok, err}

abbrev pub not_approved : Thrown
not_approved = api (forbidden "Your driver account is not yet approved")

-- A driver whose account is not approved is kept from going online and from accepting.
unapproved_waits :
    (user_id d : ℕ) (row : Driver) (p : Point) (ride_id : ℕ) (s : Store)
    → find_driver_by_user user_id s.drivers ≡ some (d, row)
    → is_approved row.verification_status ≡ false
    → (go_online user_id p s ≡ (err not_approved, s))
      × (accept_ride user_id ride_id s ≡ (err not_approved, s))
unfolding go_online accept_ride check_acceptance get_own_driver
unapproved_waits user_id d row p ride_id s found unapproved = (ground arith, ground arith)

is_passenger_role→eq : (r : Role) → is_passenger_role r ≡ true → r ≡ Role.passenger
is_passenger_role→eq Role.passenger h = refl
is_passenger_role→eq Role.driver h = ground arith
is_passenger_role→eq Role.admin h = ground arith

-- A promotion is refused, or the passenger gets a role and a row.
become_driver_cases :
    (user_id id : ℕ) (license : String) (expiry : ℕ) (s : Store)
    → ((e : Thrown) × (become_driver user_id id license expiry s ≡ (err e, s)))
      ⊎ ((u : User) × (find user_id s.users ≡ some u)
          × (is_passenger_role u.role ≡ true)
          × (find_driver_by_user user_id s.drivers ≡ none)
          × ((become_driver user_id id license expiry s).1 ≡ record s {
            users = update user_id with_driver_role s.users;
            drivers = (id, new_driver user_id license expiry s.now) ∷ s.drivers;
          }))
unfolding become_driver or_type_error promote_to_driver
become_driver_cases user_id id license expiry s = elim (Option-cases (find user_id s.users)) [
  | inl e ↦ inl (other "Cannot read properties of null", ground arith)
  | inr (u, e) ↦ elim (Bool-cases (is_passenger_role u.role)) [
    | inr f ↦
        inl (api (conflict "Only passenger accounts can apply to become a driver"), ground arith)
    | inl f ↦ elim (Option-cases (find_driver_by_user user_id s.drivers)) [
      | inr (x, g) ↦
          inl (api (conflict "A driver profile already exists for this account"), ground arith)
      | inl g ↦
          elim (Option-cases
            (find_first (driver_collides id (new_driver user_id license expiry s.now)) s.drivers)) [
              | inr (x, h) ↦ inl (prisma p2002 "licenseNumber" "", ground arith)
              | inl h ↦ inr (u, e, f, g, ground arith)
            ]
    ]
  ]
]

-- A user who has just become a driver had the role of a passenger and no driver's row. Until the row is reviewed the user
-- can neither go online nor accept a ride, and cannot become a driver again: each attempt, at any later time, is refused
-- and changes nothing.
pub become_driver_waits :
    (user_id id : ℕ) (license : String) (expiry : ℕ) (u : User) (s t : Store)
    → become_driver user_id id license expiry s ≡ (ok u, t)
    → (later : ℕ) (p : Point) (ride_id other_id : ℕ) (other_license : String) (other_expiry : ℕ)
    → let w = at_time later t in
      ((was : User) × (find user_id s.users ≡ some was) × (was.role ≡ Role.passenger))
      × (find_driver_by_user user_id s.drivers ≡ none)
      × (go_online user_id p w ≡ (err not_approved, w))
      × (accept_ride user_id ride_id w ≡ (err not_approved, w))
      × ((e : Thrown) × (become_driver user_id other_id other_license other_expiry w ≡ (err e, w)))
become_driver_waits user_id id license expiry u s t h later p ride_id other_id other_license
      other_expiry =
    elim (become_driver_cases user_id id license expiry s) [
      | inl (e, q) ↦ ground arith
      | inr (was, there, passenger, had_none, q) ↦
          let w = at_time later t in
          let row = new_driver user_id license expiry s.now in
          let drivers : w.drivers ≡ (id, row) ∷ s.drivers =
            ap (λ x. x.1.drivers) (sym h) ∙ ap (λ x. x.drivers) q in
          let found : find_driver_by_user user_id w.drivers ≡ some (id, row) =
            rw drivers (ground arith) in
          let (offline, unassigned) = unapproved_waits user_id id row p ride_id w found refl in
          (
            (was, there, is_passenger_role→eq was.role passenger),
            had_none,
            offline,
            unassigned,
            elim (become_driver_cases user_id other_id other_license other_expiry w) [
              | inl refused ↦ refused
              | inr (_, _, _, none_there, _) ↦ ground (arith, found, none_there)
            ],
          )
    ]
