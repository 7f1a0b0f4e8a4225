-- ===== src/Services/Ride/Views.antt =====
-- The read side: `getRide`, `getMyActiveRide`, and the histories' pages.
use ride_sharing_backend.Common.{
  ℕ, ◌+◌, ◌-◌, ◌*◌, ◌/◌, Bool, true, false, ◌&&◌, ◌||◌, not, Option, none, some, List, [], ◌∷◌,
  ◌==◌, if◌then◌else◌, holds, take, drop, length,
}
use ride_sharing_backend.Common.Table.{Table, find_many}
use ride_sharing_backend.Errors.{not_found}
use ride_sharing_backend.Model.{Ride, RideStatus, same_status, Role}
use ride_sharing_backend.Store.{Store, Action, gets, or_throw, throw_if, pure, ◌>>=◌, ◌>>◌}
use ride_sharing_backend.Repositories.{
  find_active_by_passenger, find_active_by_driver, find_passenger_by_user, find_driver_by_user,
  passenger_user, driver_user,
}
use ride_sharing_backend.Services.Ride.{
  Viewer, sanitize_ride, ride_of, get_own_passenger, get_own_driver,
}

abbrev pub is_admin : Role → Bool
is_admin Role.admin = true
is_admin _ = false

unfoldable pub get_ride : ℕ → Role → ℕ → Action Ride
get_ride user_id role ride_id = do
  found ← gets (ride_of ride_id)
  r ← or_throw (not_found "Ride not found") found
  is_passenger ← gets (λ s. holds (λ u. u == user_id) (passenger_user s.passengers r))
  is_driver ← gets (λ s. holds (λ u. u == user_id) (driver_user s.drivers r))
  throw_if (not (is_passenger || is_driver || is_admin role)) (not_found "Ride not found")
  pure (sanitize_ride (if is_passenger then Viewer.passenger else Viewer.driver) r)

-- The caller's active ride as a passenger, and as a driver: the ids of the lean rows.
abbrev active_as_passenger : ℕ → Store → Option ℕ
active_as_passenger user_id s = elim (find_passenger_by_user user_id s.passengers) [
  | none ↦ none
  | some p ↦ elim (find_active_by_passenger p.0 s.rides) [ none ↦ none | some r ↦ some r.0 ]
]

abbrev active_as_driver : ℕ → Store → Option ℕ
active_as_driver user_id s = elim (find_driver_by_user user_id s.drivers) [
  | none ↦ none
  | some d ↦ elim (find_active_by_driver d.0 s.rides) [ none ↦ none | some r ↦ some r.0 ]
]

abbrev full_view : Viewer → ℕ → Store → Option Ride
full_view viewer ride_id s = elim (ride_of ride_id s) [
  | none ↦ none
  | some r ↦ some (sanitize_ride viewer r)
]

abbrev resync : Option ℕ → Option ℕ → Store → Option Ride
resync (some ride_id) as_driver s = full_view Viewer.passenger ride_id s
resync none (some ride_id) s = full_view Viewer.driver ride_id s
resync none none s = none

-- `getMyActiveRide`: `asPassenger ?? asDriver`.
unfoldable pub get_my_active_ride : ℕ → Action (Option Ride)
get_my_active_ride user_id =
    gets (λ s. resync (active_as_passenger user_id s) (active_as_driver user_id s) s)

-- `skip: (page - 1) * limit, take: limit`, for a page from 1, and the pages' metadata.
unfoldable pub page_of {ℓ} : {A : Type ℓ} → ℕ → ℕ → List A → List A
page_of page limit rows = take limit (drop ((page - 1) * limit) rows)

pub record Pagination : Type 0 where
  pub page : ℕ
  pub limit : ℕ
  pub total : ℕ
  pub total_pages : ℕ

-- `Math.ceil(total / limit)`, for a positive limit.
unfoldable pub pagination_meta : ℕ → ℕ → ℕ → Pagination
pagination_meta page limit total = record {
  page = page;
  limit = limit;
  total = total;
  total_pages = (total + limit - 1) / limit;
}

-- The filter on a status, which may be left out.
abbrev has_status : Option RideStatus → Ride → Bool
has_status none r = true
has_status (some status) r = same_status r.status status

-- The two histories: the newest rides stand first in the table.
unfoldable pub list_passenger_history :
    ℕ → ℕ → ℕ → Option RideStatus → Action (Table Ride × Pagination)
list_passenger_history user_id page limit status = do
  (passenger_id, _) ← get_own_passenger user_id
  rides ←
      gets (λ s. find_many (λ _ r. (r.passenger_id == passenger_id) && has_status status r) s.rides)
  pure (page_of page limit rides, pagination_meta page limit (length rides))

abbrev without_otps : Table Ride → Table Ride
without_otps [] = []
without_otps ((id, r) ∷ t) = (id, sanitize_ride Viewer.driver r) ∷ without_otps t

unfoldable pub list_driver_history :
    ℕ → ℕ → ℕ → Option RideStatus → Action (Table Ride × Pagination)
list_driver_history user_id page limit status = do
  (driver_id, _) ← get_own_driver user_id
  rides ← gets (λ s.
      find_many (λ _ r. holds (λ d. d == driver_id) r.driver_id && has_status status r) s.rides)
  pure (without_otps (page_of page limit rides), pagination_meta page limit (length rides))
