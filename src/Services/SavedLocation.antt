-- ===== src/Services/SavedLocation.antt =====
-- services/savedLocation.service.js.
use ride_sharing_backend.Common.{ℕ, String, Bool, not, Option, none, some, ◌==◌}
use ride_sharing_backend.Common.Table.{Table, find}
use ride_sharing_backend.Errors.{forbidden, not_found}
use ride_sharing_backend.Model.{SavedLocation, Point}
use ride_sharing_backend.Repositories.{
  find_passenger_by_user, list_locations, create_location, update_location_row, remove_location_row,
}
use ride_sharing_backend.Store.{Action, gets, or_throw, throw_if, pure, ◌>>=◌, ◌>>◌}

-- The validated bodies of a new location and of an edit.
pub record LocationData : Type 0 where
  pub label : String
  pub address : String
  pub position : Point
  pub is_favorite : Bool

pub record LocationPatch : Type 0 where
  pub label : Option String
  pub address : Option String
  pub lat : Option ℕ
  pub lng : Option ℕ
  pub is_favorite : Option Bool

abbrev or_old {ℓ} : {A : Type ℓ} → A → Option A → A
or_old old none = old
or_old old (some new) = new

abbrev pub relocated : LocationPatch → SavedLocation → SavedLocation
relocated p l = record l {
  label = or_old l.label p.label;
  address = or_old l.address p.address;
  position = record { lat = or_old l.position.lat p.lat; lng = or_old l.position.lng p.lng };
  is_favorite = or_old l.is_favorite p.is_favorite;
}

abbrev new_location : ℕ → LocationData → SavedLocation
new_location passenger_id d = record {
  passenger_id = passenger_id;
  label = d.label;
  address = d.address;
  position = d.position;
  is_favorite = d.is_favorite;
}

unfoldable pub get_own_passenger_id : ℕ → Action ℕ
get_own_passenger_id user_id = do
  found ← gets (λ s. find_passenger_by_user user_id s.passengers)
  (id, _) ← or_throw (forbidden "Only passenger accounts can manage saved locations") found
  pure id

unfoldable pub assert_ownership : ℕ → ℕ → Action SavedLocation
assert_ownership location_id passenger_id = do
  found ← gets (λ s. find location_id s.saved_locations)
  l ← or_throw (not_found "Saved location not found") found
  throw_if (not (l.passenger_id == passenger_id)) (not_found "Saved location not found")
  pure l

unfoldable pub list_saved_locations : ℕ → Action (Table SavedLocation)
list_saved_locations user_id = do
  passenger_id ← get_own_passenger_id user_id
  gets (λ s. list_locations passenger_id s.saved_locations)

-- The id of the new row is an argument.
unfoldable pub create_saved_location : ℕ → ℕ → LocationData → Action SavedLocation
create_saved_location user_id id d = do
  passenger_id ← get_own_passenger_id user_id
  create_location id (new_location passenger_id d)

unfoldable pub update_saved_location : ℕ → ℕ → LocationPatch → Action SavedLocation
update_saved_location user_id location_id p = do
  passenger_id ← get_own_passenger_id user_id
  assert_ownership location_id passenger_id
  update_location_row location_id (relocated p)

unfoldable pub remove_saved_location : ℕ → ℕ → Action (Unit {0})
remove_saved_location user_id location_id = do
  passenger_id ← get_own_passenger_id user_id
  assert_ownership location_id passenger_id
  remove_location_row location_id
