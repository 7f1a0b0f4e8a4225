-- ===== src/Services/FavoriteDriver.antt =====
-- services/favoriteDriver.service.js.
use ride_sharing_backend.Common.{ℕ, is_some}
use ride_sharing_backend.Common.Table.{Table, find}
use ride_sharing_backend.Errors.{forbidden, not_found, conflict}
use ride_sharing_backend.Model.{FavoriteDriver}
use ride_sharing_backend.Repositories.{
  find_passenger_by_user, find_favorite, create_favorite, remove_favorite, list_favorites,
}
use ride_sharing_backend.Store.{Action, gets, or_throw, throw_if, pure, ◌>>=◌, ◌>>◌}

unfoldable pub get_own_passenger_id : ℕ → Action ℕ
get_own_passenger_id user_id = do
  found ← gets (λ s. find_passenger_by_user user_id s.passengers)
  (id, _) ← or_throw (forbidden "Only passenger accounts can manage favorite drivers") found
  pure id

unfoldable pub list_favorite_drivers : ℕ → Action (Table FavoriteDriver)
list_favorite_drivers user_id = do
  passenger_id ← get_own_passenger_id user_id
  gets (λ s. list_favorites passenger_id s.favorites)

-- The id of the new row is an argument.
unfoldable pub add_favorite_driver : ℕ → ℕ → ℕ → Action FavoriteDriver
add_favorite_driver user_id id driver_id = do
  passenger_id ← get_own_passenger_id user_id
  found ← gets (λ s. find driver_id s.drivers)
  or_throw (not_found "Driver not found") found
  existing ← gets (λ s. find_favorite passenger_id driver_id s.favorites)
  throw_if (is_some existing) (conflict "This driver is already in your favorites")
  create_favorite id passenger_id driver_id

unfoldable pub remove_favorite_driver : ℕ → ℕ → Action (Unit {0})
remove_favorite_driver user_id driver_id = do
  passenger_id ← get_own_passenger_id user_id
  remove_favorite passenger_id driver_id
