-- ===== src/Http/Users.antt =====
-- controllers/user.controller.js, notification.controller.js and driver.controller.js.
use ride_sharing_backend.Common.{ℕ, String, Bool, true, false, Option}
use ride_sharing_backend.Http.{Config, Body, Reply, sends}
use ride_sharing_backend.Model.{Point}
use ride_sharing_backend.Repositories.{ProfilePatch}
use ride_sharing_backend.Services.Admin.{AccessPayload}
use ride_sharing_backend.Services.Driver.{go_online, go_offline, update_location}
use ride_sharing_backend.Services.FavoriteDriver.{
  list_favorite_drivers, add_favorite_driver, remove_favorite_driver,
}
use ride_sharing_backend.Services.Notification.{list_my_notifications, mark_notification_read}
use ride_sharing_backend.Services.SavedLocation.{
  LocationData, LocationPatch, list_saved_locations, create_saved_location, update_saved_location,
  remove_saved_location,
}
use ride_sharing_backend.Services.User.{get_profile, update_profile, change_password, become_driver}
use ride_sharing_backend.Store.{Action}

pub data UserEndpoint : Type 0 where
  get_me list_locations list_favorites : UserEndpoint
  update_me : ProfilePatch → UserEndpoint
  change_my_password : ℕ → ℕ → UserEndpoint
  promote : ℕ → String → ℕ → UserEndpoint
  create_location : ℕ → LocationData → UserEndpoint
  update_location_of : ℕ → LocationPatch → UserEndpoint
  delete_location remove_favorite : ℕ → UserEndpoint
  add_favorite : ℕ → ℕ → UserEndpoint

unfoldable pub user_controller : Config → AccessPayload → UserEndpoint → Action Reply
user_controller c u UserEndpoint.get_me = sends 200 "Success" (get_profile u.sub) Body.user
user_controller c u (UserEndpoint.update_me p) =
    sends 200 "Profile updated" (update_profile u.sub p) Body.user
user_controller c u (UserEndpoint.change_my_password current new_password) =
    sends 200 "Password changed. Please log in again."
      (change_password c.bcrypt_hash c.bcrypt_compare c.access_ttl u.sub current new_password)
      (λ _. Body.nothing)
user_controller c u (UserEndpoint.promote driver_id license_number license_expiry) =
    sends 200 "Driver profile created" (become_driver u.sub driver_id license_number license_expiry)
      Body.user
user_controller c u UserEndpoint.list_locations =
    sends 200 "Success" (list_saved_locations u.sub) Body.locations
user_controller c u (UserEndpoint.create_location id d) =
    sends 201 "Saved location created" (create_saved_location u.sub id d) Body.location
user_controller c u (UserEndpoint.update_location_of id p) =
    sends 200 "Saved location updated" (update_saved_location u.sub id p) Body.location
user_controller c u (UserEndpoint.delete_location id) =
    sends 200 "Saved location deleted" (remove_saved_location u.sub id) (λ _. Body.nothing)
user_controller c u UserEndpoint.list_favorites =
    sends 200 "Success" (list_favorite_drivers u.sub) Body.favorites
user_controller c u (UserEndpoint.add_favorite id driver_id) =
    sends 201 "Driver added to favorites" (add_favorite_driver u.sub id driver_id) Body.favorite
user_controller c u (UserEndpoint.remove_favorite driver_id) =
    sends 200 "Driver removed from favorites" (remove_favorite_driver u.sub driver_id)
      (λ _. Body.nothing)

pub data DriverEndpoint : Type 0 where
  online ping : Point → DriverEndpoint
  offline : DriverEndpoint

unfoldable pub driver_controller : Config → AccessPayload → DriverEndpoint → Action Reply
driver_controller c u (DriverEndpoint.online p) =
    sends 200 "You are now online" (go_online u.sub p) (λ _. Body.online true)
driver_controller c u DriverEndpoint.offline =
    sends 200 "You are now offline" (go_offline u.sub) (λ _. Body.online false)
driver_controller c u (DriverEndpoint.ping p) =
    sends 200 "Location updated" (update_location c.distance u.sub p) (λ _. Body.nothing)

pub data NotificationEndpoint : Type 0 where
  list : ℕ → ℕ → Option Bool → NotificationEndpoint
  mark_read : ℕ → NotificationEndpoint

unfoldable pub notification_controller : AccessPayload → NotificationEndpoint → Action Reply
notification_controller u (NotificationEndpoint.list page limit is_read) =
    sends 200 "Success" (list_my_notifications u.sub page limit is_read)
      (λ r. Body.notifications r.0 r.1)
notification_controller u (NotificationEndpoint.mark_read id) =
    sends 200 "Notification marked as read" (mark_notification_read u.sub id) Body.notification
