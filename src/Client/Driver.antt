-- ===== src/Client/Driver.antt =====
-- frontend/js/views/driver.js: the driver's console, without its template. What a request is answered
-- with is an argument: the data, or the message of the error that `api` throws. A handler is modelled from
-- its answer on; `busy` and `loading` are true until then.
use ride_sharing_backend.Client.{Client, toast}
use ride_sharing_backend.Common.{
  ℕ, String, Bool, false, Option, none, some, List, [], ◌∷◌, ◌==◌, if◌then◌else◌,
}
use ride_sharing_backend.Common.Table.{Table}
use ride_sharing_backend.Model.{Ride}
use ride_sharing_backend.Store.{RideOffer}

pub data Answer (A : Type 0) : Type 0 where
  given : A → Answer A
  refused : String → Answer A

-- The view's data; a ride is kept with its id.
pub record Console : Type 0 where
  pub tab : String
  pub is_loading : Bool
  pub is_online : Option Bool
  pub nearby : List RideOffer
  pub active_ride : Option (ℕ × Ride)
  pub otp : String
  pub cancel_reason : String
  pub history : Table Ride
  pub is_busy : Bool

abbrev pub Screen : Type 0
Screen = Console × Client

abbrev tell : String → Screen → Screen
tell message (v, c) = (v, toast message c)

-- `finally { this.busy = false; }`
abbrev not_busy : Screen → Screen
not_busy (v, c) = (record v { is_busy = false }, c)

unfoldable pub go_online_pressed : Answer Bool → Screen → Screen
go_online_pressed (Answer.given is_online) (v, c) =
    not_busy (tell "You're online" (record v { is_online = some is_online }, c))
go_online_pressed (Answer.refused message) x = not_busy (tell message x)

unfoldable pub go_offline_pressed : Answer Bool → Screen → Screen
go_offline_pressed (Answer.given is_online) (v, c) =
    not_busy (tell "You're offline" (record v { is_online = some is_online }, c))
go_offline_pressed (Answer.refused message) x = not_busy (tell message x)

unfoldable pub ping_location : Answer (Unit {0}) → Screen → Screen
ping_location (Answer.given _) x = tell "Location pinged" x
ping_location (Answer.refused message) x = tell message x

unfoldable pub load_nearby : Answer (List RideOffer) → Screen → Screen
load_nearby (Answer.given offers) (v, c) = not_busy (record v { nearby = offers }, c)
load_nearby (Answer.refused message) x = not_busy (tell message x)

-- `this.nearby.filter((r) => r.id !== ride.id)`
abbrev pub without_offer : ℕ → List RideOffer → List RideOffer
without_offer ride_id [] = []
without_offer ride_id (o ∷ os) =
    let rest = without_offer ride_id os in if o.ride_id == ride_id then rest else o ∷ rest

unfoldable pub accept_pressed : ℕ → Answer Ride → Screen → Screen
accept_pressed ride_id (Answer.given r) (v, c) = tell "Ride accepted" (
  record v {
    active_ride = some (ride_id, r);
    nearby = without_offer ride_id v.nearby;
    tab = "active";
  },
  c,
)
accept_pressed ride_id (Answer.refused message) x = tell message x

unfoldable pub reject_pressed : ℕ → Answer (Unit {0}) → Screen → Screen
reject_pressed ride_id (Answer.given _) (v, c) =
    tell "Ride rejected" (record v { nearby = without_offer ride_id v.nearby }, c)
reject_pressed ride_id (Answer.refused message) x = tell message x

unfoldable pub load_active_ride : ℕ → Answer Ride → Screen → Screen
load_active_ride ride_id (Answer.given r) (v, c) = (record v { active_ride = some (ride_id, r) }, c)
load_active_ride ride_id (Answer.refused message) x = tell message x

unfoldable pub arrived_pressed : ℕ → Answer Ride → Screen → Screen
arrived_pressed ride_id (Answer.given r) (v, c) =
    tell "Marked arrived" (record v { active_ride = some (ride_id, r) }, c)
arrived_pressed ride_id (Answer.refused message) x = tell message x

unfoldable pub start_pressed : ℕ → Answer Ride → Screen → Screen
start_pressed ride_id (Answer.given r) (v, c) =
    tell "Ride started" (record v { active_ride = some (ride_id, r); otp = "" }, c)
start_pressed ride_id (Answer.refused message) x = tell message x

unfoldable pub load_history : Answer (Table Ride) → Screen → Screen
load_history (Answer.given rides) (v, c) = (record v { history = rides; is_loading = false }, c)
load_history (Answer.refused message) (v, c) = tell message (record v { is_loading = false }, c)

-- The history is loaded again after the ride's end.
unfoldable pub complete_pressed : ℕ → Answer Ride → Answer (Table Ride) → Screen → Screen
complete_pressed ride_id (Answer.given r) rides (v, c) =
    load_history rides (tell "Ride completed" (record v { active_ride = some (ride_id, r) }, c))
complete_pressed ride_id (Answer.refused message) rides x = tell message x

unfoldable pub cancel_pressed : ℕ → Answer Ride → Answer (Table Ride) → Screen → Screen
cancel_pressed ride_id (Answer.given r) rides (v, c) =
    load_history rides
      (tell "Ride cancelled" (record v { active_ride = some (ride_id, r); cancel_reason = "" }, c))
cancel_pressed ride_id (Answer.refused message) rides x = tell message x

unfoldable pub clear_active_ride : Screen → Screen
clear_active_ride (v, c) = (record v { active_ride = none }, c)
