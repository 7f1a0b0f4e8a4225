-- ===== src/Sockets.antt =====
-- sockets/index.js: the handlers of a socket. What is broadcast to a user is `emit_to` of the ride
-- service; `verified` is the payload of the handshake's token, if its signature and expiry hold.
pub mod Spaced
use ride_sharing_backend.Common.{ℕ, ◌-◌, Option, none, some, ltb, if◌then◌else◌}
use ride_sharing_backend.Errors.{Thrown, zod}
use ride_sharing_backend.Model.{Point, Ride, Role}
use ride_sharing_backend.Services.Admin.{AccessPayload}
use ride_sharing_backend.Services.Driver.{update_location}
use ride_sharing_backend.Services.Ride.Views.{get_my_active_ride}
use ride_sharing_backend.Store.{Store, Result, ok, err}

-- `socket.user`, and the variable `lastLocationAt` of the connection.
pub record Socket : Type 0 where
  pub user_id : ℕ
  pub role : Role
  pub last_location_at : ℕ

-- `MIN_LOCATION_INTERVAL_MS`
abbrev pub min_location_interval : ℕ
min_location_interval = 2000

-- `authenticateSocket`, and a connection without a token that can be verified is refused.
unfoldable pub authenticate_socket : Option AccessPayload → Option Socket
authenticate_socket none = none
authenticate_socket (some u) =
    some (record { user_id = u.sub; role = u.role; last_location_at = 0 })

abbrev synced : Result (Option Ride) → Option Ride
synced (ok r) = r
synced (err _) = none

-- `ride:sync` on a new connection: the active ride, unless reading it fails.
unfoldable pub on_connection : Socket → Store → Option Ride × Store
on_connection socket s = let (r, s') = get_my_active_ride socket.user_id s in (synced r, s')

abbrev failure_of : Result (Unit {0}) → Option Thrown
failure_of (ok _) = none
failure_of (err e) = some e

-- The body of the handler once the interval has passed. A position that does not parse is `none`.
unfoldable pub accept_location :
    (Point → Point → ℕ) → Socket → Option Point → Store → Option Thrown × Store
accept_location distance socket none s = (some (zod "lat, lng"), s)
accept_location distance socket (some p) s =
    let (r, s') = update_location distance socket.user_id p s in (failure_of r, s')

-- `driver:location`: too early a position is dropped; what is thrown goes back to the socket.
unfoldable pub on_driver_location :
    (Point → Point → ℕ) → Option Point → Socket → Store → Socket × Option Thrown × Store
on_driver_location distance raw socket s =
    if ltb (s.now - socket.last_location_at) min_location_interval
    then (socket, none, s)
    else (let (e, s') = accept_location distance socket raw s in
        (record socket { last_location_at = s.now }, e, s'))
