-- ===== src/Http/Routes.antt =====
-- routes/*.js as app.js mounts them: which guards stand before which controller.
use Prim.Native.String.{◌++◌ as append}
use ride_sharing_backend.Common.{String, Bool, Option, some, [], ◌∷◌}
use ride_sharing_backend.Errors.{api, not_found}
use ride_sharing_backend.Http.{Config, Reply}
use ride_sharing_backend.Http.Admin.{AdminEndpoint, admin_controller}
use ride_sharing_backend.Http.Auth.{AuthEndpoint, auth_controller, log_out_everywhere}
use ride_sharing_backend.Http.Rides.{
  RideEndpoint, ride_controller, PaymentEndpoint, payment_controller, RatingEndpoint,
  rating_controller,
}
use ride_sharing_backend.Http.Users.{
  UserEndpoint, user_controller, NotificationEndpoint, notification_controller, DriverEndpoint,
  driver_controller,
}
use ride_sharing_backend.Http.Vehicles.{VehicleEndpoint, vehicle_controller}
use ride_sharing_backend.Http.Wallets.{WalletEndpoint, wallet_controller, stripe_webhook, health}
use ride_sharing_backend.Model.{Role}
use ride_sharing_backend.Services.Admin.{AccessPayload, Bearer, authenticate, authorize}
use ride_sharing_backend.Services.Payment.Stripe.{StripeEvent}
use ride_sharing_backend.Store.{Action, throw, ◌>>=◌, ◌>>◌}

-- The routers behind `authenticate`.
pub data Protected : Type 0 where
  rides : RideEndpoint → Protected
  payments : PaymentEndpoint → Protected
  ratings : RatingEndpoint → Protected
  notifications : NotificationEndpoint → Protected
  users : UserEndpoint → Protected
  drivers : DriverEndpoint → Protected
  vehicles : VehicleEndpoint → Protected
  wallet : WalletEndpoint → Protected
  admin : AdminEndpoint → Protected
  logout_all : Protected

pub data Endpoint : Type 0 where
  probe : Bool → Endpoint
  auth : AuthEndpoint → Endpoint
  webhook : Bool → Option StripeEvent → Endpoint
  protected : Protected → Endpoint
  unknown : String → String → Endpoint

-- A router for a user that `authenticate` has let through.
unfoldable pub serve_user : Config → Protected → AccessPayload → Action Reply
serve_user c (Protected.rides e) u = ride_controller c u e
serve_user c (Protected.payments e) u = payment_controller u e
serve_user c (Protected.ratings e) u = rating_controller u e
serve_user c (Protected.notifications e) u = notification_controller u e
serve_user c (Protected.users e) u = user_controller c u e
serve_user c (Protected.drivers e) u = driver_controller c u e
serve_user c (Protected.vehicles e) u = vehicle_controller c u e
serve_user c (Protected.wallet e) u = wallet_controller c u e
serve_user c (Protected.admin e) u =
    (authorize (Role.admin ∷ []) (some u) >> admin_controller c u e)
serve_user c Protected.logout_all u = log_out_everywhere c u

-- `router.use(authenticate)`, and then the router.
unfoldable pub serve_protected : Config → Bearer → Protected → Action Reply
serve_protected c presented e = (authenticate presented >>= serve_user c e)

-- `notFoundHandler`
abbrev not_found_handler : String → String → Action Reply
not_found_handler method url =
    throw (api (not_found (append "Route " (append method (append " " (append url " not found"))))))

unfoldable pub serve : Config → Bearer → Endpoint → Action Reply
serve c presented (Endpoint.probe is_database_up) = health is_database_up
serve c presented (Endpoint.auth e) = auth_controller c e
serve c presented (Endpoint.webhook is_configured event) = stripe_webhook is_configured event
serve c presented (Endpoint.protected e) = serve_protected c presented e
serve c presented (Endpoint.unknown method url) = not_found_handler method url
