-- ===== src/Http.antt =====
-- controllers/*.js and routes/*.js. A request comes with its validated parameters; what a controller
-- sends is a reply: its status, its message (empty where it sends none), its data, and what becomes
-- of the cookie with the refresh token. The children's files are named for the routers.
pub mod Rides
pub mod Users
pub mod Vehicles
pub mod Wallets
pub mod Admin
pub mod Auth
pub mod Routes
pub mod Guards
pub mod Rated
use ride_sharing_backend.Common.{ℕ, String, Bool, Option, none, some, List}
use ride_sharing_backend.Common.Table.{Table}
use ride_sharing_backend.Model.{
  Ride, Payment, Refund, Rating, User, Vehicle, VehicleDocument, SavedLocation, FavoriteDriver,
  Notification, Driver, Wallet, WalletTransaction, Coupon, Point,
}
use ride_sharing_backend.Repositories.Reports.{RideTrend, RevenueTrend}
use ride_sharing_backend.Services.Analytics.{Dashboard}
use ride_sharing_backend.Services.Geo.{Geosearch}
use ride_sharing_backend.Services.Report.{Summary}
use ride_sharing_backend.Services.Ride.Views.{Pagination}
use ride_sharing_backend.Services.Verification.{DriverDetails}
use ride_sharing_backend.Store.{Action, RideOffer, pure, ◌>>=◌}

-- What the services take from outside.
pub record Config : Type 0 where
  pub search : Geosearch
  pub distance : Point → Point → ℕ
  pub contains : String → String → Bool
  pub trunc : ℕ → ℕ
  pub hash : ℕ → ℕ
  pub bcrypt_hash : ℕ → ℕ
  pub bcrypt_compare : ℕ → ℕ → Bool
  pub lock_key : String → ℕ
  pub access_ttl : ℕ
  pub refresh_ttl : ℕ

-- The data of a reply; an access token is signed by a library and left out.
pub data Body : Type 0 where
  nothing : Body
  ride : Ride → Body
  active_ride : Option Ride → Body
  rides : Table Ride → Pagination → Body
  offers : List RideOffer → Body
  payment : Payment → Body
  payments : Table Payment → Pagination → Body
  refunded : Option Payment → Refund → Body
  rating : Rating → Body
  ratings : List Rating → Body
  ratings_page : List Rating → Pagination → Body
  user : User → Body
  users : Table User → Pagination → Body
  session : User → ℕ → Body
  token : ℕ → Body
  vehicle : Vehicle → Body
  new_vehicle : ℕ → Vehicle → Body
  vehicles : Table Vehicle → Body
  document : VehicleDocument → Body
  documents : Table VehicleDocument → Body
  file : String → Body
  location : SavedLocation → Body
  locations : Table SavedLocation → Body
  favorite : FavoriteDriver → Body
  favorites : Table FavoriteDriver → Body
  online : Bool → Body
  notification : Notification → Body
  notifications : Table Notification → Pagination → Body
  driver : Driver → Body
  driver_details : DriverDetails → Body
  drivers : Table Driver → Pagination → Body
  top_drivers : Table Driver → Body
  wallet : Wallet → Body
  wallet_page : Wallet → List WalletTransaction → Pagination → Body
  intent : ℕ → Body
  coupon : Coupon → Body
  coupons : Table Coupon → Pagination → Body
  summary : Summary → Body
  dashboard : Dashboard → Body
  ride_trends : ℕ → ℕ → List RideTrend → Body
  revenue_trends : ℕ → ℕ → List RevenueTrend → Body
  health : Bool → Bool → Body
  received : Bool → Body

pub data Cookie : Type 0 where
  untouched cleared : Cookie
  refresh_token : ℕ → Cookie

pub record Reply : Type 0 where
  pub status : ℕ
  pub message : String
  pub body : Body
  pub cookie : Cookie

-- `res.status(status).json(new ApiResponse(status, data, message))`
abbrev pub reply : ℕ → String → Body → Reply
reply status message body = record {
  status = status;
  message = message;
  body = body;
  cookie = Cookie.untouched;
}

-- The reply to what a service answers.
abbrev pub sends : {A : Type 0} → ℕ → String → Action A → (A → Body) → Action Reply
sends status message service body = service >>= λ a. pure (reply status message (body a))
