-- ===== src/Tests/Samples.antt =====
-- A small store: a passenger (user 1), a driver with a sedan (user 2), and a second driver (user 3).
use ride_sharing_backend.Common.{ℕ, ◌*◌, true, none, some, [], ◌∷◌}
use ride_sharing_backend.Model.{
  User, Role, Driver, DriverVerificationStatus, Vehicle, VehicleType, Point, Ride, RideStatus,
  Payment, PaymentMethod, PaymentProvider, PaymentStatus, Coupon, DiscountType,
}
use ride_sharing_backend.Services.Geo.{Geosearch}
use ride_sharing_backend.Services.Maps.{Route}
use ride_sharing_backend.Services.Ride.Request.{RideRequest, new_ride}
use ride_sharing_backend.Store.{Store, Redis}

abbrev pub here : Point
here = record { lat = 10; lng = 20 }

abbrev pub sample_user : Role → User
sample_user role = record {
  email = "ann@example.com";
  password_hash = some 99;
  first_name = "Ann";
  last_name = "Lee";
  phone = none;
  role = role;
  google_id = none;
  is_email_verified = true;
  is_active = true;
  last_login_at = none;
  created_at = 0;
}

abbrev pub sample_driver : ℕ → Driver
sample_driver user_id = record {
  user_id = user_id;
  license_number = "L 1";
  license_expiry = 1000 * 1000;
  verification_status = DriverVerificationStatus.approved;
  verified_at = some 0;
  is_online = true;
  is_available = true;
  last_known = none;
  last_location_at = none;
  average_rating = 500;
  total_rides = 0;
  total_earnings = 0;
  created_at = 0;
}

abbrev pub sample_vehicle : ℕ → Vehicle
sample_vehicle driver_id = record {
  driver_id = driver_id;
  type = VehicleType.sedan;
  make = "Make";
  model = "Model";
  year = 2020;
  color = "Red";
  plate_number = "AB 1";
  capacity = 4;
  is_verified = true;
  is_active = true;
}

abbrev pub up_redis : Redis
up_redis = record {
  is_up = true;
  drivers_online = (20, here) ∷ [];
  rides_pending = [];
  heartbeats = [];
  rejected_by = [];
  otp_attempts = [];
  access_revoked = [];
  failed_logins = [];
}

abbrev pub empty : Store
empty = record {
  now = 1000;
  users = (1, sample_user Role.passenger) ∷ (2, sample_user Role.driver) ∷ [];
  drivers = (20, sample_driver 2) ∷ (21, sample_driver 3) ∷ [];
  passengers = (10, record { user_id = 1; average_rating = 500; total_rides = 0 }) ∷ [];
  vehicles = (30, sample_vehicle 20) ∷ (31, sample_vehicle 21) ∷ [];
  documents = [];
  saved_locations = [];
  favorites = [];
  deleted_files = [];
  rides = [];
  status_logs = [];
  ratings = [];
  payments = [];
  refunds = [];
  coupons = [];
  redemptions = [];
  wallets = (50, record { user_id = 1; balance = 0; currency = "USD" }) ∷ [];
  wallet_transactions = [];
  refresh_tokens = [];
  verification_tokens = [];
  audit_logs = [];
  redis = up_redis;
  notifications = [];
  email_jobs = [];
  emails_sent = [];
  emitted = [];
  ride_outcomes = [];
  stripe_calls = [];
  payment_outcomes = [];
}

abbrev pub request : RideRequest
request = record {
  pickup_address = "A";
  pickup = here;
  dropoff_address = "B";
  dropoff = here;
  requested_vehicle_type = VehicleType.sedan;
}

abbrev pub route : Route
route = record { distance_meters = 5000; duration_seconds = 600; polyline = none }

-- A search that finds every member of the set at distance 0.
abbrev pub find_all : Geosearch
find_all [] p radius = []
find_all ((id, _) ∷ t) p radius = (id, 0) ∷ find_all t p radius

abbrev pub requested_ride : Ride
requested_ride = new_ride 10 request route 1234 1000

abbrev pub arrived_ride : Ride
arrived_ride = record requested_ride {
  status = RideStatus.arrived;
  driver_id = some 20;
  vehicle_id = some 30;
  accepted_at = some 1000;
  arrived_at = some 2000;
}

abbrev pub completed_ride : Ride
completed_ride = record arrived_ride {
  status = RideStatus.completed;
  otp_verified_at = some 3000;
  started_at = some 3000;
  completed_at = some 9000;
  actual_fare = some 1300;
}

abbrev pub with_ride : Ride → Store
with_ride r = record empty { rides = (40, r) ∷ [] }

abbrev pub card_payment : Payment
card_payment = record {
  ride_id = 40;
  payer_id = 1;
  amount = 1300;
  currency = "USD";
  method = PaymentMethod.card;
  provider = PaymentProvider.stripe;
  status = PaymentStatus.pending;
  stripe_payment_intent_id = some 70;
  failure_reason = none;
  paid_at = none;
}

abbrev pub with_payment : Payment → Store
with_payment p = record (with_ride completed_ride) { payments = (60, p) ∷ [] }

abbrev pub sample_coupon : Coupon
sample_coupon = record {
  code = "SAVE";
  discount_type = DiscountType.percentage;
  discount_value = 1050;
  max_discount = some 500;
  min_ride_fare = none;
  usage_limit = some 10;
  usage_per_user = 1;
  valid_from = 0;
  valid_to = 10 * 1000;
  is_active = true;
}
