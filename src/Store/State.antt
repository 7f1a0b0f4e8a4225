-- ===== src/Store/State.antt =====
-- The state. `now` is the time at which an operation runs: what one call reads from the clock
-- more than once is one value here.
use ride_sharing_backend.Common.{ℕ, String, Bool, Option, List}
use ride_sharing_backend.Common.Table.{Table}
use ride_sharing_backend.Model.{
  User, Driver, Passenger, Vehicle, Point, Ride, RideStatusLog, Rating, Payment, Refund, Coupon,
  PaymentMethod, CouponRedemption, Wallet, WalletTransaction, RefreshToken, VerificationToken,
  Notification, EmailJob, DriverVerificationStatus, VerificationStatus, VehicleDocument,
  SavedLocation, FavoriteDriver,
}

-- A Redis counter with its time to live, if `EXPIRE` has set one.
pub record Counter : Type 0 where
  pub value : ℕ
  pub expires_at : Option ℕ

-- The set under `ride:<id>:rejectedBy`.
pub record Rejections : Type 0 where
  pub drivers : List ℕ
  pub expires_at : ℕ

-- `is_up` tells whether the server answers. A key with a time to live is there while `now` is
-- below its expiry.
pub record Redis : Type 0 where
  pub is_up : Bool
  pub drivers_online : Table Point
  pub rides_pending : Table Point
  pub heartbeats : Table ℕ
  pub rejected_by : Table Rejections
  pub otp_attempts : Table Counter
  pub access_revoked : Table ℕ
  pub failed_logins : Table Counter

-- A ride offer: the row without its OTP, with the passenger's first name and rating.
pub record RideOffer : Type 0 where
  pub ride_id : ℕ
  pub ride : Ride
  pub distance : ℕ
  pub first_name : Option String
  pub rating : Option ℕ

pub data Payload : Type 0 where
  ride_offer : RideOffer → Payload
  ride_accepted ride_arrived ride_started ride_completed ride_cancelled : ℕ → Ride → Payload
  driver_location : ℕ → Point → Payload
  notification : String → Payload

-- `emitToUser(userId, event, payload)`.
pub record Emitted : Type 0 where
  pub to : ℕ
  pub payload : Payload

pub data RideOutcome : Type 0 where
  completed cancelled expired : RideOutcome

pub data AuditAction : Type 0 where
  wallet_adjusted payment_refunded user_deactivated user_reactivated : AuditAction
  vehicle_verified vehicle_unverified : AuditAction
  driver_reviewed : DriverVerificationStatus → AuditAction
  document_reviewed : VerificationStatus → AuditAction

-- What was asked of Stripe: amounts are cents, and a retry with the same key is the same request.
pub data StripeCall : Type 0 where
  create_payment_intent : ℕ → ℕ → StripeCall
  create_top_up_intent : ℕ → ℕ → StripeCall
  cancel_payment_intent : ℕ → StripeCall
  create_refund : ℕ → ℕ → ℕ → StripeCall

pub record AuditLog : Type 0 where
  pub actor_id : ℕ
  pub action : AuditAction
  pub entity_id : ℕ

pub record Store : Type 0 where
  pub now : ℕ
  pub users : Table User
  pub drivers : Table Driver
  pub passengers : Table Passenger
  pub vehicles : Table Vehicle
  pub documents : Table VehicleDocument
  pub saved_locations : Table SavedLocation
  pub favorites : Table FavoriteDriver
  pub deleted_files : List String
  pub rides : Table Ride
  pub status_logs : List RideStatusLog
  pub ratings : List Rating
  pub payments : Table Payment
  pub refunds : Table Refund
  pub coupons : Table Coupon
  pub redemptions : List CouponRedemption
  pub wallets : Table Wallet
  pub wallet_transactions : List WalletTransaction
  pub refresh_tokens : Table RefreshToken
  pub verification_tokens : Table VerificationToken
  pub audit_logs : List AuditLog
  pub redis : Redis
  pub notifications : Table Notification
  pub email_jobs : List EmailJob
  pub emails_sent : List EmailJob
  pub emitted : List Emitted
  pub ride_outcomes : List RideOutcome
  pub stripe_calls : List StripeCall
  pub payment_outcomes : List (PaymentMethod × Bool)

-- The store at another time.
abbrev pub at_time : ℕ → Store → Store
at_time t s = record s { now = t }
