-- ===== src/Model/Money.antt =====
-- Payments, refunds, coupons and wallets.
use ride_sharing_backend.Common.{ℕ, String, Bool, true, false, Option}

pub data PaymentMethod : Type 0 where
  card wallet cash : PaymentMethod

pub data PaymentProvider : Type 0 where
  stripe wallet cash : PaymentProvider

pub data PaymentStatus : Type 0 where
  pending completed failed refunded partially_refunded : PaymentStatus

abbrev pub same_payment_status : PaymentStatus → PaymentStatus → Bool
same_payment_status PaymentStatus.pending PaymentStatus.pending = true
same_payment_status PaymentStatus.completed PaymentStatus.completed = true
same_payment_status PaymentStatus.failed PaymentStatus.failed = true
same_payment_status PaymentStatus.refunded PaymentStatus.refunded = true
same_payment_status PaymentStatus.partially_refunded PaymentStatus.partially_refunded = true
same_payment_status _ _ = false

pub record Payment : Type 0 where
  pub ride_id : ℕ
  pub payer_id : ℕ
  pub amount : ℕ
  pub currency : String
  pub method : PaymentMethod
  pub provider : PaymentProvider
  pub status : PaymentStatus
  pub stripe_payment_intent_id : Option ℕ
  pub failure_reason : Option String
  pub paid_at : Option ℕ

pub data RefundStatus : Type 0 where
  pending completed failed : RefundStatus

pub record Refund : Type 0 where
  pub payment_id : ℕ
  pub amount : ℕ
  pub reason : String
  pub status : RefundStatus
  pub stripe_refund_id : Option ℕ
  pub processed_at : Option ℕ

pub data DiscountType : Type 0 where
  percentage fixed : DiscountType

pub record Coupon : Type 0 where
  pub code : String
  pub discount_type : DiscountType
  pub discount_value : ℕ
  pub max_discount : Option ℕ
  pub min_ride_fare : Option ℕ
  pub usage_limit : Option ℕ
  pub usage_per_user : ℕ
  pub valid_from : ℕ
  pub valid_to : ℕ
  pub is_active : Bool

pub record CouponRedemption : Type 0 where
  pub coupon_id : ℕ
  pub user_id : ℕ
  pub ride_id : ℕ
  pub discount_applied : ℕ

pub record Wallet : Type 0 where
  pub user_id : ℕ
  pub balance : ℕ
  pub currency : String

pub data WalletTransactionType : Type 0 where
  credit debit : WalletTransactionType

-- The schema's further reasons (RIDE_EARNING, PROMO, WITHDRAWAL) are written by no service.
pub data WalletTransactionReason : Type 0 where
  topup ride_payment refund adjustment : WalletTransactionReason

abbrev pub same_reason : WalletTransactionReason → WalletTransactionReason → Bool
same_reason WalletTransactionReason.topup WalletTransactionReason.topup = true
same_reason WalletTransactionReason.ride_payment WalletTransactionReason.ride_payment = true
same_reason WalletTransactionReason.refund WalletTransactionReason.refund = true
same_reason WalletTransactionReason.adjustment WalletTransactionReason.adjustment = true
same_reason _ _ = false

pub record WalletTransaction : Type 0 where
  pub wallet_id : ℕ
  pub type : WalletTransactionType
  pub reason : WalletTransactionReason
  pub amount : ℕ
  pub balance_after : ℕ
  pub reference_id : Option ℕ
