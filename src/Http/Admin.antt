-- ===== src/Http/Admin.antt =====
-- The controllers of admin.routes.js: admin, verification, adminPayment, coupon, wallet, adminReport and
-- analytics.
use ride_sharing_backend.Common.{ℕ, ◌-◌, ◌*◌, Bool, Option, none, some}
use ride_sharing_backend.Common.Int.{ℤ}
use ride_sharing_backend.Http.{Config, Body, Reply, sends}
use ride_sharing_backend.Model.{DriverVerificationStatus, VerificationStatus, PaymentStatus, Coupon}
use ride_sharing_backend.Repositories.{UserFilter}
use ride_sharing_backend.Repositories.Reports.{TopBy}
use ride_sharing_backend.Services.Admin.{
  AccessPayload, list_users, get_user_by_id, set_user_active_status,
}
use ride_sharing_backend.Services.Analytics.{
  day, get_dashboard, get_ride_trends, get_revenue_trends, get_top_drivers,
}
use ride_sharing_backend.Services.Coupon.{create_coupon, list_coupons, update_coupon}
use ride_sharing_backend.Services.Payment.{get_payment_by_id, list_payments}
use ride_sharing_backend.Services.Payment.Refund.{RefundRequest, refund_payment}
use ride_sharing_backend.Services.Report.{generate_summary, generate_and_email_summary}
use ride_sharing_backend.Services.Vehicle.{get_document_for_download}
use ride_sharing_backend.Services.Verification.{
  list_drivers, get_driver_by_id, review_driver, review_vehicle, review_document,
}
use ride_sharing_backend.Services.Wallet.{adjust_balance}
use ride_sharing_backend.Store.{Action, gets, ◌>>=◌}

-- controllers/admin.controller.js
pub data AccountEndpoint : Type 0 where
  users : ℕ → ℕ → UserFilter → AccountEndpoint
  user : ℕ → AccountEndpoint
  user_status : ℕ → Bool → AccountEndpoint

unfoldable pub account_controller : Config → AccessPayload → AccountEndpoint → Action Reply
account_controller c u (AccountEndpoint.users page limit f) =
    sends 200 "Success" (list_users c.contains page limit f) (λ r. Body.users r.0 r.1)
account_controller c u (AccountEndpoint.user id) = sends 200 "Success" (get_user_by_id id) Body.user
account_controller c u (AccountEndpoint.user_status id is_active) =
    sends 200 "User status updated" (set_user_active_status c.access_ttl id is_active u.sub)
      Body.user

-- controllers/verification.controller.js
pub data ReviewEndpoint : Type 0 where
  drivers : ℕ → ℕ → Option DriverVerificationStatus → ReviewEndpoint
  driver download : ℕ → ReviewEndpoint
  driver_verification : ℕ → ℕ → DriverVerificationStatus → ReviewEndpoint
  vehicle_verification : ℕ → Bool → ReviewEndpoint
  document_review : ℕ → VerificationStatus → ReviewEndpoint

unfoldable pub review_controller : Config → AccessPayload → ReviewEndpoint → Action Reply
review_controller c u (ReviewEndpoint.drivers page limit status) =
    sends 200 "Success" (list_drivers page limit status) (λ r. Body.drivers r.0 r.1)
review_controller c u (ReviewEndpoint.driver id) =
    sends 200 "Success" (get_driver_by_id id) Body.driver_details
review_controller c u (ReviewEndpoint.driver_verification id notification_id status) =
    sends 200 "Driver verification updated"
      (review_driver c.access_ttl notification_id id status u.sub) Body.driver
review_controller c u (ReviewEndpoint.vehicle_verification id is_verified) =
    sends 200 "Vehicle verification updated" (review_vehicle id is_verified u.sub) Body.vehicle
review_controller c u (ReviewEndpoint.document_review id status) =
    sends 200 "Document review recorded" (review_document id status u.sub) Body.document
review_controller c u (ReviewEndpoint.download id) =
    sends 200 "" (get_document_for_download id u.sub u.role) (λ x. Body.file x.file_url)

-- controllers/adminPayment.controller.js
pub data AdminPaymentEndpoint : Type 0 where
  payments : ℕ → ℕ → Option PaymentStatus → AdminPaymentEndpoint
  payment : ℕ → AdminPaymentEndpoint
  refund : ℕ → RefundRequest → AdminPaymentEndpoint

unfoldable pub admin_payment_controller :
    Config → AccessPayload → AdminPaymentEndpoint → Action Reply
admin_payment_controller c u (AdminPaymentEndpoint.payments page limit status) =
    sends 200 "Success" (list_payments page limit status) (λ r. Body.payments r.0 r.1)
admin_payment_controller c u (AdminPaymentEndpoint.payment id) =
    sends 200 "Success" (get_payment_by_id id) Body.payment
admin_payment_controller c u (AdminPaymentEndpoint.refund id q) =
    sends 200 "Refund processed" (refund_payment id q u.sub) (λ r. Body.refunded r.0 r.1)

-- controllers/coupon.controller.js
pub data CouponEndpoint : Type 0 where
  list : ℕ → ℕ → Option Bool → CouponEndpoint
  create : ℕ → Coupon → CouponEndpoint
  update : ℕ → (Coupon → Coupon) → CouponEndpoint

unfoldable pub coupon_controller : Config → AccessPayload → CouponEndpoint → Action Reply
coupon_controller c u (CouponEndpoint.list page limit is_active) =
    sends 200 "Success" (list_coupons page limit is_active) (λ r. Body.coupons r.0 r.1)
coupon_controller c u (CouponEndpoint.create id q) =
    sends 201 "Coupon created" (create_coupon id q) Body.coupon
coupon_controller c u (CouponEndpoint.update id f) =
    sends 200 "Coupon updated" (update_coupon id f) Body.coupon

abbrev or_default : ℕ → Option ℕ → ℕ
or_default d none = d
or_default d (some t) = t

-- `resolveRange`: the end of the range is now, its start so much earlier, unless they are given.
abbrev pub resolve_to : ℕ → Option ℕ → ℕ
resolve_to now to = or_default now to

abbrev pub resolve_from : ℕ → ℕ → Option ℕ → Option ℕ → ℕ
resolve_from span now from to = or_default (resolve_to now to - span) from

-- controllers/adminReport.controller.js
pub data ReportEndpoint : Type 0 where
  summary : Option ℕ → Option ℕ → ReportEndpoint
  send_summary : ℕ → Option ℕ → Option ℕ → ReportEndpoint

unfoldable pub report_controller : Config → AccessPayload → ReportEndpoint → Action Reply
report_controller c u (ReportEndpoint.summary from to) = do
  now ← gets (λ s. s.now)
  sends 200 "Success" (generate_summary (resolve_from day now from to) (resolve_to now to))
      Body.summary
report_controller c u (ReportEndpoint.send_summary id from to) = do
  now ← gets (λ s. s.now)
  sends 200 "Summary generated and emailed to admins"
      (generate_and_email_summary id (resolve_from day now from to) (resolve_to now to))
      Body.summary

-- controllers/analytics.controller.js
pub data AnalyticsEndpoint : Type 0 where
  dashboard : AnalyticsEndpoint
  ride_trends revenue_trends : Option ℕ → Option ℕ → AnalyticsEndpoint
  top_drivers : TopBy → ℕ → AnalyticsEndpoint

unfoldable pub analytics_controller : Config → AccessPayload → AnalyticsEndpoint → Action Reply
analytics_controller c u AnalyticsEndpoint.dashboard =
    sends 200 "Success" get_dashboard Body.dashboard
analytics_controller c u (AnalyticsEndpoint.ride_trends from to) = do
  now ← gets (λ s. s.now)
  sends 200 "Success"
      (get_ride_trends c.trunc (resolve_from (30 * day) now from to) (resolve_to now to))
      (Body.ride_trends (resolve_from (30 * day) now from to) (resolve_to now to))
analytics_controller c u (AnalyticsEndpoint.revenue_trends from to) = do
  now ← gets (λ s. s.now)
  sends 200 "Success"
      (get_revenue_trends c.trunc (resolve_from (30 * day) now from to) (resolve_to now to))
      (Body.revenue_trends (resolve_from (30 * day) now from to) (resolve_to now to))
analytics_controller c u (AnalyticsEndpoint.top_drivers by limit) =
    sends 200 "Success" (get_top_drivers by limit) Body.top_drivers

-- The router: `adjust` is `adjustBalance` of controllers/wallet.controller.js.
pub data AdminEndpoint : Type 0 where
  accounts : AccountEndpoint → AdminEndpoint
  reviews : ReviewEndpoint → AdminEndpoint
  payments : AdminPaymentEndpoint → AdminEndpoint
  coupons : CouponEndpoint → AdminEndpoint
  adjust : ℕ → ℤ → AdminEndpoint
  reports : ReportEndpoint → AdminEndpoint
  analytics : AnalyticsEndpoint → AdminEndpoint

unfoldable pub adjust_controller : AccessPayload → ℕ → ℤ → Action Reply
adjust_controller u user_id amount =
    sends 200 "Wallet adjusted" (adjust_balance user_id amount u.sub) Body.wallet

unfoldable pub admin_controller : Config → AccessPayload → AdminEndpoint → Action Reply
admin_controller c u (AdminEndpoint.accounts e) = account_controller c u e
admin_controller c u (AdminEndpoint.reviews e) = review_controller c u e
admin_controller c u (AdminEndpoint.payments e) = admin_payment_controller c u e
admin_controller c u (AdminEndpoint.coupons e) = coupon_controller c u e
admin_controller c u (AdminEndpoint.adjust user_id amount) = adjust_controller u user_id amount
admin_controller c u (AdminEndpoint.reports e) = report_controller c u e
admin_controller c u (AdminEndpoint.analytics e) = analytics_controller c u e
