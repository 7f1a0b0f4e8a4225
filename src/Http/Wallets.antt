-- ===== src/Http/Wallets.antt =====
-- controllers/wallet.controller.js and webhook.controller.js, and the probe of health.routes.js.
use ride_sharing_backend.Common.{ℕ, Bool, true, false, ◌&&◌, Option, none, some, if◌then◌else◌}
use ride_sharing_backend.Http.{Config, Body, Reply, reply, sends}
use ride_sharing_backend.Services.Admin.{AccessPayload}
use ride_sharing_backend.Services.Payment.Stripe.{StripeEvent, handle_stripe_event}
use ride_sharing_backend.Services.Wallet.{get_wallet, initiate_top_up}
use ride_sharing_backend.Store.{Action, ok, pure}

pub data WalletEndpoint : Type 0 where
  my_wallet : ℕ → ℕ → WalletEndpoint
  top_up : Bool → Option ℕ → ℕ → WalletEndpoint

unfoldable pub wallet_controller : Config → AccessPayload → WalletEndpoint → Action Reply
wallet_controller c u (WalletEndpoint.my_wallet page limit) =
    sends 200 "Success" (get_wallet u.sub page limit) (λ r. Body.wallet_page r.0 r.1 r.2)
wallet_controller c u (WalletEndpoint.top_up is_configured intent mills) =
    sends 200 "Top-up payment intent created" (initiate_top_up is_configured intent u.sub mills)
      Body.intent

-- The event is there if Stripe's library has verified the signature; what it finds wrong is left out
-- of the message.
unfoldable pub stripe_webhook : Bool → Option StripeEvent → Action Reply
stripe_webhook false event = pure (reply 503 "Stripe is not configured" (Body.received false))
stripe_webhook true none = pure (reply 400 "Webhook Error" (Body.received false))
stripe_webhook true (some event) =
    sends 200 "" (handle_stripe_event event) (λ _. Body.received true)

unfoldable pub health : Bool → Action Reply
health is_database_up s =
    let is_healthy = is_database_up && s.redis.is_up in
    (
      ok (
          reply (if is_healthy then 200 else 503) (if is_healthy then "OK" else "Service degraded")
            (Body.health is_database_up s.redis.is_up)),
      s,
    )
