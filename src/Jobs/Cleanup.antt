-- ===== src/Jobs/Cleanup.antt =====
-- jobs/processors/cleanup.processor.js: the jobs of the maintenance queue, by their names.
use ride_sharing_backend.Common.{ℕ}
use ride_sharing_backend.Repositories.{
  delete_expired_refresh_tokens, delete_expired_verification_tokens,
}
use ride_sharing_backend.Services.Driver.{expire_stale_heartbeats}
use ride_sharing_backend.Services.Ride.Expiry.{expire_stale_rides, ExpiryReport}
use ride_sharing_backend.Store.{Action, pure, ◌>>=◌}

pub data Maintenance : Type 0 where
  expired_tokens expire_rides expire_driver_heartbeats : Maintenance

-- What a job returns.
pub data JobResult : Type 0 where
  tokens : ℕ → ℕ → JobResult
  rides : ExpiryReport → JobResult
  heartbeats : ℕ → ℕ → JobResult

unfoldable pub maintain : Maintenance → Action JobResult
maintain Maintenance.expired_tokens = do
  refresh_tokens ← delete_expired_refresh_tokens
  verification_tokens ← delete_expired_verification_tokens
  pure (JobResult.tokens refresh_tokens verification_tokens)
maintain Maintenance.expire_rides = do result ← expire_stale_rides; pure (JobResult.rides result)
maintain Maintenance.expire_driver_heartbeats = do
  (checked, expired) ← expire_stale_heartbeats
  pure (JobResult.heartbeats checked expired)
