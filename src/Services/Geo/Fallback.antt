-- ===== src/Services/Geo/Fallback.antt =====
-- What the matching calls answer: with Redis unreachable nothing is written and the safe value comes
-- back; with Redis up a read sees the last write.
use ride_sharing_backend.Common.{ℕ, ◌+◌, true, ◌≡◌, arith, Bool-cases, inl, inr, ltb, if◌then◌else◌}
use ride_sharing_backend.Common.Table.{find-put}
use ride_sharing_backend.Store.{at_time, Store, ok}
use ride_sharing_backend.Services.Geo.{has_heartbeat, refresh_heartbeat, heartbeat_ttl}

-- After a ping the driver counts as alive for 90 seconds and, with Redis up, no longer; with Redis
-- unreachable every driver counts as alive.
pub heartbeat_window :
    (driver_id t : ℕ) (s : Store)
    → (has_heartbeat driver_id (at_time t (refresh_heartbeat driver_id s).1)).0
      ≡ ok (if s.redis.is_up then ltb t (s.now + heartbeat_ttl) else true)
unfolding has_heartbeat refresh_heartbeat
heartbeat_window driver_id t s = elim (Bool-cases s.redis.is_up) [
  | inl up ↦
      rw up
        (ground (arith, find-put driver_id driver_id (s.now + heartbeat_ttl) s.redis.heartbeats))
  | inr down ↦ rw down (ground arith)
]
