-- ===== src/Services/Geo.antt =====
-- services/geo.service.js: matching and liveness in Redis, each call with the value that it falls
-- back to while Redis is unreachable.
pub mod Fallback
use ride_sharing_backend.Common.{
  ℕ, ◌+◌, ◌*◌, Bool, true, false, Option, none, some, List, [], ◌∷◌, ltb, if◌then◌else◌, holds,
  includes, is_some,
}
use ride_sharing_backend.Common.Table.{Table, find, put, remove}
use ride_sharing_backend.Errors.{other}
use ride_sharing_backend.Model.{Point}
use ride_sharing_backend.Store.{Store, Redis, Rejections, Action, ok, err}

-- The `GEOSEARCH` of Redis: from a geoset, a position and a radius in kilometres to the members
-- within it, nearest first, with their distances.
abbrev pub Geosearch : Type 0
Geosearch = Table Point → Point → ℕ → List (ℕ × ℕ)

module _ {A : Type 0} where
  -- A command that reads, and one that writes. Both throw while the server does not answer.
  abbrev pub redis_read : (ℕ → Redis → A) → Action A
  redis_read f s = elim s.redis.is_up [
    | true ↦ (ok (f s.now s.redis), s)
    | false ↦ (err (other "Redis is unreachable"), s)
  ]

  abbrev pub with_redis_fallback : Action A → A → Action A
  with_redis_fallback operation fallback s =
      let (r, s') = operation s in elim r [ ok a ↦ (ok a, s') | err e ↦ (ok fallback, s') ]

abbrev pub redis_write : (ℕ → Redis → Redis) → Action (Unit {0})
redis_write f s = elim s.redis.is_up [
  | true ↦ (ok tt, record s { redis = f s.now s.redis })
  | false ↦ (err (other "Redis is unreachable"), s)
]

unfoldable pub set_driver_location : ℕ → Point → Action (Unit {0})
set_driver_location driver_id p s =
    with_redis_fallback
      (redis_write (λ _ r. record r { drivers_online = put driver_id p r.drivers_online })) tt s

unfoldable pub remove_driver_location : ℕ → Action (Unit {0})
remove_driver_location driver_id s =
    with_redis_fallback
      (redis_write (λ _ r. record r { drivers_online = remove driver_id r.drivers_online })) tt s

unfoldable pub add_pending_ride : ℕ → Point → Action (Unit {0})
add_pending_ride ride_id p s =
    with_redis_fallback
      (redis_write (λ _ r. record r { rides_pending = put ride_id p r.rides_pending })) tt s

unfoldable pub remove_pending_ride : ℕ → Action (Unit {0})
remove_pending_ride ride_id s =
    with_redis_fallback
      (redis_write (λ _ r. record r { rides_pending = remove ride_id r.rides_pending })) tt s

unfoldable pub find_nearby_pending_rides : Geosearch → Point → ℕ → Action (List (ℕ × ℕ))
find_nearby_pending_rides search p radius_km s =
    with_redis_fallback (redis_read (λ _ r. search r.rides_pending p radius_km)) [] s

unfoldable pub find_nearby_online_drivers : Geosearch → Point → ℕ → Action (List (ℕ × ℕ))
find_nearby_online_drivers search p radius_km s =
    with_redis_fallback (redis_read (λ _ r. search r.drivers_online p radius_km)) [] s

-- `HEARTBEAT_TTL_SECONDS` and `REJECTION_TTL_SECONDS`, in milliseconds.
abbrev pub heartbeat_ttl : ℕ
heartbeat_ttl = 90 * 1000

abbrev pub rejection_ttl : ℕ
rejection_ttl = 60 * 60 * 1000

unfoldable pub refresh_heartbeat : ℕ → Action (Unit {0})
refresh_heartbeat driver_id s =
    with_redis_fallback
      (redis_write
        (λ now r. record r { heartbeats = put driver_id (now + heartbeat_ttl) r.heartbeats }))
      tt s

-- `EXISTS` of a key with a time to live.
abbrev pub is_live : ℕ → ℕ → Table ℕ → Bool
is_live now k keys = holds (λ t. ltb now t) (find k keys)

unfoldable pub has_heartbeat : ℕ → Action Bool
has_heartbeat driver_id s =
    with_redis_fallback (redis_read (λ now r. is_live now driver_id r.heartbeats)) true s

unfoldable pub clear_heartbeat : ℕ → Action (Unit {0})
clear_heartbeat driver_id s =
    with_redis_fallback
      (redis_write (λ _ r. record r { heartbeats = remove driver_id r.heartbeats })) tt s

-- The members of a ride's rejection set: none once the key has run out.
abbrev pub live_rejections : ℕ → Option Rejections → List ℕ
live_rejections now none = []
live_rejections now (some x) = if ltb now x.expires_at then x.drivers else []

-- `SADD`, then `EXPIRE`, which starts the hour again.
unfoldable pub record_rejection : ℕ → ℕ → Action (Unit {0})
record_rejection ride_id driver_id s =
    with_redis_fallback
      (redis_write (λ now r. record r {
        rejected_by =
            put ride_id
              (record {
                drivers = driver_id ∷ live_rejections now (find ride_id r.rejected_by);
                expires_at = now + rejection_ttl;
              })
              r.rejected_by;
      }))
      tt s

unfoldable pub is_rejected_by_driver : ℕ → ℕ → Action Bool
is_rejected_by_driver ride_id driver_id s =
    with_redis_fallback
      (redis_read (λ now r. includes driver_id (live_rejections now (find ride_id r.rejected_by))))
      false s
