-- ===== src/Services/Driver/Location.antt =====
-- What an implausible position does, and what a plausible one.
use ride_sharing_backend.Common.{
  ℕ, ◌+◌, ◌-◌, ◌*◌, ◌≤◌, ◌<◌, ◌≡◌, refl, ap, ◌∙◌, true, false, ◌⊎◌, inl, inr, Option, none, some,
  arith, Bool-cases, Option-cases, leb,
}
use ride_sharing_backend.Common.Table.{find, update}
use ride_sharing_backend.Model.{Driver, Point, Ride}
use ride_sharing_backend.Repositories.{
  find_driver_by_user, passenger_user, find_active_by_driver, update_driver,
  update_last_known_location, with_location,
}
use ride_sharing_backend.Services.Driver.{
  update_location, is_implausible, is_too_fast, min_elapsed, move_driver, show_passenger, watched,
}
use ride_sharing_backend.Services.Geo.{refresh_heartbeat, set_driver_location}
use ride_sharing_backend.Services.Ride.{get_own_driver}
use ride_sharing_backend.Store.{Store, ok}

-- At most 200 km/h, with millimetres and milliseconds.
abbrev pub IsSlow : ℕ → ℕ → Type 0
IsSlow millimeters elapsed = millimeters * 3600000 ≤ 200 * 1000000 * elapsed

abbrev pub IsFast : ℕ → ℕ → Type 0
IsFast millimeters elapsed = 200 * 1000000 * elapsed < millimeters * 3600000

-- Neither showing a position nor the heartbeat is a write of the driver's row.
show_passenger-drivers :
    (r : Option (ℕ × Ride)) (p : Point) (s : Store) → (show_passenger r p s).1.drivers ≡ s.drivers
unfolding show_passenger
show_passenger-drivers none p s = refl
show_passenger-drivers (some (id, r)) p s = elim (Option-cases (passenger_user s.passengers r)) [
  | inl e ↦ rw e refl
  | inr (u, e) ↦ rw e refl
]

set_driver_location_cases :
    (driver_id : ℕ) (p : Point) (s : Store)
    → (t : Store) × (t.drivers ≡ s.drivers) × (set_driver_location driver_id p s ≡ (ok tt, t))
unfolding set_driver_location
set_driver_location_cases driver_id p s = elim (Bool-cases s.redis.is_up) [
  | inl e ↦ ((set_driver_location driver_id p s).1, ground arith, ground arith)
  | inr e ↦ (s, refl, ground arith)
]

refresh_heartbeat_cases :
    (driver_id : ℕ) (s : Store)
    → (t : Store) × (t.drivers ≡ s.drivers)
      × (t.now ≡ s.now)
      × (refresh_heartbeat driver_id s ≡ (ok tt, t))
unfolding refresh_heartbeat
refresh_heartbeat_cases driver_id s = elim (Bool-cases s.redis.is_up) [
  | inl e ↦ ((refresh_heartbeat driver_id s).1, ground arith, ground arith, ground arith)
  | inr e ↦ (s, refl, refl, ground arith)
]

move_driver-drivers :
    (distance : Point → Point → ℕ) (driver_id : ℕ) (own : Driver) (p : Point) (s : Store)
    → find driver_id s.drivers ≡ some own
    → (move_driver distance driver_id p s).1.drivers
      ≡ update driver_id (with_location s.now p) s.drivers
unfolding move_driver update_last_known_location update_driver
move_driver-drivers distance driver_id own p s there =
    let u : Store = record s { drivers = update driver_id (with_location s.now p) s.drivers } in
    let (t, same, e) = set_driver_location_cases driver_id p u in
    let q : (move_driver distance driver_id p s).1
        ≡ (show_passenger (watched (find_active_by_driver driver_id t.rides)) p t).1 =
      ground (arith, there, e) in
    ap (λ (a : Store). a.drivers) q
    ∙ show_passenger-drivers (watched (find_active_by_driver driver_id t.rides)) p t
    ∙ same

-- A ping that is dropped is a heartbeat and nothing else.
update_location_drops :
    (distance : Point → Point → ℕ) (user_id driver_id : ℕ) (own : Driver) (p : Point) (s : Store)
    → find_driver_by_user user_id s.drivers ≡ some (driver_id, own)
    → own.is_online ≡ true
    → is_implausible distance s.now own.last_known own.last_location_at p ≡ true
    → update_location distance user_id p s ≡ refresh_heartbeat driver_id s
unfolding update_location get_own_driver
update_location_drops distance user_id driver_id own p s mine online far =
    let (t, _, same, e) = refresh_heartbeat_cases driver_id s in
    ground (arith, mine, online, far, e, same)

update_location_moves :
    (distance : Point → Point → ℕ) (user_id driver_id : ℕ) (own : Driver) (p : Point) (s : Store)
    → find_driver_by_user user_id s.drivers ≡ some (driver_id, own)
    → find driver_id s.drivers ≡ some own
    → own.is_online ≡ true
    → is_implausible distance s.now own.last_known own.last_location_at p ≡ false
    → (update_location distance user_id p s).1.drivers
      ≡ update driver_id (with_location s.now p) s.drivers
unfolding update_location get_own_driver
update_location_moves distance user_id driver_id own p s mine there online near =
    let (t, drivers, now, e) = refresh_heartbeat_cases driver_id s in
    let q : (update_location distance user_id p s).1 ≡ (move_driver distance driver_id p t).1 =
      ground (arith, mine, online, near, e, now) in
    let found : find driver_id t.drivers ≡ some own = rw drivers there in
    ap (λ (a : Store). a.drivers) q
    ∙ move_driver-drivers distance driver_id own p t found
    ∙ (rw (drivers, now) refl)

-- An online driver whose last position and its time are known sends a position. It is dropped if at least three seconds
-- have passed and the way to it means more than 200 km/h: then the heartbeat is refreshed and nothing else happens.
-- If fewer seconds have passed, or the way means at most 200 km/h, it is the driver's last known position from now on.
-- Distances are millimetres, times milliseconds.
pub update_location_implausible :
    (distance : Point → Point → ℕ) (user_id driver_id at : ℕ) (own : Driver) (last p : Point)
    (s : Store)
    → find_driver_by_user user_id s.drivers ≡ some (driver_id, own)
    → find driver_id s.drivers ≡ some own
    → own.is_online ≡ true
    → own.last_known ≡ some last
    → own.last_location_at ≡ some at
    → ((at + 3000 ≤ s.now)
        × IsFast (distance last p) (s.now - at)
        × (update_location distance user_id p s ≡ refresh_heartbeat driver_id s))
      ⊎ (((s.now < at + 3000) ⊎ IsSlow (distance last p) (s.now - at))
          × ((update_location distance user_id p s).1.drivers
              ≡ update driver_id (with_location s.now p) s.drivers))
unfolding is_implausible
update_location_implausible distance user_id driver_id at own last p s mine there online known
      timed =
    elim (Bool-cases (is_implausible distance s.now own.last_known own.last_location_at p)) [
      | inl far ↦
          let fast : is_too_fast (distance last p) (s.now - at) ≡ true =
            ground (arith, known, timed, far) in
          inl (
            ground (arith, fast),
            ground (arith, fast),
            update_location_drops distance user_id driver_id own p s mine online far,
          )
      | inr near ↦
          let slow : is_too_fast (distance last p) (s.now - at) ≡ false =
            ground (arith, known, timed, near) in
          inr (
            elim (Bool-cases (leb min_elapsed (s.now - at))) [
              | inl e ↦ inr (ground (arith, slow, e))
              | inr e ↦ inl (ground (arith, e))
            ],
            update_location_moves distance user_id driver_id own p s mine there online near,
          )
    ]
