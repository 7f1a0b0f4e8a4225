-- ===== src/Services/Driver/Presence.antt =====
-- Who is online, and where.
use ride_sharing_backend.Common.{
  ℕ, ◌+◌, ◌≡◌, ◌≢◌, refl, true, false, ◌⊎◌, inl, inr, none, some, [], ◌∷◌, arith, Bool-cases,
  Option-cases, ◌==◌, length,
}
use ride_sharing_backend.Common.Table.{Table, find, update, remove, find-update}
use ride_sharing_backend.Model.{Driver}
use ride_sharing_backend.Repositories.{list_online, set_online_status, update_driver, with_online}
use ride_sharing_backend.Services.Geo.{has_heartbeat, is_live, remove_driver_location}
use ride_sharing_backend.Services.Driver.{
  expire_silent, expire_if_silent, sweep_heartbeats, expire_stale_heartbeats,
}
use ride_sharing_backend.Store.{Store, Result, ok}

sweep_down :
    (online : Table Driver) (s : Store)
    → s.redis.is_up ≡ false
    → sweep_heartbeats online s ≡ (ok 0, s)
unfolding sweep_heartbeats expire_silent expire_if_silent has_heartbeat
sweep_down [] s down = refl
sweep_down ((k, d) ∷ online) s down = ground (arith, sweep_down online s down)

-- While Redis does not answer, the heartbeat sweep takes no driver offline: it changes nothing and reports that nobody
-- expired.
pub expire_stale_heartbeats_down :
    (s : Store)
    → s.redis.is_up ≡ false
    → ((expire_stale_heartbeats s).1 ≡ s) × ((n : ℕ) × ((expire_stale_heartbeats s).0 ≡ ok (n, 0)))
unfolding expire_stale_heartbeats
expire_stale_heartbeats_down s down =
    let swept = sweep_down (list_online s.drivers) s down in
    (ground (arith, swept), (length (list_online s.drivers), ground (arith, swept)))

-- A driver is expired: offline, and out of the geoset.
abbrev silenced : ℕ → Store → Store
silenced k s = record s {
  drivers = update k (with_online false false) s.drivers;
  redis = record s.redis { drivers_online = remove k s.redis.drivers_online };
}

expire_silent_lem :
    (k : ℕ) (s : Store)
    → s.redis.is_up ≡ true
    → find k s.drivers ≢ none
    → ((is_live s.now k s.redis.heartbeats ≡ true) × (expire_silent k s ≡ (ok 0, s)))
      ⊎ (expire_silent k s ≡ (ok 1, silenced k s))
unfolding expire_silent expire_if_silent has_heartbeat set_online_status update_driver
    remove_driver_location
expire_silent_lem k s up there = elim (Bool-cases (is_live s.now k s.redis.heartbeats)) [
  | inl alive ↦ inl (alive, ground arith)
  | inr silent ↦ elim (Option-cases (find k s.drivers)) [
    | inl gone ↦ ground (arith, there)
    | inr (d, found) ↦ inr (ground arith)
  ]
]

-- While the sweep runs, an online driver is alive or still to be checked, and the drivers to be
-- checked are there.
record Sweeping (online : Table Driver) (s : Store) : Type 0 where
  up : s.redis.is_up ≡ true
  alive :
      (k : ℕ) (d : Driver)
      → find k s.drivers ≡ some d
      → d.is_online ≡ true
      → (is_live s.now k s.redis.heartbeats ≡ true) ⊎ (find k online ≢ none)
  present : (k : ℕ) → find k online ≢ none → find k s.drivers ≢ none

next_alive :
    (j : ℕ) (d0 : Driver) (online : Table Driver) (s : Store)
    → is_live s.now j s.redis.heartbeats ≡ true
    → Sweeping ((j, d0) ∷ online) s
    → Sweeping online s
next_alive j d0 online s live w = record {
  up = w.up;
  alive = λ k d f o. elim (w.alive k d f o) [
    | inl h ↦ inl h
    | inr h ↦ elim (Bool-cases (k == j)) [ inl e ↦ inl (ground arith) | inr e ↦ inr (rw e at h) ]
  ];
  present = λ k h. elim (Bool-cases (k == j)) [
    | inl e ↦ w.present k (rw e (λ q. ground arith))
    | inr e ↦ w.present k (rw e h)
  ];
}

still_there :
    (j k : ℕ) (t : Table Driver)
    → find k t ≢ none
    → find k (update j (with_online false false) t) ≢ none
still_there j k t n q = elim (Option-cases (find k t)) [
  | inl gone ↦ n gone
  | inr (d, found) ↦ ground (arith, find-update j k (with_online false false) t, found, q)
]

offline_or_same :
    (j k : ℕ) (d : Driver) (t : Table Driver)
    → find k (update j (with_online false false) t) ≡ some d
    → d.is_online ≡ true
    → ((k == j) ≡ false) × (find k t ≡ some d)
offline_or_same j k d t f o = elim (Option-cases (find k t)) [
  | inl gone ↦ ground (arith, find-update j k (with_online false false) t, gone, f)
  | inr (d', found) ↦ elim (Bool-cases (j == k)) [
    | inl e ↦ ground (arith, find-update j k (with_online false false) t, found, f, o)
    | inr e ↦ (ground arith, ground (arith, find-update j k (with_online false false) t, found, f))
  ]
]

next_silent :
    (j : ℕ) (d0 : Driver) (online : Table Driver) (s : Store)
    → Sweeping ((j, d0) ∷ online) s
    → Sweeping online (silenced j s)
next_silent j d0 online s w = record {
  up = w.up;
  alive = λ k d f o.
      let (other, here) = offline_or_same j k d s.drivers f o in
      elim (w.alive k d here o) [ inl h ↦ inl h | inr h ↦ inr (rw other at h) ];
  present = λ k h. still_there j k s.drivers (elim (Bool-cases (k == j)) [
    | inl e ↦ w.present k (rw e (λ q. ground arith))
    | inr e ↦ w.present k (rw e h)
  ]);
}

-- What the sweep leaves: nobody is left to be checked.
record Swept (s : Store) (m : Result ℕ × Store) : Type 0 where
  expired : ℕ
  final : Store
  ends : m ≡ (ok expired, final)
  same_clock : final.now ≡ s.now
  same_heartbeats : final.redis.heartbeats ≡ s.redis.heartbeats
  done : Sweeping [] final

sweep_up :
    (online : Table Driver) (s : Store) → Sweeping online s → Swept s (sweep_heartbeats online s)
unfolding sweep_heartbeats
sweep_up [] s w = record {
  expired = 0;
  final = s;
  ends = refl;
  same_clock = refl;
  same_heartbeats = refl;
  done = w;
}
sweep_up ((j, d0) ∷ online) s w =
    elim (expire_silent_lem j s w.up (w.present j (λ q. ground arith))) [
      | inl (live, x) ↦
          let rest = sweep_up online s (next_alive j d0 online s live w) in
          record {
            expired = rest.expired;
            final = rest.final;
            ends = ground (arith, x, rest.ends);
            same_clock = rest.same_clock;
            same_heartbeats = rest.same_heartbeats;
            done = rest.done;
          }
      | inr x ↦
          let rest = sweep_up online (silenced j s) (next_silent j d0 online s w) in
          record {
            expired = 1 + rest.expired;
            final = rest.final;
            ends = ground (arith, x, rest.ends);
            same_clock = rest.same_clock;
            same_heartbeats = rest.same_heartbeats;
            done = rest.done;
          }
    ]

listed :
    (k : ℕ) (d : Driver) (t : Table Driver)
    → find k t ≡ some d
    → d.is_online ≡ true
    → find k (list_online t) ≢ none
listed k d [] f o q = cc
listed k d ((j, v) ∷ t) f o q = elim (Bool-cases (k == j)) [
  | inl e ↦ ground (arith, f, o, q)
  | inr e ↦ elim (Bool-cases v.is_online) [
    | inl h ↦ ground (arith, q, listed k d t (ground arith) o)
    | inr h ↦ ground (arith, q, listed k d t (ground arith) o)
  ]
]

unlisted : (k : ℕ) (t : Table Driver) → find k t ≡ none → find k (list_online t) ≡ none
unlisted k [] n = refl
unlisted k ((j, v) ∷ t) n = ground (arith, unlisted k t)

-- With Redis up, the heartbeat sweep succeeds, and every driver that is online after it has a heartbeat that has not
-- run out: nobody stays online in silence.
pub expire_stale_heartbeats_up :
    (s : Store)
    → s.redis.is_up ≡ true
    → (n : ℕ) × (t : Store) × (expire_stale_heartbeats s
        ≡ (ok (length (list_online s.drivers), n), t))
      × ((k : ℕ) (d : Driver)
          → find k t.drivers ≡ some d
          → d.is_online ≡ true
          → is_live s.now k s.redis.heartbeats ≡ true)
unfolding expire_stale_heartbeats
expire_stale_heartbeats_up s up =
    let swept = sweep_up (list_online s.drivers) s (record {
      up = up;
      alive = λ k d f o. inr (listed k d s.drivers f o);
      present = λ k h q. h (unlisted k s.drivers q);
    }) in
    (
      swept.expired,
      swept.final,
      ground (arith, swept.ends),
      λ k d f o. elim (swept.done.alive k d f o) [
        | inl h ↦ ground (arith, h, swept.same_clock, swept.same_heartbeats)
        | inr h ↦ absurd (h refl)
      ],
    )
