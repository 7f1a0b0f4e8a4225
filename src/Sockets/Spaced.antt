-- ===== src/Sockets/Spaced.antt =====
-- How often a connection's positions reach the driver service.
use ride_sharing_backend.Common.{
  ℕ, ◌+◌, ◌-◌, ◌≤◌, ◌≡◌, refl, ap, ◌∙◌, true, false, none, inl, inr, Option, List, [], ◌∷◌, arith,
  Bool-cases, ltb, if◌then◌else◌,
}
use ride_sharing_backend.Model.{Point}
use ride_sharing_backend.Sockets.{
  Socket, min_location_interval, accept_location, on_driver_location,
}
use ride_sharing_backend.Store.{Store, at_time}

-- What a client emits, each payload with its time.
abbrev pub Pings : Type 0
Pings = List (ℕ × Option Point)

-- The payloads that are not dropped, from the time of the one before.
unfoldable pub kept : Pings → ℕ → Pings
kept [] last = []
kept ((t, raw) ∷ rest) last =
    let later = kept rest t in
    let same = kept rest last in
    if ltb (t - last) min_location_interval then same else (t, raw) ∷ later

module _ (distance : Point → Point → ℕ) where
  -- The connection and the store after the payloads.
  unfoldable pub after_pings : Pings → Socket → Store → Socket × Store
  after_pings [] socket s = (socket, s)
  after_pings ((t, raw) ∷ rest) socket s =
      let (socket', _, s') = on_driver_location distance raw socket (at_time t s) in
      after_pings rest socket' s'

  -- The driver service at each of them.
  unfoldable pub accept_all : Pings → Socket → Store → Store
  accept_all [] socket s = s
  accept_all ((t, raw) ∷ rest) socket s =
      accept_all rest (record socket { last_location_at = t })
        (accept_location distance socket raw (at_time t s)).1

-- Two seconds lie before each payload, from a given time on.
abbrev pub IsSpaced : ℕ → Pings → Type 0
IsSpaced last [] = Unit
IsSpaced last ((t, raw) ∷ rest) = (last + 2000 ≤ t) × IsSpaced t rest

kept-IsSpaced : (ps : Pings) (last : ℕ) → IsSpaced last (kept ps last)
unfolding kept
kept-IsSpaced [] last = tt
kept-IsSpaced ((t, raw) ∷ rest) last = elim (Bool-cases (ltb (t - last) 2000)) [
  | inl e ↦ rw e (kept-IsSpaced rest last)
  | inr e ↦ rw e (ground arith, kept-IsSpaced rest t)
]

ping_dropped :
    (distance : Point → Point → ℕ) (raw : Option Point) (socket : Socket) (s : Store)
    → ltb (s.now - socket.last_location_at) min_location_interval ≡ true
    → on_driver_location distance raw socket s ≡ (socket, none, s)
unfolding on_driver_location
ping_dropped distance raw socket s e = rw e refl

ping_handled :
    (distance : Point → Point → ℕ) (raw : Option Point) (socket : Socket) (s : Store)
    → ltb (s.now - socket.last_location_at) min_location_interval ≡ false
    → on_driver_location distance raw socket s ≡ (
      record socket { last_location_at = s.now },
      (accept_location distance socket raw s).0,
      (accept_location distance socket raw s).1,
    )
unfolding on_driver_location
ping_handled distance raw socket s e = rw e refl

-- Only the time of the last payload tells the two stores apart.
after_pings-kept :
    (distance : Point → Point → ℕ) (ps : Pings) (socket : Socket) (s u : Store)
    → at_time 0 s ≡ at_time 0 u
    → at_time 0 (after_pings distance ps socket s).1
      ≡ at_time 0 (accept_all distance (kept ps socket.last_location_at) socket u)
unfolding after_pings kept accept_all
after_pings-kept distance [] socket s u h = h
after_pings-kept distance ((t, raw) ∷ rest) socket s u h =
    elim (Bool-cases (ltb (t - socket.last_location_at) min_location_interval)) [
      | inl e ↦
          ap (λ x. at_time 0 (after_pings distance rest x.0 x.2).1)
            (ping_dropped distance raw socket (at_time t s) e)
          ∙ after_pings-kept distance rest socket (at_time t s) u h
          ∙ rw e refl
      | inr e ↦
          let same : at_time t s ≡ at_time t u = ap (at_time t) h in
          ap (λ x. at_time 0 (after_pings distance rest x.0 x.2).1)
            (ping_handled distance raw socket (at_time t s) e)
          ∙ after_pings-kept distance rest (record socket { last_location_at = t })
              (accept_location distance socket raw (at_time t s)).1
              (accept_location distance socket raw (at_time t u)).1
              (ap (λ x. at_time 0 (accept_location distance socket raw x).1) same)
          ∙ rw e refl
    ]

-- However often and with whatever payloads a client emits, the driver service sees only payloads that are at least two
-- seconds apart, and two seconds after the last one before them, and the store is as if no others had been emitted, the
-- clock apart.
pub after_pings-IsSpaced :
    (distance : Point → Point → ℕ) (ps : Pings) (socket : Socket) (s : Store)
    → let handled = kept ps socket.last_location_at in
      IsSpaced socket.last_location_at handled
      × (at_time 0 (after_pings distance ps socket s).1
          ≡ at_time 0 (accept_all distance handled socket s))
after_pings-IsSpaced distance ps socket s =
    (kept-IsSpaced ps socket.last_location_at, after_pings-kept distance ps socket s s refl)
