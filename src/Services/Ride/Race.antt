-- ===== src/Services/Ride/Race.antt =====
-- Drivers that have all passed the checks of `acceptRide` for one ride, and whose conditional writes
-- reach the database in some order.
use ride_sharing_backend.Common.{
  ℕ, ◌≡◌, refl, inl, inr, none, some, List, [], ◌∷◌, arith, Bool-cases, ◌==◌, map,
}
use ride_sharing_backend.Common.Table.{Table, find, update_where, count}
use ride_sharing_backend.Model.{Ride, RideStatus}
use ride_sharing_backend.Store.{Store, Result, ok}
use ride_sharing_backend.Repositories.{try_assign_driver, is_open_request, assign}

-- Each contender's driver id and vehicle id.
abbrev pub Contender : Type 0
Contender = ℕ × ℕ

-- The counts that the contenders get back, and the store they leave.
unfoldable pub race : ℕ → List Contender → Store → List (Result ℕ) × Store
race ride_id [] s = ([], s)
race ride_id ((d, v) ∷ rest) s =
    let (r, s') = try_assign_driver ride_id d v s in
    let (rs, t) = race ride_id rest s' in (r ∷ rs, t)

-- After the winning write no row with the ride's id is open any more.
not_open :
    (k now d v : ℕ) (t : Table Ride)
    → count (is_open_request k) (update_where (is_open_request k) (assign now d v) t) ≡ 0
not_open k now d v [] = refl
not_open k now d v ((j, r) ∷ t) = ground (arith, not_open k now d v t)

nothing_to_assign :
    (k now d v : ℕ) (t : Table Ride)
    → count (is_open_request k) t ≡ 0
    → update_where (is_open_request k) (assign now d v) t ≡ t
nothing_to_assign k now d v [] h = refl
nothing_to_assign k now d v ((j, r) ∷ t) h = ground (arith, nothing_to_assign k now d v t)

lost : List Contender → List (Result ℕ)
lost = map (λ _. ok 0)

race-lost :
    (k : ℕ) (cs : List Contender) (s : Store)
    → count (is_open_request k) s.rides ≡ 0
    → race k cs s ≡ (lost cs, s)
unfolding race try_assign_driver lost
race-lost k [] s h = refl
race-lost k ((d, v) ∷ cs) s h =
    ground (arith, nothing_to_assign k s.now d v s.rides h, race-lost k cs s h)

-- A ride's id is the key of one row.
abbrev pub IsUnique : ℕ → Table Ride → Type 0
IsUnique k t = count (λ j _. j == k) t ≡ 1

abbrev Open : ℕ → Ride → Table Ride → Type 0
Open k r t = (find k t ≡ some r) × (r.status ≡ RideStatus.requested) × (r.driver_id ≡ none)

no_other_row :
    (k : ℕ) (t : Table Ride) → count (λ j _. j == k) t ≡ 0 → count (is_open_request k) t ≡ 0
no_other_row k [] h = refl
no_other_row k ((j, r) ∷ t) h = ground (arith, no_other_row k t)

one-Open_row :
    (k : ℕ) (r : Ride) (t : Table Ride)
    → Open k r t
    → IsUnique k t
    → count (is_open_request k) t ≡ 1
one-Open_row k r [] (f, st, n) u = cc
one-Open_row k r ((j, v) ∷ t) (f, st, n) u = elim (Bool-cases (k == j)) [
  | inl hit ↦ ground (arith, no_other_row k t)
  | inr miss ↦ ground (arith, one-Open_row k r t)
]

find-assigned :
    (k now d v : ℕ) (r : Ride) (t : Table Ride)
    → Open k r t
    → find k (update_where (is_open_request k) (assign now d v) t) ≡ some (assign now d v r)
find-assigned k now d v r [] (f, st, n) = cc
find-assigned k now d v r ((j, w) ∷ t) (f, st, n) = elim (Bool-cases (k == j)) [
  | inl hit ↦ ground arith
  | inr miss ↦ ground (arith, find-assigned k now d v r t)
]

-- Of any contenders for an open ride, in whatever order their writes land, exactly the first is told that it changed a
-- row, every other is told that it changed none, and the ride is the first one's.
pub race_first_wins :
    (k d v : ℕ) (rest : List Contender) (r : Ride) (s : Store)
    → find k s.rides ≡ some r
    → r.status ≡ RideStatus.requested
    → r.driver_id ≡ none
    → IsUnique k s.rides
    → ((race k ((d, v) ∷ rest) s).0 ≡ ok 1 ∷ map (λ _. ok 0) rest)
      × (find k (race k ((d, v) ∷ rest) s).1.rides ≡ some (assign s.now d v r))
unfolding race try_assign_driver lost
race_first_wins k d v rest r s f st n u =
    let t : Store = record s {
      rides = update_where (is_open_request k) (assign s.now d v) s.rides;
    } in
    rw (race-lost k rest t (not_open k s.now d v s.rides), one-Open_row k r s.rides (f, st, n) u)
      (refl, find-assigned k s.now d v r s.rides (f, st, n))
