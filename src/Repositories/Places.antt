-- ===== src/Repositories/Places.antt =====
-- repositories/favoriteDriver.repository.js, savedLocation.repository.js and auditLog.repository.js.
use ride_sharing_backend.Common.{ℕ, Bool, ◌&&◌, Option, none, some, ◌∷◌, ◌==◌, take}
use ride_sharing_backend.Common.Table.{
  Table, find, find_first, find_many, update, delete_where, remove,
}
use ride_sharing_backend.Errors.{prisma, p2002, p2025}
use ride_sharing_backend.Model.{FavoriteDriver, SavedLocation}
use ride_sharing_backend.Store.{Action, AuditLog, ok, err, modify}

-- `passengerId` and `driverId` are unique together.
abbrev pub is_favorite_of : ℕ → ℕ → ℕ → FavoriteDriver → Bool
is_favorite_of passenger_id driver_id _ f =
    (f.passenger_id == passenger_id) && (f.driver_id == driver_id)

abbrev pub find_favorite : ℕ → ℕ → Table FavoriteDriver → Option (ℕ × FavoriteDriver)
find_favorite passenger_id driver_id = find_first (is_favorite_of passenger_id driver_id)

unfoldable pub create_favorite : ℕ → ℕ → ℕ → Action FavoriteDriver
create_favorite id passenger_id driver_id s = elim (find id s.favorites) [
  | some _ ↦ (err (prisma p2002 "id" ""), s)
  | none ↦ elim (find_favorite passenger_id driver_id s.favorites) [
    | some _ ↦ (err (prisma p2002 "passengerId,driverId" ""), s)
    | none ↦ (
      ok (record { passenger_id = passenger_id; driver_id = driver_id }),
      record s {
        favorites =
            (id, record { passenger_id = passenger_id; driver_id = driver_id }) ∷ s.favorites;
      },
    )
  ]
]

unfoldable pub remove_favorite : ℕ → ℕ → Action (Unit {0})
remove_favorite passenger_id driver_id s = elim (find_favorite passenger_id driver_id s.favorites) [
  | none ↦ (err (prisma p2025 "" ""), s)
  | some _ ↦ (
    ok tt,
    record s { favorites = delete_where (is_favorite_of passenger_id driver_id) s.favorites },
  )
]

-- The lists are capped at 200 rows, newest first.
abbrev pub list_favorites : ℕ → Table FavoriteDriver → Table FavoriteDriver
list_favorites passenger_id t = take 200 (find_many (λ _ f. f.passenger_id == passenger_id) t)

abbrev pub list_locations : ℕ → Table SavedLocation → Table SavedLocation
list_locations passenger_id t = take 200 (find_many (λ _ l. l.passenger_id == passenger_id) t)

unfoldable pub create_location : ℕ → SavedLocation → Action SavedLocation
create_location id row s = elim (find id s.saved_locations) [
  | some _ ↦ (err (prisma p2002 "id" ""), s)
  | none ↦ (ok row, record s { saved_locations = (id, row) ∷ s.saved_locations })
]

unfoldable pub update_location_row : ℕ → (SavedLocation → SavedLocation) → Action SavedLocation
update_location_row id f s = elim (find id s.saved_locations) [
  | none ↦ (err (prisma p2025 "" ""), s)
  | some l ↦ (ok (f l), record s { saved_locations = update id f s.saved_locations })
]

unfoldable pub remove_location_row : ℕ → Action (Unit {0})
remove_location_row id s = elim (find id s.saved_locations) [
  | none ↦ (err (prisma p2025 "" ""), s)
  | some _ ↦ (ok tt, record s { saved_locations = remove id s.saved_locations })
]

-- `auditLogRepository.record`; the address of the caller is left out.
abbrev pub record_audit : AuditLog → Action (Unit {0})
record_audit row = modify (λ s. record s { audit_logs = row ∷ s.audit_logs })
