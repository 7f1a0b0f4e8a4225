-- ===== src/Repositories/Users.antt =====
-- repositories/user.repository.js.
use ride_sharing_backend.Common.{
  ℕ, String, Bool, true, false, ◌||◌, ◌&&◌, not, Option, none, some, ◌∷◌, ◌==◌, holds,
}
use ride_sharing_backend.Common.Table.{Table, find, find_first, update}
use ride_sharing_backend.Common.Text.{same_text}
use ride_sharing_backend.Errors.{prisma, p2002, p2025}
use ride_sharing_backend.Model.{User, Role, Driver, DriverVerificationStatus}
use ride_sharing_backend.Store.{Action, ok, err}

abbrev pub find_user_by_email : String → Table User → Option (ℕ × User)
find_user_by_email email = find_first (λ _ u. same_text u.email email)

abbrev pub find_user_by_google_id : String → Table User → Option (ℕ × User)
find_user_by_google_id google_id =
    find_first (λ _ u. holds (λ g. same_text g google_id) u.google_id)

-- The ids of the three rows of a new account.
pub record NewIds : Type 0 where
  pub user : ℕ
  pub passenger : ℕ
  pub wallet : ℕ

-- The email, the phone number and the google id are unique, and so is the id.
abbrev same_unique : Option String → Option String → Bool
same_unique none b = false
same_unique (some a) b = holds (λ x. same_text a x) b

abbrev pub user_collides : ℕ → User → ℕ → User → Bool
user_collides id row j u =
    (j == id)
    || same_text u.email row.email
    || same_unique row.phone u.phone
    || same_unique row.google_id u.google_id

-- The user with its passenger and its wallet: all three, or none.
unfoldable pub create_passenger_account : NewIds → User → Action (ℕ × User)
create_passenger_account ids row s = elim (find_first (user_collides ids.user row) s.users) [
  | some _ ↦ (err (prisma p2002 "email" ""), s)
  | none ↦ (
    ok (ids.user, record row { created_at = s.now }),
    record s {
      users = (ids.user, record row { created_at = s.now }) ∷ s.users;
      passengers =
          (ids.passenger, record { user_id = ids.user; average_rating = 0; total_rides = 0 })
          ∷ s.passengers;
      wallets =
          (ids.wallet, record { user_id = ids.user; balance = 0; currency = "USD" }) ∷ s.wallets;
    },
  )
]

-- `update({ where: { id }, data })` on users.
unfoldable pub update_user : ℕ → (User → User) → Action (Unit {0})
update_user id f s = elim (find id s.users) [
  | none ↦ (err (prisma p2025 "" ""), s)
  | some _ ↦ (ok tt, record s { users = update id f s.users })
]

abbrev pub with_password_hash : ℕ → User → User
with_password_hash hash u = record u { password_hash = some hash }

abbrev pub with_verified_email : User → User
with_verified_email u = record u { is_email_verified = true }

abbrev pub with_google_id : String → User → User
with_google_id google_id u = record u { google_id = some google_id }

abbrev pub with_last_login : ℕ → User → User
with_last_login now u = record u { last_login_at = some now }

abbrev pub with_active : Bool → User → User
with_active is_active u = record u { is_active = is_active }

-- The validated body of a profile's edit.
pub record ProfilePatch : Type 0 where
  pub first_name : Option String
  pub last_name : Option String
  pub phone : Option String

abbrev or_text : String → Option String → String
or_text old none = old
or_text old (some new) = new

abbrev or_phone : Option String → Option String → Option String
or_phone old none = old
or_phone old (some new) = some new

abbrev pub with_profile : ProfilePatch → User → User
with_profile p u = record u {
  first_name = or_text u.first_name p.first_name;
  last_name = or_text u.last_name p.last_name;
  phone = or_phone u.phone p.phone;
}

-- The phone number is unique: another row has it.
abbrev has_phone : ℕ → Option String → ℕ → User → Bool
has_phone id phone j u = not (id == j) && same_unique phone u.phone

unfoldable pub update_profile_row : ℕ → ProfilePatch → Action User
update_profile_row id p s = elim (find id s.users) [
  | none ↦ (err (prisma p2025 "" ""), s)
  | some u ↦ elim (find_first (has_phone id p.phone) s.users) [
    | some _ ↦ (err (prisma p2002 "phone" ""), s)
    | none ↦ (ok (with_profile p u), record s { users = update id (with_profile p) s.users })
  ]
]

abbrev pub with_driver_role : User → User
with_driver_role u = record u { role = Role.driver }

abbrev pub new_driver : ℕ → String → ℕ → ℕ → Driver
new_driver user_id license_number license_expiry now = record {
  user_id = user_id;
  license_number = license_number;
  license_expiry = license_expiry;
  verification_status = DriverVerificationStatus.pending;
  verified_at = none;
  is_online = false;
  is_available = false;
  last_known = none;
  last_location_at = none;
  average_rating = 0;
  total_rides = 0;
  total_earnings = 0;
  created_at = now;
}

-- `userId` and `licenseNumber` are unique, and so is the id.
abbrev pub driver_collides : ℕ → Driver → ℕ → Driver → Bool
driver_collides id row j d =
    (j == id) || (d.user_id == row.user_id) || same_text d.license_number row.license_number

-- One nested write: the role and the driver's row, or neither.
unfoldable pub promote_to_driver : ℕ → ℕ → String → ℕ → Action User
promote_to_driver user_id driver_id license_number license_expiry s = elim (find user_id s.users) [
  | none ↦ (err (prisma p2025 "" ""), s)
  | some u ↦
      elim (find_first
        (driver_collides driver_id (new_driver user_id license_number license_expiry s.now))
        s.drivers) [
          | some _ ↦ (err (prisma p2002 "licenseNumber" ""), s)
          | none ↦ (
            ok (with_driver_role u),
            record s {
              users = update user_id with_driver_role s.users;
              drivers =
                  (driver_id, new_driver user_id license_number license_expiry s.now) ∷ s.drivers;
            },
          )
        ]
]

-- `buildUserListWhere`: each filter may be left out. `contains`, case-insensitive, is the database's.
pub record UserFilter : Type 0 where
  pub role : Option Role
  pub is_active : Option Bool
  pub search : Option String

abbrev pub same_role : Role → Role → Bool
same_role Role.passenger Role.passenger = true
same_role Role.driver Role.driver = true
same_role Role.admin Role.admin = true
same_role _ _ = false

abbrev is_bool : Bool → Bool → Bool
is_bool true b = b
is_bool false b = not b

-- A filter that is left out lets every row through.
abbrev pub passes_filter {ℓ} : {A : Type ℓ} → (A → Bool) → Option A → Bool
passes_filter p none = true
passes_filter p (some a) = p a

abbrev pub matches_filter : (String → String → Bool) → UserFilter → ℕ → User → Bool
matches_filter contains f _ u =
    passes_filter (same_role u.role) f.role
    && passes_filter (is_bool u.is_active) f.is_active
    && passes_filter (λ q. contains u.email q || contains u.first_name q || contains u.last_name q)
        f.search

unfoldable pub set_active_status : ℕ → Bool → Action (Unit {0})
unfolding update_user
set_active_status id is_active = update_user id (with_active is_active)
