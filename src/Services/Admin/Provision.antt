-- ===== src/Services/Admin/Provision.antt =====
-- scripts/createAdmin.js: the only way to an admin's account.
use ride_sharing_backend.Common.{ℕ, String, true, none, some, ◌∷◌}
use ride_sharing_backend.Common.Table.{update}
use ride_sharing_backend.Model.{User, Role}
use ride_sharing_backend.Repositories.{find_user_by_email}
use ride_sharing_backend.Store.{Action, ok}

abbrev as_admin : ℕ → User → User
as_admin password_hash u = record u {
  role = Role.admin;
  password_hash = some password_hash;
  is_active = true;
}

abbrev new_admin : String → ℕ → String → String → ℕ → User
new_admin email password_hash first_name last_name now = record {
  email = email;
  password_hash = some password_hash;
  first_name = first_name;
  last_name = last_name;
  phone = none;
  role = Role.admin;
  google_id = none;
  is_email_verified = true;
  is_active = true;
  last_login_at = none;
  created_at = now;
}

-- `upsert({ where: { email } })`, with the id of a new row.
unfoldable pub create_admin : (ℕ → ℕ) → ℕ → String → ℕ → String → String → Action (Unit {0})
create_admin bcrypt_hash id email password first_name last_name s =
    elim (find_user_by_email email s.users) [
      | some found ↦
          (ok tt, record s { users = update found.0 (as_admin (bcrypt_hash password)) s.users })
      | none ↦ (
        ok tt,
        record s {
          users = (id, new_admin email (bcrypt_hash password) first_name last_name s.now) ∷ s.users;
        },
      )
    ]
