-- ===== src/Client/App.antt =====
-- frontend/js/app.js: the frame around the views, without its template.
use ride_sharing_backend.Client.{
  Client, Session, current_session, remove_session, persist_sessions, first_id, toast,
}
use ride_sharing_backend.Common.{
  ℕ, String, Bool, true, false, ◌||◌, not, Option, none, some, List, [], ◌∷◌, any, is_some,
  if◌then◌else◌,
}
use ride_sharing_backend.Common.Text.{same_text}
use ride_sharing_backend.Model.{Role}
use ride_sharing_backend.Repositories.{same_role}

pub record NavItem : Type 0 where
  pub key : String
  pub label : String
  pub roles : Option (List Role)

-- `NAV`, without the icons.
abbrev pub nav : List NavItem
nav =
    record { key = "dashboard"; label = "Dashboard"; roles = none }
    ∷ record { key = "rides"; label = "Rides"; roles = some (Role.passenger ∷ []) }
    ∷ record { key = "driver"; label = "Driver Console"; roles = some (Role.driver ∷ []) }
    ∷ record { key = "vehicles"; label = "Vehicles"; roles = some (Role.driver ∷ []) }
    ∷ record { key = "wallet"; label = "Wallet"; roles = some (Role.passenger ∷ Role.driver ∷ []) }
    ∷ record {
      key = "ratings";
      label = "Ratings";
      roles = some (Role.passenger ∷ Role.driver ∷ []);
    }
    ∷ record { key = "notifications"; label = "Notifications"; roles = none }
    ∷ record {
      key = "profile";
      label = "Profile";
      roles = some (Role.passenger ∷ Role.driver ∷ []);
    }
    ∷ record { key = "admin"; label = "Admin"; roles = some (Role.admin ∷ []) }
    ∷ []

abbrev pub current_role : Option Session → Option Role
current_role none = none
current_role (some s) = some s.user.role

abbrev is_role_in : List Role → Option Role → Bool
is_role_in roles none = false
is_role_in roles (some role) = any (same_role role) roles

abbrev is_shown : Option Role → Option (List Role) → Bool
is_shown role none = true
is_shown role (some roles) = is_role_in roles role

abbrev shown_of : Option Role → List NavItem → List NavItem
shown_of role [] = []
shown_of role (n ∷ ns) =
    let rest = shown_of role ns in if is_shown role n.roles then n ∷ rest else rest

-- `navItems`
unfoldable pub nav_items : Client → List NavItem
unfolding current_session
nav_items c = shown_of (current_role (current_session c)) nav

abbrev label_in : String → List NavItem → String
label_in view [] = "Dashboard"
label_in view (n ∷ ns) = if same_text n.key view then n.label else label_in view ns

-- `activeLabel`
unfoldable pub active_label : Client → String
active_label c = label_in c.view nav

-- The screen for logging in stands in place of the app, or over it.
unfoldable pub shows_auth : Client → Bool
unfolding current_session
shows_auth c = not (is_some (current_session c)) || c.adding_account

unfoldable pub go : String → Client → Client
go key c = record c { view = key }

-- `removeSession` of the active user. With no user it removes nothing, and `null === null` makes the
-- first session the active one.
abbrev remove_active : Option ℕ → Client → Client
remove_active none c = persist_sessions (record c { active_user_id = first_id c.sessions })
remove_active (some id) c = remove_session id c

unfoldable pub log_out_locally : Client → Client
log_out_locally c = toast "Logged out" (remove_active c.active_user_id c)

unfoldable pub add_account : Client → Client
add_account c = record c { adding_account = true }

unfoldable pub cancel_add_account : Client → Client
cancel_add_account c = record c { adding_account = false }
