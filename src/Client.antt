-- ===== src/Client.antt =====
-- frontend/js/state.js: the sessions that the client keeps, one for each user, and what it stores of
-- them in the browser. Sessions stand in the order in which they were added.
pub mod Api
pub mod App
pub mod Driver
pub mod Refreshed
pub mod Stored
use ride_sharing_backend.Common.{
  ℕ, String, Bool, true, false, Option, none, some, List, [], ◌∷◌, ◌++◌, holds, ◌==◌, if◌then◌else◌,
}
use ride_sharing_backend.Common.Table.{Table, find, put, remove, update}
use ride_sharing_backend.Model.{User}

pub record Session : Type 0 where
  pub user : User
  pub access_token : ℕ
  pub refresh_token : ℕ

-- `state`, with what `localStorage` holds.
pub record Client : Type 0 where
  pub sessions : Table Session
  pub active_user_id : Option ℕ
  pub view : String
  pub adding_account : Bool
  pub toasts : List String
  pub stored_sessions : Table Session
  pub stored_active : Option ℕ

abbrev pub or_stored : Option ℕ → Option ℕ → Option ℕ
or_stored none stored = stored
or_stored (some id) stored = some id

-- An active user is stored, its absence is not.
unfoldable pub persist_sessions : Client → Client
persist_sessions c = record c {
  stored_sessions = c.sessions;
  stored_active = or_stored c.active_user_id c.stored_active;
}

abbrev session_of : Option ℕ → Table Session → Option Session
session_of none t = none
session_of (some id) t = find id t

unfoldable pub current_session : Client → Option Session
current_session c = session_of c.active_user_id c.sessions

unfoldable pub save_session : ℕ → Session → Client → Client
save_session user_id session c = persist_sessions (record c {
  sessions = put user_id session c.sessions;
  active_user_id = some user_id;
  adding_account = false;
  view = "dashboard";
})

-- The new tokens of a user: the refresh token may be left out.
abbrev pub with_tokens : ℕ → Option ℕ → Session → Session
with_tokens access_token none s = record s { access_token = access_token }
with_tokens access_token (some refresh_token) s = record s {
  access_token = access_token;
  refresh_token = refresh_token;
}

unfoldable pub update_session_tokens : ℕ → ℕ → Option ℕ → Client → Client
update_session_tokens user_id access_token refresh_token c = elim (find user_id c.sessions) [
  | none ↦ c
  | some _ ↦
      persist_sessions
        (record c { sessions = update user_id (with_tokens access_token refresh_token) c.sessions })
]

unfoldable pub switch_session : ℕ → Client → Client
switch_session user_id c =
    persist_sessions (record c { active_user_id = some user_id; view = "dashboard" })

-- `remaining[0] ?? null`
abbrev pub first_id : Table Session → Option ℕ
first_id [] = none
first_id ((id, _) ∷ _) = some id

unfoldable pub remove_session : ℕ → Client → Client
remove_session user_id c =
    let left = remove user_id c.sessions in
    persist_sessions (record c {
      sessions = left;
      active_user_id =
          if holds (λ id. id == user_id) c.active_user_id then first_id left else c.active_user_id;
    })

-- A toast, before its time is over.
unfoldable pub toast : String → Client → Client
toast message c = record c { toasts = c.toasts ++ message ∷ [] }

-- A new page: what was stored.
unfoldable pub reload_page : Client → Client
reload_page c = record c {
  sessions = c.stored_sessions;
  active_user_id = c.stored_active;
  view = "dashboard";
  adding_account = false;
  toasts = [];
}
