-- ===== src/Client/Api.antt =====
-- frontend/js/api.js: a request that is repeated once with a new access token. What the server answers
-- is an argument. `refreshInFlight` is known by the users whose requests await it, in their order: the first
-- has started it. All of them await the same promise, and each has its own `catch`.
use ride_sharing_backend.Client.{Client, Session, update_session_tokens, remove_session, toast}
use ride_sharing_backend.Common.{
  ℕ, Bool, true, false, ◌&&◌, Option, none, some, List, [], ◌∷◌, ◌==◌, ltb, is_some, if◌then◌else◌,
}
use ride_sharing_backend.Common.Table.{find}

-- The answer to `/auth/refresh`: the new tokens, or a refusal.
pub record Tokens : Type 0 where
  pub access_token : ℕ
  pub refresh_token : Option ℕ

-- `doRefresh` by the answer that it gets: the client with the new tokens, and the access token.
unfoldable pub do_refresh : ℕ → Option Tokens → Client → Client × Option ℕ
do_refresh user_id answer c = elim (find user_id c.sessions) [
  | none ↦ (c, none)
  | some _ ↦ elim answer [
    | none ↦ (c, none)
    | some t ↦ (update_session_tokens user_id t.access_token t.refresh_token c, some t.access_token)
  ]
]

-- `refreshInFlight ??= doRefresh(userId)`: whose refresh is awaited.
abbrev pub refresh_owner : List ℕ → ℕ → ℕ
refresh_owner [] user_id = user_id
refresh_owner (owner ∷ _) user_id = owner

-- The `catch` of a user's request, and those of the requests that were waiting.
unfoldable pub expire_session : ℕ → Client → Client
expire_session user_id c = toast "Session expired — please log in again" (remove_session user_id c)

unfoldable pub expire_all : List ℕ → Client → Client
expire_all [] c = c
expire_all (user_id ∷ waiting) c = expire_all waiting (expire_session user_id c)

-- What a call comes to: the tokens of the requests that were sent, and the status of the answer that
-- counts, or `none` for "Session expired".
pub record Called : Type 0 where
  pub client : Client
  pub sent : List (Option ℕ)
  pub status : Option ℕ

abbrev pub token_of : Option Session → Option ℕ
token_of none = none
token_of (some s) = some s.access_token

-- The second half: the awaited refresh has given a token, or has failed. Then the requests that were
-- waiting have failed before this one.
unfoldable pub retry : List ℕ → ℕ → Option ℕ → ℕ → Client × Option ℕ → Called
retry waiting user_id first status (c, none) = record {
  client = expire_session user_id (expire_all waiting c);
  sent = first ∷ [];
  status = none;
}
retry waiting user_id first status (c, some token) = record {
  client = c;
  sent = first ∷ some token ∷ [];
  status = some status;
}

-- `api` for a user: the statuses of the two attempts, who awaits a refresh already, and the answer to
-- the refresh that is awaited.
unfoldable pub api : Bool → ℕ → ℕ → ℕ → List ℕ → Option Tokens → Client → Called
api is_refresh_path user_id status status_again waiting answer c =
    let session = find user_id c.sessions in
    if (status == 401) && is_some session && (if is_refresh_path then false else true)
    then retry waiting user_id (token_of session) status_again
        (do_refresh (refresh_owner waiting user_id) answer c)
    else (record { client = c; sent = token_of session ∷ []; status = some status })

-- `if (!res.ok) throw`
abbrev pub is_ok : ℕ → Bool
is_ok status = ltb 199 status && ltb status 300

-- The tab that is opened before the file is there.
pub data Tab : Type 0 where
  closed showing : Tab

pub record Opened : Type 0 where
  pub client : Client
  pub sent : List (Option ℕ)
  pub tab : Tab

abbrev tab_of : Option ℕ → Tab
tab_of none = Tab.closed
tab_of (some status) = if is_ok status then Tab.showing else Tab.closed

abbrev sent_as : Option ℕ → ℕ → ℕ → List ℕ → Option Tokens → Client → Called
sent_as none status status_again waiting answer c = record {
  client = c;
  sent = none ∷ [];
  status = some status;
}
sent_as (some user_id) status status_again waiting answer c =
    api false user_id status status_again waiting answer c

-- `openFile`, for the active user, if there is one. It repeats the request as `api` does.
unfoldable pub open_file : ℕ → ℕ → List ℕ → Option Tokens → Client → Opened
open_file status status_again waiting answer c =
    let called = sent_as c.active_user_id status status_again waiting answer c in
    record { client = called.client; sent = called.sent; tab = tab_of called.status }
