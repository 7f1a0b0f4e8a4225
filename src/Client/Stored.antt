-- ===== src/Client/Stored.antt =====
-- What a new page finds of the sessions that the page before it kept.
use ride_sharing_backend.Client.{
  Client, Session, save_session, update_session_tokens, switch_session, remove_session, toast,
  reload_page, persist_sessions, or_stored,
}
use ride_sharing_backend.Client.Api.{
  api, do_refresh, retry, expire_session, Tokens, refresh_owner, token_of,
}
use ride_sharing_backend.Common.{
  ℕ, String, Bool, ◌≡◌, refl, Option, none, some, List, [], ◌∷◌, arith,
}
use ride_sharing_backend.Common.Table.{find}

-- What happens to a page: the operations of state.js, a request of the API client, and a reload.
pub data Event : Type 0 where
  logged_in : ℕ → Session → Event
  switched removed : ℕ → Event
  told : String → Event
  requested : Bool → ℕ → ℕ → ℕ → List ℕ → Option Tokens → Event
  reloaded : Event

unfoldable pub after : Event → Client → Client
after (Event.logged_in user_id session) c = save_session user_id session c
after (Event.switched user_id) c = switch_session user_id c
after (Event.removed user_id) c = remove_session user_id c
after (Event.told message) c = toast message c
after (Event.requested is_refresh_path user_id status status_again waiting answer) c =
    (api is_refresh_path user_id status status_again waiting answer c).client
after Event.reloaded c = reload_page c

unfoldable pub run : List Event → Client → Client
run [] c = c
run (e ∷ es) c = run es (after e c)

-- Storage holds the sessions, and the active user, if there is one.
unfoldable pub IsStored : Client → Type 0
IsStored c =
    (c.stored_sessions ≡ c.sessions)
    × (or_stored c.active_user_id c.stored_active ≡ c.stored_active)

stored_twice : (a b : Option ℕ) → or_stored a (or_stored a b) ≡ or_stored a b
stored_twice none b = refl
stored_twice (some id) b = refl

stored_self : (a : Option ℕ) → or_stored a a ≡ a
stored_self none = refl
stored_self (some id) = refl

persist_sessions-IsStored : (c : Client) → IsStored (persist_sessions c)
unfolding IsStored persist_sessions
persist_sessions-IsStored c = (refl, stored_twice c.active_user_id c.stored_active)

either-IsStored :
    (o : Option Session) (a b : Client)
    → IsStored a
    → IsStored b
    → IsStored (elim o [ none ↦ a | some _ ↦ b ])
either-IsStored none a b h k = h
either-IsStored (some x) a b h k = k

update_session_tokens-IsStored :
    (user_id access_token : ℕ) (refresh_token : Option ℕ) (c : Client)
    → IsStored c
    → IsStored (update_session_tokens user_id access_token refresh_token c)
unfolding update_session_tokens
update_session_tokens-IsStored user_id access_token refresh_token c h =
    either-IsStored (find user_id c.sessions) c _ h (persist_sessions-IsStored _)

toast-IsStored : (message : String) (c : Client) → IsStored c → IsStored (toast message c)
unfolding IsStored toast
toast-IsStored message c h = h

remove_session-IsStored : (user_id : ℕ) (c : Client) → IsStored (remove_session user_id c)
unfolding remove_session
remove_session-IsStored user_id c = persist_sessions-IsStored _

do_refresh-IsStored :
    (user_id : ℕ) (answer : Option Tokens) (c : Client)
    → IsStored c
    → IsStored ((do_refresh user_id answer c).0)
unfolding do_refresh
do_refresh-IsStored user_id none c h = ground arith
do_refresh-IsStored user_id (some t) c h =
    ground (arith, update_session_tokens-IsStored user_id t.access_token t.refresh_token c h)

retry-IsStored :
    (waiting : List ℕ) (user_id again : ℕ) (first : Option ℕ) (r : Client × Option ℕ)
    → IsStored r.0
    → IsStored ((retry waiting user_id first again r).client)
unfolding retry expire_session
retry-IsStored waiting user_id again first (c, none) h =
    toast-IsStored _ _ (remove_session-IsStored user_id _)
retry-IsStored waiting user_id again first (c, some token) h = h

api-IsStored :
    (p : Bool) (user_id status again : ℕ) (waiting : List ℕ) (answer : Option Tokens) (c : Client)
    → IsStored c
    → IsStored ((api p user_id status again waiting answer c).client)
unfolding api
api-IsStored p user_id status again waiting answer c h = ground (
  arith,
  retry-IsStored waiting user_id again (token_of (find user_id c.sessions))
      (do_refresh (refresh_owner waiting user_id) answer c)
      (do_refresh-IsStored (refresh_owner waiting user_id) answer c h),
)

after-IsStored : (e : Event) (c : Client) → IsStored c → IsStored (after e c)
unfolding after save_session switch_session toast IsStored reload_page
after-IsStored (Event.logged_in user_id session) c h = persist_sessions-IsStored _
after-IsStored (Event.switched user_id) c h = persist_sessions-IsStored _
after-IsStored (Event.removed user_id) c h = remove_session-IsStored user_id c
after-IsStored (Event.told message) c h = h
after-IsStored (Event.requested p user_id status again waiting answer) c h =
    api-IsStored p user_id status again waiting answer c h
after-IsStored Event.reloaded c h = (refl, stored_self c.stored_active)

run-IsStored : (es : List Event) (c : Client) → IsStored c → IsStored (run es c)
unfolding run
run-IsStored [] c h = h
run-IsStored (e ∷ es) c h = run-IsStored es (after e c) (after-IsStored e c h)

keeps_active :
    (a stored : Option ℕ) (id : ℕ) → or_stored a stored ≡ stored → a ≡ some id → stored ≡ some id
keeps_active a stored id h e = ground arith

-- If storage holds the sessions and the active user, then after any logins, switches, removals, messages, requests and
-- reloads a new page finds exactly the sessions that the page before it had, and its active user, if it had one.
pub run-reload_page :
    (es : List Event) (c : Client)
    → IsStored c
    → let d = run es c in
      ((reload_page d).sessions ≡ d.sessions)
      × ((id : ℕ) → d.active_user_id ≡ some id → (reload_page d).active_user_id ≡ some id)
unfolding reload_page IsStored
run-reload_page es c h =
    let (sessions, active) = run-IsStored es c h in
    (sessions, λ id e. keeps_active ((run es c).active_user_id) _ id active e)
