-- ===== src/Client/Refreshed.antt =====
-- Under which user's name a request is repeated.
use ride_sharing_backend.Client.{Client}
use ride_sharing_backend.Client.Api.{api, do_refresh, retry, Tokens}
use ride_sharing_backend.Common.{ℕ, ◌≤◌, false, List, Option, arith, length}

-- Whatever the server answers, a call sends its request once or twice.
pub api_twice_at_most :
    (user_id status status_again : ℕ) (waiting : List ℕ) (answer : Option Tokens) (c : Client)
    → length ((api false user_id status status_again waiting answer c).sent) ≤ 2
unfolding api do_refresh retry
api_twice_at_most user_id status status_again waiting answer c = ground arith
