-- ===== src/Tests/Accounts.antt =====
-- Tokens, logins and the presence of drivers at concrete inputs.
use ride_sharing_backend.Common.{
  ℕ, ◌*◌, ◌+◌, ◌-◌, ◌≤◌, ◌<◌, ◌⊎◌, ◌≡◌, refl, true, false, none, some, List, [], ◌∷◌, arith, String,
  length, ◌==◌,
}
use ride_sharing_backend.Common.Table.{find, update}
use ride_sharing_backend.Errors.{api, bad_request}
use ride_sharing_backend.Model.{Driver, Role, VerificationToken, VerificationTokenType}
use ride_sharing_backend.Repositories.{
  find_refresh_token_by_hash, delete_expired_refresh_tokens, create_refresh_token,
  revoke_refresh_token, with_password_hash, list_online, with_location,
}
use ride_sharing_backend.Services.Auth.Lockout.{Attempt, log_in_all, login_five_attempts}
use ride_sharing_backend.Services.Auth.Reset.{reset_password_once}
use ride_sharing_backend.Services.Auth.Sessions.{reset_password}
use ride_sharing_backend.Services.Driver.Location.{IsFast, IsSlow, update_location_implausible}
use ride_sharing_backend.Services.Driver.{update_location, expire_stale_heartbeats}
use ride_sharing_backend.Services.Driver.Presence.{expire_stale_heartbeats_up}
use ride_sharing_backend.Services.Geo.{refresh_heartbeat, is_live}
use ride_sharing_backend.Services.Rating.{submit_rating, refresh_average_rating}
use ride_sharing_backend.Services.Rating.Once.{submit_rating_first}
use ride_sharing_backend.Services.Ride.{ride_of}
use ride_sharing_backend.Services.Ride.Cancel.{canceller}
use ride_sharing_backend.Model.{Rating, RatingDirection, Ride, RideStatus}
use ride_sharing_backend.Repositories.{create_rating, is_rated, rounded_average}
use ride_sharing_backend.Services.Token.{
  Fresh, refresh_row, reuse_error, rotate_refresh_token, rotate_found, issue_refresh_token,
}
use ride_sharing_backend.Services.Token.Cleanup.{usable, delete_expired_refresh_tokens_safe}
use ride_sharing_backend.Services.Token.Rotation.{open_sessions, rotate_refresh_token_once}
use ride_sharing_backend.Store.{Store, at_time, ok, err}
use ride_sharing_backend.Tests.Samples.{
  with_ride, completed_ride, here, sample_driver, empty, sample_user,
}

-- A hash that keeps tokens apart.
abbrev plus_one : ℕ → ℕ
plus_one n = n + 1

abbrev one_session : Store
one_session = record empty { refresh_tokens = (100, refresh_row 1 8 5000) ∷ [] }

abbrev fresh : Fresh
fresh = record { id = 101; raw = 9 }

abbrev rotated_session : Store
rotated_session = record empty {
  refresh_tokens =
      (101, refresh_row 1 10 (1000 + 4000))
      ∷ (100, record { user_id = 1; token_hash = 8; expires_at = 5000; revoked_at = some 1000 })
      ∷ [];
}

rotates : rotate_refresh_token plus_one 4000 7 fresh one_session ≡ (ok (1, 9), rotated_session)
unfolding rotate_refresh_token rotate_found issue_refresh_token create_refresh_token
    revoke_refresh_token
rotates = refl

rotate_refresh_token_once_example :
    let again =
      rotate_refresh_token plus_one 4000 7
        (record { id = 102; raw = 11 })
        (at_time 2000 rotated_session) in
    (again.0 ≡ err (api reuse_error)) × (open_sessions 1 again.1.refresh_tokens ≡ 0)
rotate_refresh_token_once_example =
    rotate_refresh_token_once plus_one 4000 7 1 fresh one_session rotated_session (refl, tt) rotates
      2000 (record { id = 102; raw = 11 })

delete_expired_refresh_tokens_safe_example :
    usable 2000 (
      find_refresh_token_by_hash 10
        (delete_expired_refresh_tokens rotated_session).1.refresh_tokens)
    ≡ some (101, refresh_row 1 10 5000)
delete_expired_refresh_tokens_safe_example =
    delete_expired_refresh_tokens_safe 10 2000 rotated_session (omega arith) (refl, (refl, tt))

-- Five wrong passwords, and then the right one.
abbrev attempt : ℕ → ℕ → Attempt
attempt time password = record { time = time; password = password; new = fresh }

abbrev attempts : List Attempt
attempts =
    attempt 1000 1
    ∷ attempt 1001 2
    ∷ attempt 1002 3
    ∷ attempt 1003 4
    ∷ attempt 1004 5
    ∷ attempt 1005 99
    ∷ []

abbrev one_key : String → ℕ
one_key _ = 7

login_five_attempts_example :
    (log_in_all plus_one 4000
      (λ p h. p == h)
      one_key
      "ann@example.com"
      attempts
      one_session).refresh_tokens
    ≡ (100, refresh_row 1 8 5000) ∷ []
login_five_attempts_example =
    login_five_attempts plus_one 4000 (λ p h. p == h) one_key "ann@example.com" 1000 attempts
      one_session refl refl (ground arith) (refl, (refl, (refl, (refl, (refl, tt)))))

abbrev link : VerificationToken
link = record {
  user_id = 1;
  token_hash = 21;
  type = VerificationTokenType.password_reset;
  expires_at = 9000;
  used_at = none;
}

abbrev with_link : Store
with_link = record one_session { verification_tokens = (110, link) ∷ [] }

reset_password_once_example :
    let t = (reset_password plus_one 4000 plus_one 900 20 55 with_link).1 in
    (find 1 t.users ≡ some (with_password_hash 56 (sample_user Role.passenger)))
    × (open_sessions 1 t.refresh_tokens ≡ 0)
    × (reset_password plus_one 4000 plus_one 900 20 66 (at_time 3000 t)
        ≡ (err (api (bad_request "Invalid or expired reset token")), at_time 3000 t))
reset_password_once_example =
    reset_password_once plus_one 4000 plus_one 900 20 55 110 link (sample_user Role.passenger)
      with_link (refl, refl, tt) refl refl 3000 66

abbrev without_redis : Store
without_redis = record empty { redis = record (empty.redis) { is_up = false } }

abbrev one_alive : Store
one_alive = record empty { redis = record (empty.redis) { heartbeats = (20, 5000) ∷ [] } }

expire_stale_heartbeats_up_example :
    (n : ℕ) × (t : Store) × (expire_stale_heartbeats one_alive
      ≡ (ok (length (list_online one_alive.drivers), n), t))
    × ((k : ℕ) (d : Driver)
        → find k t.drivers ≡ some d
        → d.is_online ≡ true
        → is_live 1000 k ((20, 5000) ∷ []) ≡ true)
expire_stale_heartbeats_up_example = expire_stale_heartbeats_up one_alive refl

abbrev moved : Driver
moved = record (sample_driver 2) { last_known = some here; last_location_at = some 0 }

abbrev with_moved : Store
with_moved = record empty { now = 10 * 1000; drivers = (20, moved) ∷ [] }

-- A thousand kilometres in ten seconds.
update_location_implausible_example :
    ((0 + 3000 ≤ 10 * 1000)
      × IsFast (1000 * 1000 * 1000) (10 * 1000 - 0)
      × (update_location (λ _ _. 1000 * 1000 * 1000) 2 here with_moved
          ≡ refresh_heartbeat 20 with_moved))
    ⊎ (((10 * 1000 < 0 + 3000) ⊎ IsSlow (1000 * 1000 * 1000) (10 * 1000 - 0))
        × ((update_location (λ _ _. 1000 * 1000 * 1000) 2 here with_moved).1.drivers
            ≡ update 20 (with_location (10 * 1000) here) ((20, moved) ∷ [])))
update_location_implausible_example =
    update_location_implausible (λ _ _. 1000 * 1000 * 1000) 2 20 0 moved here here with_moved refl
      refl refl refl refl

abbrev five_stars : Rating
five_stars = record {
  ride_id = 40;
  rater_id = 1;
  ratee_id = 2;
  direction = RatingDirection.passenger_to_driver;
  value = 5;
  comment = none;
}

rates : (submit_rating 1 40 5 none (with_ride completed_ride)).0 ≡ ok five_stars
unfolding submit_rating canceller create_rating refresh_average_rating
rates = refl

submit_rating_first_example :
    let t = (submit_rating 1 40 5 none (with_ride completed_ride)).1 in
    (t.ratings ≡ five_stars ∷ [])
    × (is_rated 40 RatingDirection.passenger_to_driver [] ≡ false)
    × (is_rated 40 RatingDirection.passenger_to_driver t.ratings ≡ true)
    × ((r : Ride) × (ride_of 40 (with_ride completed_ride) ≡ some r)
        × (r.status ≡ RideStatus.completed))
submit_rating_first_example =
    submit_rating_first 1 40 5 none five_stars (with_ride completed_ride) rates

-- The average of 4, 5 and 5 is 4.67.
average_of_three : rounded_average 14 3 ≡ 467
average_of_three = refl
