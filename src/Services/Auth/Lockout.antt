-- ===== src/Services/Auth/Lockout.antt =====
-- The lockout of an account: how many passwords are ever compared with its own.
use ride_sharing_backend.Common.{
  ℕ, suc, ◌+◌, ◌-◌, ◌<◌, ◌≤◌, ◌≡◌, refl, ap, ◌∙◌, String, Bool, true, ◌⊎◌, inl, inr, Option, none,
  some, List, [], ◌∷◌, All, All-take_cons, take, arith, leb, Bool-cases,
}
use ride_sharing_backend.Common.Table.{find, put, find-put}
use ride_sharing_backend.Repositories.{find_user_by_email}
use ride_sharing_backend.Services.Auth.{failed_attempts, record_failed_login, failed_login_window}
use ride_sharing_backend.Services.Auth.Sessions.{login, check_password, refuse_login, matching}
use ride_sharing_backend.Services.Ride.Trip.{count_attempt}
use ride_sharing_backend.Services.Token.{Fresh}
use ride_sharing_backend.Store.{at_time, Store, Counter}

-- A login attempt: its time, its password and the session that it would open.
pub record Attempt : Type 0 where
  pub time : ℕ
  pub password : ℕ
  pub new : Fresh

-- The first failures of a key, counted for a window from the first of them.
abbrev CountedFrom : ℕ → ℕ → Option Counter → Type 0
CountedFrom start n c =
    ((n ≡ 0) × (c ≡ none))
    ⊎ ((e : ℕ) × (0 < n)
        × (c ≡ some (record { value = n; expires_at = some e }))
        × (start + failed_login_window ≤ e))

module _ (hash : ℕ → ℕ) (refresh_ttl : ℕ) (compare : ℕ → ℕ → Bool) (lock_key : String → ℕ)
    (email : String) where
  -- The attempts at one email, in the order in which they arrive.
  unfoldable pub log_in_all : List Attempt → Store → Store
  log_in_all [] s = s
  log_in_all (a ∷ rest) s =
      log_in_all rest
        (login hash refresh_ttl compare lock_key email a.password a.new (at_time a.time s)).1

  record Guarded (start n : ℕ) (s : Store) : Type 0 where
    up : s.redis.is_up ≡ true
    counted : CountedFrom start n (find (lock_key email) s.redis.failed_logins)

  abbrev after_failure : ℕ → Store → Store
  after_failure t s = record s {
    now = t;
    redis = record (s.redis) {
      failed_logins =
          put (lock_key email)
            (count_attempt t failed_login_window (find (lock_key email) s.redis.failed_logins))
            s.redis.failed_logins;
    };
  }

  count_attempt-CountedFrom :
      (start n t : ℕ) (c : Option Counter)
      → CountedFrom start n c
      → start ≤ t
      → t < start + failed_login_window
      → CountedFrom start (suc n) (some (count_attempt t failed_login_window c))
  count_attempt-CountedFrom start n t c (inl (z, e)) h k =
      rw e (inr (t + failed_login_window, omega arith, ground arith, omega arith))
  count_attempt-CountedFrom start n t c (inr (x, p, e, l)) h k =
      rw e (inr (x, omega arith, ground arith, l))

  locked :
      (start n : ℕ) (a : Attempt) (s : Store)
      → Guarded start n s
      → a.time < start + failed_login_window
      → 5 ≤ n
      → (login hash refresh_ttl compare lock_key email a.password a.new (at_time a.time s)).1
        ≡ at_time a.time s
  unfolding login failed_attempts
  locked start n a s w k h = ground (arith, w.up, w.counted)

  refused :
      (start n : ℕ) (a : Attempt) (s : Store)
      → Guarded start n s
      → a.time < start + failed_login_window
      → n < 5
      → matching compare a.password (find_user_by_email email s.users) ≡ none
      → (login hash refresh_ttl compare lock_key email a.password a.new (at_time a.time s)).1
        ≡ after_failure a.time s
  unfolding login failed_attempts check_password refuse_login record_failed_login
  refused start n a s w k h wrong = ground (arith, w.up, w.counted, wrong)

  after_failure-Guarded :
      (start n : ℕ) (a : Attempt) (s : Store)
      → Guarded start n s
      → start ≤ a.time
      → a.time < start + failed_login_window
      → Guarded start (suc n) (after_failure a.time s)
  after_failure-Guarded start n a s w h k = record {
    up = w.up;
    counted = rw (find-put (lock_key email) (lock_key email) _ s.redis.failed_logins) (
        ground (
          arith,
          count_attempt-CountedFrom start n a.time (find (lock_key email) s.redis.failed_logins)
              w.counted h k,
        ));
  }

  log_in_all-Guarded :
      (start n : ℕ) (attempts : List Attempt) (s : Store)
      → Guarded start n s
      → All (λ a. (start ≤ a.time) × (a.time < start + failed_login_window)) attempts
      → All
          (λ a. matching compare a.password (find_user_by_email email s.users) ≡ none)
          (take (5 - n) attempts)
      → (log_in_all attempts s).refresh_tokens ≡ s.refresh_tokens
  unfolding log_in_all
  log_in_all-Guarded start n [] s w times wrong = refl
  log_in_all-Guarded start n (a ∷ rest) s w ((from, until), times) wrong =
      let (first, others) =
        All-take_cons
          (λ (b : Attempt). matching compare b.password (find_user_by_email email s.users) ≡ none) 5
          n a rest wrong in
      elim (Bool-cases (leb 5 n)) [
        | inl full ↦
            ap (λ (q : Store). (log_in_all rest q).refresh_tokens)
              (locked start n a s w until (ground arith))
            ∙ log_in_all-Guarded start n rest (at_time a.time s)
                (record { up = w.up; counted = w.counted }) times
                (let spent : 5 - n ≡ 0 = ground arith in rw spent tt)
        | inr free ↦
            ap (λ (q : Store). (log_in_all rest q).refresh_tokens)
              (refused start n a s w until (ground arith) (first (ground arith)))
            ∙ log_in_all-Guarded start (suc n) rest (after_failure a.time s)
                (after_failure-Guarded start n a s w from until) times others
      ]

-- Of any number of logins at one email within a window of 15 minutes, at most five are decided by their password: unless
-- one of the first five has the password of an account with that email, nobody is given a session.
-- No failure was counted before the window, and Redis answers.
pub login_five_attempts :
    (hash : ℕ → ℕ) (refresh_ttl : ℕ) (compare : ℕ → ℕ → Bool) (lock_key : String → ℕ)
    (email : String) (start : ℕ) (attempts : List Attempt) (s : Store)
    → s.redis.is_up ≡ true
    → find (lock_key email) s.redis.failed_logins ≡ none
    → All (λ a. (start ≤ a.time) × (a.time < start + failed_login_window)) attempts
    → All
        (λ a. matching compare a.password (find_user_by_email email s.users) ≡ none)
        (take 5 attempts)
    → (log_in_all hash refresh_ttl compare lock_key email attempts s).refresh_tokens
      ≡ s.refresh_tokens
login_five_attempts hash refresh_ttl compare lock_key email start attempts s up fresh times wrong =
    log_in_all-Guarded hash refresh_ttl compare lock_key email start 0 attempts s
      (record { up = up; counted = inl (refl, fresh) }) times wrong
