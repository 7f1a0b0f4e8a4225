-- ===== src/Services/Ride/Trip/Guessing.antt =====
-- How many guesses at a ride's OTP are ever compared with it.
use ride_sharing_backend.Common.{
  ℕ, suc, ◌+◌, ◌-◌, ◌<◌, ◌≤◌, ◌≡◌, ◌≢◌, refl, ap, ◌∙◌, true, ◌⊎◌, inl, inr, Option, none, some,
  List, [], ◌∷◌, All, All-take_cons, take, arith, ltb, if◌then◌else◌, Bool-cases,
}
use ride_sharing_backend.Common.Table.{find, put, find-put}
use ride_sharing_backend.Model.{Ride, RideStatus, Driver}
use ride_sharing_backend.Store.{at_time, Store, Counter}
use ride_sharing_backend.Repositories.{find_driver_by_user}
use ride_sharing_backend.Services.Ride.{get_assigned_ride_in_status, get_own_driver}
use ride_sharing_backend.Services.Ride.Trip.{
  start_ride, count_otp_attempt, otp_validity, otp_attempt_window, count_attempt,
}

-- A guess: the time at which it arrives and its code. Every guess is a call of `start_ride`, whose
-- answer the guesser sees, and which leaves its store behind.
abbrev pub Guess : Type 0
Guess = ℕ × ℕ

unfoldable pub guess_all : ℕ → ℕ → List Guess → Store → Store
guess_all user_id ride_id [] s = s
guess_all user_id ride_id ((t, code) ∷ rest) s =
    guess_all user_id ride_id rest (start_ride user_id ride_id code (at_time t s)).1

-- The guesses that arrive while the OTP is valid.
abbrev pub in_time : ℕ → List Guess → List Guess
in_time arrived [] = []
in_time arrived ((t, code) ∷ rest) =
    let later = in_time arrived rest in
    if ltb (arrived + otp_validity) t then later else (t, code) ∷ later

-- The ride waits for its OTP after `n` counted attempts.
abbrev Counted : ℕ → ℕ → Option Counter → Type 0
Counted arrived n c =
    ((n ≡ 0) × (c ≡ none))
    ⊎ ((e : ℕ) × (0 < n)
        × (c ≡ some (record { value = n; expires_at = some e }))
        × (arrived + otp_validity < e))

record Waiting (user_id ride_id driver_id : ℕ) (row : Driver) (r : Ride) (arrived otp n : ℕ)
    (s : Store) : Type 0 where
  up : s.redis.is_up ≡ true
  own : find_driver_by_user user_id s.drivers ≡ some (driver_id, row)
  waits : find ride_id s.rides ≡ some r
  counted : Counted arrived n (find ride_id s.redis.otp_attempts)

module _ (user_id ride_id driver_id : ℕ) (row : Driver) (r : Ride) (arrived otp : ℕ)
    (assigned : r.driver_id ≡ some driver_id) (status : r.status ≡ RideStatus.arrived)
    (since : r.arrived_at ≡ some arrived) (code : r.otp_code ≡ some otp) where
  late :
      (n t g : ℕ) (s : Store)
      → Waiting user_id ride_id driver_id row r arrived otp n s
      → arrived + otp_validity < t
      → (start_ride user_id ride_id g (at_time t s)).1 ≡ at_time t s
  unfolding start_ride get_assigned_ride_in_status get_own_driver
  late n t g s w h = ground (arith, w.own, w.waits)

  -- The store after a counted guess that is refused.
  abbrev after_count : ℕ → Store → Store
  after_count t s = record s {
    now = t;
    redis = record (s.redis) {
      otp_attempts =
          put ride_id (count_attempt t otp_attempt_window (find ride_id s.redis.otp_attempts))
            s.redis.otp_attempts;
    };
  }

  count_attempt-Counted :
      (n t : ℕ) (c : Option Counter)
      → Counted arrived n c
      → arrived ≤ t
      → t ≤ arrived + otp_validity
      → Counted arrived (suc n) (some (count_attempt t otp_attempt_window c))
        × ((count_attempt t otp_attempt_window c).value ≡ suc n)
  count_attempt-Counted n t c (inl (z, e)) h k =
      rw e (inr (t + otp_attempt_window, omega arith, ground arith, omega arith), ground arith)
  count_attempt-Counted n t c (inr (x, p, e, l)) h k =
      rw e (inr (x, omega arith, ground arith, l), ground arith)

  refused :
      (n t g : ℕ) (s : Store)
      → Waiting user_id ride_id driver_id row r arrived otp n s
      → arrived ≤ t
      → t ≤ arrived + otp_validity
      → (n < 5 → g ≢ otp)
      → (start_ride user_id ride_id g (at_time t s)).1 ≡ after_count t s
  unfolding start_ride get_assigned_ride_in_status get_own_driver count_otp_attempt
  refused n t g s w h k wrong = ground (
    arith,
    w.up,
    w.own,
    w.waits,
    w.counted,
    find-put ride_id ride_id
        (count_attempt t otp_attempt_window (find ride_id s.redis.otp_attempts))
        s.redis.otp_attempts,
    count_attempt-Counted n t (find ride_id s.redis.otp_attempts) w.counted h k,
  )

  at_time-Waiting :
      (n t : ℕ) (s : Store)
      → Waiting user_id ride_id driver_id row r arrived otp n s
      → Waiting user_id ride_id driver_id row r arrived otp n (at_time t s)
  at_time-Waiting n t s w = record { up = w.up; own = w.own; waits = w.waits; counted = w.counted }

  refused-Waiting :
      (n t : ℕ) (s : Store)
      → Waiting user_id ride_id driver_id row r arrived otp n s
      → arrived ≤ t
      → t ≤ arrived + otp_validity
      → Waiting user_id ride_id driver_id row r arrived otp (suc n) (after_count t s)
  refused-Waiting n t s w h k = record {
    up = w.up;
    own = w.own;
    waits = w.waits;
    counted = rw (find-put ride_id ride_id _ s.redis.otp_attempts) (
        ground
          (arith, count_attempt-Counted n t (find ride_id s.redis.otp_attempts) w.counted h k));
  }

  guess_all-waits :
      (n : ℕ) (guesses : List Guess) (s : Store)
      → Waiting user_id ride_id driver_id row r arrived otp n s
      → All (λ g. arrived ≤ g.0) guesses
      → All (λ g. g.1 ≢ otp) (take (5 - n) (in_time arrived guesses))
      → find ride_id (guess_all user_id ride_id guesses s).rides ≡ some r
  unfolding guess_all
  guess_all-waits n [] s w order wrong = w.waits
  guess_all-waits n ((t, g) ∷ rest) s w (since_arrival, order) wrong =
      elim (Bool-cases (ltb (arrived + otp_validity) t)) [
        | inl too_late ↦
            ap (λ (q : Store). find ride_id (guess_all user_id ride_id rest q).rides)
              (late n t g s w (ground arith))
            ∙ guess_all-waits n rest (at_time t s) (at_time-Waiting n t s w) order
                (rw too_late at wrong)
        | inr valid ↦
            let (first, others) =
              All-take_cons (λ (x : Guess). x.1 ≢ otp) 5 n (t, g) (in_time arrived rest)
                (rw valid at wrong) in
            ap (λ (q : Store). find ride_id (guess_all user_id ride_id rest q).rides)
              (refused n t g s w since_arrival (ground arith) first)
            ∙ guess_all-waits (suc n) rest (after_count t s)
                (refused-Waiting n t s w since_arrival (ground arith)) order others
      ]

-- Whatever codes the assigned driver tries, and however many: unless one of the first five that
-- arrive while the OTP is valid is the OTP, the ride's row stays as it was when the driver arrived.
-- The guesses come after the arrival, no attempt was counted before, and Redis answers.
pub otp_five_guesses :
    (user_id ride_id driver_id arrived otp : ℕ) (row : Driver) (r : Ride) (s : Store)
    (guesses : List Guess)
    → s.redis.is_up ≡ true
    → find_driver_by_user user_id s.drivers ≡ some (driver_id, row)
    → find ride_id s.rides ≡ some r
    → r.driver_id ≡ some driver_id
    → r.status ≡ RideStatus.arrived
    → r.arrived_at ≡ some arrived
    → r.otp_code ≡ some otp
    → find ride_id s.redis.otp_attempts ≡ none
    → All (λ g. arrived ≤ g.0) guesses
    → All (λ g. g.1 ≢ otp) (take 5 (in_time arrived guesses))
    → find ride_id (guess_all user_id ride_id guesses s).rides ≡ some r
otp_five_guesses user_id ride_id driver_id arrived otp row r s guesses up own waits d st a o c order
      wrong =
    guess_all-waits user_id ride_id driver_id row r arrived otp d st a o 0 guesses s
      (record { up = up; own = own; waits = waits; counted = inl (refl, c) }) order wrong
