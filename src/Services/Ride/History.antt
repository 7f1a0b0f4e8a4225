-- ===== src/Services/Ride/History.antt =====
-- Any history of calls to the ride service, by any users at any times, with the expiry job among them.
use ride_sharing_backend.Common.{
  ℕ, ◌+◌, ◌-◌, ◌≡◌, refl, inl, inr, Option, some, List, [], ◌∷◌, String,
}
use ride_sharing_backend.Common.Table.{Table, find}
use ride_sharing_backend.Model.{Ride, RideStatus}
use ride_sharing_backend.Store.{Store, Action, ◌>>=◌, pure}
use ride_sharing_backend.Repositories.{
  find_stale_requested, find_stale_accepted, find_stale_arrived,
}
use ride_sharing_backend.Services.Geo.{Geosearch}
use ride_sharing_backend.Services.Maps.{Route}
use ride_sharing_backend.Services.Ride.Request.{request_ride, RideRequest, new_ride}
use ride_sharing_backend.Services.Ride.Matching.{accept_ride, reject_ride}
use ride_sharing_backend.Services.Ride.Trip.{mark_arrived, start_ride, complete_ride}
use ride_sharing_backend.Services.Ride.Cancel.{cancel_ride}
use ride_sharing_backend.Services.Ride.Expiry.{
  expire_stale_rides, sweep_all, report, requested_timeout, accepted_timeout, arrived_timeout,
  expire_requested, expire_assigned, sweep,
}
use ride_sharing_backend.Services.Ride.Lifecycle.{RowsStep}
use ride_sharing_backend.Services.Ride.Lifecycle.Rows.{AllConsistent, Life}
use ride_sharing_backend.Services.Ride.Lifecycle.Operations.{
  mark_arrived-RowsStep, start_ride-RowsStep, complete_ride-RowsStep, cancel_ride-RowsStep,
  accept_ride-RowsStep, reject_ride-RowsStep,
}
use ride_sharing_backend.Services.Ride.Lifecycle.Sweeps.{
  request_ride_rows, expire_requested-RowsStep, expire_assigned-RowsStep,
}
use ride_sharing_backend.Services.Ride.Lifecycle.Passengers.{AtMostOneActive}
use ride_sharing_backend.Services.Ride.Evolution.{
  Evolves, Evolves-trans, of_RowsStep, of_same, of_new, bind-Evolves,
}

-- The endpoints that write, with the caller's user id first, and the scheduled job.
pub data Call : Type 0 where
  requests : ℕ → RideRequest → Route → ℕ → ℕ → Call
  accepts rejects arrives completes : ℕ → ℕ → Call
  starts : ℕ → ℕ → ℕ → Call
  cancels : ℕ → ℕ → Option String → Call
  expires : Call

module _ (search : Geosearch) where
  -- The store that a call leaves, whether it succeeds or throws.
  unfoldable pub after : Call → Store → Store
  after (Call.requests user_id q route ride_id otp) s =
      (request_ride search user_id q route ride_id otp s).1
  after (Call.accepts user_id ride_id) s = (accept_ride user_id ride_id s).1
  after (Call.rejects user_id ride_id) s = (reject_ride user_id ride_id s).1
  after (Call.arrives user_id ride_id) s = (mark_arrived user_id ride_id s).1
  after (Call.completes user_id ride_id) s = (complete_ride user_id ride_id s).1
  after (Call.starts user_id ride_id otp) s = (start_ride user_id ride_id otp s).1
  after (Call.cancels user_id ride_id reason) s = (cancel_ride user_id ride_id reason s).1
  after Call.expires s = (expire_stale_rides s).1

  -- Calls in the order in which they run, each with its time.
  unfoldable pub run : List (ℕ × Call) → Store → Store
  unfolding after
  run [] s = s
  run ((t, c) ∷ cs) s = run cs (after c (record s { now = t }))

sweep-Evolves :
    (expire : ℕ × Ride → Action ℕ)
    → ((x : ℕ × Ride) (s : Store) → RowsStep s.rides (expire x s).1.rides)
    → (xs : Table Ride) (s : Store) → Evolves s (sweep expire xs s).1
unfolding sweep
sweep-Evolves expire step [] s = of_same s s refl
sweep-Evolves expire step (x ∷ xs) s =
    bind-Evolves (λ changed. sweep expire xs >>= (λ rest. pure (changed + rest)))
      (λ changed t.
        bind-Evolves (λ rest. pure (changed + rest)) (λ rest u. of_same u u refl) (sweep expire xs)
          t (sweep-Evolves expire step xs t))
      (expire x) s (of_RowsStep s (expire x s).1 (step x s))

requested-Evolves : (xs : Table Ride) (s : Store) → Evolves s (sweep expire_requested xs s).1
requested-Evolves = sweep-Evolves expire_requested expire_requested-RowsStep

accepted-Evolves :
    (xs : Table Ride) (s : Store) → Evolves s (sweep (expire_assigned RideStatus.accepted) xs s).1
accepted-Evolves =
    sweep-Evolves (expire_assigned RideStatus.accepted)
      (λ x s. expire_assigned-RowsStep RideStatus.accepted x s refl)

arrived-Evolves :
    (xs : Table Ride) (s : Store) → Evolves s (sweep (expire_assigned RideStatus.arrived) xs s).1
arrived-Evolves =
    sweep-Evolves (expire_assigned RideStatus.arrived)
      (λ x s. expire_assigned-RowsStep RideStatus.arrived x s refl)

sweep_all-Evolves : (xs ys zs : Table Ride) (s : Store) → Evolves s (sweep_all xs ys zs s).1
unfolding sweep_all
sweep_all-Evolves xs ys zs s =
    bind-Evolves (λ a. after_requested a)
      (λ a t.
        bind-Evolves (λ b. after_accepted a b)
          (λ b u.
            bind-Evolves (λ c. pure (a + b + c)) (λ c v. of_same v v refl) by_arrived u
              (arrived-Evolves zs u))
          by_accepted t (accepted-Evolves ys t))
      (sweep expire_requested xs) s (requested-Evolves xs s)
  where
    by_accepted : Action ℕ
    by_accepted = sweep (expire_assigned RideStatus.accepted) ys

    by_arrived : Action ℕ
    by_arrived = sweep (expire_assigned RideStatus.arrived) zs

    after_accepted : ℕ → ℕ → Action ℕ
    after_accepted a b = by_arrived >>= (λ c. pure (a + b + c))

    after_requested : ℕ → Action ℕ
    after_requested a = by_accepted >>= after_accepted a

expire_stale_rides-Evolves : (s : Store) → Evolves s (expire_stale_rides s).1
unfolding expire_stale_rides
expire_stale_rides-Evolves s =
    let xs = find_stale_requested (s.now - requested_timeout) s.rides in
    let ys = find_stale_accepted (s.now - accepted_timeout) s.rides in
    let zs = find_stale_arrived (s.now - arrived_timeout) s.rides in
    bind-Evolves (λ n. pure (report xs ys zs n)) (λ n t. of_same t t refl) (sweep_all xs ys zs) s
      (sweep_all-Evolves xs ys zs s)

module _ (search : Geosearch) where
  after-Evolves : (c : Call) (s : Store) → Evolves s (after search c s)
  unfolding after
  after-Evolves (Call.requests user_id q route ride_id otp) s =
      elim (request_ride_rows search user_id q route ride_id otp s) [
        | inl e ↦ of_same s _ e
        | inr (p, row, own, idle, free, e) ↦
            of_new s _ ride_id (new_ride p q route otp s.now) free idle (refl, refl, refl, refl) e
      ]
  after-Evolves (Call.accepts user_id ride_id) s =
      of_RowsStep s _ (accept_ride-RowsStep user_id ride_id s)
  after-Evolves (Call.rejects user_id ride_id) s =
      of_RowsStep s _ (reject_ride-RowsStep user_id ride_id s)
  after-Evolves (Call.arrives user_id ride_id) s =
      of_RowsStep s _ (mark_arrived-RowsStep user_id ride_id s)
  after-Evolves (Call.completes user_id ride_id) s =
      of_RowsStep s _ (complete_ride-RowsStep user_id ride_id s)
  after-Evolves (Call.starts user_id ride_id otp) s =
      of_RowsStep s _ (start_ride-RowsStep user_id ride_id otp s)
  after-Evolves (Call.cancels user_id ride_id reason) s =
      of_RowsStep s _ (cancel_ride-RowsStep user_id ride_id reason s)
  after-Evolves Call.expires s = expire_stale_rides-Evolves s

  run-Evolves : (cs : List (ℕ × Call)) (s : Store) → Evolves s (run search cs s)
  unfolding run
  run-Evolves [] s = of_same s s refl
  run-Evolves ((t, c) ∷ cs) s =
      let s' : Store = record s { now = t } in
      Evolves-trans s s' (run search cs (after search c s')) (of_same s s' refl) (
        Evolves-trans s' (after search c s') (run search cs (after search c s'))
          (after-Evolves c s') (run-Evolves cs (after search c s')))

  -- Over any history of calls at any times, a ride that is there stays there, and its row has moved by the steps of a
  -- ride's life alone: requested, accepted, arrived, in progress, completed, or cancelled before it starts.
  pub run-Life :
      (cs : List (ℕ × Call)) (s : Store) (k : ℕ) (r : Ride)
      → find k s.rides ≡ some r
      → (r' : Ride) × (find k (run search cs s).rides ≡ some r') × Life r r'
  run-Life cs s = (run-Evolves cs s).tracks

  -- If every row fits its status, every row fits its status after any history of calls, the new rides included.
  pub run-AllConsistent :
      (cs : List (ℕ × Call)) (s : Store)
      → AllConsistent s.rides
      → AllConsistent (run search cs s).rides
  run-AllConsistent cs s = (run-Evolves cs s).keeps

  -- If no passenger has two active rides, none has after any history of calls.
  pub run-AtMostOneActive :
      (cs : List (ℕ × Call)) (s : Store)
      → AtMostOneActive s.rides
      → AtMostOneActive (run search cs s).rides
  run-AtMostOneActive cs s = (run-Evolves cs s).limits
