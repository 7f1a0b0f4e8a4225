-- ===== src/Services/Ride/Lifecycle/Rows.antt =====
-- Rows that fit their status, and how a table's rows are found again after its steps.
use ride_sharing_backend.Common.{
  ℕ, ◌≡◌, true, inl, inr, none, some, [], ◌∷◌, arith, Bool-cases, ◌==◌, is_some, All,
}
use mathlib.Core.Option.{some-injective}
use mathlib.Core.Path.{subst}
use ride_sharing_backend.Common.Table.{Table, find}
use ride_sharing_backend.Model.{Ride, RideStatus}
use ride_sharing_backend.Services.Ride.Lifecycle.{Step, RowsStep}

-- The nullable columns that a status goes with. A completed ride has been accepted, its OTP verified,
-- and is charged at its estimate; a cancelled one never started and never costs anything.
abbrev pub Fits : RideStatus → Ride → Type 0
Fits RideStatus.requested r =
    (r.driver_id ≡ none)
    × (r.otp_verified_at ≡ none)
    × (r.actual_fare ≡ none)
    × (r.cancelled_by ≡ none)
Fits RideStatus.accepted r =
    (is_some r.driver_id ≡ true)
    × (is_some r.accepted_at ≡ true)
    × (r.otp_verified_at ≡ none)
    × (r.actual_fare ≡ none)
    × (r.cancelled_by ≡ none)
Fits RideStatus.arrived r =
    (is_some r.driver_id ≡ true)
    × (is_some r.accepted_at ≡ true)
    × (is_some r.arrived_at ≡ true)
    × (r.otp_verified_at ≡ none)
    × (r.actual_fare ≡ none)
    × (r.cancelled_by ≡ none)
Fits RideStatus.in_progress r =
    (is_some r.driver_id ≡ true)
    × (is_some r.accepted_at ≡ true)
    × (is_some r.arrived_at ≡ true)
    × (is_some r.started_at ≡ true)
    × (is_some r.otp_verified_at ≡ true)
    × (r.actual_fare ≡ none)
    × (r.cancelled_by ≡ none)
Fits RideStatus.completed r =
    (is_some r.driver_id ≡ true)
    × (is_some r.accepted_at ≡ true)
    × (is_some r.arrived_at ≡ true)
    × (is_some r.started_at ≡ true)
    × (is_some r.otp_verified_at ≡ true)
    × (r.actual_fare ≡ some r.estimated_fare)
    × (r.cancelled_by ≡ none)
Fits RideStatus.cancelled r =
    (r.otp_verified_at ≡ none) × (r.actual_fare ≡ none) × (is_some r.cancelled_by ≡ true)

abbrev pub IsConsistent : Ride → Type 0
IsConsistent r = Fits r.status r

pub Step-IsConsistent : {r r' : Ride} → Step r r' → IsConsistent r → IsConsistent r'
Step-IsConsistent (Step.stays e) h = ground arith
Step-IsConsistent (Step.accepts now d v st none_yet e) h = ground arith
Step-IsConsistent (Step.arrives now st e) h = ground arith
Step-IsConsistent (Step.starts now st e) h = ground arith
Step-IsConsistent (Step.completes now st e) h = ground arith
Step-IsConsistent {r} (Step.cancels now by reason c e) h = ground arith

abbrev pub AllConsistent : Table Ride → Type 0
AllConsistent = All (λ (e : ℕ × Ride). IsConsistent e.1)

pub RowsStep-AllConsistent :
    (t t' : Table Ride) → RowsStep t t' → AllConsistent t → AllConsistent t'
RowsStep-AllConsistent [] [] h c = tt
RowsStep-AllConsistent [] (_ ∷ _) h c = absurd h
RowsStep-AllConsistent (_ ∷ _) [] h c = absurd h
RowsStep-AllConsistent ((j, r) ∷ t) ((i, r') ∷ t') (e, st, rest) (c, cs) =
    (Step-IsConsistent st c, RowsStep-AllConsistent t t' rest cs)

-- A ride's life: any number of steps.
pub data Life (r : Ride) : Ride → Type 0 where
  here : Life r r
  next : {q r' : Ride} → Life r q → Step q r' → Life r r'

Step-from : (v r q : Ride) → some v ≡ some r → Step v q → Step r q
Step-from v r q e = subst (λ (x : Ride). Step x q) (some-injective v r e)

pub find-RowsStep :
    (k : ℕ) (r : Ride) (t t' : Table Ride)
    → RowsStep t t'
    → find k t ≡ some r
    → (r' : Ride) × (find k t' ≡ some r') × Step r r'
find-RowsStep k r [] t' h e = cc
find-RowsStep k r (_ ∷ _) [] h e = absurd h
find-RowsStep k r ((j, v) ∷ t) ((i, v') ∷ t') (same, st, rest) e = elim (Bool-cases (k == j)) [
  | inl hit ↦ (v', ground arith, Step-from v r v' (rw hit at e) st)
  | inr miss ↦
      let (r', found, step) = find-RowsStep k r t t' rest (rw miss at e) in (r', ground arith, step)
]
