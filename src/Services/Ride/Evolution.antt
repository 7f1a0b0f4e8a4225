-- ===== src/Services/Ride/Evolution.antt =====
-- What becomes of the rides between two stores, and how that composes.
use ride_sharing_backend.Common.{
  ℕ, ◌≤◌, Bool-cases, ◌==◌, ◌≡◌, ap, ◌∙◌, inl, inr, none, some, ◌∷◌, arith,
}
use ride_sharing_backend.Common.Table.{Table, find}
use ride_sharing_backend.Model.{Ride}
use ride_sharing_backend.Store.{Store, Action, Result, ok, err, ◌>>=◌}
use ride_sharing_backend.Services.Ride.Lifecycle.{RowsStep}
use ride_sharing_backend.Services.Ride.Lifecycle.Rows.{
  IsConsistent, AllConsistent, RowsStep-AllConsistent, Life, find-RowsStep,
}
use ride_sharing_backend.Services.Ride.Lifecycle.Passengers.{
  AtMostOneActive, active_rides, RowsStep-active_rides, none_active,
}
use ride_sharing_backend.Repositories.{find_active_by_passenger}

-- What became of the rides between two stores.
pub record Evolves (s s' : Store) : Type 0 where
  pub tracks :
      (k : ℕ) (r : Ride)
      → find k s.rides ≡ some r
      → (r' : Ride) × (find k s'.rides ≡ some r') × Life r r'
  pub keeps : AllConsistent s.rides → AllConsistent s'.rides
  pub limits : AtMostOneActive s.rides → AtMostOneActive s'.rides

Life_trans : {r q r' : Ride} → Life r q → Life q r' → Life r r'
Life_trans l Life.here = l
Life_trans l (Life.next m st) = Life.next (Life_trans l m) st

pub Evolves-trans : (s t u : Store) → Evolves s t → Evolves t u → Evolves s u
Evolves-trans s t u e f = record {
  tracks = λ k r h.
      let (q, hq, l) = e.tracks k r h in
      let (r', hr, m) = f.tracks k q hq in (r', hr, Life_trans l m);
  keeps = λ c. f.keeps (e.keeps c);
  limits = λ c. f.limits (e.limits c);
}

pub of_RowsStep : (s s' : Store) → RowsStep s.rides s'.rides → Evolves s s'
of_RowsStep s s' h = record {
  tracks = λ k r e.
      let (r', e', st) = find-RowsStep k r s.rides s'.rides h e in (r', e', Life.next Life.here st);
  keeps = RowsStep-AllConsistent s.rides s'.rides h;
  limits = λ c p. omega (arith, c p, RowsStep-active_rides p s.rides s'.rides h);
}

pub of_same : (s s' : Store) → s'.rides ≡ s.rides → Evolves s s'
of_same s s' e = record {
  tracks = λ k r h. (r, ap (find k) e ∙ h, Life.here);
  keeps = λ c. rw e c;
  limits = λ c. rw e c;
}

-- A new ride of a passenger without an active one.
one_more :
    (p : ℕ) (row : Ride) (k : ℕ) (t : Table Ride)
    → find_active_by_passenger row.passenger_id t ≡ none
    → active_rides p t ≤ 1
    → active_rides p ((k, row) ∷ t) ≤ 1
one_more p row k t idle h = elim (Bool-cases (row.passenger_id == p)) [
  | inl e ↦ ground (arith, none_active row.passenger_id t idle)
  | inr e ↦ ground arith
]

pub of_new :
    (s s' : Store) (k : ℕ) (row : Ride)
    → find k s.rides ≡ none
    → find_active_by_passenger row.passenger_id s.rides ≡ none
    → IsConsistent row
    → s'.rides ≡ (k, row) ∷ s.rides
    → Evolves s s'
of_new s s' k row free idle c e = record {
  tracks = λ j r h. (r, rw e (ground arith), Life.here);
  keeps = λ cs. rw e (c, cs);
  limits = λ cs p. rw e (one_more p row k s.rides idle (cs p));
}

-- A chain of actions evolves the rides if its parts do.
module _ {A B : Type 0} (f : A → Action B) (rest : (a : A) (t : Store) → Evolves t (f a t).1) where
  continue-Evolves :
      (s t : Store) (r : Result A)
      → Evolves s t
      → Evolves s (let u : Result B × Store = elim r [ ok a ↦ f a t | err e ↦ (err e, t) ] in u.1)
  continue-Evolves s t (ok a) h = Evolves-trans s t (f a t).1 h (rest a t)
  continue-Evolves s t (err e) h = h

  pub bind-Evolves : (m : Action A) (s : Store) → Evolves s (m s).1 → Evolves s ((m >>= f) s).1
  bind-Evolves m s h = continue-Evolves s (m s).1 (m s).0 h
