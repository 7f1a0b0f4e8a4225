-- ===== src/Services/Vehicle/Verified.antt =====
-- A vehicle that counts as verified has the make, model, year and plate that an admin has verified.
use mathlib.Core.Option.{some-injective}
use mathlib.Core.Path.{subst}
use ride_sharing_backend.Common.{
  ℕ, sym, ap, ◌∙◌, String, Bool, true, false, ◌≡◌, refl, ◌⊎◌, inl, inr, Option, none, some, List,
  [], ◌∷◌, All, arith, Bool-cases, Option-cases, ◌==◌,
}
use ride_sharing_backend.Common.Table.{Table, find, find_first, update}
use ride_sharing_backend.Model.{Vehicle}
use ride_sharing_backend.Repositories.{
  VehicleData, has_plate, find_driver_by_user, create_vehicle, new_vehicle, update_vehicle,
  deactivated, with_verified,
}
use ride_sharing_backend.Services.Vehicle.{
  VehiclePatch, touches_identity, patched, edited, or_old, get_own_driver_id, get_own_vehicle,
}
use ride_sharing_backend.Services.Vehicle
use ride_sharing_backend.Services.Verification.{review_vehicle}
use ride_sharing_backend.Store.{Store, Action, ◌>>=◌}

-- The calls that write vehicles: a driver's, with the user's id first, and an admin's review.
pub data FleetCall : Type 0 where
  creates : ℕ → ℕ → VehicleData → FleetCall
  edits : ℕ → ℕ → VehiclePatch → FleetCall
  deactivates : ℕ → ℕ → FleetCall
  reviews : ℕ → Bool → ℕ → FleetCall

unfoldable pub after : FleetCall → Store → Store
after (FleetCall.creates user_id id d) s = (Vehicle.create user_id id d s).1
after (FleetCall.edits user_id id p) s = (Vehicle.update user_id id p s).1
after (FleetCall.deactivates user_id id) s = (Vehicle.deactivate user_id id s).1
after (FleetCall.reviews id is_verified actor_id) s = (review_vehicle id is_verified actor_id s).1

unfoldable pub run : List FleetCall → Store → Store
unfolding after
run [] s = s
run (c ∷ cs) s = run cs (after c s)

-- What an admin looks at.
pub record Identity : Type 0 where
  pub make : String
  pub model : String
  pub year : ℕ
  pub plate_number : String

abbrev pub identity_of : Vehicle → Identity
identity_of v = record {
  make = v.make;
  model = v.model;
  year = v.year;
  plate_number = v.plate_number;
}

-- The vehicles that were verified, each with its identity at the time of the review.
abbrev pub Notes : Type 0
Notes = List (ℕ × Identity)

abbrev pub noted : ℕ → Option Vehicle → Notes → Notes
noted id none ns = ns
noted id (some v) ns = (id, identity_of v) ∷ ns

unfoldable pub note : FleetCall → Store → Notes → Notes
note (FleetCall.creates user_id id d) s ns = ns
note (FleetCall.edits user_id id p) s ns = ns
note (FleetCall.deactivates user_id id) s ns = ns
note (FleetCall.reviews id true actor_id) s ns = noted id (find id s.vehicles) ns
note (FleetCall.reviews id false actor_id) s ns = ns

unfoldable pub notes : List FleetCall → Store → Notes → Notes
unfolding note
notes [] s ns = ns
notes (c ∷ cs) s ns = notes cs (after c s) (note c s ns)

abbrev pub Noted : ℕ → Identity → Notes → Type 0
Noted id x [] = ⊥
Noted id x ((j, y) ∷ ns) = ((id ≡ j) × (x ≡ y)) ⊎ Noted id x ns

abbrev pub AreNoted : Notes → Table Vehicle → Type 0
AreNoted ns = All (λ (e : ℕ × Vehicle). e.1.is_verified ≡ true → Noted e.0 (identity_of e.1) ns)

AreNoted-cons :
    (j : ℕ) (y : Identity) (ns : Notes) (t : Table Vehicle)
    → AreNoted ns t
    → AreNoted ((j, y) ∷ ns) t
AreNoted-cons j y ns [] h = tt
AreNoted-cons j y ns (e ∷ t) h = (λ v. inr (h.0 v), AreNoted-cons j y ns t h.1)

-- A write keeps the notes right if it does so for the row that it finds.
update-AreNoted :
    (id : ℕ) (f : Vehicle → Vehicle) (ns : Notes) (t : Table Vehicle)
    → ((v : Vehicle)
        → find id t ≡ some v
        → (v.is_verified ≡ true → Noted id (identity_of v) ns)
        → (f v).is_verified ≡ true
        → Noted id (identity_of (f v)) ns)
    → AreNoted ns t
    → AreNoted ns (update id f t)
update-AreNoted id f ns [] g h = tt
update-AreNoted id f ns ((j, v) ∷ t) g h = elim (Bool-cases (id == j)) [
  | inl hit ↦
      let same : id ≡ j = ground arith in
      rw hit ((λ now. rw (← same) (g v (rw hit refl) (λ was. rw same (h.0 was)) now)), h.1)
  | inr miss ↦ rw miss (h.0, update-AreNoted id f ns t (λ w e. g w (rw miss e)) h.1)
]

-- A write of vehicles fails and changes none, or changes the row that it finds.
update_vehicle_cases :
    (id : ℕ) (f : Vehicle → Vehicle) (s : Store)
    → ((update_vehicle id f s).1.vehicles ≡ s.vehicles)
      ⊎ ((v : Vehicle) × (find id s.vehicles ≡ some v)
          × ((update_vehicle id f s).1.vehicles ≡ update id f s.vehicles))
unfolding update_vehicle
update_vehicle_cases id f s = elim (Option-cases (find id s.vehicles)) [
  | inl e ↦ inl (ground arith)
  | inr (v, e) ↦ elim (Option-cases (find_first (has_plate id ((f v).plate_number)) s.vehicles)) [
    | inl g ↦ inr (v, e, ground arith)
    | inr (w, g) ↦ inl (ground arith)
  ]
]

create_cases :
    (user_id id : ℕ) (d : VehicleData) (s : Store)
    → ((Vehicle.create user_id id d s).1.vehicles ≡ s.vehicles)
      ⊎ ((w : ℕ) × ((Vehicle.create user_id id d s).1.vehicles
            ≡ (id, new_vehicle w d) ∷ s.vehicles))
unfolding Vehicle.create get_own_driver_id create_vehicle
create_cases user_id id d s = elim (Option-cases (find_driver_by_user user_id s.drivers)) [
  | inl e ↦ inl (ground arith)
  | inr (w, e) ↦ elim (Option-cases (find id s.vehicles)) [
    | inr (v, f) ↦ inl (ground arith)
    | inl f ↦ elim (Option-cases (find_first (has_plate id d.plate_number) s.vehicles)) [
      | inr (v, g) ↦ inl (ground arith)
      | inl g ↦ inr (w.0, ground arith)
    ]
  ]
]

-- The shape of a driver's write: the row is read as the driver's own, and then written.
abbrev write_own : ℕ → ℕ → (Vehicle → Vehicle → Vehicle) → Action Vehicle
write_own user_id id f = do
  driver_id ← get_own_driver_id user_id
  was ← get_own_vehicle id driver_id
  update_vehicle id (f was)

write_own_cases :
    (user_id id : ℕ) (f : Vehicle → Vehicle → Vehicle) (s : Store)
    → ((write_own user_id id f s).1.vehicles ≡ s.vehicles)
      ⊎ ((v : Vehicle) × (find id s.vehicles ≡ some v)
          × ((write_own user_id id f s).1.vehicles ≡ update id (f v) s.vehicles))
unfolding get_own_driver_id get_own_vehicle
write_own_cases user_id id f s = elim (Option-cases (find_driver_by_user user_id s.drivers)) [
  | inl e ↦ inl (ground arith)
  | inr (w, e) ↦ elim (Option-cases (find id s.vehicles)) [
    | inl g ↦ inl (ground arith)
    | inr (v, g) ↦ elim (Bool-cases (v.driver_id == w.0)) [
      | inr k ↦ inl (ground arith)
      | inl k ↦
          let goes : (write_own user_id id f s).1 ≡ (update_vehicle id (f v) s).1 = ground arith in
          elim (update_vehicle_cases id (f v) s) [
            | inl q ↦ inl (ap (λ (t : Store). t.vehicles) goes ∙ q)
            | inr (_, _, q) ↦ inr (v, g, ap (λ (t : Store). t.vehicles) goes ∙ q)
          ]
    ]
  ]
]

-- An edit that leaves a vehicle verified has left its identity alone.
edited_identity :
    (p : VehiclePatch) (v : Vehicle)
    → (edited p v v).is_verified ≡ true
    → (v.is_verified ≡ true) × (identity_of (edited p v v) ≡ identity_of v)
edited_identity p v h = ground arith

write_own-AreNoted :
    (user_id id : ℕ) (f : Vehicle → Vehicle → Vehicle) (s : Store) (ns : Notes)
    → ((v : Vehicle)
        → (f v v).is_verified ≡ true
        → (v.is_verified ≡ true) × (identity_of (f v v) ≡ identity_of v))
    → AreNoted ns s.vehicles
    → AreNoted ns (write_own user_id id f s).1.vehicles
write_own-AreNoted user_id id f s ns keep h = elim (write_own_cases user_id id f s) [
  | inl e ↦ rw e h
  | inr (v, e, q) ↦ rw q (
      update-AreNoted id (f v) ns s.vehicles
        (λ w g was now.
          let same : w ≡ v = some-injective w v (sym g ∙ e) in
          let kept : (w.is_verified ≡ true) × (identity_of (f v w) ≡ identity_of w) =
            subst (λ (x : Vehicle). (w.is_verified ≡ true) × (identity_of (f x w) ≡ identity_of w))
              same (keep w (subst (λ (x : Vehicle). (f x w).is_verified ≡ true) (sym same) now)) in
          rw (kept.1) (was kept.0))
        h)
]

review_vehicle_cases :
    (id : ℕ) (is_verified : Bool) (actor_id : ℕ) (s : Store)
    → ((review_vehicle id is_verified actor_id s).1.vehicles ≡ s.vehicles)
      ⊎ ((v : Vehicle) × (find id s.vehicles ≡ some v)
          × ((review_vehicle id is_verified actor_id s).1.vehicles
              ≡ update id (with_verified is_verified) s.vehicles))
unfolding review_vehicle update_vehicle
review_vehicle_cases id is_verified actor_id s = elim (Option-cases (find id s.vehicles)) [
  | inl e ↦ inl (ground arith)
  | inr (v, e) ↦ elim (Option-cases (find_first (has_plate id v.plate_number) s.vehicles)) [
    | inl g ↦ inr (v, e, ground arith)
    | inr (w, g) ↦ inl (ground arith)
  ]
]

noted-AreNoted :
    (id : ℕ) (o : Option Vehicle) (ns : Notes) (t : Table Vehicle)
    → AreNoted ns t
    → AreNoted (noted id o ns) t
noted-AreNoted id none ns t h = h
noted-AreNoted id (some v) ns t h = AreNoted-cons id (identity_of v) ns t h

after-AreNoted :
    (c : FleetCall) (s : Store) (ns : Notes)
    → AreNoted ns s.vehicles
    → AreNoted (note c s ns) (after c s).vehicles
unfolding note after
after-AreNoted (FleetCall.creates user_id id d) s ns h = elim (create_cases user_id id d s) [
  | inl e ↦ rw e h
  | inr (w, e) ↦ rw e ((λ q. cc), h)
]
after-AreNoted (FleetCall.edits user_id id p) s ns h =
    unfold Vehicle.update in write_own-AreNoted user_id id (edited p) s ns (edited_identity p) h
after-AreNoted (FleetCall.deactivates user_id id) s ns h =
    unfold Vehicle.deactivate in
    write_own-AreNoted user_id id (λ _. deactivated) s ns (λ v q. (q, refl)) h
after-AreNoted (FleetCall.reviews id true actor_id) s ns h =
    elim (review_vehicle_cases id true actor_id s) [
      | inl e ↦ rw e (noted-AreNoted id (find id s.vehicles) ns s.vehicles h)
      | inr (v, e, q) ↦
          rw (q, e)
            (update-AreNoted id (with_verified true) ((id, identity_of v) ∷ ns) s.vehicles
              (λ w g was now. inl (refl, ap identity_of (some-injective w v (sym g ∙ e))))
              (AreNoted-cons id (identity_of v) ns s.vehicles h))
    ]
after-AreNoted (FleetCall.reviews id false actor_id) s ns h =
    elim (review_vehicle_cases id false actor_id s) [
      | inl e ↦ rw e h
      | inr (v, e, q) ↦
          rw q (update-AreNoted id (with_verified false) ns s.vehicles (λ w g was now. cc) h)
    ]

-- After any sequence of calls that write vehicles (their owners create, edit and deactivate them, admins review them), a
-- verified vehicle has the make, model, year and plate that it had at a review that verified it, if
-- that held of every verified vehicle before: an edit of those fields ends the verification.
pub run-AreNoted :
    (cs : List FleetCall) (s : Store) (ns : Notes)
    → AreNoted ns s.vehicles
    → AreNoted (notes cs s ns) (run cs s).vehicles
unfolding notes run
run-AreNoted [] s ns h = h
run-AreNoted (c ∷ cs) s ns h = run-AreNoted cs (after c s) (note c s ns) (after-AreNoted c s ns h)
