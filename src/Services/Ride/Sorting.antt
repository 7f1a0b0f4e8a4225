-- ===== src/Services/Ride/Sorting.antt =====
-- The order of the offers that `listNearby` answers with.
use ride_sharing_backend.Common.{
  ℕ, ◌+◌, ◌≤◌, ◌≡◌, refl, Bool, inl, inr, List, [], ◌∷◌, arith, Bool-cases, leb, All, if◌then◌else◌,
}
use ride_sharing_backend.Services.Ride.Matching.{insert_by_distance, sort_by_distance}
use ride_sharing_backend.Store.{RideOffer}

-- Nearest first.
abbrev pub IsSorted : List RideOffer → Type 0
IsSorted [] = Unit
IsSorted (o ∷ os) = All (λ p. o.distance ≤ p.distance) os × IsSorted os

-- How many of the offers pass a test.
abbrev pub count_offers : (RideOffer → Bool) → List RideOffer → ℕ
count_offers p [] = 0
count_offers p (o ∷ os) = (if p o then 1 else 0) + count_offers p os

All-trans :
    (d e : ℕ) (os : List RideOffer)
    → d ≤ e
    → All (λ p. e ≤ p.distance) os
    → All (λ p. d ≤ p.distance) os
All-trans d e [] le h = tt
All-trans d e (o ∷ os) le (x, h) = (omega arith, All-trans d e os le h)

insert-All :
    (d : ℕ) (o : RideOffer) (os : List RideOffer)
    → d ≤ o.distance
    → All (λ p. d ≤ p.distance) os
    → All (λ p. d ≤ p.distance) (insert_by_distance o os)
unfolding insert_by_distance
insert-All d o [] le h = (le, tt)
insert-All d o (q ∷ os) le (x, h) = elim (Bool-cases (leb o.distance q.distance)) [
  | inl e ↦ rw e (le, (x, h))
  | inr e ↦ rw e (x, insert-All d o os le h)
]

insert-IsSorted :
    (o : RideOffer) (os : List RideOffer) → IsSorted os → IsSorted (insert_by_distance o os)
unfolding insert_by_distance
insert-IsSorted o [] h = (tt, tt)
insert-IsSorted o (q ∷ os) (x, h) = elim (Bool-cases (leb o.distance q.distance)) [
  | inl e ↦ rw e ((ground arith, All-trans o.distance q.distance os (ground arith) x), (x, h))
  | inr e ↦ rw e (insert-All q.distance o os (ground arith) x, insert-IsSorted o os h)
]

count_offers-insert :
    (p : RideOffer → Bool) (o : RideOffer) (os : List RideOffer)
    → count_offers p (insert_by_distance o os) ≡ count_offers p (o ∷ os)
unfolding insert_by_distance
count_offers-insert p o [] = refl
count_offers-insert p o (q ∷ os) = elim (Bool-cases (leb o.distance q.distance)) [
  | inl e ↦ rw e refl
  | inr e ↦ rw e (omega (arith, count_offers-insert p o os))
]

pub sort_by_distance-IsSorted :
    (os : List RideOffer) (p : RideOffer → Bool)
    → IsSorted (sort_by_distance os) × (count_offers p (sort_by_distance os) ≡ count_offers p os)
unfolding sort_by_distance
sort_by_distance-IsSorted [] p = (tt, refl)
sort_by_distance-IsSorted (o ∷ os) p =
    let (sorted, counted) = sort_by_distance-IsSorted os p in
    (
      insert-IsSorted o (sort_by_distance os) sorted,
      omega (arith, counted, count_offers-insert p o (sort_by_distance os)),
    )
