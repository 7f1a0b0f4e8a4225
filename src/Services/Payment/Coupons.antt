-- ===== src/Services/Payment/Coupons.antt =====
-- How often a coupon is redeemed by payments that run one after another.
use ride_sharing_backend.Common.{
  ℕ, ◌+◌, ◌-◌, ◌≤◌, ◌<◌, ◌≡◌, refl, ap, sym, ◌∙◌, String, true, ◌⊎◌, inl, inr, Option, none, some,
  List, [], ◌∷◌, arith, Bool-cases, ◌==◌, any,
}
use ride_sharing_backend.Common.Table.{find, IsKeyed, find-find_first}
use mathlib.Core.Option.{some-injective}
use mathlib.Core.Path.{subst}
use ride_sharing_backend.Errors.{Thrown, api}
use ride_sharing_backend.Model.{Coupon, CouponRedemption}
use ride_sharing_backend.Repositories.{count_by_coupon, count_by_coupon_and_user, create_redemption}
use ride_sharing_backend.Common.Text.{same_text}
use ride_sharing_backend.Services.Coupon.{compute_discount}
use ride_sharing_backend.Services.Coupon.Discount.{
  Redeemable, validate_coupon_cases, IsAtMost, IsBelow,
}
use ride_sharing_backend.Services.Payment.{
  PayRequest, Price, price_of, redeem, pay_for_ride, fare_of,
}
use ride_sharing_backend.Services.Payment.Charge.{Payable-cases}
use ride_sharing_backend.Services.Payment.Settled.{pay_by_cases}
use ride_sharing_backend.Store.{Store, at_time, ok, err}

-- Whose coupon a price takes: none, or one that the user may redeem.
abbrev MayUse : Option ℕ → ℕ → ℕ → Store → Type 0
MayUse none user_id fare s = Unit
MayUse (some id) user_id fare s =
    (code : String) × (c : Coupon) × Redeemable code user_id fare id c s

price_uses :
    (code : Option String) (user_id fare : ℕ) (s : Store)
    → ((e : Thrown) × (price_of code user_id fare s ≡ (err e, s)))
      ⊎ ((price : Price) × MayUse price.coupon_id user_id fare s
          × (price_of code user_id fare s ≡ (ok price, s)))
unfolding price_of
price_uses none user_id fare s =
    inr (record { coupon_id = none; discount = 0; amount = fare }, tt, refl)
price_uses (some code) user_id fare s = elim (validate_coupon_cases code user_id fare s) [
  | inl (e, h) ↦ inl (api e, ground arith)
  | inr (id, c, good, h) ↦
      let d = compute_discount c fare in
      inr (
        record { coupon_id = some id; discount = d; amount = fare - d },
        (code, c, good),
        ground arith,
      )
]

-- What a payment does to the coupons: nothing, or one more redemption by its user of a coupon that may be redeemed.
abbrev Used : ℕ → Store → Store → Type 0
Used user_id s t =
    (t.coupons ≡ s.coupons)
    × ((t.redemptions ≡ s.redemptions)
        ⊎ ((code : String) × (fare id : ℕ) × (c : Coupon) × (row : CouponRedemption) × Redeemable
              code user_id fare id c s
            × (row.coupon_id ≡ id)
            × (row.user_id ≡ user_id)
            × (t.redemptions ≡ row ∷ s.redemptions)))

redeem_uses :
    (coupon_id : Option ℕ) (discount user_id ride_id fare : ℕ) (s t : Store)
    → MayUse coupon_id user_id fare s
    → t.coupons ≡ s.coupons
    → t.redemptions ≡ s.redemptions
    → Used user_id s (redeem coupon_id discount user_id ride_id t).1
unfolding redeem create_redemption
redeem_uses none discount user_id ride_id fare s t m same kept = (same, inl kept)
redeem_uses (some id) discount user_id ride_id fare s t (code, c, good) same kept =
    elim (Bool-cases (any (λ r. r.ride_id == ride_id) t.redemptions)) [
      | inl e ↦
          let q : (redeem (some id) discount user_id ride_id t).1 ≡ t = ground arith in
          rw q (same, inl kept)
      | inr e ↦
          let row : CouponRedemption = record {
            coupon_id = id;
            user_id = user_id;
            ride_id = ride_id;
            discount_applied = discount;
          } in
          let q : (redeem (some id) discount user_id ride_id t).1
              ≡ record t { redemptions = row ∷ t.redemptions } =
            ground arith in
          rw q (same, inr (code, fare, id, c, row, good, refl, refl, ap (λ rs. row ∷ rs) kept))
    ]

pay_for_ride_uses :
    (user_id ride_id : ℕ) (q : PayRequest) (s : Store)
    → Used user_id s (pay_for_ride user_id ride_id q s).1
unfolding pay_for_ride
pay_for_ride_uses user_id ride_id q s = elim (Payable-cases user_id ride_id s) [
  | inl (e, h) ↦
      let same : (pay_for_ride user_id ride_id q s).1 ≡ s = ground arith in rw same (refl, inl refl)
  | inr (r, good, h) ↦ elim (price_uses q.coupon_code user_id (fare_of r.actual_fare) s) [
    | inl (e, g) ↦
        let same : (pay_for_ride user_id ride_id q s).1 ≡ s = ground arith in
        rw same (refl, inl refl)
    | inr (price, m, g) ↦ elim (pay_by_cases q.method q user_id ride_id r price.amount s) [
      | inl (e, t, u, f) ↦
          let same : (pay_for_ride user_id ride_id q s).1 ≡ t = ground arith in
          rw same (u.coupons, inl u.redemptions)
      | inr (p, t, u, f) ↦
          let same : (pay_for_ride user_id ride_id q s).1
              ≡ (redeem price.coupon_id price.discount user_id ride_id t).1 =
            ground arith in
          rw same (
            redeem_uses price.coupon_id price.discount user_id ride_id (fare_of r.actual_fare) s t m
              u.coupons u.redemptions)
    ]
  ]
]

-- What a coupon allows, over all and to each user.
abbrev pub IsWithin : ℕ → Coupon → List CouponRedemption → Type 0
IsWithin id c rs =
    IsAtMost (count_by_coupon id rs) c.usage_limit
    × ((u : ℕ) → count_by_coupon_and_user id u rs ≤ c.usage_per_user)

-- The redemptions that there are keep to every coupon.
unfoldable pub IsWithinLimits : Store → Type 0
IsWithinLimits s = (id : ℕ) (c : Coupon) → find id s.coupons ≡ some c → IsWithin id c s.redemptions

at_least_none : (limit : Option ℕ) → IsAtMost 0 limit
at_least_none none = tt
at_least_none (some most) = omega arith

pub unredeemed-IsWithinLimits : (s : Store) → s.redemptions ≡ [] → IsWithinLimits s
unfolding IsWithinLimits
unredeemed-IsWithinLimits s e id c f = rw e (at_least_none c.usage_limit, λ u. omega arith)

one_more : (n : ℕ) (limit : Option ℕ) → IsBelow n limit → IsAtMost (1 + n) limit
one_more n none h = tt
one_more n (some most) h = omega arith

not_more : (n : ℕ) (limit : Option ℕ) → IsAtMost n limit → IsAtMost (0 + n) limit
not_more n none h = tt
not_more n (some most) h = omega arith

-- One more redemption of a coupon that has a use left, over all and for the user.
one_more-IsWithin :
    (code : String) (user_id fare id : ℕ) (c : Coupon) (row : CouponRedemption) (s : Store)
    → Redeemable code user_id fare id c s
    → row.coupon_id ≡ id
    → row.user_id ≡ user_id
    → IsWithin id c s.redemptions
    → IsWithin id c (row ∷ s.redemptions)
one_more-IsWithin code user_id fare id c row s good of by (most, each) =
    let same : (row.coupon_id == id) ≡ true = ground (arith, of) in
    (
      rw same (one_more (count_by_coupon id s.redemptions) c.usage_limit good.left),
      λ u. elim (Bool-cases (row.user_id == u)) [
        | inl e ↦
            let is : user_id ≡ u = ground (arith, by) in
            let own : count_by_coupon_and_user id u s.redemptions < c.usage_per_user =
              rw (← is) good.left_for_user in
            rw (same, e) (omega arith)
        | inr e ↦ rw (same, e) (omega (arith, each u))
      ],
    )

redeemed-IsWithinLimits :
    (code : String) (user_id fare id : ℕ) (c : Coupon) (row : CouponRedemption) (s t : Store)
    → Redeemable code user_id fare id c s
    → row.coupon_id ≡ id
    → row.user_id ≡ user_id
    → t.coupons ≡ s.coupons
    → t.redemptions ≡ row ∷ s.redemptions
    → IsKeyed s.coupons
    → IsWithinLimits s
    → IsWithinLimits t
unfolding IsWithinLimits
redeemed-IsWithinLimits code user_id fare id c row s t good of by same more keyed h j d f =
    let before : find j s.coupons ≡ some d = ap (find j) (sym same) ∙ f in
    let there : find id s.coupons ≡ some c =
      find-find_first (λ _ x. same_text x.code code) id c s.coupons keyed good.found in
    rw more (elim (Bool-cases (row.coupon_id == j)) [
      | inl e ↦
          let ij : id ≡ j = ground (arith, of) in
          let cd : c ≡ d =
            some-injective c d (sym there ∙ ap (λ i. find i s.coupons) ij ∙ before) in
          subst (λ i. IsWithin i d (row ∷ s.redemptions)) ij
            (subst (λ x. IsWithin id x (row ∷ s.redemptions)) cd
              (one_more-IsWithin code user_id fare id c row s good of by (h id c there)))
      | inr e ↦
          let (most, each) = h j d before in
          (
            rw e (not_more (count_by_coupon j s.redemptions) d.usage_limit most),
            λ u. rw e (omega (arith, each u)),
          )
    ])

unused-IsWithinLimits :
    (s t : Store)
    → t.coupons ≡ s.coupons
    → t.redemptions ≡ s.redemptions
    → IsWithinLimits s
    → IsWithinLimits t
unfolding IsWithinLimits
unused-IsWithinLimits s t same kept h id c f = rw kept (h id c (ap (find id) (sym same) ∙ f))

payment-IsWithinLimits :
    (user_id ride_id : ℕ) (q : PayRequest) (s : Store)
    → IsKeyed s.coupons
    → IsWithinLimits s
    → IsKeyed (pay_for_ride user_id ride_id q s).1.coupons
      × IsWithinLimits (pay_for_ride user_id ride_id q s).1
payment-IsWithinLimits user_id ride_id q s k h =
    let (same, how) = pay_for_ride_uses user_id ride_id q s in
    (
      rw same k,
      elim how [
        | inl kept ↦ unused-IsWithinLimits s _ same kept h
        | inr (code, fare, id, c, row, good, of, by, more) ↦
            redeemed-IsWithinLimits code user_id fare id c row s _ good of by same more k h
      ],
    )

-- An attempt to pay: when, by whom, for which ride, and how.
pub record Attempt : Type 0 where
  pub at : ℕ
  pub user_id : ℕ
  pub ride_id : ℕ
  pub request : PayRequest

unfoldable pub run : List Attempt → Store → Store
run [] s = s
run (a ∷ rest) s = run rest (pay_for_ride a.user_id a.ride_id a.request (at_time a.at s)).1

-- If the coupons have distinct ids and the redemptions keep to them, then after any attempts to pay, by any users and
-- with any coupon codes, one after another, no coupon is redeemed more often than its usage limit allows, and by no
-- user more often than it allows to a user.
pub run-IsWithinLimits :
    (attempts : List Attempt) (s : Store)
    → IsKeyed s.coupons
    → IsWithinLimits s
    → IsWithinLimits (run attempts s)
unfolding run
run-IsWithinLimits [] s k h = h
run-IsWithinLimits (a ∷ rest) s k h =
    let (k', h') =
      payment-IsWithinLimits a.user_id a.ride_id a.request (at_time a.at s) k
        (unused-IsWithinLimits s (at_time a.at s) refl refl h) in
    run-IsWithinLimits rest (pay_for_ride a.user_id a.ride_id a.request (at_time a.at s)).1 k' h'
