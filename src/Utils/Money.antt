-- ===== src/Utils/Money.antt =====
-- utils/money.util.js, and the rounding of a numeric column. A request's amount is a whole number of
-- mills (thousandths of a dollar), so that amounts finer than a cent can be told apart.
use ride_sharing_backend.Common.{ℕ, ◌+◌, ◌*◌, ◌/◌, ◌≡◌, arith}

-- `Math.round(amount * 100)`: the nearest cent, a tie upwards.
unfoldable pub to_stripe_cents : ℕ → ℕ
to_stripe_cents mills = (mills + 5) / 10

-- `cents / 100`, in mills.
unfoldable pub from_stripe_cents : ℕ → ℕ
from_stripe_cents cents = 10 * cents

-- A value of `Decimal(_, 2)` as PostgreSQL stores it: the nearest cent, a tie away from zero.
unfoldable pub to_column : ℕ → ℕ
to_column mills = (mills + 5) / 10

-- Cents survive the way to Stripe and back.
pub to_stripe_cents-from_stripe_cents :
    (cents : ℕ) → to_stripe_cents (from_stripe_cents cents) ≡ cents
unfolding to_stripe_cents from_stripe_cents
to_stripe_cents-from_stripe_cents cents = omega arith
