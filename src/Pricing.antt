-- ===== src/Pricing.antt =====
-- Surge pricing: `config.pricing.tiers` of backend/src/config/index.ts and `calculatePrice` of
-- backend/src/services/event/eventService.ts. Prices are given in cents and the tiers in tenths.
pub mod Doubles
use ticketvault.Pricing.Doubles.{nearest, times, math_round}
use ticketvault.Prelude.{ℕ, ◌+◌, ◌*◌, ◌/◌, Bool, List, [], ◌∷◌, not, ◌==◌, leb, if◌then◌else◌}

pub record PriceTier : Type 0 where
  pub threshold : ℕ
  pub multiplier : ℕ

abbrev pub tiers : List PriceTier
tiers =
    record { threshold = 5; multiplier = 10 }
    ∷ record { threshold = 2; multiplier = 13 }
    ∷ record { threshold = 1; multiplier = 16 }
    ∷ record { threshold = 0; multiplier = 20 }
    ∷ []

-- `availableSeats / totalSeats >= threshold`. For an event without seats the quotient is NaN or
-- Infinity, so the test fails with no seat available and passes otherwise. The quotient and the
-- threshold are doubles, which for less than 2 ^ 50 seats are in the same order as the fractions.
unfoldable pub ratio_at_least : ℕ → ℕ → ℕ → Bool
ratio_at_least available total threshold =
    if total == 0 then not (available == 0) else leb (threshold * total) (10 * available)

-- `Math.round(basePrice * multiplier * 100) / 100`, in cents: both factors are the doubles nearest to
-- their decimals, and both products are rounded to doubles.
unfoldable pub surged : ℕ → ℕ → ℕ
unfolding nearest times math_round
surged base_price multiplier =
    math_round (times (times (nearest base_price 100) (nearest multiplier 10)) (nearest 100 1))

unfoldable pub price_by : List PriceTier → ℕ → ℕ → ℕ → ℕ
unfolding ratio_at_least
price_by [] base_price available total = surged base_price 20
price_by (t ∷ ts) base_price available total =
    if ratio_at_least available total t.threshold
    then surged base_price t.multiplier
    else price_by ts base_price available total

unfoldable pub calculate_price : ℕ → ℕ → ℕ → ℕ
unfolding price_by
calculate_price = price_by tiers

-- The multiplier in tenths: none as long as half of the seats are free, 1.3 down to a fifth, 1.6 down to a
-- tenth, and 2 below that.
abbrev pub multiplier_at : (available total : ℕ) → ℕ
multiplier_at available total =
    if leb total (2 * available)
    then 10
    else if leb total (5 * available)
    then 13
    else if leb total (10 * available)
    then 16
    else 20
