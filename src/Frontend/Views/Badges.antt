-- ===== src/Frontend/Views/Badges.antt =====
-- What frontend/src/components/common/SurgeBadge.tsx and CountdownTimer.tsx show.
use ticketvault.Prelude.{ℕ, [], ◌∷◌, if◌then◌else◌}
use ticketvault.Frontend.{CountdownResult}
use ticketvault.Frontend.Pages.{is_surge}
use ticketvault.Frontend.Views.{text, money, quotient, two_digits, shows, View}

module _ {Act : Type 0} where
  -- `SurgeBadge`
  unfoldable pub surge_badge : (base_price current_price : ℕ) → View Act
  surge_badge base_price current_price =
      if is_surge base_price current_price
      then shows (money current_price) ∷ shows (quotient base_price current_price) ∷ []
      else shows (money current_price) ∷ []

  -- `CountdownTimer`
  unfoldable pub countdown_timer : CountdownResult → View Act
  countdown_timer c =
      if c.expired
      then []
      else shows (text "Seat reserved for")
        ∷ shows (two_digits c.minutes)
        ∷ shows (two_digits c.seconds)
        ∷ []
