-- ===== src/Frontend/Dashboard.antt =====
-- The numbers that the home page and the dashboard show of events: frontend/src/pages/HomePage.tsx and
-- frontend/src/components/admin/AdminDashboard.tsx.
use ticketvault.Prelude.{
  ℕ, ◌+◌, ◌-◌, ◌*◌, ◌/◌, Bool, false, List, [], ◌∷◌, Option, none, some, ◌==◌, ltb, leb,
  if◌then◌else◌,
}
use ticketvault.Table.{select}
use ticketvault.Admin.{BookingStats, Dashboard}

-- A number as JSON holds it; `COUNT` comes out of the database as a text.
pub data Cell : Type 0 where
  as_number as_text : ℕ → Cell

abbrev pub is_zero : Cell → Bool
is_zero (as_number n) = n == 0
is_zero (as_text n) = false

abbrev pub value : Cell → ℕ
value (as_number n) = n
value (as_text n) = n

pub data Colour : Type 0 where
  error warning accent : Colour

-- `Math.round(part / whole * 100)`
abbrev pub percent : (part whole : ℕ) → ℕ
percent part whole = (200 * part + whole) / (2 * whole)

-- The card of an event on the home page.
unfoldable pub is_sold_out : Cell → Bool
is_sold_out available = is_zero available

unfoldable pub sold_percent : ℕ → Cell → ℕ
sold_percent total available = if ltb 0 total then percent (total - value available) total else 0

unfoldable pub bar_colour : ℕ → Cell → Colour
bar_colour total available =
    if is_sold_out available
    then error
    else if ltb 70 (sold_percent total available)
    then warning
    else accent

-- The slices of the dashboard's chart.
pub data Slice : Type 0 where
  confirmed_slice pending_slice expired_slice compensated_slice : ℕ → Slice

abbrev pub slice_value : Slice → ℕ
slice_value (confirmed_slice n) = n
slice_value (pending_slice n) = n
slice_value (expired_slice n) = n
slice_value (compensated_slice n) = n

unfoldable pub pie_data : BookingStats → List Slice
pie_data b =
    select (λ s. ltb 0 (slice_value s))
      (confirmed_slice b.confirmed
        ∷ pending_slice b.pending
        ∷ expired_slice b.expired
        ∷ compensated_slice b.compensated
        ∷ [])

-- The share of an event that the dashboard takes for sold, `none` where it is below 0.
unfoldable pub occupancy : (total available : ℕ) → Option ℕ
occupancy total available =
    if total == 0
    then some 0
    else if leb available total
    then some (percent (total - available) total)
    else if leb (200 * (available - total)) total
    then some 0
    else none

abbrev pub occupancy_colour : Option ℕ → Colour
occupancy_colour none = accent
occupancy_colour (some p) = if ltb 90 p then error else if ltb 70 p then warning else accent

pub data Tab : Type 0 where
  overview events : Tab

-- The state of the dashboard's page.
pub record DashboardPage : Type 0 where
  pub tab : Tab
  pub shown : Option Dashboard
  pub loading : Bool
  pub last_refresh : ℕ

-- `refresh`, with the answer to its request; after a failure the old numbers stay.
unfoldable pub refresh_dashboard : ℕ → Option Dashboard → DashboardPage → DashboardPage
refresh_dashboard now none p = record p { loading = false }
refresh_dashboard now (some d) p = record p { shown = some d; last_refresh = now; loading = false }

unfoldable pub set_tab : Tab → DashboardPage → DashboardPage
set_tab tab p = record p { tab = tab }

-- `Expired / Compensated`
unfoldable pub lost_bookings : BookingStats → ℕ
lost_bookings b = b.expired + b.compensated
