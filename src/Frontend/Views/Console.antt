-- ===== src/Frontend/Views/Console.antt =====
-- What frontend/src/components/admin/AdminDashboard.tsx and pages/AdminPage.tsx of frontend/src show. The
-- chart of the activity is made of random numbers and is left out; of the other chart there are the
-- slices.
use Prim.Native.String.{String}
use ticketvault.Prelude.{
  ℕ, Bool, true, false, List, [], ◌∷◌, ◌++◌, length, Option, none, some, ltb, if◌then◌else◌,
}
use ticketvault.Admin.{BookingStats, EventStats, Dashboard}
use ticketvault.Frontend.Dashboard.{
  Tab, overview, events, Slice, confirmed_slice, pending_slice, expired_slice, compensated_slice,
  pie_data, occupancy, DashboardPage, lost_bookings,
}
use ticketvault.Frontend.Views.{
  Label, text, number, whole_money, moment, percentage, skeleton, shows, button, View, when, each,
}

pub data ConsoleAct : Type 0 where
  open_tab : Tab → ConsoleAct
  refresh_now : ConsoleAct
  nothing : ConsoleAct

unfoldable pub stat_card : Label → String → View ConsoleAct
stat_card value label = shows value ∷ shows (text label) ∷ []

-- `HealthCard`, a button that may do nothing.
unfoldable pub health_card : String → ℕ → ConsoleAct → View ConsoleAct
health_card title value act = button act true (number value ∷ text title ∷ []) ∷ []

abbrev pub slice_view : Slice → View ConsoleAct
slice_view (confirmed_slice n) = shows (text "Confirmed") ∷ shows (number n) ∷ []
slice_view (pending_slice n) = shows (text "Pending") ∷ shows (number n) ∷ []
slice_view (expired_slice n) = shows (text "Expired") ∷ shows (number n) ∷ []
slice_view (compensated_slice n) = shows (text "Compensated") ∷ shows (number n) ∷ []

abbrev pub has_slices : List Slice → Bool
has_slices [] = false
has_slices (s ∷ ss) = true

unfoldable pub stat_cards : Dashboard → View ConsoleAct
unfolding stat_card
stat_cards d =
    let b = d.bookings in
    stat_card (whole_money d.revenue) "Confirmed Revenue"
    ++ (stat_card (number b.confirmed) "Confirmed Bookings"
        ++ (stat_card (number b.pending) "Pending (Reserved)"
            ++ stat_card (number (lost_bookings b)) "Expired / Compensated"))

unfoldable pub status_split : BookingStats → View ConsoleAct
status_split b =
    when (has_slices (pie_data b)) (shows (text "Status Split") ∷ each slice_view (pie_data b))

unfoldable pub health_cards : Dashboard → View ConsoleAct
unfolding health_card
health_cards d =
    health_card "Total Bookings" d.bookings.total nothing
    ++ health_card "Published Events" (length d.events) (open_tab events)

unfoldable pub overview_tab : Dashboard → View ConsoleAct
unfolding stat_cards status_split health_cards
overview_tab d =
    stat_cards d ++ (shows (text "Booking Activity") ∷ (status_split d.bookings ++ health_cards d))

unfoldable pub event_row : EventStats → View ConsoleAct
event_row e =
    shows (text e.event_name)
    ∷ shows (percentage (occupancy e.total_seats e.available_count))
    ∷ shows (number e.available_count)
    ∷ shows (text "left")
    ∷ []

abbrev pub no_events : List EventStats → Bool
no_events [] = true
no_events (e ∷ es) = false

unfoldable pub events_tab : Dashboard → View ConsoleAct
unfolding event_row
events_tab d =
    shows (text "Live Event Occupancy")
    ∷ (each event_row d.events
        ++ when (no_events d.events) (shows (text "No published events.") ∷ []))

abbrev pub count_label : ℕ → List Label
count_label n = if ltb 0 n then number n ∷ [] else []

abbrev pub tab_view : Tab → Dashboard → View ConsoleAct
tab_view overview d = overview_tab d
tab_view events d = events_tab d

abbrev pub shown_dashboard : Option Dashboard → DashboardPage → View ConsoleAct
shown_dashboard none p = []
shown_dashboard (some d) p =
    button (open_tab overview) true (text "Overview" ∷ [])
    ∷ button (open_tab events) true (text "Events" ∷ count_label (length d.events))
    ∷ button refresh_now true (moment p.last_refresh ∷ [])
    ∷ tab_view p.tab d

abbrev pub stat_skeleton : View ConsoleAct
stat_skeleton = shows skeleton ∷ shows skeleton ∷ shows skeleton ∷ []

unfoldable pub admin_dashboard : DashboardPage → View ConsoleAct
admin_dashboard p =
    if p.loading
    then stat_skeleton ++ (stat_skeleton ++ (stat_skeleton ++ stat_skeleton))
    else shown_dashboard p.shown p

-- The page around it.
unfoldable pub console_page : DashboardPage → View ConsoleAct
console_page p = shows (text "Operations Console") ∷ admin_dashboard p
