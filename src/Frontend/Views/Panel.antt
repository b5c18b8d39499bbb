-- ===== src/Frontend/Views/Panel.antt =====
-- What frontend/src/components/booking/BookingPanel.tsx shows.
use Prim.Native.String.{String}
use ticketvault.Prelude.{
  ℕ, Bool, true, false, not, [], ◌∷◌, ◌++◌, Option, none, some, if◌then◌else◌,
}
use ticketvault.Listing.{ListedSeat}
use ticketvault.Frontend.Views.{text, number, letter, money, spinner, shows, button, View}
use ticketvault.Frontend.Views.Badges.{surge_badge}

pub data PanelAct : Type 0 where
  deselect return_to_map book : PanelAct

unfoldable pub error_alert : Option String → View PanelAct
error_alert none = []
error_alert (some e) = shows (text e) ∷ []

-- The panel of a seat that is selected.
unfoldable pub seat_panel :
    ListedSeat
    → (error : Option String) → (loading : Bool) → (base_price current_price : ℕ) → View PanelAct
unfolding error_alert
seat_panel s error loading base_price current_price =
    shows (text "Selected Seat")
    ∷ button deselect true (text "Deselect seat" ∷ [])
    ∷ shows (text "Section")
    ∷ shows (text s.section)
    ∷ shows (text "Row")
    ∷ shows (letter s.row_label)
    ∷ shows (text "Seat")
    ∷ shows (number s.seat_number)
    ∷ shows (text "Price")
    ∷ (surge_badge base_price current_price
        ++ (error_alert error
            ++ (button book (not loading) (
                  if loading
                  then spinner ∷ text "Reserving…" ∷ []
                  else text "Reserve for" ∷ money current_price ∷ [])
                ∷ shows (text "Seat held for 10 minutes. Complete payment to confirm.")
                ∷ [])))

unfoldable pub booking_panel :
    Option ListedSeat
    → (queued : Bool) → (error : Option String) → (loading : Bool) → (base_price current_price : ℕ)
    → View PanelAct
unfolding seat_panel
booking_panel none queued error loading base_price current_price =
    shows (text "Select a seat") ∷ shows (text "Click any available seat on the map to begin.") ∷ []
booking_panel (some s) true error loading base_price current_price =
    shows (text "You're in the queue!")
    ∷ shows (
        text
          "All seats are currently held. Keep this page open: when a seat frees up, it's offered to people in line one at a time and held for a couple of minutes. If it's your turn, you'll get an alert. If nobody takes it, it goes back on sale for everyone.")
    ∷ button return_to_map true (text "Back to map" ∷ [])
    ∷ []
booking_panel (some s) false error loading base_price current_price =
    seat_panel s error loading base_price current_price
