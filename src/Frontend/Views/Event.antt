-- ===== src/Frontend/Views/Event.antt =====
-- What frontend/src/pages/EventPage.tsx shows.
use Prim.Native.String.{String}
use ticketvault.Prelude.{
  ℕ, Bool, true, false, [], ◌∷◌, ◌++◌, Option, none, some, ◌==◌, ◌&&◌, ltb, if◌then◌else◌,
}
use ticketvault.Types.{Event}
use ticketvault.Frontend.Pages.{EventPage, live_inventory, live_price, is_critically_low}
use ticketvault.Frontend.Views.{text, number, moment, skeleton, shows, View, when, embed}
use ticketvault.Frontend.Views.Badges.{surge_badge}
use ticketvault.Frontend.Views.Seats.{SeatAct, seat_map}
use ticketvault.Frontend.Views.Panel.{PanelAct, booking_panel}

pub data EventAct : Type 0 where
  on_map : SeatAct → EventAct
  on_panel : PanelAct → EventAct

unfoldable pub event_header : Event → EventPage → View EventAct
event_header e p =
    shows (text e.row.name)
    ∷ shows (text e.row.venue)
    ∷ shows (moment e.row.starts_at)
    ∷ shows (number e.row.total_seats)
    ∷ shows (text "total seats")
    ∷ ((if live_inventory p == 0
          then shows (text "Sold out") ∷ []
          else shows (number (live_inventory p)) ∷ shows (text "seats available") ∷ [])
        ++ (surge_badge e.row.base_price (live_price p)
            ++ when (is_critically_low p && ltb 0 (live_inventory p))
                (shows (text "Almost gone!") ∷ [])))

-- The panel has its own state: whether the user is in the queue, an error, and whether a request runs.
module _ (locale : ℕ → ℕ → Bool) (queued : Bool) (error : Option String) (booking : Bool) where
  unfoldable pub event_layout : Event → EventPage → View EventAct
  event_layout e p =
      embed on_map (seat_map locale p.store.selected_seat_id p.store.seat_statuses p.seats)
      ++ embed on_panel
          (booking_panel p.selected_seat queued error booking e.row.base_price (live_price p))

  abbrev pub header_of : Bool → Option Event → EventPage → View EventAct
  header_of true e p = shows skeleton ∷ shows skeleton ∷ shows skeleton ∷ []
  header_of false none p = shows (text "Event not found.") ∷ []
  header_of false (some e) p = event_header e p

  abbrev pub layout_of : Option Event → EventPage → View EventAct
  layout_of none p = []
  layout_of (some e) p = event_layout e p

  unfoldable pub event_page : EventPage → View EventAct
  event_page p = header_of p.loading p.event p ++ layout_of p.event p
