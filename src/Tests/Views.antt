-- ===== src/Tests/Views.antt =====
-- The theorems about what pages show, at the sample.
use ticketvault.Prelude.{
  ℕ, ◌≡◌, refl, Bool, true, false, List, [], ◌∷◌, map, leb, Option, none, some, is_some, ◌&&◌,
}
use ticketvault.Types.{Role, SeatStatus, Booking}
use ticketvault.Table.{select, find_where, count_where}
use ticketvault.Table.Found.{All}
use ticketvault.Listing.{ListedEvent, ListedSeat, listed_seat, get_user_bookings}
use ticketvault.Frontend.{BookingStore, calculate}
use ticketvault.Frontend.Session.{SessionEvent, Answer, admin_path, app_route, session_after}
use ticketvault.Frontend.SeatMap.{buttons, grouped}
use ticketvault.Frontend.SeatMap.Shown.{AllInOrder}
use ticketvault.Frontend.Checkout.{
  Checkout, PaymentState, opened, on_initiated, submit, has_expired, can_submit,
}
use ticketvault.Frontend.Checkout
use ticketvault.Frontend.Views.{enabled_acts, links}
use ticketvault.Frontend.Views.Navbar.{navbar, leads_to, same_page, bar_links_open_pages}
use ticketvault.Frontend.Views.Tickets.{cancel, bookings_page, loaded_page}
use ticketvault.Frontend.Views.Tickets.Granted.{cancellable, Granted, page_grants}
use ticketvault.Frontend.Views.Home.{
  received, home_page, link_labels, select_seats, home_offers_seats,
}
use ticketvault.Frontend.Views.Checkout.{checkout_page, pay, page_waits}
use ticketvault.Frontend.Views.Seats.{seat_map, choose, is_free, map_offers_free}
use ticketvault.Tests.Samples.{tables, tables-IsConsistent, concert, free_one, held_one}

abbrev visit : List SessionEvent
visit =
    SessionEvent.submits (
      Answer.received (record {
        access_token = 1;
        refresh_token = 2;
        user = record { id = 6; email = 6; name = "Ann"; role = Role.admin };
      }))
    ∷ []

bar_links_open_pages_example :
    leads_to admin_path (links (navbar (session_after visit) true))
    ≡ same_page (app_route (session_after visit) admin_path) admin_path
bar_links_open_pages_example = bar_links_open_pages visit true admin_path refl

page_grants_example :
    let page = loaded_page (get_user_bookings 5 tables) in
    (enabled_acts (bookings_page page) ≡ map (λ (b : Booking). cancel b.id) (cancellable 5 tables))
    × All (Granted 5 tables) (enabled_acts (bookings_page page))
unfolding find_where
page_grants_example = page_grants 5 tables ((_, refl), (_, refl), tt) tables-IsConsistent

-- No seat of the concert is free.
abbrev full : List ListedEvent
full = record { row = concert; available_seats = 0 } ∷ []

home_offers_seats_example :
    link_labels (home_page (record { events = map received full; loading = false }))
    ≡ map select_seats full
home_offers_seats_example = home_offers_seats full

-- No message has come.
abbrev live : ℕ → Option SeatStatus
live k = none

map_offers_free_example :
    let seats = listed_seat held_one ∷ listed_seat free_one ∷ [] in
    let shown = select (is_free leb none live) (buttons leb (grouped seats)) in
    (enabled_acts (seat_map leb none live seats) ≡ map choose shown)
    × ((p : ListedSeat → Bool)
        → count_where p shown ≡ count_where (λ s. is_free leb none live s && p s) seats)
    × AllInOrder (grouped seats)
map_offers_free_example =
    map_offers_free leb none live (listed_seat held_one ∷ listed_seat free_one ∷ [])

abbrev empty_page : BookingStore
empty_page = record {
  selected_seat_id = none;
  seat_statuses = λ k. none;
  inventory_remaining = none;
  current_price = none;
  active_booking_id = none;
  reservation_expires_at = none;
}

abbrev ready : Checkout
ready = on_initiated (some (3, 7500)) (opened empty_page)

paid-Reach : Checkout.Reach empty_page (submit true ready)
unfolding opened can_submit on_initiated has_expired calculate
paid-Reach =
    Checkout.Reach.go_on
      (Checkout.Reach.go_on Checkout.Reach.opens (Checkout.Step.initiates refl (some (3, 7500))))
      (Checkout.Step.submits 5 true refl)

-- While the payment is in flight there is nothing to choose.
page_waits_example :
    (is_some (submit true ready).in_flight ≡ true
      → enabled_acts (checkout_page 6 100 (submit true ready)) ≡ [])
    × (can_submit 6 (submit true ready) ≡ true
        → enabled_acts (checkout_page 6 100 (submit true ready)) ≡ pay true ∷ pay false ∷ [])
page_waits_example = page_waits 6 100 paid-Reach
