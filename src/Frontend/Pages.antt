-- ===== src/Frontend/Pages.antt =====
-- The other pages, as far as they decide something: EventPage.tsx, BookingsPage.tsx of
-- frontend/src/pages, and booking/BookingPanel.tsx, common/SurgeBadge.tsx and common/CountdownTimer.tsx
-- of frontend/src/components.
pub mod Booked
pub mod Lists
use ticketvault.Prelude.{
  ℕ, ◌+◌, ◌-◌, ◌*◌, ◌/◌, Bool, true, false, not, List, [], ◌∷◌, Option, none, some, ◌==◌, ◌&&◌, ltb,
  leb, if◌then◌else◌,
}
use ticketvault.Types.{SeatStatus, BookingStatus, ResponseStatus, BookingResponse, Event, is_active}
use ticketvault.Table.{select}
use ticketvault.Listing.{ListedSeat, UserBooking}
use ticketvault.Admin.{BookingStats, EventStats}
use ticketvault.Frontend.{
  BookingStore, select_seat, set_seat_statuses, Attempt, Reply, answered, failed, unreachable,
  start_attempt, keep_attempt, hold_answer, CountdownResult,
}

-- The panel beside the map; `checkout` is the booking to whose checkout it has led.
pub record Panel : Type 0 where
  pub attempt : Option Attempt
  pub queued : Bool
  pub has_error : Bool
  pub checkout : Option ℕ
  pub store : BookingStore

abbrev pub is_failure : Reply → Bool
is_failure (answered r) = false
is_failure _ = true

abbrev pub follow_answer : Reply → Panel → Panel
follow_answer (answered r) p = elim r.status [
  | ResponseStatus.queued ↦ record p { queued = true }
  | ResponseStatus.pending ↦ record p { checkout = r.booking_id }
]
follow_answer _ p = p

-- `handleBook`, on the seat that is selected, with the key that it would generate and what comes of
-- the request.
unfoldable pub handle_book : ℕ → Option ℕ → ℕ → Reply → Panel → Panel
handle_book event_id none fresh reply p = p
handle_book event_id (some seat_id) fresh reply p =
    let a = start_attempt event_id seat_id fresh p.attempt in
    follow_answer reply (record p {
      attempt = keep_attempt a reply;
      has_error = is_failure reply;
      store = hold_answer reply p.store;
    })

-- `Back to map`
unfoldable pub back_to_map : Panel → Panel
back_to_map p = record p { queued = false; store = select_seat none p.store }

-- The page of an event.
pub record EventPage : Type 0 where
  pub event : Option Event
  pub seats : List ListedSeat
  pub selected_seat : Option ListedSeat
  pub loading : Bool
  pub store : BookingStore

-- The statuses by id; of two seats with one id the later counts.
unfoldable pub statuses_of : List ListedSeat → ℕ → Option SeatStatus
statuses_of [] k = none
statuses_of (s ∷ ss) k = elim (statuses_of ss k) [
  | none ↦ if s.id == k then some s.status else none
  | some status ↦ some status
]

-- The answers to the two requests of the page, or their failure.
unfoldable pub on_loaded : Option (Event × List ListedSeat) → EventPage → EventPage
on_loaded none p = record p { loading = false }
on_loaded (some (event, seats)) p = record p {
  event = some event;
  seats = seats;
  loading = false;
  store = set_seat_statuses (statuses_of seats) p.store;
}

unfoldable pub on_seat_select : ListedSeat → EventPage → EventPage
on_seat_select s p = record p { selected_seat = some s; store = select_seat (some s.id) p.store }

unfoldable pub on_deselect : EventPage → EventPage
on_deselect p = record p { selected_seat = none; store = select_seat none p.store }

abbrev pub or_else : {A : Type 0} → Option A → A → A
or_else none a = a
or_else (some b) a = b

abbrev pub of_event : (Event → ℕ) → Option Event → ℕ
of_event f none = 0
of_event f (some e) = f e

unfoldable pub live_inventory : EventPage → ℕ
live_inventory p = or_else p.store.inventory_remaining (of_event (λ e. e.available_seats) p.event)

unfoldable pub live_price : EventPage → ℕ
live_price p = or_else p.store.current_price (of_event (λ e. e.current_price) p.event)

abbrev pub is_below : ℕ → Option Event → ℕ → Bool
is_below tenths none n = false
is_below tenths (some e) n = ltb (10 * n) (tenths * e.row.total_seats)

unfoldable pub is_critically_low : EventPage → Bool
is_critically_low p = is_below 1 p.event (live_inventory p)

unfoldable pub is_low : EventPage → Bool
is_low p = is_below 2 p.event (live_inventory p)

-- The user's bookings.
pub record BookingsPage : Type 0 where
  pub bookings : List UserBooking
  pub loading : Bool
  pub cancelling : Option ℕ

unfoldable pub fetch_bookings : Option (List UserBooking) → BookingsPage → BookingsPage
fetch_bookings none p = record p { loading = false }
fetch_bookings (some bookings) p = record p { bookings = bookings; loading = false }

-- `handleCancel`, once the user has confirmed, up to the answer; and what follows it, a new list if
-- the cancellation went through.
unfoldable pub start_cancel : ℕ → BookingsPage → BookingsPage
start_cancel id p = record p { cancelling = some id }

unfoldable pub end_cancel : (went_through : Bool) → BookingsPage → BookingsPage
end_cancel true p = record p { cancelling = none; loading = true }
end_cancel false p = record p { cancelling = none }

unfoldable pub active_bookings : List UserBooking → List UserBooking
active_bookings bookings = select (λ b. is_active b.booking.status) bookings

unfoldable pub past_bookings : List UserBooking → List UserBooking
past_bookings bookings = select (λ b. not (is_active b.booking.status)) bookings

unfoldable pub can_cancel : UserBooking → Bool
can_cancel b = is_active b.booking.status

pub data Badge : Type 0 where
  badge_success badge_warning badge_muted badge_error : Badge

-- `STATUS_CONFIG`, without its texts and icons.
unfoldable pub status_badge : BookingStatus → Badge
status_badge BookingStatus.confirmed = badge_success
status_badge BookingStatus.pending = badge_warning
status_badge BookingStatus.cancelled = badge_muted
status_badge BookingStatus.expired = badge_error
status_badge BookingStatus.compensated = badge_error

-- `SurgeBadge` and `CountdownTimer`
unfoldable pub is_surge : (base_price current_price : ℕ) → Bool
is_surge base_price current_price = ltb base_price current_price

unfoldable pub is_urgent : CountdownResult → Bool
is_urgent c = (c.minutes == 0) && ltb c.seconds 120
