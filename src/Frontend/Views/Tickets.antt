-- ===== src/Frontend/Views/Tickets.antt =====
-- What frontend/src/pages/BookingsPage.tsx shows, and that the server grants what it offers.
pub mod Granted
use Prim.Native.String.{String}
use ticketvault.Prelude.{
  ℕ, zero, suc, ◌+◌, ◌≡◌, ◌≤◌, refl, ap, ◌∙◌, inl, inr, Bool, true, false, not, List, [], ◌∷◌, ◌++◌,
  map, length, Option, none, some, is_some, ok, arith, ◌==◌, ◌&&◌, Bool-cases, if◌then◌else◌,
}
use mathlib.Core.List.{append-nil}
use ticketvault.Types.{BookingStatus, Booking, is_active}
use ticketvault.Table.{select, find_where, count_where}
use ticketvault.Table.Keyed.{at_key, find-count_pos, find-update}
use ticketvault.Db.{Db, booking_key, seat_key, booking_at, seat_at, free_seat, with_transaction}
use ticketvault.Db.Invariant.{IsConsistent}
use ticketvault.Booking.{FreedSeat, cancel_transaction}
use ticketvault.Booking.Endings.{active_seat, freed_seat}
use ticketvault.Listing.{UserBooking, get_user_bookings, join_bookings, joined, event_at}
use ticketvault.Frontend.Session.{home_path}
use ticketvault.Frontend.Pages.{BookingsPage, active_bookings, past_bookings, can_cancel}
use ticketvault.Frontend.Views.{
  Label, text, number, money, moment, letter, short_id, skeleton, Element, shows, link, button,
  View, when, each, enabled_acts, enabled_acts-append,
}

pub data TicketAct : Type 0 where
  cancel : ℕ → TicketAct

-- The labels of `STATUS_CONFIG`.
unfoldable pub status_label : BookingStatus → String
status_label BookingStatus.confirmed = "Confirmed"
status_label BookingStatus.pending = "Reserved"
status_label BookingStatus.cancelled = "Cancelled"
status_label BookingStatus.expired = "Expired"
status_label BookingStatus.compensated = "Refunded"

unfoldable pub is_cancelling : Option ℕ → ℕ → Bool
is_cancelling none k = false
is_cancelling (some j) k = j == k

-- `BookingCard`
unfoldable pub booking_card : Option ℕ → UserBooking → View TicketAct
booking_card cancelling b =
    let busy = is_cancelling cancelling b.booking.id in
    shows (text b.event_name)
    ∷ shows (text b.venue)
    ∷ shows (moment b.starts_at)
    ∷ shows (text b.section)
    ∷ shows (text "Row")
    ∷ shows (letter b.row_label)
    ∷ shows (text "Seat")
    ∷ shows (number b.seat_number)
    ∷ shows (text (status_label b.booking.status))
    ∷ shows (short_id b.booking.id)
    ∷ shows (money b.booking.amount_paid)
    ∷ when (can_cancel b) (
        button (cancel b.booking.id) (not busy)
          (text (if busy then "Cancelling…" else "Cancel") ∷ [])
        ∷ [])

abbrev pub is_empty : {A : Type 0} → List A → Bool
is_empty [] = true
is_empty (x ∷ xs) = false

abbrev pub card_skeleton : View TicketAct
card_skeleton = shows skeleton ∷ shows skeleton ∷ shows skeleton ∷ []

-- One of the two lists of the page, under its heading.
unfoldable pub ticket_section : String → Option ℕ → List UserBooking → View TicketAct
unfolding each
ticket_section heading cancelling bookings =
    when (not (is_empty bookings)) (shows (text heading) ∷ each (booking_card cancelling) bookings)

unfoldable pub bookings_page : BookingsPage → View TicketAct
unfolding ticket_section
bookings_page p =
    shows (text "My Tickets")
      ∷ when (not p.loading) (
          shows (number (length p.bookings))
          ∷ shows (text (if length p.bookings == 1 then "booking" else "bookings"))
          ∷ [])
    ++ (if p.loading
        then card_skeleton ++ card_skeleton
        else if is_empty p.bookings
        then shows (text "No bookings yet")
          ∷ shows (text "Browse upcoming events and reserve your first seat.")
          ∷ link home_path (text "Browse Events" ∷ [])
          ∷ []
        else ticket_section "Active" p.cancelling (active_bookings p.bookings)
          ++ ticket_section "Past" p.cancelling (past_bookings p.bookings))

card_acts :
    (b : UserBooking)
    → enabled_acts (booking_card none b)
      ≡ (if is_active b.booking.status then cancel b.booking.id ∷ [] else [])
unfolding booking_card enabled_acts can_cancel is_cancelling
card_acts b = ground arith

-- The cancellations that the cards offer, of bookings in either list.
abbrev pub offers : List UserBooking → List TicketAct
offers bs = map (λ (b : UserBooking). cancel b.booking.id) bs

cards_acts :
    (q : UserBooking → Bool) (bs : List UserBooking)
    → ((b : UserBooking) → q b ≡ true → is_active b.booking.status ≡ true)
    → enabled_acts (each (booking_card none) (select q bs)) ≡ offers (select q bs)
unfolding each select enabled_acts
cards_acts q [] h = refl
cards_acts q (b ∷ bs) h = elim (Bool-cases (q b)) [
  | inl active ↦
      rw
        (
          active,
          enabled_acts-append (booking_card none b) (each (booking_card none) (select q bs)),
          card_acts b,
          h b active,
        )
        (ap (λ (rest : List TicketAct). cancel b.booking.id ∷ rest) (cards_acts q bs h))
  | inr past ↦ rw past (cards_acts q bs h)
]

past_acts :
    (bs : List UserBooking) → enabled_acts (each (booking_card none) (past_bookings bs)) ≡ []
unfolding each select enabled_acts past_bookings
past_acts [] = refl
past_acts (b ∷ bs) = elim (Bool-cases (is_active b.booking.status)) [
  | inl active ↦ rw active (past_acts bs)
  | inr past ↦
      rw
        (
          past,
          enabled_acts-append (booking_card none b) (each (booking_card none) (past_bookings bs)),
          card_acts b,
          past,
        )
        (past_acts bs)
]

section_acts :
    (heading : String) (bs : List UserBooking)
    → enabled_acts (ticket_section heading none bs) ≡ enabled_acts (each (booking_card none) bs)
unfolding ticket_section enabled_acts each
section_acts heading [] = refl
section_acts heading (b ∷ bs) = refl

-- The page once its bookings have come, while none of them is being cancelled.
abbrev pub loaded_page : List UserBooking → BookingsPage
loaded_page bs = record { bookings = bs; loading = false; cancelling = none }

-- The page then offers to cancel the active bookings, in their order, and no others.
pub page_acts :
    (bs : List UserBooking)
    → enabled_acts (bookings_page (loaded_page bs)) ≡ offers (active_bookings bs)
unfolding bookings_page enabled_acts active_bookings select
page_acts [] = refl
page_acts (b ∷ bs) =
    enabled_acts-append (ticket_section "Active" none (active_bookings (b ∷ bs)))
      (ticket_section "Past" none (past_bookings (b ∷ bs)))
    ∙ (ap
          (λ (rest : List TicketAct).
            enabled_acts (ticket_section "Active" none (active_bookings (b ∷ bs))) ++ rest)
          (section_acts "Past" (past_bookings (b ∷ bs)) ∙ past_acts (b ∷ bs))
        ∙ (append-nil _
            ∙ (section_acts "Active" (active_bookings (b ∷ bs))
                ∙ cards_acts (λ x. is_active x.booking.status) (b ∷ bs) (λ x h. h))))
