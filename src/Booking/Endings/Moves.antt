-- ===== src/Booking/Endings/Moves.antt =====
-- The two ways in which a booking and its seat move on together: the seat is freed, or it is sold.
use ticketvault.Prelude.{ℕ, ◌≡◌, refl, inl, inr, true, false, Option, some, arith, Option-cases}
use ticketvault.Types.{SeatStatus, BookingStatus, Reason, Seat, Booking, is_active}
use ticketvault.Table.Keyed.{indicator-le-count}
use ticketvault.Db.{
  Db, booking_key, seat_at, booking_at, update_booking, update_seat, insert_audit, free_seat,
  set_status,
}
use ticketvault.Db.Invariant.{IsConsistent, pending_on, confirmed_on}
use ticketvault.Db.Moved.{Transition, moved-IsConsistent}
use ticketvault.Booking.{FreedSeat, confirm_row, sell_seat}

-- An active booking is on a seat that exists.
pub active_seat :
    (db : Db) (k : ℕ) (b : Booking)
    → IsConsistent db
    → booking_at k db ≡ some b
    → is_active b.status ≡ true
    → (s : Seat) × (seat_at b.seat_id db ≡ some s)
active_seat db k b c found active = elim (Option-cases (seat_at b.seat_id db)) [
  | inr there ↦ there
  | inl absent ↦ absurd (
      ground (
        arith,
        c.held b.seat_id,
        c.sold b.seat_id,
        indicator-le-count booking_key (pending_on b.seat_id) k db.bookings b found,
        indicator-le-count booking_key (confirmed_on b.seat_id) k db.bookings b found,
      ))
]

abbrev pub freed_seat : Booking → Seat → FreedSeat
freed_seat b s = record {
  event_id = b.event_id;
  seat_id = b.seat_id;
  seat_number = s.seat_number;
  section = s.section;
}

pub freeing :
    (u : BookingStatus)
    → is_active u ≡ false
    → Transition (set_status u) free_seat u SeatStatus.available
unfolding set_status free_seat
freeing u h = record {
  same_id = λ b. refl;
  same_seat = λ b. refl;
  same_seat_id = λ s. refl;
  to_booking = λ b. refl;
  to_seat = λ s. refl;
  agree_held = ground arith;
  agree_sold = ground arith;
}

pub selling :
    (payment_id now : ℕ)
    → Transition (confirm_row payment_id now) sell_seat BookingStatus.confirmed SeatStatus.booked
unfolding confirm_row sell_seat
selling payment_id now = record {
  same_id = λ b. refl;
  same_seat = λ b. refl;
  same_seat_id = λ s. refl;
  to_booking = λ b. refl;
  to_seat = λ s. refl;
  agree_held = refl;
  agree_sold = refl;
}

-- The database after a booking has ended with status `u` and its seat is free again.
abbrev pub ended : ℕ → BookingStatus → Booking → Option BookingStatus → Reason → Db → Db
ended k u b old why db =
    insert_audit k old u why (update_seat b.seat_id free_seat (update_booking k (set_status u) db))

pub ended-IsConsistent :
    (k : ℕ) (u : BookingStatus) (db : Db) (b : Booking) (old : Option BookingStatus) (why : Reason)
    → IsConsistent db
    → booking_at k db ≡ some b
    → is_active b.status ≡ true
    → is_active u ≡ false
    → IsConsistent (ended k u b old why db)
ended-IsConsistent k u db b old why c found active over =
    moved-IsConsistent (set_status u) free_seat u SeatStatus.available (freeing u over) k db c b
      found active old why
