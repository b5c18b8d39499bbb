-- ===== src/Booking.antt =====
-- The transactions of backend/src/services/booking/bookingService.ts.
pub mod Creation
pub mod Endings
pub mod History
pub mod Lifecycle
pub mod Races
pub mod Courses
use Prim.Native.String.{String}
use ticketvault.Prelude.{
  ℕ, ◌+◌, ◌*◌, Bool, not, Option, none, some, ◌==◌, ◌&&◌, if◌then◌else◌, is_some, ok, err,
  http_error, other_error, Action, ◌>>=◌, ◌>>◌, pure, throw_if, or_throw, gets, modify,
}
use ticketvault.Types.{
  SeatStatus, BookingStatus, Reason, Seat, Booking, IdempotencyKey, CreateBookingRequest,
  BookingResponse, ResponseStatus, is_available, is_pending, is_confirmed, is_active,
}
use ticketvault.Table.{find_where, update_where}
use ticketvault.Db.{
  Db, seat_at, select_seat_nowait, update_seat, update_booking, insert_booking, insert_audit,
  free_seat, set_status,
}

-- What a call reads of its surroundings: the clock, a new UUID, and which seat rows another
-- transaction has locked.
pub record Env : Type 0 where
  pub now : ℕ
  pub uuid : ℕ
  pub locked : ℕ → Bool

unfoldable pub hold_seat : ℕ → Seat → Seat
hold_seat until s = record s {
  status = SeatStatus.reserved;
  reserved_until = some until;
  version = s.version + 1;
}

-- The row that a booking inserts.
unfoldable pub new_booking : Env → ℕ → CreateBookingRequest → IdempotencyKey → ℕ → ℕ → Booking
new_booking env user_id request key amount until = record {
  id = env.uuid;
  user_id = user_id;
  seat_id = request.seat_id;
  event_id = request.event_id;
  status = BookingStatus.pending;
  idempotency_key = key;
  amount_paid = amount;
  stripe_payment_intent_id = none;
  expires_at = until;
  confirmed_at = none;
}

unfoldable pub create_booking_in_transaction :
    Env → ℕ → CreateBookingRequest → IdempotencyKey → ℕ → ℕ → Action Db BookingResponse
unfolding select_seat_nowait update_seat insert_booking insert_audit hold_seat new_booking
create_booking_in_transaction env user_id request key amount hold_seconds = do
  row ← select_seat_nowait env.locked request.seat_id
  seat ← or_throw row (http_error 404)
  throw_if (not (is_available seat.status)) (http_error 409)
  let until = env.now + hold_seconds * 1000
  modify (update_seat seat.id (hold_seat until))
  insert_booking (new_booking env user_id request key amount until)
  modify (insert_audit env.uuid none BookingStatus.pending Reason.booking_created)
  pure (record {
    booking_id = some env.uuid;
    status = ResponseStatus.pending;
    seat = record {
      id = seat.id;
      seat_number = some seat.seat_number;
      section = seat.section;
      row_label = some seat.row_label;
    };
    expires_at = some until;
    amount = amount;
    queue_position = none;
  })

-- A seat that a transaction has freed or sold, with what its broadcast names.
pub record FreedSeat : Type 0 where
  pub event_id : ℕ
  pub seat_id : ℕ
  pub seat_number : ℕ
  pub section : String

-- `seatResult.rows[0]` of `UPDATE seats ... RETURNING seat_number, section`. Reading a property of
-- a row that is not there throws.
unfoldable pub returning_seat : ℕ → ℕ → Action Db FreedSeat
returning_seat event_id seat_id db = elim (seat_at seat_id db) [
  | none ↦ (err other_error, db)
  | some s ↦ (
    ok (record {
      event_id = event_id;
      seat_id = seat_id;
      seat_number = s.seat_number;
      section = s.section;
    }),
    db,
  )
]

-- The transaction of `cancelBooking`.
unfoldable pub cancel_transaction : ℕ → ℕ → Action Db FreedSeat
unfolding update_booking update_seat returning_seat insert_audit free_seat set_status
cancel_transaction booking_id user_id = do
  row ← gets (λ db. find_where (λ b. b.id == booking_id && b.user_id == user_id) db.bookings)
  booking ← or_throw row (http_error 404)
  throw_if (not (is_active booking.status)) (http_error 409)
  modify (update_booking booking_id (set_status BookingStatus.cancelled))
  modify (update_seat booking.seat_id free_seat)
  freed ← returning_seat booking.event_id booking.seat_id
  modify
      (insert_audit booking_id (some booking.status) BookingStatus.cancelled Reason.user_cancelled)
  pure freed

unfoldable pub confirm_row : ℕ → ℕ → Booking → Booking
confirm_row payment_id now b = record b {
  status = BookingStatus.confirmed;
  stripe_payment_intent_id = some payment_id;
  confirmed_at = some now;
}

unfoldable pub sell_seat : Seat → Seat
sell_seat s = record s { status = SeatStatus.booked }

-- `UPDATE bookings SET ... WHERE id = $1 AND status = 'pending' RETURNING *`: the row as it was,
-- or nothing.
unfoldable pub update_pending : ℕ → (Booking → Booking) → Action Db (Option Booking)
update_pending booking_id f db = (
  ok (find_where (λ b. b.id == booking_id && is_pending b.status) db.bookings),
  record db {
    bookings = update_where (λ b. b.id == booking_id && is_pending b.status) f db.bookings;
  },
)

-- The part of `confirmBooking` behind the test for a repeated call.
unfoldable pub confirm_pending : ℕ → ℕ → ℕ → Action Db (Option FreedSeat)
unfolding update_pending update_seat returning_seat insert_audit sell_seat confirm_row
confirm_pending now booking_id payment_id = do
  row ← update_pending booking_id (confirm_row payment_id now)
  booking ← or_throw row (http_error 409)
  modify (update_seat booking.seat_id sell_seat)
  sold ← returning_seat booking.event_id booking.seat_id
  modify (
      insert_audit booking_id (some BookingStatus.pending) BookingStatus.confirmed
        Reason.payment_success)
  pure (some sold)

-- The transaction of `confirmBooking`; `none` says that the booking was confirmed before.
unfoldable pub confirm_transaction : ℕ → ℕ → ℕ → Action Db (Option FreedSeat)
unfolding confirm_pending
confirm_transaction now booking_id payment_id = do
  existing ← gets (λ db. find_where (λ b. b.id == booking_id && is_confirmed b.status) db.bookings)
  if is_some existing then pure none else confirm_pending now booking_id payment_id
