-- ===== src/Payment.antt =====
-- The statements of backend/src/services/payment/paymentService.ts on the database.
use ticketvault.Prelude.{
  ℕ, not, Option, none, some, ◌==◌, http_error, Action, ◌>>=◌, ◌>>◌, pure, throw_if, or_throw, gets,
  modify,
}
use ticketvault.Types.{BookingStatus, Reason, Booking, is_pending}
use ticketvault.Db.{
  Db, booking_at, update_booking, update_seat, insert_audit, free_seat, set_status,
}
use ticketvault.Booking.{update_pending}

unfoldable pub set_payment_id : ℕ → Booking → Booking
set_payment_id p b = record b { stripe_payment_intent_id = some p }

-- The second query of `initiatePayment`, which has no guard of its own.
abbrev pub record_payment_id : (uuid booking_id : ℕ) → Db → Db
record_payment_id uuid booking_id = update_booking booking_id (set_payment_id uuid)

-- `initiatePayment`: the identifier of the payment and the amount to pay. Its two queries are no
-- transaction, so another may run between them.
unfoldable pub initiate_payment : ℕ → ℕ → ℕ → Action Db (ℕ × ℕ)
unfolding update_booking set_payment_id
initiate_payment uuid booking_id user_id = do
  row ← gets (booking_at booking_id)
  booking ← or_throw row (http_error 404)
  throw_if (not (booking.user_id == user_id)) (http_error 403)
  throw_if (not (is_pending booking.status)) (http_error 409)
  modify (record_payment_id uuid booking_id)
  pure (uuid, booking.amount_paid)

unfoldable pub compensate_pending : ℕ → Option Booking → Action Db (Option (ℕ × ℕ))
unfolding update_seat insert_audit free_seat
compensate_pending booking_id none = pure none
compensate_pending booking_id (some booking) = do
  modify (update_seat booking.seat_id free_seat)
  modify (
      insert_audit booking_id (some BookingStatus.pending) BookingStatus.compensated
        Reason.payment_failed)
  pure (some (booking.event_id, booking.seat_id))

-- The transaction of `simulatePayment` for a payment that failed: the event and the seat that it
-- freed, or `none` where the booking was not pending.
unfoldable pub compensate_transaction : ℕ → Action Db (Option (ℕ × ℕ))
unfolding update_pending compensate_pending set_status
compensate_transaction booking_id = do
  row ← update_pending booking_id (set_status BookingStatus.compensated)
  compensate_pending booking_id row
