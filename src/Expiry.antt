-- ===== src/Expiry.antt =====
-- The statements of backend/src/workers/expiryWorker.ts on the database.
use ticketvault.Prelude.{
  ℕ, zero, suc, Bool, true, false, List, [], ◌∷◌, Option, none, some, ◌&&◌, if◌then◌else◌, ltb,
  Action, ◌>>=◌, ◌>>◌, pure, gets, modify,
}
use ticketvault.Types.{BookingStatus, Reason, Booking, is_pending}
use ticketvault.Table.{select}
use ticketvault.Db.{
  Db, booking_at, update_booking, update_seat, insert_audit, free_seat, set_status,
}

-- `WHERE status = 'pending' AND expires_at < now()`
unfoldable pub is_overdue : ℕ → Booking → Bool
is_overdue now b = is_pending b.status && ltb b.expires_at now

-- `LIMIT n`
unfoldable pub limit {ℓ} : {A : Type ℓ} → ℕ → List A → List A
limit zero xs = []
limit (suc n) [] = []
limit (suc n) (x ∷ xs) = x ∷ limit n xs

-- The scan of `processExpiredReservations`.
unfoldable pub expired_bookings : ℕ → Db → List Booking
unfolding is_overdue limit select
expired_bookings now db = limit 100 (select (is_overdue now) db.bookings)

unfoldable pub expire_pending : Booking → Action Db Bool
unfolding update_booking update_seat insert_audit free_seat set_status
expire_pending booking = do
  modify (update_booking booking.id (set_status BookingStatus.expired))
  modify (update_seat booking.seat_id free_seat)
  modify (
      insert_audit booking.id (some BookingStatus.pending) BookingStatus.expired
        Reason.reservation_ttl_exceeded)
  pure true

-- `!check.rows.length || check.rows[0].status !== 'pending'`, negated.
abbrev pub still_pending : Option Booking → Bool
still_pending none = false
still_pending (some b) = is_pending b.status

-- The transaction of `_expireSingleBooking`, for a row that the scan found.
unfoldable pub expire_transaction : Booking → Action Db Bool
unfolding expire_pending
expire_transaction booking = do
  check ← gets (booking_at booking.id)
  if still_pending check then expire_pending booking else pure false
