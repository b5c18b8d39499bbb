-- ===== src/Booking/Races.antt =====
-- A payment, an expiry and a cancellation of one booking, one after the other: the first wins, and
-- the second changes nothing.
use ticketvault.Prelude.{ℕ, ◌≡◌, ◌≢◌, refl, inl, inr, false, none, some, arith, ok}
use ticketvault.Types.{BookingStatus, Booking}
use ticketvault.Db.{Db, booking_at, with_transaction}
use ticketvault.Db.Invariant.{IsConsistent}
use ticketvault.Booking.{confirm_transaction}
use ticketvault.Booking.Endings.{confirm_cases, compensate_cases, expire_cases}
use ticketvault.Payment.{compensate_transaction}
use ticketvault.Expiry.{expire_transaction}

-- In consistent tables a booking that is not pending is left alone by the expiry worker and by a
-- payment that fails, which both report that they freed nothing, and a payment that succeeds
-- changes nothing.
pub settled_stays :
    (now payment_id : ℕ) (scanned b : Booking) (db : Db)
    → IsConsistent db
    → booking_at scanned.id db ≡ some b
    → b.status ≢ BookingStatus.pending
    → (with_transaction (expire_transaction scanned) db ≡ (ok false, db))
      × (with_transaction (compensate_transaction scanned.id) db ≡ (ok none, db))
      × ((with_transaction (confirm_transaction now scanned.id payment_id) db).1 ≡ db)
settled_stays now payment_id scanned b db c found over = (
  elim (expire_cases scanned db) [
    | inl same ↦ same
    | inr (x, at, pending, done) ↦ absurd (ground arith)
  ],
  elim (compensate_cases scanned.id db c) [
    | inl same ↦ same
    | inr (x, at, pending, done) ↦ absurd (ground arith)
  ],
  elim (confirm_cases now scanned.id payment_id db c) [
    | inl (x, at, confirmed, same) ↦ rw same refl
    | inr (inl (x, failed)) ↦ rw failed refl
    | inr (inr (x, s, at, pending, seat, done)) ↦ absurd (ground arith)
  ],
)
