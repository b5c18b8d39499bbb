-- ===== src/Booking/Endings/Worker.antt =====
-- How the transaction of the expiry worker ends, and that it keeps the invariant.
use ticketvault.Prelude.{
  ◌≡◌, refl, ◌⊎◌, inl, inr, true, false, some, arith, ok, Bool-cases, Option-cases,
}
use ticketvault.Types.{BookingStatus, Reason, Booking, is_pending}
use ticketvault.Db.{Db, booking_at, with_transaction}
use ticketvault.Db.Invariant.{IsConsistent}
use ticketvault.Expiry.{expire_transaction}
use ticketvault.Booking.Endings.Moves.{ended, ended-IsConsistent}

-- The worker changes nothing unless the booking is still pending, and then frees the seat of the
-- row that it scanned.
pub expire_cases :
    (scanned : Booking) (db : Db)
    → let r = with_transaction (expire_transaction scanned) db in
      (r ≡ (ok false, db))
      ⊎ ((b : Booking) × (booking_at scanned.id db ≡ some b)
          × (b.status ≡ BookingStatus.pending)
          × (r ≡ (
            ok true,
            ended scanned.id BookingStatus.expired scanned
                (some BookingStatus.pending)
                Reason.reservation_ttl_exceeded
                db,
          )))
unfolding with_transaction expire_transaction
expire_cases scanned db = elim (Option-cases (booking_at scanned.id db)) [
  | inl absent ↦ inl (ground arith)
  | inr (b, found) ↦ elim (Bool-cases (is_pending b.status)) [
    | inr over ↦ inl (ground arith)
    | inl pending ↦ inr (b, found, ground arith, ground arith)
  ]
]

-- The row that the worker scanned need not be current, but it names the seat of its booking.
pub expire-IsConsistent :
    (scanned : Booking) (db : Db)
    → IsConsistent db
    → ((b : Booking) → booking_at scanned.id db ≡ some b → b.seat_id ≡ scanned.seat_id)
    → IsConsistent (with_transaction (expire_transaction scanned) db).1
expire-IsConsistent scanned db c same_seat = elim (expire_cases scanned db) [
  | inl same ↦ rw same c
  | inr (b, found, pending, done) ↦
      rw (done, ← same_seat b found)
        (ended-IsConsistent scanned.id BookingStatus.expired db b _ _ c found (ground arith) refl)
]
