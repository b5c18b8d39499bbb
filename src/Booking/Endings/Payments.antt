-- ===== src/Booking/Endings/Payments.antt =====
-- How the transactions of a payment end, and that they keep the invariant.
use ticketvault.Prelude.{
  ℕ, ◌≡◌, refl, ◌⊎◌, inl, inr, ◌&&◌, none, some, arith, ◌==◌, Error, ok, err, http_error,
  Bool-cases, Option-cases,
}
use ticketvault.Types.{BookingStatus, Reason, Booking, is_pending}
use ticketvault.Table.{find_where}
use ticketvault.Table.Keyed.{find-and, update-and, update_none}
use ticketvault.Db.{Db, booking_key, booking_at, update_booking, set_status, with_transaction}
use ticketvault.Db.Invariant.{IsConsistent}
use ticketvault.Payment.{compensate_transaction, initiate_payment, set_payment_id}
use ticketvault.Booking.Endings.Moves.{ended, ended-IsConsistent}

-- Compensating changes nothing unless the booking is pending, and then frees its seat.
pub compensate_cases :
    (k : ℕ) (db : Db)
    → IsConsistent db
    → let r = with_transaction (compensate_transaction k) db in
      (r ≡ (ok none, db))
      ⊎ ((b : Booking) × (booking_at k db ≡ some b)
          × (b.status ≡ BookingStatus.pending)
          × (r ≡ (
            ok (some (b.event_id, b.seat_id)),
            ended k BookingStatus.compensated b
                (some BookingStatus.pending)
                Reason.payment_failed
                db,
          )))
unfolding with_transaction compensate_transaction update_booking
compensate_cases k db c =
    elim (Option-cases (find_where (λ b. b.id == k && is_pending b.status) db.bookings)) [
      | inl absent ↦ inl (
          ground (
            arith,
            update_none (λ b. b.id == k && is_pending b.status)
                (set_status BookingStatus.compensated) db.bookings absent,
          ))
      | inr (b, found) ↦
          let (at, pending) =
            find-and booking_key (λ x. is_pending x.status) k db.bookings b found
              (c.booking_once k) in
          inr (
            b,
            at,
            ground arith,
            (ground (
              arith,
              update-and booking_key (λ x. is_pending x.status) k
                  (set_status BookingStatus.compensated) db.bookings b found (c.booking_once k),
            )),
          )
    ]

pub compensate-IsConsistent :
    (k : ℕ) (db : Db)
    → IsConsistent db
    → IsConsistent (with_transaction (compensate_transaction k) db).1
compensate-IsConsistent k db c = elim (compensate_cases k db c) [
  | inl same ↦ rw same c
  | inr (b, found, pending, done) ↦
      rw done (ended-IsConsistent k BookingStatus.compensated db b _ _ c found (ground arith) refl)
]

abbrev pub paying : ℕ → ℕ → Db → Db
paying k uuid db = update_booking k (set_payment_id uuid) db

pub initiate_cases :
    (uuid k user_id : ℕ) (db : Db)
    → let r = initiate_payment uuid k user_id db in
      ((e : Error) × (r ≡ (err e, db)))
      ⊎ ((b : Booking) × (booking_at k db ≡ some b)
          × (b.user_id ≡ user_id)
          × (b.status ≡ BookingStatus.pending)
          × (r ≡ (ok (uuid, b.amount_paid), paying k uuid db)))
unfolding initiate_payment
initiate_cases uuid k user_id db = elim (Option-cases (booking_at k db)) [
  | inl absent ↦ inl (http_error 404, ground arith)
  | inr (b, found) ↦ elim (Bool-cases (b.user_id == user_id)) [
    | inr other ↦ inl (http_error 403, ground arith)
    | inl own ↦ elim (Bool-cases (is_pending b.status)) [
      | inr over ↦ inl (http_error 409, ground arith)
      | inl pending ↦ inr (b, found, ground arith, ground arith, ground arith)
    ]
  ]
]
