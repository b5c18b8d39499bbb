-- ===== src/Booking/Endings/Calls.antt =====
-- How the transactions end that cancel and confirm a booking, and that they keep the invariant.
use ticketvault.Prelude.{
  ℕ, ◌≡◌, refl, ◌⊎◌, inl, inr, true, ◌&&◌, none, some, arith, ◌==◌, Error, ok, err, http_error,
  Bool-cases, Option-cases,
}
use ticketvault.Types.{
  SeatStatus, BookingStatus, Reason, Seat, Booking, is_pending, is_confirmed, is_active,
}
use ticketvault.Table.{find_where}
use ticketvault.Table.Keyed.{find-and, update-and, find-update}
use ticketvault.Db.{
  Db, seat_key, booking_key, seat_at, booking_at, update_booking, free_seat, with_transaction,
}
use ticketvault.Db.Invariant.{IsConsistent}
use ticketvault.Db.Moved.{moved, moved-IsConsistent}
use ticketvault.Booking.{cancel_transaction, confirm_transaction, confirm_row, sell_seat}
use ticketvault.Booking.Endings.Moves.{active_seat, freed_seat, selling, ended, ended-IsConsistent}

-- A cancellation either fails and changes nothing, or ends the caller's active booking.
pub cancel_cases :
    (k user_id : ℕ) (db : Db)
    → IsConsistent db
    → let r = with_transaction (cancel_transaction k user_id) db in
      ((e : Error) × (r ≡ (err e, db)))
      ⊎ ((b : Booking) × (s : Seat) × (booking_at k db ≡ some b)
          × (b.user_id ≡ user_id)
          × (is_active b.status ≡ true)
          × (seat_at b.seat_id db ≡ some s)
          × (r ≡ (
            ok (freed_seat b s),
            ended k BookingStatus.cancelled b (some b.status) Reason.user_cancelled db,
          )))
unfolding with_transaction cancel_transaction
cancel_cases k user_id db c =
    elim (Option-cases (find_where (λ b. b.id == k && b.user_id == user_id) db.bookings)) [
      | inl absent ↦ inl (http_error 404, ground arith)
      | inr (b, found) ↦ elim (Bool-cases (is_active b.status)) [
        | inr over ↦ inl (http_error 409, ground arith)
        | inl active ↦
            let (at, own) =
              find-and booking_key (λ x. x.user_id == user_id) k db.bookings b found
                (c.booking_once k) in
            let (s, seat) = active_seat db k b c at active in
            inr (
              b,
              s,
              at,
              ground arith,
              active,
              seat,
              ground
                  (arith, find-update seat_key b.seat_id b.seat_id free_seat db.seats (λ x. refl)),
            )
      ]
    ]

-- Confirming finds the booking confirmed already, fails and changes nothing, or confirms a pending
-- booking and sells its seat.
pub confirm_cases :
    (now k payment_id : ℕ) (db : Db)
    → IsConsistent db
    → let r = with_transaction (confirm_transaction now k payment_id) db in
      ((b : Booking) × (booking_at k db ≡ some b)
        × (b.status ≡ BookingStatus.confirmed)
        × (r ≡ (ok none, db)))
      ⊎ (((e : Error) × (r ≡ (err e, db)))
          ⊎ ((b : Booking) × (s : Seat) × (booking_at k db ≡ some b)
              × (b.status ≡ BookingStatus.pending)
              × (seat_at b.seat_id db ≡ some s)
              × (r ≡ (
                ok (some (freed_seat b s)),
                moved
                    (confirm_row payment_id now)
                    sell_seat
                    BookingStatus.confirmed
                    SeatStatus.booked
                    (selling payment_id now)
                    k
                    b
                    (some BookingStatus.pending)
                    Reason.payment_success
                    db,
              ))))
unfolding with_transaction confirm_transaction update_booking
confirm_cases now k payment_id db c =
    elim (Option-cases (find_where (λ b. b.id == k && is_confirmed b.status) db.bookings)) [
      | inr (b, found) ↦
          let (at, done) =
            find-and booking_key (λ x. is_confirmed x.status) k db.bookings b found
              (c.booking_once k) in
          inl (b, at, ground arith, ground arith)
      | inl new ↦
          inr
            (elim (Option-cases (find_where (λ b. b.id == k && is_pending b.status) db.bookings)) [
              | inl absent ↦ inl (http_error 409, ground arith)
              | inr (b, found) ↦
                  let (at, pending) =
                    find-and booking_key (λ x. is_pending x.status) k db.bookings b found
                      (c.booking_once k) in
                  let (s, seat) = active_seat db k b c at (ground arith) in
                  inr (
                    b,
                    s,
                    at,
                    ground arith,
                    seat,
                    ground (
                      arith,
                      update-and booking_key (λ x. is_pending x.status) k
                          (confirm_row payment_id now) db.bookings b found (c.booking_once k),
                      find-update seat_key b.seat_id b.seat_id sell_seat db.seats (λ x. refl),
                    ),
                  )
            ])
    ]

pub cancel-IsConsistent :
    (k user_id : ℕ) (db : Db)
    → IsConsistent db
    → IsConsistent (with_transaction (cancel_transaction k user_id) db).1
cancel-IsConsistent k user_id db c = elim (cancel_cases k user_id db c) [
  | inl (e, failed) ↦ rw failed c
  | inr (b, s, found, own, active, seat, done) ↦
      rw done (ended-IsConsistent k BookingStatus.cancelled db b _ _ c found active refl)
]

pub confirm-IsConsistent :
    (now k payment_id : ℕ) (db : Db)
    → IsConsistent db
    → IsConsistent (with_transaction (confirm_transaction now k payment_id) db).1
confirm-IsConsistent now k payment_id db c = elim (confirm_cases now k payment_id db c) [
  | inl (b, found, confirmed, same) ↦ rw same c
  | inr (inl (e, failed)) ↦ rw failed c
  | inr (inr (b, s, found, pending, seat, done)) ↦ rw done (
      moved-IsConsistent (confirm_row payment_id now) sell_seat BookingStatus.confirmed
        SeatStatus.booked (selling payment_id now) k db c b found (ground arith) _ _)
]
