-- ===== src/Booking/Creation.antt =====
-- `_createBookingInTransaction` under `withTransaction`: how it can end, that it keeps the
-- invariant, and that under the invariant the partial unique index never has to refuse it.
use ticketvault.Prelude.{
  ℕ, ◌+◌, ◌*◌, ◌≡◌, ◌≢◌, refl, ◌⊎◌, inl, inr, List, [], ◌∷◌, none, some, arith, is_some, Error,
  Result, ok, err, http_error, lock_not_available, unique_violation, bookings_pkey,
  bookings_idempotency_key_key, uniq_active_booking_per_seat, Bool-cases, Option-cases,
}
use ticketvault.Types.{
  SeatStatus, BookingStatus, Reason, Seat, Booking, IdempotencyKey, CreateBookingRequest,
  BookingResponse, ResponseStatus, is_available,
}
use ticketvault.Table.{find_where, update_where, count_where}
use ticketvault.Table.Keyed.{at_key, find-update, find-key, count_key-update, count-find_none}
use ticketvault.Db.{
  Db, seat_key, booking_key, seat_at, booking_at, same_key, holds_seat, insert_audit,
  with_transaction,
}
use ticketvault.Db.Invariant.{IsConsistent, pending_on, confirmed_on}
use ticketvault.Booking.{Env, hold_seat, new_booking, create_booking_in_transaction}

module _ (env : Env) (user_id : ℕ) (request : CreateBookingRequest) (key : IdempotencyKey)
    (amount hold_seconds : ℕ) where
  abbrev pub until : ℕ
  until = env.now + hold_seconds * 1000

  -- The database after a booking that went through.
  abbrev pub created : Db → Db
  created db = insert_audit env.uuid none BookingStatus.pending Reason.booking_created (record db {
    seats = update_where (at_key seat_key request.seat_id) (hold_seat until) db.seats;
    bookings = new_booking env user_id request key amount until ∷ db.bookings;
  })

  abbrev pub booked_response : Seat → BookingResponse
  booked_response s = record {
    booking_id = some env.uuid;
    status = ResponseStatus.pending;
    seat = record {
      id = s.id;
      seat_number = some s.seat_number;
      section = s.section;
      row_label = some s.row_label;
    };
    expires_at = some until;
    amount = amount;
    queue_position = none;
  }

  abbrev pub attempt : Db → Result BookingResponse × Db
  attempt =
      with_transaction (create_booking_in_transaction env user_id request key amount hold_seconds)

  pub attempt_cases :
      (db : Db)
      → ((e : Error) × (attempt db ≡ (err e, db)))
        ⊎ ((s : Seat) × (seat_at request.seat_id db ≡ some s)
            × (s.status ≡ SeatStatus.available)
            × (booking_at env.uuid db ≡ none)
            × (find_where (holds_seat request.seat_id) db.bookings ≡ none)
            × (attempt db ≡ (ok (booked_response s), created db)))
  unfolding with_transaction create_booking_in_transaction
  attempt_cases db = elim (Option-cases (seat_at request.seat_id db)) [
    | inl absent ↦ inl (http_error 404, ground arith)
    | inr (s, found) ↦ elim (Bool-cases (env.locked request.seat_id)) [
      | inl taken ↦ inl (lock_not_available, ground arith)
      | inr unlocked ↦ elim (Bool-cases (is_available s.status)) [
        | inr unavailable ↦ inl (http_error 409, ground arith)
        | inl free ↦ elim (Bool-cases (is_some (booking_at env.uuid db))) [
          | inl used ↦ inl (unique_violation bookings_pkey, ground arith)
          | inr fresh ↦
              elim (Bool-cases
                (is_some (find_where (λ c. same_key key c.idempotency_key) db.bookings))) [
                  | inl repeated ↦ inl (unique_violation bookings_idempotency_key_key, ground arith)
                  | inr new ↦
                      elim (Bool-cases
                        (is_some (find_where (holds_seat request.seat_id) db.bookings))) [
                          | inl held ↦
                              inl (unique_violation uniq_active_booking_per_seat, ground arith)
                          | inr unheld ↦ inr (
                            s,
                            found,
                            ground arith,
                            ground arith,
                            ground arith,
                            ground
                                (arith, find-key seat_key request.seat_id db.seats {x = s} found),
                          )
                        ]
                ]
        ]
      ]
    ]
  ]

  created-IsConsistent :
      (db : Db) (s : Seat)
      → IsConsistent db
      → seat_at request.seat_id db ≡ some s
      → s.status ≡ SeatStatus.available
      → booking_at env.uuid db ≡ none
      → IsConsistent (created db)
  unfolding insert_audit find_where count_where new_booking hold_seat
  created-IsConsistent db s c found free fresh = record {
    seat_once = λ j.
        rw (count_key-update seat_key request.seat_id j (hold_seat until) db.seats (λ x. refl))
          (c.seat_once j);
    booking_once = λ j.
        ground (arith, c.booking_once j, count-find_none booking_key env.uuid db.bookings fresh);
    held = λ j. ground (
      arith,
      c.held j,
      find-update seat_key request.seat_id j (hold_seat until) db.seats (λ x. refl),
    );
    sold = λ j. ground (
      arith,
      c.sold j,
      find-update seat_key request.seat_id j (hold_seat until) db.seats (λ x. refl),
    );
    audited = λ j. ground (arith, c.audited j);
  }

  -- Creating a booking keeps the invariant, whether it goes through or fails.
  pub attempt-IsConsistent : (db : Db) → IsConsistent db → IsConsistent (attempt db).1
  attempt-IsConsistent db c = elim (attempt_cases db) [
    | inl (e, failed) ↦ rw failed c
    | inr (s, found, free, fresh, unheld, done) ↦
        rw done (created-IsConsistent db s c found free fresh)
  ]

unheld_of_counts :
    (k : ℕ) (bs : List Booking)
    → count_where (pending_on k) bs ≡ 0
    → count_where (confirmed_on k) bs ≡ 0
    → find_where (holds_seat k) bs ≡ none
unfolding find_where count_where
unheld_of_counts k [] p q = refl
unheld_of_counts k (b ∷ bs) p q = ground (arith, unheld_of_counts k bs)

-- In a consistent database the partial unique index never has to refuse a booking.
pub attempt-ne-uniq_active :
    (env : Env) (user_id : ℕ) (request : CreateBookingRequest) (key : IdempotencyKey)
    (amount hold_seconds : ℕ) (db : Db)
    → IsConsistent db
    → (attempt env user_id request key amount hold_seconds db).0
      ≢ err (unique_violation uniq_active_booking_per_seat)
unfolding with_transaction create_booking_in_transaction
attempt-ne-uniq_active env user_id request key amount hold_seconds db c = ground (
  arith,
  c.held request.seat_id,
  c.sold request.seat_id,
  unheld_of_counts request.seat_id db.bookings,
  find-key seat_key request.seat_id db.seats,
)
