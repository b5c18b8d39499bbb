-- ===== src/Db.antt =====
-- The tables that the booking side of the program shares, with the constraints of
-- backend/src/db/migrate.ts, the statements on them that more than one service runs, and
-- `withTransaction` of backend/src/db/index.ts.
pub mod Invariant
pub mod Moved
use ticketvault.Prelude.{
  ℕ, Bool, false, List, ◌∷◌, Option, none, some, ◌&&◌, ◌==◌, if◌then◌else◌, is_some, ok, err,
  lock_not_available, unique_violation, bookings_pkey, bookings_idempotency_key_key,
  uniq_active_booking_per_seat, Action,
}
use ticketvault.Types.{
  SeatStatus, BookingStatus, Reason, Seat, Booking, BookingAuditLog, EventRow, IdempotencyKey,
  client, waitlist, is_active,
}
use ticketvault.Table.{find_where, update_where}
use ticketvault.Table.Keyed.{at_key}

pub record Db : Type 0 where
  pub events : List EventRow
  pub seats : List Seat
  pub bookings : List Booking
  pub audit : List BookingAuditLog

abbrev pub seat_key : Seat → ℕ
seat_key s = s.id

abbrev pub booking_key : Booking → ℕ
booking_key b = b.id

abbrev pub seat_at : ℕ → Db → Option Seat
seat_at k db = find_where (at_key seat_key k) db.seats

abbrev pub booking_at : ℕ → Db → Option Booking
booking_at k db = find_where (at_key booking_key k) db.bookings

abbrev pub same_key : IdempotencyKey → IdempotencyKey → Bool
same_key (client u k) (client v j) = u == v && k == j
same_key (waitlist e u t) (waitlist f v s) = e == f && u == v && t == s
same_key _ _ = false

-- `SELECT * FROM seats WHERE id = $1 FOR UPDATE NOWAIT`, where `locked` says whether another
-- transaction holds the lock on the row.
unfoldable pub select_seat_nowait : (ℕ → Bool) → ℕ → Action Db (Option Seat)
select_seat_nowait locked k db = elim (seat_at k db) [
  | none ↦ (ok none, db)
  | some s ↦ (if locked k then err lock_not_available else ok (some s), db)
]

-- `UPDATE seats SET ... WHERE id = $1`
unfoldable pub update_seat : ℕ → (Seat → Seat) → Db → Db
update_seat k f db = record db { seats = update_where (at_key seat_key k) f db.seats }

-- `UPDATE bookings SET ... WHERE id = $1`
unfoldable pub update_booking : ℕ → (Booking → Booking) → Db → Db
update_booking k f db = record db { bookings = update_where (at_key booking_key k) f db.bookings }

-- The rows that the partial unique index counts for a seat.
abbrev pub holds_seat : ℕ → Booking → Bool
holds_seat k b = b.seat_id == k && is_active b.status

-- `INSERT INTO bookings`, refused by the primary key, by the unique key of the request, and by the
-- partial unique index on the active bookings of a seat.
unfoldable pub insert_booking : Booking → Action Db (Unit {0})
insert_booking b db =
    if is_some (booking_at b.id db)
    then (err (unique_violation bookings_pkey), db)
    else if is_some (find_where (λ c. same_key b.idempotency_key c.idempotency_key) db.bookings)
    then (err (unique_violation bookings_idempotency_key_key), db)
    else if is_active b.status && is_some (find_where (holds_seat b.seat_id) db.bookings)
    then (err (unique_violation uniq_active_booking_per_seat), db)
    else (ok tt, record db { bookings = b ∷ db.bookings })

-- `INSERT INTO booking_audit_log`: the newest row stands first.
unfoldable pub insert_audit : ℕ → Option BookingStatus → BookingStatus → Reason → Db → Db
insert_audit k old new why db = record db {
  audit = record { booking_id = k; old_status = old; new_status = new; reason = why } ∷ db.audit;
}

-- `UPDATE seats SET status = 'available', reserved_until = NULL`
unfoldable pub free_seat : Seat → Seat
free_seat s = record s { status = SeatStatus.available; reserved_until = none }

unfoldable pub set_status : BookingStatus → Booking → Booking
set_status t b = record b { status = t }

-- `withTransaction`: BEGIN, the body, then COMMIT, or ROLLBACK and throw again.
unfoldable pub with_transaction : {A : Type 0} → Action Db A → Action Db A
with_transaction body db =
    let (r, db') = body db in elim r [ ok a ↦ (ok a, db') | err e ↦ (err e, db) ]
