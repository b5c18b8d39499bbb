-- ===== src/Db/Invariant.antt =====
-- The invariant of the booking tables, which every transaction keeps.
use ticketvault.Prelude.{ℕ, ◌≤◌, ◌≡◌, Bool, List, Option, none, some, ◌&&◌, ◌==◌}
use mathlib.Core.Option
use ticketvault.Types.{
  SeatStatus, BookingStatus, Seat, Booking, BookingAuditLog, is_pending, is_confirmed,
}
use ticketvault.Table.{find_where, count_where}
use ticketvault.Table.Keyed.{at_key}
use ticketvault.Db.{Db, seat_key, booking_key, seat_at, booking_at}

abbrev pub pending_on : ℕ → Booking → Bool
pending_on k b = b.seat_id == k && is_pending b.status

abbrev pub confirmed_on : ℕ → Booking → Bool
confirmed_on k b = b.seat_id == k && is_confirmed b.status

-- How many pending and how many confirmed bookings a seat of this status has.
abbrev pub held_by : SeatStatus → ℕ
held_by SeatStatus.reserved = 1
held_by _ = 0

abbrev pub sold_by : SeatStatus → ℕ
sold_by SeatStatus.booked = 1
sold_by _ = 0

abbrev pub of_seat : (SeatStatus → ℕ) → Option Seat → ℕ
of_seat f none = 0
of_seat f (some s) = f s.status

abbrev pub status_of : Option Booking → Option BookingStatus
status_of none = none
status_of (some b) = some b.status

abbrev pub about : ℕ → BookingAuditLog → Bool
about k a = a.booking_id == k

abbrev pub last_logged : ℕ → List BookingAuditLog → Option BookingStatus
last_logged k log = Option.map (λ a. a.new_status) (find_where (about k) log)

-- Keys are unique; a seat is reserved, booked or free exactly as it has one pending, one confirmed
-- or no active booking; and the last audit row of a booking shows its status.
pub record IsConsistent (db : Db) : Type 0 where
  pub seat_once : (k : ℕ) → count_where (at_key seat_key k) db.seats ≤ 1
  pub booking_once : (k : ℕ) → count_where (at_key booking_key k) db.bookings ≤ 1
  pub held : (k : ℕ) → count_where (pending_on k) db.bookings ≡ of_seat held_by (seat_at k db)
  pub sold : (k : ℕ) → count_where (confirmed_on k) db.bookings ≡ of_seat sold_by (seat_at k db)
  pub audited : (k : ℕ) → status_of (booking_at k db) ≡ last_logged k db.audit
