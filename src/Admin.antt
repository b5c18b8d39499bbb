-- ===== src/Admin.antt =====
-- The routes of backend/src/routes/admin.ts: the dashboard, the audit trail of a booking, and the
-- state of a waiting queue.
pub mod Joins
use Prim.Native.String.{String}
use mathlib.Core.List
use ticketvault.Prelude.{
  ℕ, zero, ◌+◌, Bool, true, false, List, [], ◌∷◌, ◌++◌, Option, none, some, map, ◌==◌,
  if◌then◌else◌, not, ltb, leb, length, is_some,
}
use ticketvault.Types.{
  SeatStatus, BookingStatus, Seat, Booking, BookingAuditLog, EventRow, is_available, is_confirmed,
  is_pending,
}
use ticketvault.Table.{select, count_where}
use ticketvault.Table.Sorting.{order_by}
use ticketvault.Db.{Db}
use ticketvault.Redis.{Redis, seat_inventory}
use ticketvault.World.{World, as_number}

abbrev pub is_expired : BookingStatus → Bool
is_expired BookingStatus.expired = true
is_expired _ = false

abbrev pub is_compensated : BookingStatus → Bool
is_compensated BookingStatus.compensated = true
is_compensated _ = false

abbrev pub is_reserved : SeatStatus → Bool
is_reserved SeatStatus.reserved = true
is_reserved _ = false

abbrev pub is_booked : SeatStatus → Bool
is_booked SeatStatus.booked = true
is_booked _ = false

pub record BookingStats : Type 0 where
  pub total : ℕ
  pub confirmed : ℕ
  pub pending : ℕ
  pub expired : ℕ
  pub compensated : ℕ

unfoldable pub booking_stats : Db → BookingStats
booking_stats db = record {
  total = length db.bookings;
  confirmed = count_where (λ b. is_confirmed b.status) db.bookings;
  pending = count_where (λ b. is_pending b.status) db.bookings;
  expired = count_where (λ b. is_expired b.status) db.bookings;
  compensated = count_where (λ b. is_compensated b.status) db.bookings;
}

-- `COALESCE(SUM(f), 0)` over the rows that a test names
unfoldable pub sum_where {ℓ} : {A : Type ℓ} → (A → Bool) → (A → ℕ) → List A → ℕ
sum_where p f [] = 0
sum_where p f (x ∷ xs) = (if p x then f x else 0) + sum_where p f xs

unfoldable pub total_revenue : Db → ℕ
total_revenue db = sum_where (λ b. is_confirmed b.status) (λ b. b.amount_paid) db.bookings

-- The right side of a LEFT JOIN: the rows that match, or one row of NULLs.
unfoldable pub or_null {ℓ} : {A : Type ℓ} → List A → List (Option A)
or_null [] = none ∷ []
or_null (x ∷ xs) = some x ∷ map some xs

-- Each row of one side with each row of the other.
unfoldable pub pairs {ℓ κ} : {A : Type ℓ} {B : Type κ} → List A → List B → List (A × B)
pairs [] ys = []
pairs (x ∷ xs) ys = map (λ y. (x, y)) ys ++ pairs xs ys

-- The rows that the two LEFT JOINs give for one event.
unfoldable pub joined_rows : ℕ → Db → List (Option Seat × Option Booking)
joined_rows event_id db =
    pairs (or_null (select (λ s. s.event_id == event_id) db.seats))
      (or_null (select (λ b. b.event_id == event_id) db.bookings))

abbrev pub seat_is : (SeatStatus → Bool) → Option Seat × Option Booking → Bool
seat_is p (none, b) = false
seat_is p (some s, b) = p s.status

abbrev pub booking_is : (BookingStatus → Bool) → Option Seat × Option Booking → Bool
booking_is p (s, none) = false
booking_is p (s, some b) = p b.status

abbrev pub paid : Option Seat × Option Booking → ℕ
paid (s, none) = 0
paid (s, some b) = b.amount_paid

pub record EventStats : Type 0 where
  pub event_id : ℕ
  pub event_name : String
  pub venue : String
  pub total_seats : ℕ
  pub booked_count : ℕ
  pub reserved_count : ℕ
  pub available_count : ℕ
  pub confirmed_revenue : ℕ

unfoldable pub event_stats : Db → EventRow → EventStats
event_stats db e =
    let rows = joined_rows e.id db in
    record {
      event_id = e.id;
      event_name = e.name;
      venue = e.venue;
      total_seats = e.total_seats;
      booked_count = count_where (seat_is is_booked) rows;
      reserved_count = count_where (seat_is is_reserved) rows;
      available_count = count_where (seat_is is_available) rows;
      confirmed_revenue = sum_where (booking_is is_confirmed) paid rows;
    }

pub record Dashboard : Type 0 where
  pub bookings : BookingStats
  pub revenue : ℕ
  pub events : List EventStats

abbrev pub later : EventRow → EventRow → Bool
later e f = leb f.starts_at e.starts_at

-- `GET /dashboard`
unfoldable pub dashboard : Db → Dashboard
dashboard db = record {
  bookings = booking_stats db;
  revenue = total_revenue db;
  events = map (event_stats db) (order_by later db.events);
}

-- `GET /audit/:bookingId`. The table holds the newest row first.
unfoldable pub audit_trail : ℕ → Db → List BookingAuditLog
audit_trail booking_id db = List.reverse (select (λ a. a.booking_id == booking_id) db.audit)

pub record QueueStatus : Type 0 where
  pub queue_depth : ℕ
  pub redis_inventory : Option ℕ

-- `GET /queue/:eventId`
unfoldable pub queue_status : (R : Redis) → ℕ → World R.Store → QueueStatus
queue_status R event_id w = record {
  queue_depth = length (R.zrange w.redis event_id);
  redis_inventory = as_number (R.get w.redis (seat_inventory event_id));
}
