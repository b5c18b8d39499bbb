-- ===== src/Types.antt =====
-- The domain types of backend/src/types/index.ts, as the tables of backend/src/db/migrate.ts store
-- them. A UUID, an email or a client's key is only compared, and is a number. Money is in cents and
-- a time in milliseconds since the epoch.
use Prim.Native.String.{String}
use ticketvault.Prelude.{ℕ, Bool, true, false, Option}

pub data SeatStatus : Type 0 where
  available reserved booked : SeatStatus

pub data BookingStatus : Type 0 where
  pending confirmed cancelled expired compensated : BookingStatus

pub data EventStatus : Type 0 where
  draft published cancelled completed : EventStatus

pub data Role : Type 0 where
  user admin : Role

abbrev pub is_available : SeatStatus → Bool
is_available SeatStatus.available = true
is_available _ = false

abbrev pub is_pending : BookingStatus → Bool
is_pending BookingStatus.pending = true
is_pending _ = false

abbrev pub is_confirmed : BookingStatus → Bool
is_confirmed BookingStatus.confirmed = true
is_confirmed _ = false

-- `status IN ('pending','confirmed')`
abbrev pub is_active : BookingStatus → Bool
is_active BookingStatus.pending = true
is_active BookingStatus.confirmed = true
is_active _ = false

abbrev pub is_published : EventStatus → Bool
is_published EventStatus.published = true
is_published _ = false

pub record Seat : Type 0 where
  pub id : ℕ
  pub event_id : ℕ
  pub seat_number : ℕ
  pub section : String
  pub row_label : ℕ
  pub status : SeatStatus
  pub reserved_until : Option ℕ
  pub version : ℕ

-- The key of a client's request within its user, or of an offer to a waiter.
pub data IdempotencyKey : Type 0 where
  client : ℕ → ℕ → IdempotencyKey
  waitlist : ℕ → ℕ → ℕ → IdempotencyKey

pub record Booking : Type 0 where
  pub id : ℕ
  pub user_id : ℕ
  pub seat_id : ℕ
  pub event_id : ℕ
  pub status : BookingStatus
  pub idempotency_key : IdempotencyKey
  pub amount_paid : ℕ
  pub stripe_payment_intent_id : Option ℕ
  pub expires_at : ℕ
  pub confirmed_at : Option ℕ

pub data Reason : Type 0 where
  booking_created user_cancelled payment_success payment_failed reservation_ttl_exceeded : Reason

pub record BookingAuditLog : Type 0 where
  pub booking_id : ℕ
  pub old_status : Option BookingStatus
  pub new_status : BookingStatus
  pub reason : Reason

-- A row of the table `events`.
pub record EventRow : Type 0 where
  pub id : ℕ
  pub name : String
  pub venue : String
  pub total_seats : ℕ
  pub base_price : ℕ
  pub starts_at : ℕ
  pub ends_at : ℕ
  pub status : EventStatus

-- What the event service returns: a row with the count of free seats and the price.
pub record Event : Type 0 where
  pub row : EventRow
  pub available_seats : ℕ
  pub current_price : ℕ

pub record CreateBookingRequest : Type 0 where
  pub event_id : ℕ
  pub seat_id : ℕ

pub data ResponseStatus : Type 0 where
  pending queued : ResponseStatus

-- `Pick<Seat, ...>`; a request that is queued gets empty texts for the three labels.
pub record SeatLabel : Type 0 where
  pub id : ℕ
  pub seat_number : Option ℕ
  pub section : String
  pub row_label : Option ℕ

-- `booking_id` is absent where the source has the empty text. The `message` is left out.
pub record BookingResponse : Type 0 where
  pub booking_id : Option ℕ
  pub status : ResponseStatus
  pub seat : SeatLabel
  pub expires_at : Option ℕ
  pub amount : ℕ
  pub queue_position : Option ℕ
