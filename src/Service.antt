-- ===== src/Service.antt =====
-- The handlers of backend/src/services/booking/bookingService.ts, around the transactions of
-- Booking.antt.
pub mod Stock
pub mod Answered
pub mod Offered
pub mod Paths
pub mod Histories
pub mod InStep
pub mod Transactions
pub mod Refines
pub mod Foreign
pub mod Settle
pub mod Booked
pub mod Freed
pub mod Waiting
pub mod Fairness
pub mod Keys
use ticketvault.Prelude.{
  ℕ, zero, suc, ◌+◌, ◌*◌, Bool, true, false, not, List, [], ◌∷◌, ◌++◌, Option, none, some, map,
  ◌==◌, ltb, if◌then◌else◌, Result, ok, err, Error, http_error, other_error, Action, ◌>>=◌, ◌>>◌,
  pure, throw, throw_if, gets,
}
use ticketvault.Types.{
  SeatStatus, IdempotencyKey, client, waitlist, CreateBookingRequest, BookingResponse,
  ResponseStatus, Event, is_published,
}
use ticketvault.Db.{Db, seat_at}
use ticketvault.Redis.{
  Redis, Key, seat_inventory, seat_offers, reservation, idempotency, Value, number, processing,
  answer, hold_of, Waiter,
}
use ticketvault.Scripts.{
  Remaining, missing, sold_out, left, atomic_decrement, release_and_notify, join_waitlist,
  claim_idempotency_key,
}
use ticketvault.World.{
  World, Message, seat_updated, inventory_updated, waitlist_offered, seat_available, on_redis,
  command, in_transaction, emit, catch, as_number,
}
use ticketvault.Events.{get_event_cached, init_redis_inventory, price_of}
use ticketvault.Offers.{Config, offer_freed_seat}
use ticketvault.Booking.{
  Env, FreedSeat, create_booking_in_transaction, cancel_transaction, confirm_transaction,
}

-- `IDEMPOTENCY_PROCESSING_TTL`, and `config.reservation.idempotencyTtlSeconds`
abbrev pub processing_ttl_seconds : ℕ
processing_ttl_seconds = 30

abbrev pub idempotency_ttl_seconds : ℕ
idempotency_ttl_seconds = 86400

abbrev pub max_wait_ms : ℕ
max_wait_ms = 10000

-- What a call that waits for another meets: the time that has passed at each test of the loop, and
-- what the keys hold when a pause of the loop is over, as other calls have left them.
pub record Polls : Type 0 where
  pub elapsed : ℕ → ℕ
  pub later : ℕ → Key → Option Value

-- What a key holds in the round `i`, where it holds `v` now.
abbrev pub value_at : Polls → Key → Option Value → ℕ → Option Value
value_at p key v zero = v
value_at p key v (suc i) = p.later i key

-- The loop of `_waitForIdempotentResponse` for a key that holds `v` as it starts, with fuel, from its
-- round `i` on; `none` if the fuel runs out.
unfoldable pub wait_loop : Polls → Key → Option Value → ℕ → ℕ → Option (Result BookingResponse)
wait_loop p key v zero i = none
wait_loop p key v (suc fuel) i = elim (ltb (p.elapsed i) max_wait_ms) [
  | false ↦ some (err (http_error 409))
  | true ↦ elim (value_at p key v i) [
    | none ↦ some (err (http_error 409))
    | some processing ↦ wait_loop p key v fuel (suc i)
    | some (answer r) ↦ some (ok r)
    | some _ ↦ some (err other_error)
  ]
]

-- `_waitForIdempotentResponse`. A round takes at least the poll interval of 200 ms, so 51 rounds outlast
-- the wait.
unfoldable pub wait_for_idempotent_response :
    (R : Redis) → Polls → Key → Action (World R.Store) BookingResponse
wait_for_idempotent_response R p key w = elim (wait_loop p key (R.get w.redis key) 51 0) [
  | none ↦ (err other_error, w)
  | some (ok r) ↦ (ok r, w)
  | some (err e) ↦ (err e, w)
]

module _ (R : Redis) (cfg : Config) where
  open R use {Store, get, zrange, setex, del, incr, zadd_nx, zrem}

  -- The answer to a request that its key has been used for before.
  unfoldable pub replay :
      Polls → ℕ → CreateBookingRequest → ℕ → Action (World Store) BookingResponse
  replay polls user_id request key = do
    cached ← wait_for_idempotent_response R polls (idempotency user_id key)
    throw_if (not (cached.seat.id == request.seat_id)) (http_error 422)
    pure cached

  abbrev pub queued_response : CreateBookingRequest → ℕ → Option ℕ → BookingResponse
  queued_response request amount position = record {
    booking_id = none;
    status = ResponseStatus.queued;
    seat = record { id = request.seat_id; seat_number = none; section = ""; row_label = none };
    expires_at = none;
    amount = amount;
    queue_position = position;
  }

  -- `remaining === -1`
  unfoldable pub enqueue :
      Env → ℕ → CreateBookingRequest → ℕ → ℕ → Action (World Store) BookingResponse
  enqueue env user_id request key amount = do
    position ← on_redis (join_waitlist R request.event_id env.now user_id)
    let response = queued_response request amount position
    command (setex (idempotency user_id key) idempotency_ttl_seconds (answer response))
    pure response

  -- `remaining === -2`
  unfoldable pub initialize : ℕ → CreateBookingRequest → ℕ → Action (World Store) BookingResponse
  initialize user_id request key = do
    init_redis_inventory R request.event_id
    command (del (idempotency user_id key))
    throw (http_error 503)

  -- `try { withTransaction ... } catch { incr; del; throw }`
  unfoldable pub book :
      Env → ℕ → CreateBookingRequest → ℕ → ℕ → Action (World Store) BookingResponse
  book env user_id request key amount =
      catch
        (in_transaction (
          create_booking_in_transaction env user_id request (client user_id key) amount
            cfg.ttl_seconds))
        λ e. do
          command (incr (seat_inventory request.event_id))
          command (del (idempotency user_id key))
          throw e

  -- What follows a booking that went through.
  unfoldable pub announce :
      Env
      → ℕ
      → CreateBookingRequest
      → ℕ
      → ℕ
      → ℕ
      → BookingResponse
      → Action (World Store) BookingResponse
  announce env user_id request key amount remaining response = do
    command (
        setex (reservation env.uuid) cfg.ttl_seconds
          (hold_of user_id request.seat_id request.event_id))
    command (setex (idempotency user_id key) idempotency_ttl_seconds (answer response))
    command (zrem request.event_id user_id)
    emit (
        seat_updated request.event_id request.seat_id SeatStatus.reserved
          (elim response.seat.seat_number [ none ↦ 0 | some n ↦ n ]) response.seat.section)
    emit (inventory_updated request.event_id remaining amount)
    pure response

  -- From the gate on.
  unfoldable pub pass_gate :
      Env → ℕ → CreateBookingRequest → ℕ → ℕ → Action (World Store) BookingResponse
  pass_gate env user_id request key amount = do
    remaining ← on_redis (atomic_decrement R request.event_id)
    elim remaining [
      | sold_out ↦ enqueue env user_id request key amount
      | missing ↦ initialize user_id request key
      | left n ↦ book env user_id request key amount >>= announce env user_id request key amount n
    ]

  unfoldable pub refuse : ℕ → ℕ → ℕ → Action (World Store) BookingResponse
  refuse user_id key status = do command (del (idempotency user_id key)); throw (http_error status)

  unfoldable pub create_claimed :
      Env → ℕ → CreateBookingRequest → ℕ → Action (World Store) BookingResponse
  create_claimed env user_id request key = do
    event ← get_event_cached R env.now request.event_id
    elim event [
      | none ↦ refuse user_id key 404
      | some e ↦
          if is_published e.row.status
          then pass_gate env user_id request key (price_of e)
          else refuse user_id key 422
    ]

  -- `createBooking`
  unfoldable pub create_booking :
      Env → Polls → ℕ → CreateBookingRequest → ℕ → Action (World Store) BookingResponse
  create_booking env polls user_id request key = do
    claimed ← on_redis (claim_idempotency_key R (idempotency user_id key) processing_ttl_seconds)
    if claimed then create_claimed env user_id request key else replay polls user_id request key

  -- `cancelBooking`
  unfoldable pub cancel_booking : Env → (ℕ → Bool) → ℕ → ℕ → Action (World Store) (Unit {0})
  cancel_booking env online booking_id user_id = do
    freed ← in_transaction (cancel_transaction booking_id user_id)
    offer_freed_seat R cfg env online freed
    command (del (reservation booking_id))

  unfoldable pub announce_sale : ℕ → Option FreedSeat → Action (World Store) (Unit {0})
  announce_sale booking_id none = pure tt
  announce_sale booking_id (some sold) = do
    command (del (reservation booking_id))
    command (del (seat_offers sold.seat_id))
    emit (seat_updated sold.event_id sold.seat_id SeatStatus.booked sold.seat_number sold.section)

  -- `confirmBooking`
  unfoldable pub confirm_booking : ℕ → ℕ → ℕ → Action (World Store) (Unit {0})
  confirm_booking now booking_id payment_id =
      in_transaction (confirm_transaction now booking_id payment_id) >>= announce_sale booking_id
