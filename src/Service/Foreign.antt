-- ===== src/Service/Foreign.antt =====
-- A request that names a seat of another event: nothing in `createBooking` looks at the event of the
-- seat.
use ticketvault.Prelude.{ℕ, suc, ◌≡◌, ◌≢◌, ap, sym, ◌∙◌, inl, inr, some, none, arith, ok, Result}
use ticketvault.Types.{SeatStatus, Seat, CreateBookingRequest, BookingResponse, client}
use ticketvault.Db.{Db, seat_at}
use ticketvault.Db.Invariant.{IsConsistent}
use ticketvault.Redis.{Redis, seat_inventory, idempotency, number, Value}
use ticketvault.World.{World}
use ticketvault.Events.{available_in}
use ticketvault.Booking.{Env}
use ticketvault.Booking.Creation.{attempt_cases, created, booked_response}
use ticketvault.Service.{processing_ttl_seconds, Polls, create_booking}
use ticketvault.Offers.{Config}
use ticketvault.Service.Answered.{counter_after, create_named}
use ticketvault.Service.Paths.{booked, book_failed, book_done, taken}
use ticketvault.Service.Stock.{Surplus, available-created}

module _ (R : Redis) (cfg : Config) (env : Env) (user_id : ℕ) (request : CreateBookingRequest)
    (key : ℕ) (s : Seat) (foreign : s.event_id ≢ request.event_id) where
  open R use {Store, get, get-set, get-setex, get-zrem, get-decr}

  -- The counter of the event of the request is one below its free seats, and the counter of the event
  -- of the seat one above its own.
  abbrev pub Drifted : World Store → Type 0
  Drifted w =
      Surplus R cfg request.event_id 1 w.db w.redis
      × ((n : ℕ) × (get w.redis (seat_inventory s.event_id) ≡ some (number (suc n)))
          × (available_in s.event_id w.db ≡ n))

  abbrev InStep : World Store → Type 0
  InStep w =
      IsConsistent w.db
      × (seat_at request.seat_id w.db ≡ some s)
      × (s.status ≡ SeatStatus.available)
      × Surplus R cfg request.event_id 0 w.db w.redis
      × Surplus R cfg s.event_id 0 w.db w.redis

  abbrev Drifts : World Store → Result BookingResponse × World Store → Type 0
  Drifts w r = (b : BookingResponse) → (k : ℕ) → r.0 ≡ ok b → b.booking_id ≡ some k → Drifted r.1

  booked-Drifts :
      (amount n : ℕ) (w : World Store)
      → get w.redis (seat_inventory request.event_id) ≡ some (number (suc n))
      → InStep w
      → Drifts w
          (booked R cfg env user_id request key amount n (taken R cfg env user_id request key w))
  booked-Drifts amount n w at (c, found, free, (m, here, counted), (l, there, left)) b k answers
        names =
      let w0 = taken R cfg env user_id request key w in
      elim (attempt_cases env user_id request (client user_id key) amount cfg.ttl_seconds w.db) [
        | inl (x, failed) ↦
            let failed' = book_failed R cfg env user_id request key amount n w0 x failed in
            absurd (ground (arith, ap (λ (r : Result BookingResponse × World Store). r.0) failed'))
        | inr (x, _, _, _, _, done) ↦
            let (_, same_db, stored) =
              book_done R cfg env user_id request key amount n w0 _ _ done in
            let after =
              created env user_id request (client user_id key) amount cfg.ttl_seconds w.db in
            let answer =
              booked_response env user_id request (client user_id key) amount cfg.ttl_seconds x in
            let seats = λ (e : ℕ).
              available-created env user_id request (client user_id key) amount cfg.ttl_seconds e
                w.db s c found free in
            let counter = λ (e : ℕ).
              ap (λ (st : Store). get st (seat_inventory e)) stored
              ∙ counter_after R cfg env user_id request key n e w answer at in
            (
              (
                n,
                counter request.event_id ∙ ground arith,
                ap (λ (db : Db). available_in request.event_id db) same_db
                    ∙ ground (arith, seats request.event_id),
              ),
              (
                available_in s.event_id after,
                counter s.event_id ∙ ground (arith, seats s.event_id),
                ap (λ (db : Db). available_in s.event_id db) same_db,
              ),
            )
      ]

  -- Where tables and counters are in step, a request under a free key that is answered with a booking
  -- of a free seat of another event leaves the counter of the event that it names one below the free
  -- seats of that event, and the counter of the seat's event one above its free seats.
  pub create_booking-drifts :
      (polls : Polls) (w : World Store) (b : BookingResponse) (k : ℕ)
      → IsConsistent w.db
      → seat_at request.seat_id w.db ≡ some s
      → s.status ≡ SeatStatus.available
      → Surplus R cfg request.event_id 0 w.db w.redis
      → Surplus R cfg s.event_id 0 w.db w.redis
      → get w.redis (idempotency user_id key) ≡ none
      → (create_booking R cfg env polls user_id request key w).0 ≡ ok b
      → b.booking_id ≡ some k
      → Drifted (create_booking R cfg env polls user_id request key w).1
  create_booking-drifts polls w b k c found free (n, here, counted) (l, there, left) unused answers
        names =
      let (w', amount, m, same_db, same_redis, _, at, same) =
        create_named R cfg env user_id request key polls w b k unused answers names in
      let claim = λ (e : ℕ).
        get-setex w.redis (idempotency user_id key) processing_ttl_seconds Value.processing
          (seat_inventory e) in
      let in_step : InStep w' =
        rw (same_db, same_redis)
          (
            c,
            found,
            free,
            (n, claim request.event_id ∙ here, counted),
            (l, claim s.event_id ∙ there, left),
          ) in
      rw same (
        booked-Drifts amount m w' at in_step b k
          (ap (λ (r : Result BookingResponse × World Store). r.0) (sym same) ∙ answers) names)
