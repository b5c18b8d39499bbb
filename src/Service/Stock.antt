-- ===== src/Service/Stock.antt =====
-- The counter of an event against its free seats. Between the gate and the transaction of a
-- booking, and between the transaction that frees a seat and its offer, there are more free seats
-- than the counter shows, one for each call that is on its way; no handler leaves a trace of it.
use ticketvault.Prelude.{
  ℕ, ◌+◌, ◌≡◌, ap, ◌∙◌, ◌⊎◌, inl, inr, Error, Option, none, some, arith, ◌==◌, indicator, ok, err,
}
use ticketvault.Types.{SeatStatus, Seat, Event, CreateBookingRequest, IdempotencyKey, waitlist}
use ticketvault.Table.Keyed.{count-update}
use ticketvault.Db.{Db, seat_key, seat_at, insert_audit}
use ticketvault.Db.Invariant.{IsConsistent}
use ticketvault.Redis.{Redis, seat_inventory, seat_offers, reservation, hold_of, number}
use ticketvault.World.{World, in_transaction, catch}
use ticketvault.Events.{is_free_in, available_in, get_event_cached, price_of}
use ticketvault.Events.Cache.{cached_effect}
use ticketvault.Booking.{Env, FreedSeat, hold_seat}
use ticketvault.Booking.Creation.{
  attempt, attempt_cases, attempt-IsConsistent, created, until, booked_response,
}
use ticketvault.Offers.{Config, release_to_public, hold_for_waiter, offer_to_waiter}

-- A booking that goes through takes one free seat, of the event that the seat belongs to.
pub available-created :
    (env : Env) (user_id : ℕ) (request : CreateBookingRequest) (key : IdempotencyKey)
    (amount hold_seconds e : ℕ) (db : Db) (s : Seat)
    → IsConsistent db
    → seat_at request.seat_id db ≡ some s
    → s.status ≡ SeatStatus.available
    → available_in e (created env user_id request key amount hold_seconds db)
        + indicator (s.event_id == e)
      ≡ available_in e db
unfolding available_in insert_audit hold_seat
available-created env user_id request key amount hold_seconds e db s c found free =
    let t = until env user_id request key amount hold_seconds in
    ground (
      arith,
      count-update seat_key (is_free_in e) request.seat_id (hold_seat t) db.seats s found
          (c.seat_once request.seat_id),
    )

module _ (R : Redis) (cfg : Config) (e : ℕ) where
  open R use {Store, get, get-set, get-setex, get-del, get-incr, get-zadd_nx, get-zpopmin, get-zrem}

  -- The event has `d` free seats more than its counter shows.
  abbrev pub Surplus : ℕ → Db → Store → Type 0
  Surplus d db s =
      (n : ℕ) × (get s (seat_inventory e) ≡ some (number n)) × (available_in e db ≡ n + d)

  abbrev pub counts : ℕ → ℕ
  counts event_id = indicator (event_id == e)

  -- A store that agrees on the counter has the same surplus.
  pub same-Surplus :
      (d : ℕ) (db : Db) (s t : Store)
      → get t (seat_inventory e) ≡ get s (seat_inventory e)
      → Surplus d db s
      → Surplus d db t
  same-Surplus d db s t same (n, at, eq) = (n, same ∙ at, eq)

  pub incr-Surplus :
      (f d : ℕ) (db : Db) (s : Store)
      → Surplus (d + counts f) db s
      → Surplus d db (R.incr (seat_inventory f) s)
  incr-Surplus f d db s (n, at, eq) = (
    n + counts f,
    ground (
      arith,
      get-incr s (seat_inventory f) (seat_inventory e),
      ap (λ (i : ℕ). get s (seat_inventory i)) {x = f} {y = e},
    ),
    omega arith,
  )

  pub release_effect :
      (seat : FreedSeat) (w : World Store)
      → let w' = (release_to_public R cfg seat w).1 in
        (w'.db ≡ w.db)
        × (w'.redis
            ≡ R.incr (seat_inventory seat.event_id) (R.del (seat_offers seat.seat_id) w.redis))
  unfolding release_to_public
  release_effect seat w = (ground arith, ground arith)

  pub release-Surplus :
      (seat : FreedSeat) (d : ℕ) (w : World Store)
      → Surplus (d + counts seat.event_id) w.db w.redis
      → let w' = (release_to_public R cfg seat w).1 in Surplus d w'.db w'.redis
  release-Surplus seat d w h =
      let (same, stored) = release_effect seat w in
      rw (same, stored)
        (incr-Surplus seat.event_id d w.db _ (
          same-Surplus (d + counts seat.event_id) w.db w.redis _
            (get-del w.redis (seat_offers seat.seat_id) (seat_inventory e)) h))

  -- The transaction of a booking, at a seat of the event that the counter is for, uses up one free
  -- seat of the surplus or changes nothing.
  pub attempt-Surplus :
      (env : Env) (user_id : ℕ) (request : CreateBookingRequest) (key : IdempotencyKey)
      (amount hold_seconds d : ℕ) (db : Db) (s : Store)
      → IsConsistent db
      → ((x : Seat) → seat_at request.seat_id db ≡ some x → x.event_id ≡ request.event_id)
      → Surplus (d + counts request.event_id) db s
      → ((x : Error) × (attempt env user_id request key amount hold_seconds db ≡ (err x, db)))
        ⊎ ((x : Seat) × (after : Db) × (attempt env user_id request key amount hold_seconds db
              ≡ (ok (booked_response env user_id request key amount hold_seconds x), after))
            × Surplus d after s
            × IsConsistent after)
  attempt-Surplus env user_id request key amount hold_seconds d db s c belongs (n, at, eq) =
      elim (attempt_cases env user_id request key amount hold_seconds db) [
        | inl failed ↦ inl failed
        | inr (x, found, free, fresh, unheld, done) ↦
            let after = created env user_id request key amount hold_seconds db in
            let taken =
              available-created env user_id request key amount hold_seconds e db x c found free in
            inr (
              x,
              after,
              done,
              (n, at, omega (arith, taken, ap counts (belongs x found))),
              rw done at (attempt-IsConsistent env user_id request key amount hold_seconds db c),
            )
      ]

  module _ (env : Env) (user_id : ℕ) (seat : FreedSeat) (w : World Store) where
    abbrev pub offered : CreateBookingRequest
    offered = record { event_id = seat.event_id; seat_id = seat.seat_id }

    abbrev pub offer_key : IdempotencyKey
    offer_key = waitlist seat.event_id user_id env.now

    abbrev pub offer_price : Option Event → ℕ
    offer_price o = elim o [ none ↦ 0 | some x ↦ price_of x ]

    pub offer_failed :
        (o : Option Event) (w' : World Store) (x : Error)
        → get_event_cached R env.now seat.event_id w ≡ (ok o, w')
        → attempt env user_id offered offer_key (offer_price o) cfg.offer_ttl_seconds w'.db
          ≡ (err x, w'.db)
        → offer_to_waiter R cfg env user_id seat w ≡ release_to_public R cfg seat w'
    unfolding offer_to_waiter hold_for_waiter catch in_transaction
    offer_failed o w' x read failed = ground arith

    pub offer_held :
        (o : Option Event) (w' : World Store) (x : Seat) (after : Db)
        → get_event_cached R env.now seat.event_id w ≡ (ok o, w')
        → attempt env user_id offered offer_key (offer_price o) cfg.offer_ttl_seconds w'.db ≡ (
          ok (
              booked_response env user_id offered offer_key
                (offer_price o)
                cfg.offer_ttl_seconds
                x),
          after,
        )
        → let r = offer_to_waiter R cfg env user_id seat w in
          (r.1.db ≡ after)
          × (r.1.redis
              ≡ R.setex
                  (reservation env.uuid)
                  cfg.offer_ttl_seconds
                  (hold_of user_id seat.seat_id seat.event_id)
                  w'.redis)
    unfolding offer_to_waiter hold_for_waiter catch in_transaction
    offer_held o w' x after read done = (ground arith, ground arith)

    pub offer_to_waiter-Surplus :
        (d : ℕ)
        → IsConsistent w.db
        → ((x : Seat) → seat_at seat.seat_id w.db ≡ some x → x.event_id ≡ seat.event_id)
        → Surplus (d + counts seat.event_id) w.db w.redis
        → let w' = (offer_to_waiter R cfg env user_id seat w).1 in Surplus d w'.db w'.redis
    offer_to_waiter-Surplus d c belongs h =
        let (o, w', read, same_db, same_redis, same_sent) =
          cached_effect R env.now seat.event_id w in
        elim (attempt-Surplus env user_id offered offer_key (offer_price o) cfg.offer_ttl_seconds d
          w.db w.redis c belongs h) [
            | inl (x, failed) ↦
                rw (offer_failed o w' x read (rw same_db failed))
                  (release-Surplus seat d w' (rw (same_db, same_redis) h))
            | inr (x, after, done, rest, _) ↦
                let (stored, kept) = offer_held o w' x after read (rw same_db done) in
                rw (stored, kept, same_redis)
                  (same-Surplus d after w.redis _ (get-setex w.redis _ _ _ (seat_inventory e)) rest)
          ]
