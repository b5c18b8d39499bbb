-- ===== src/Service/Booked.antt =====
-- `createBooking` as a whole keeps the counter in step with the free seats.
use ticketvault.Prelude.{ℕ, suc, ◌+◌, ◌≡◌, ap, ◌∙◌, inl, inr, none, some, arith, ◌==◌, Bool-cases}
use ticketvault.Types.{Seat, CreateBookingRequest, client}
use ticketvault.Db.{Db, seat_at}
use ticketvault.Db.Invariant.{IsConsistent}
use ticketvault.Redis.{Redis, seat_inventory, idempotency, processing, number, Waiter}
use ticketvault.Scripts.{join_waitlist}
use ticketvault.World.{World, on_redis}
use ticketvault.Events.{available_in, init_redis_inventory}
use ticketvault.Booking.{Env}
use ticketvault.Service.{
  processing_ttl_seconds, Polls, enqueue, initialize, pass_gate, refuse, create_claimed, replay,
  create_booking, wait_for_idempotent_response,
}
use ticketvault.Offers.{Config}
use ticketvault.Service.Paths.{
  booked, book_failed, book_done, taken, gate_paths, claimed_paths, create_paths,
}
use ticketvault.Service.Stock.{Surplus, counts, same-Surplus, incr-Surplus, attempt-Surplus}

module _ (R : Redis) (cfg : Config) (e : ℕ) (env : Env) (user_id : ℕ)
    (request : CreateBookingRequest) (key : ℕ) where
  open R use {
    Store, get, zrange, get-set, get-setex, get-del, get-incr, get-decr, get-zadd_nx, get-zrem,
  }

  abbrev pub RequestBelongs : Db → Type 0
  RequestBelongs db =
      (x : Seat) → seat_at request.seat_id db ≡ some x → x.event_id ≡ request.event_id

  abbrev Even : ℕ → World Store → Type 0
  Even d w = Surplus R cfg e d w.db w.redis

  enqueue-Even :
      (amount d : ℕ) (w : World Store)
      → Even d w
      → Even d (enqueue R cfg env user_id request key amount w).1
  unfolding enqueue on_redis join_waitlist
  enqueue-Even amount d w h =
      let v : Waiter = record { user_id = user_id; joined_at = env.now } in
      same-Surplus R cfg e d w.db w.redis _
        (get-setex (R.zadd_nx request.event_id v w.redis) _ _ _ (seat_inventory e)
          ∙ get-zadd_nx w.redis request.event_id v (seat_inventory e))
        h

  refuse-Even :
      (status d : ℕ) (w : World Store) → Even d w → Even d (refuse R cfg user_id key status w).1
  unfolding refuse
  refuse-Even status d w h =
      same-Surplus R cfg e d w.db w.redis _ (get-del w.redis _ (seat_inventory e)) h

  initialize-Even :
      (d : ℕ) (w : World Store)
      → get w.redis (seat_inventory request.event_id) ≡ none
      → Even d w
      → Even d (initialize R cfg user_id request key w).1
  unfolding initialize init_redis_inventory
  initialize-Even d w absent (n, at, eq) = elim (Bool-cases (request.event_id == e)) [
    | inl this ↦ absurd (
        ground
          (arith, ap (λ (i : ℕ). get w.redis (seat_inventory i)) {x = request.event_id} {y = e}))
    | inr other ↦ (
      n,
      ground (
        arith,
        get-set w.redis (seat_inventory request.event_id)
            (number (available_in request.event_id w.db)) (seat_inventory e),
        get-del
            (R.set (seat_inventory request.event_id) (number (available_in request.event_id w.db))
              w.redis)
            (idempotency user_id key) (seat_inventory e),
      ),
      eq,
    )
  ]

  book-Even :
      (amount remaining d : ℕ) (w : World Store)
      → IsConsistent w.db
      → RequestBelongs w.db
      → Even (d + counts R cfg e request.event_id) w
      → Even d (booked R cfg env user_id request key amount remaining w).1
  book-Even amount remaining d w c belongs h =
      elim (attempt-Surplus R cfg e env user_id request (client user_id key) amount cfg.ttl_seconds
        d w.db w.redis c belongs h) [
          | inl (x, failed) ↦
              rw (book_failed R cfg env user_id request key amount remaining w x failed) (
                same-Surplus R cfg e d w.db _ _
                  (get-del (R.incr (seat_inventory request.event_id) w.redis) _ (seat_inventory e))
                  (incr-Surplus R cfg e request.event_id d w.db w.redis h))
          | inr (x, after, done, rest, _) ↦
              let (_, same_db, same_redis) =
                book_done R cfg env user_id request key amount remaining w _ after done in
              rw (same_db, same_redis)
                (same-Surplus R cfg e d after w.redis _
                  (get-zrem _ request.event_id user_id (seat_inventory e)
                    ∙ (get-setex _ _ _ _ (seat_inventory e)
                        ∙ get-setex w.redis _ _ _ (seat_inventory e)))
                  rest)
        ]

  taken-Even :
      (d n : ℕ) (w : World Store)
      → get w.redis (seat_inventory request.event_id) ≡ some (number (suc n))
      → Even d w
      → Even (d + counts R cfg e request.event_id) (taken R cfg env user_id request key w)
  taken-Even d n w at (m, at_e, eq) = elim (Bool-cases (request.event_id == e)) [
    | inl this ↦
        let same_key =
          ap (λ (i : ℕ). get w.redis (seat_inventory i)) {x = request.event_id} {y = e} in
        (
          n,
          ground (arith, get-decr w.redis (seat_inventory request.event_id) n (seat_inventory e)),
          ground (arith, same_key),
        )
    | inr other ↦ (
      m,
      ground (arith, get-decr w.redis (seat_inventory request.event_id) n (seat_inventory e)),
      ground arith,
    )
  ]

  pass_gate-Even :
      (amount d : ℕ) (w : World Store)
      → IsConsistent w.db
      → RequestBelongs w.db
      → Even d w
      → Even d (pass_gate R cfg env user_id request key amount w).1
  pass_gate-Even amount d w c belongs h = elim (gate_paths R cfg env user_id request key amount w) [
    | inl (at, missing) ↦ rw missing (initialize-Even d w at h)
    | inr (inl (_, sold_out)) ↦ rw sold_out (enqueue-Even amount d w h)
    | inr (inr (inl (n, at, through))) ↦ rw through (
        book-Even amount n d (taken R cfg env user_id request key w) c belongs
          (taken-Even d n w at h))
    | inr (inr (inr (v, _, odd, broken))) ↦ rw broken h
  ]

  create_claimed-Even :
      (d : ℕ) (w : World Store)
      → IsConsistent w.db
      → RequestBelongs w.db
      → Even d w
      → Even d (create_claimed R cfg env user_id request key w).1
  create_claimed-Even d w c belongs h =
      let (w', same_db, same_redis, same_sent, path) =
        claimed_paths R cfg env user_id request key w in
      let still : Even d w' = rw (same_db, same_redis) h in
      elim path [
        | inl (status, refused) ↦ rw refused (refuse-Even status d w' still)
        | inr (amount, passed) ↦
            rw passed (pass_gate-Even amount d w' (rw same_db c) (rw same_db belongs) still)
      ]

  replay_state :
      (polls : Polls) (w : World Store) → (replay R cfg polls user_id request key w).1 ≡ w
  unfolding replay wait_for_idempotent_response
  replay_state polls w = ground arith

  -- In consistent tables a request for a seat, replayed, refused, queued, failed or booked, leaves as
  -- many free seats beyond the counter of any event as there were, if the seat is one of the event
  -- it names.
  pub create_booking-Even :
      (polls : Polls) (d : ℕ) (w : World Store)
      → IsConsistent w.db
      → RequestBelongs w.db
      → Surplus R cfg e d w.db w.redis
      → let w' = (create_booking R cfg env polls user_id request key w).1 in
        Surplus R cfg e d w'.db w'.redis
  create_booking-Even polls d w c belongs h =
      elim (create_paths R cfg env user_id request key polls w) [
        | inl (_, processed) ↦ rw processed (
            create_claimed-Even d _ c belongs (
              same-Surplus R cfg e d w.db w.redis _
                (get-setex w.redis _ processing_ttl_seconds processing (seat_inventory e)) h))
        | inr (v, _, replayed) ↦ rw (replayed, replay_state polls w) h
      ]
