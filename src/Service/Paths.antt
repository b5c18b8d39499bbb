-- ===== src/Service/Paths.antt =====
-- The ways that a call of `createBooking` can take.
use ticketvault.Prelude.{
  ℕ, zero, suc, ◌≡◌, ◌≢◌, refl, inl, inr, ◌⊎◌, Option, none, some, arith, ok, err, Error,
  other_error, Result, Bool-cases, Option-cases, ◌>>=◌, ◌∷◌,
}
use ticketvault.Types.{
  SeatStatus, Event, Seat, CreateBookingRequest, BookingResponse, client, is_published,
}
use ticketvault.Db.{Db}
use ticketvault.Redis.{
  Redis, seat_inventory, reservation, idempotency, hold_of, answer, processing, owner, Value,
  number,
}
use ticketvault.Scripts.{atomic_decrement, claim_idempotency_key}
use ticketvault.World.{World, on_redis, in_transaction, catch, seat_updated, inventory_updated}
use ticketvault.Events.{get_event_cached, price_of}
use ticketvault.Events.Cache.{cached_effect}
use ticketvault.Booking.{Env}
use ticketvault.Booking.Creation.{attempt, booked_response}
use ticketvault.Service.{
  processing_ttl_seconds, idempotency_ttl_seconds, Polls, enqueue, initialize, book, announce,
  pass_gate, refuse, create_claimed, replay, create_booking,
}
use ticketvault.Offers.{Config}

module _ (R : Redis) (cfg : Config) (env : Env) (user_id : ℕ) (request : CreateBookingRequest)
    (key : ℕ) where
  open R use {Store, get}

  abbrev pub Called : Type 0
  Called = Result BookingResponse × World Store

  module _ (amount remaining : ℕ) (w : World Store) where
    abbrev pub tried : Result BookingResponse × Db
    tried = attempt env user_id request (client user_id key) amount cfg.ttl_seconds w.db

    abbrev pub booked : Called
    booked =
        (◌>>=◌ (book R cfg env user_id request key amount)
            (announce R cfg env user_id request key amount remaining))
          w

    pub book_failed :
        (x : Error)
        → tried ≡ (err x, w.db)
        → booked ≡ (
          err x,
          record w {
            redis =
                R.del (idempotency user_id key) (R.incr (seat_inventory request.event_id) w.redis);
          },
        )
    unfolding book catch in_transaction
    book_failed x failed = ground arith

    pub book_done :
        (response : BookingResponse) (after : Db)
        → tried ≡ (ok response, after)
        → (booked.0 ≡ ok response)
          × (booked.1.db ≡ after)
          × (booked.1.redis
              ≡ R.zrem request.event_id user_id (
                  R.setex (idempotency user_id key) idempotency_ttl_seconds (answer response) (
                    R.setex
                      (reservation env.uuid)
                      cfg.ttl_seconds
                      (hold_of user_id request.seat_id request.event_id)
                      w.redis)))
    unfolding book catch in_transaction announce
    book_done response after done = (ground arith, ground arith, ground arith)

    pub book_sent :
        (s : Seat) (after : Db)
        → tried ≡ (
          ok (booked_response env user_id request (client user_id key) amount cfg.ttl_seconds s),
          after,
        )
        → booked.1.sent
          ≡ inventory_updated request.event_id remaining amount
            ∷ seat_updated request.event_id request.seat_id SeatStatus.reserved s.seat_number
                s.section
            ∷ w.sent
    unfolding book catch in_transaction announce
    book_sent s after done = ground arith

  -- The world once the gate has let a request through.
  abbrev pub taken : World Store → World Store
  taken w = record w { redis = R.decr (seat_inventory request.event_id) w.redis }

  -- What the counter shows decides on which way the gate sends a request.
  pub gate_paths :
      (amount : ℕ) (w : World Store)
      → let counter = get w.redis (seat_inventory request.event_id) in
        let gate = pass_gate R cfg env user_id request key amount w in
        ((counter ≡ none) × (gate ≡ initialize R cfg user_id request key w))
        ⊎ ((counter ≡ some (number 0)) × (gate ≡ enqueue R cfg env user_id request key amount w))
        ⊎ ((n : ℕ) × (counter ≡ some (number (suc n))) × (gate ≡ booked amount n (taken w)))
        ⊎ ((v : Value) × (counter ≡ some v)
            × ((n : ℕ) → v ≢ number n)
            × (gate ≡ (err other_error, w)))
  gate_paths amount w = go (get w.redis (seat_inventory request.event_id)) refl
    where
      gate : Called
      gate = pass_gate R cfg env user_id request key amount w

      counter : Option Value
      counter = get w.redis (seat_inventory request.event_id)

      go :
          (v : Option Value)
          → counter ≡ v
          → ((counter ≡ none) × (gate ≡ initialize R cfg user_id request key w))
            ⊎ ((counter ≡ some (number 0))
                × (gate ≡ enqueue R cfg env user_id request key amount w))
            ⊎ ((n : ℕ) × (counter ≡ some (number (suc n))) × (gate ≡ booked amount n (taken w)))
            ⊎ ((v : Value) × (counter ≡ some v)
                × ((n : ℕ) → v ≢ number n)
                × (gate ≡ (err other_error, w)))
      go none at = inl (at, unfold pass_gate on_redis atomic_decrement in ground arith)
      go (some (number zero)) at =
          inr (inl (at, unfold pass_gate on_redis atomic_decrement in ground arith))
      go (some (number (suc n))) at =
          inr (inr (inl (n, at, unfold pass_gate on_redis atomic_decrement in ground arith)))
      go (some processing) at =
          inr (
            inr
              (inr (_, at, λ n h. cc, unfold pass_gate on_redis atomic_decrement in ground arith)))
      go (some (answer r)) at =
          inr (
            inr
              (inr (_, at, λ n h. cc, unfold pass_gate on_redis atomic_decrement in ground arith)))
      go (some (hold_of a b c)) at =
          inr (
            inr
              (inr (_, at, λ n h. cc, unfold pass_gate on_redis atomic_decrement in ground arith)))
      go (some (owner o)) at =
          inr (
            inr
              (inr (_, at, λ n h. cc, unfold pass_gate on_redis atomic_decrement in ground arith)))

  -- A claimed request is refused, or passes on to the gate, after a read that changes only the cache
  -- of events.
  pub claimed_paths :
      (w : World Store)
      → let claimed = create_claimed R cfg env user_id request key w in
        (w' : World Store) × (w'.db ≡ w.db)
        × (w'.redis ≡ w.redis)
        × (w'.sent ≡ w.sent)
        × (((status : ℕ) × (claimed ≡ refuse R cfg user_id key status w'))
            ⊎ ((amount : ℕ) × (claimed ≡ pass_gate R cfg env user_id request key amount w')))
  claimed_paths w =
      let (o, w', read, same_db, same_redis, same_sent) =
        cached_effect R env.now request.event_id w in
      (w', same_db, same_redis, same_sent, go o w' read)
    where
      claimed : Called
      claimed = create_claimed R cfg env user_id request key w

      go :
          (o : Option Event) (w' : World Store)
          → get_event_cached R env.now request.event_id w ≡ (ok o, w')
          → ((status : ℕ) × (claimed ≡ refuse R cfg user_id key status w'))
            ⊎ ((amount : ℕ) × (claimed ≡ pass_gate R cfg env user_id request key amount w'))
      go none w' read = inl (404, unfold create_claimed in ground arith)
      go (some x) w' read = elim (Bool-cases (is_published x.row.status)) [
        | inl published ↦ inr (price_of x, unfold create_claimed in ground arith)
        | inr unpublished ↦ inl (422, unfold create_claimed in ground arith)
      ]

  -- A request under a free key is processed; one under a key that is taken waits for its answer.
  pub create_paths :
      (polls : Polls) (w : World Store)
      → let call = create_booking R cfg env polls user_id request key w in
        let claimed = record w {
          redis = R.setex (idempotency user_id key) processing_ttl_seconds processing w.redis;
        } in
        ((get w.redis (idempotency user_id key) ≡ none)
          × (call ≡ create_claimed R cfg env user_id request key claimed))
        ⊎ ((v : Value) × (get w.redis (idempotency user_id key) ≡ some v)
            × (call ≡ replay R cfg polls user_id request key w))
  unfolding create_booking on_redis claim_idempotency_key
  create_paths polls w = elim (Option-cases (get w.redis (idempotency user_id key))) [
    | inl free ↦ inl (free, ground arith)
    | inr (v, used) ↦ inr (v, used, ground arith)
  ]
