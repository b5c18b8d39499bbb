-- ===== src/Service/Keys.antt =====
-- What `createBooking` leaves under the idempotency key of a request that it processed.
use ticketvault.Prelude.{ℕ, ◌*◌, ◌≡◌, inl, inr, ◌⊎◌, Option, none, some, arith, ok, err, Result}
use ticketvault.Types.{client, CreateBookingRequest, BookingResponse}
use ticketvault.Redis.{
  Redis, Key, idempotency, seat_inventory, reservation, Value, number, answer, processing, hold_of,
}
use ticketvault.Scripts.{join_waitlist}
use ticketvault.World.{World, on_redis}
use ticketvault.Events.{init_redis_inventory}
use ticketvault.Booking.{Env}
use ticketvault.Booking.Creation.{attempt_cases, booked_response}
use ticketvault.Service.Paths.{
  booked, book_failed, book_done, taken, gate_paths, claimed_paths, create_paths,
}
use ticketvault.Service.{
  processing_ttl_seconds, idempotency_ttl_seconds, Polls, enqueue, initialize, pass_gate, refuse,
  create_claimed, create_booking,
}
use ticketvault.Offers.{Config}

-- An answer is stored under the key for a day; an error leaves the key free for a retry. The value of the
-- key and its time to live are given.
abbrev pub Remembered : Result BookingResponse → Option Value → Option ℕ → Type 0
Remembered (ok r) v time_left =
    (v ≡ some (answer r)) × (time_left ≡ some (1000 * idempotency_ttl_seconds))
Remembered (err e) v time_left = v ≡ none

module _ (R : Redis) (cfg : Config) (env : Env) (user_id : ℕ) (request : CreateBookingRequest)
    (key : ℕ) where
  open R use {Store, get, ttl, ttl-setex, ttl-zrem, get-set, get-setex, get-del, get-zrem}

  abbrev idem : Key
  idem = idempotency user_id key

  abbrev Leaves : Result BookingResponse × World Store → Type 0
  Leaves r = Remembered r.0 (get r.1.redis idem) (ttl r.1.redis idem)

  enqueue-Leaves :
      (amount : ℕ) (w : World Store) → Leaves (enqueue R cfg env user_id request key amount w)
  unfolding enqueue on_redis join_waitlist
  enqueue-Leaves amount w = (rw get-setex (ground arith), rw ttl-setex (ground arith))

  refuse-Leaves : (status : ℕ) (w : World Store) → Leaves (refuse R cfg user_id key status w)
  unfolding refuse
  refuse-Leaves status w = ground (arith, get-del w.redis idem idem)

  initialize-Leaves : (w : World Store) → Leaves (initialize R cfg user_id request key w)
  unfolding initialize init_redis_inventory
  initialize-Leaves w = rw get-del (ground arith)

  booked-Leaves :
      (amount n : ℕ) (w : World Store) → Leaves (booked R cfg env user_id request key amount n w)
  booked-Leaves amount n w =
      elim (attempt_cases env user_id request (client user_id key) amount cfg.ttl_seconds w.db) [
        | inl (x, failed) ↦
            rw (book_failed R cfg env user_id request key amount n w x failed)
              (ground (arith, get-del (R.incr (seat_inventory request.event_id) w.redis) idem idem))
        | inr (s, found, free, fresh, unheld, done) ↦
            let (answered, same_db, stored) =
              book_done R cfg env user_id request key amount n w _ _ done in
            let given =
              booked_response env user_id request (client user_id key) amount cfg.ttl_seconds s in
            let held =
              R.setex (reservation env.uuid) cfg.ttl_seconds
                (hold_of user_id request.seat_id request.event_id) w.redis in
            let kept = R.setex idem idempotency_ttl_seconds (answer given) held in
            rw (answered, stored)
              (
                ground (
                  arith,
                  get-zrem kept request.event_id user_id idem,
                  get-setex held idem idempotency_ttl_seconds (answer given) idem,
                ),
                ground (
                  arith,
                  ttl-zrem kept request.event_id user_id idem,
                  ttl-setex held idem idempotency_ttl_seconds (answer given) idem,
                ),
              )
      ]

  -- The counter of the event is absent or a number.
  abbrev pub IsCounter : Option Value → Type 0
  IsCounter v = (v ≡ none) ⊎ ((n : ℕ) × (v ≡ some (number n)))

  pass_gate-Leaves :
      (amount : ℕ) (w : World Store)
      → IsCounter (get w.redis (seat_inventory request.event_id))
      → Leaves (pass_gate R cfg env user_id request key amount w)
  pass_gate-Leaves amount w counter = elim (gate_paths R cfg env user_id request key amount w) [
    | inl (_, missing) ↦ rw missing (initialize-Leaves w)
    | inr (inl (_, sold_out)) ↦ rw sold_out (enqueue-Leaves amount w)
    | inr (inr (inl (n, _, through))) ↦
        rw through (booked-Leaves amount n (taken R cfg env user_id request key w))
    | inr (inr (inr (v, at, odd, _))) ↦ elim counter [
      | inl absent ↦ cc
      | inr (n, number_at) ↦ absurd (odd n (cc))
    ]
  ]

  create_claimed-Leaves :
      (w : World Store)
      → IsCounter (get w.redis (seat_inventory request.event_id))
      → Leaves (create_claimed R cfg env user_id request key w)
  create_claimed-Leaves w counter =
      let (w', same_db, same_redis, same_sent, path) =
        claimed_paths R cfg env user_id request key w in
      elim path [
        | inl (status, refused) ↦ rw refused (refuse-Leaves status w')
        | inr (amount, passed) ↦ rw passed (pass_gate-Leaves amount w' (rw same_redis counter))
      ]

  -- A request under a free key leaves its answer under the key, for a day, or, if it fails, the key free, if the
  -- counter of its event is absent or holds a number.
  pub create_booking-Remembered :
      (polls : Polls) (w : World Store)
      → get w.redis (idempotency user_id key) ≡ none
      → IsCounter (get w.redis (seat_inventory request.event_id))
      → let (r, w') = create_booking R cfg env polls user_id request key w in
        Remembered r
          (get w'.redis (idempotency user_id key))
          (ttl w'.redis (idempotency user_id key))
  create_booking-Remembered polls w free counter =
      elim (create_paths R cfg env user_id request key polls w) [
        | inl (_, processed) ↦ rw processed (
            create_claimed-Leaves _ (
              rw
                (get-setex w.redis idem processing_ttl_seconds processing
                  (seat_inventory request.event_id))
                counter))
        | inr (v, used, _) ↦ cc
      ]
