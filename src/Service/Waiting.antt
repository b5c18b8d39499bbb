-- ===== src/Service/Waiting.antt =====
-- A request whose key is taken: the wait ends, and nothing is processed twice.
use ticketvault.Prelude.{
  ℕ, zero, suc, ◌+◌, ◌*◌, ◌≤◌, ◌<◌, ◌≡◌, ◌≢◌, ◌⊎◌, Option, none, some, arith, ◌==◌, if◌then◌else◌,
  ok, err, http_error, Result,
}
use ticketvault.Types.{CreateBookingRequest, BookingResponse}
use ticketvault.Redis.{Redis, Key, seat_inventory, idempotency, Value, processing, answer}
use ticketvault.Scripts.{claim_idempotency_key}
use ticketvault.World.{World, on_redis}
use ticketvault.Booking.{Env}
use ticketvault.Service.{
  idempotency_ttl_seconds, Polls, value_at, wait_loop, wait_for_idempotent_response, replay,
  create_booking,
}
use ticketvault.Service.Keys.{IsCounter, Remembered, create_booking-Remembered}
use ticketvault.Offers.{Config}

wait_loop_ends :
    (p : Polls) (key : Key) (v : Option Value) (fuel i : ℕ)
    → ((j : ℕ) → 200 * j ≤ p.elapsed j)
    → 10000 ≤ 200 * (i + fuel)
    → wait_loop p key v (suc fuel) i ≢ none
unfolding wait_loop
wait_loop_ends p key v zero i slow enough = ground (arith, slow i)
wait_loop_ends p key v (suc fuel) i slow enough =
    ground (arith, slow i, wait_loop_ends p key v fuel (suc i) slow)

-- If each round of the wait takes the poll interval of 200 ms at least, 51 rounds reach its end.
pub wait_loop-ne-none :
    (p : Polls) (key : Key) (v : Option Value)
    → ((j : ℕ) → 200 * j ≤ p.elapsed j)
    → wait_loop p key v 51 0 ≢ none
wait_loop-ne-none p key v slow = wait_loop_ends p key v 50 0 slow (omega arith)

wait_loop_refused :
    (p : Polls) (key : Key) (v : Option Value) (fuel i : ℕ)
    → ((j : ℕ) → 200 * j ≤ p.elapsed j)
    → ((j : ℕ) → (value_at p key v j ≡ some processing) ⊎ (value_at p key v j ≡ none))
    → 10000 ≤ 200 * (i + fuel)
    → wait_loop p key v (suc fuel) i ≡ some (err (http_error 409))
unfolding wait_loop
wait_loop_refused p key v zero i slow unanswered enough = ground (arith, slow i)
wait_loop_refused p key v (suc fuel) i slow unanswered enough =
    ground (arith, unanswered i, wait_loop_refused p key v fuel (suc i) slow unanswered)

module _ (R : Redis) (cfg : Config) (env : Env) (polls : Polls) (user_id : ℕ)
    (request : CreateBookingRequest) (key : ℕ) where
  open R use {get}

  -- A request under a key whose request is still at work after the wait, or has failed meanwhile, is
  -- refused with 409 and changes nothing.
  pub unfinished_key_refused :
      (v : Value) (w : World R.Store)
      → get w.redis (idempotency user_id key) ≡ some v
      → ((j : ℕ) → 200 * j ≤ polls.elapsed j)
      → ((j : ℕ)
          → (value_at polls (idempotency user_id key) (some v) j ≡ some processing)
            ⊎ (value_at polls (idempotency user_id key) (some v) j ≡ none))
      → create_booking R cfg env polls user_id request key w ≡ (err (http_error 409), w)
  unfolding create_booking on_redis claim_idempotency_key replay wait_for_idempotent_response
  unfinished_key_refused v w taken slow unanswered = ground (
    arith,
    wait_loop_refused polls (idempotency user_id key) (some v) 50 0 slow unanswered (omega arith),
  )

  -- What is stored under a key is the answer to every further request under it.
  stored_answer :
      (r : BookingResponse) (w : World R.Store)
      → get w.redis (idempotency user_id key) ≡ some (answer r)
      → polls.elapsed 0 < 10000
      → create_booking R cfg env polls user_id request key w
        ≡ (if r.seat.id == request.seat_id then ok r else err (http_error 422), w)
  unfolding create_booking on_redis claim_idempotency_key replay wait_for_idempotent_response
      wait_loop
  stored_answer r w stored start = ground arith

-- After a request under a free key has been answered, with a booking or a place in the queue, a further
-- request of the user under the key, within a day and with nothing else between, gets the same answer if it
-- is for the seat of the answer, and 422 otherwise; and it changes nothing. The counter of the event is
-- absent or a number at the first request, and the wait of the second one starts within its 10 seconds.
pub answered_once :
    (R : Redis) (cfg : Config) (env again : Env) (polls polls_again : Polls) (user_id : ℕ)
    (request second : CreateBookingRequest) (key t : ℕ) (r : BookingResponse) (w : World R.Store)
    → R.get w.redis (idempotency user_id key) ≡ none
    → IsCounter R cfg env user_id request key (R.get w.redis (seat_inventory request.event_id))
    → (create_booking R cfg env polls user_id request key w).0 ≡ ok r
    → t < 1000 * idempotency_ttl_seconds
    → polls_again.elapsed 0 < 10000
    → let w' = (create_booking R cfg env polls user_id request key w).1 in
      let w'' = record w' { redis = R.pass t w'.redis } in
      create_booking R cfg again polls_again user_id second key w''
      ≡ (if r.seat.id == second.seat_id then ok r else err (http_error 422), w'')
answered_once R cfg env again polls polls_again user_id request second key t r w free counter done
      soon start =
    let kept = create_booking-Remembered R cfg env user_id request key polls w free counter in
    let w' = (create_booking R cfg env polls user_id request key w).1 in
    let (stored, lasts) = stays_stored _ kept done in
    stored_answer R cfg again polls_again user_id second key r
      (record w' { redis = R.pass t w'.redis })
      (ground (arith, stored, lasts, R.get-pass w'.redis t (idempotency user_id key))) start
  where
    stays_stored :
        (x : Result BookingResponse) {v : Option Value} {time_left : Option ℕ}
        → Remembered x v time_left
        → x ≡ ok r
        → (v ≡ some (answer r)) × (time_left ≡ some (1000 * idempotency_ttl_seconds))
    stays_stored (ok a) (stored, lasts) same_answer = (cc, lasts)
    stays_stored (err e) gone same_answer = absurd (ground arith)
