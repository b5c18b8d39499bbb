-- ===== src/Tests/Handlers.antt =====
-- The theorems about the handlers, at the sample.
use ticketvault.Prelude.{
  zero, suc, ◌⊎◌, inl, ℕ, ◌==◌, ◌≡◌, ◌≢◌, ◌*◌, ◌≤◌, refl, inr, none, some, arith, err, http_error,
  [], ◌∷◌,
}
use ticketvault.Table.{find_where, count_where}
use ticketvault.Redis.{Waiter, seat_inventory, idempotency, number, processing}
use ticketvault.Redis.Sample.{Maps, maps}
use ticketvault.World.{World}
use ticketvault.Events.{available_in}
use ticketvault.Service.{create_booking, value_at, wait_loop}
use ticketvault.Offers.{offer_freed_seat, offer_round}
use ticketvault.Service.Stock.{Surplus}
use ticketvault.Service.Settle.{Belongs, Owes, offer_freed_seat-Settled}
use ticketvault.Service.Keys.{Remembered, create_booking-Remembered}
use ticketvault.Service.Waiting.{wait_loop-ne-none, unfinished_key_refused}
use ticketvault.Service.Fairness.{offer_round-queue}
use ticketvault.Tests.Samples.{
  tables, tables-IsConsistent, store, world, config, env, anyone, request, freed, polls, waiting,
}

-- A seat that is free and not yet counted, as after the transaction that frees it.
abbrev uncounted : World Maps
uncounted = record world { redis = maps.set (seat_inventory 7) (number 0) store }

owed : Owes maps config 7 env anyone freed 0 uncounted
unfolding available_in count_where
owed = (0, refl, refl)

seat_fits : Belongs maps config 7 env anyone freed tables
unfolding find_where
seat_fits x h = ground arith

offer_freed_seat-Settled_example :
    let w = (offer_freed_seat maps config env anyone freed uncounted).1 in
    Surplus maps config 7 0 w.db w.redis
offer_freed_seat-Settled_example =
    offer_freed_seat-Settled maps config 7 env anyone freed 0 uncounted tables-IsConsistent
      seat_fits owed

-- User 6 is away, and user 8 is not.
abbrev second : Waiter
second = record { user_id = 8; joined_at = 20 }

abbrev third : Waiter
third = record { user_id = 9; joined_at = 20 }

abbrev long_queue : World Maps
long_queue = record uncounted {
  redis = record store { queues = λ q. waiting ∷ second ∷ third ∷ [] };
}

offer_round-queue_example :
    maps.zrange (offer_round maps config env (λ u. u == 8) freed long_queue).1.redis 7
    ≡ waiting ∷ third ∷ []
offer_round-queue_example =
    offer_round-queue maps config env (λ u. u == 8) freed long_queue
      (((refl, refl), ((refl, refl), tt)), (((refl, refl), tt), (tt, tt)))

create_booking-Remembered_example :
    let (r, w) = create_booking maps config env polls 6 request 1 world in
    Remembered r (maps.get w.redis (idempotency 6 1)) (maps.ttl w.redis (idempotency 6 1))
create_booking-Remembered_example =
    create_booking-Remembered maps config env 6 request 1 polls world refl (inr (1, refl))

-- The key 1 of user 6 is taken.
abbrev taken : World Maps
taken = record world { redis = maps.set (idempotency 6 1) processing store }

slow : (j : ℕ) → 200 * j ≤ polls.elapsed j
slow j = omega arith

wait_loop-ne-none_example : wait_loop polls (idempotency 6 1) (some processing) 51 0 ≢ none
wait_loop-ne-none_example = wait_loop-ne-none polls (idempotency 6 1) (some processing) slow

still_unanswered :
    (j : ℕ)
    → (value_at polls (idempotency 6 1) (some processing) j ≡ some processing)
      ⊎ (value_at polls (idempotency 6 1) (some processing) j ≡ none)
still_unanswered zero = inl refl
still_unanswered (suc j) = inr refl

unfinished_key_refused_example :
    create_booking maps config env polls 6 request 1 taken ≡ (err (http_error 409), taken)
unfinished_key_refused_example =
    unfinished_key_refused maps config env polls 6 request 1 processing taken refl slow
      still_unanswered
