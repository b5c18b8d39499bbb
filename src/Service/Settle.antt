-- ===== src/Service/Settle.antt =====
-- A freed seat is settled: however the offers to the waiters end, the one free seat that the
-- counter does not show is shown again or held for a waiter.
use ticketvault.Prelude.{
  ℕ, zero, suc, ◌+◌, ◌≡◌, refl, ◌∙◌, inl, inr, Bool, true, false, List, [], ◌∷◌, ◌++◌, none, some,
  arith, ltb, Bool-cases,
}
use ticketvault.Types.{Seat}
use ticketvault.Db.{Db, seat_at}
use ticketvault.Db.Invariant.{IsConsistent}
use ticketvault.Redis.{Redis, seat_inventory, seat_offers, Waiter}
use ticketvault.Scripts.{release_and_notify}
use ticketvault.World.{World, on_redis, as_number}
use ticketvault.Booking.{Env, FreedSeat}
use ticketvault.Offers.{
  Config, release_to_public, nobody_waits, offer_to_waiter, offer_loop, requeue, offer_round,
  offer_freed_seat, max_offline_skips,
}
use ticketvault.Service.Stock.{
  Surplus, counts, same-Surplus, incr-Surplus, release-Surplus, offer_to_waiter-Surplus,
}

module _ (R : Redis) (cfg : Config) (e : ℕ) (env : Env) (online : ℕ → Bool) (seat : FreedSeat) where
  open R use {Store, get, zrange, get-set, get-del, get-incr, get-zadd_nx, get-zpopmin}

  -- The seat, if it is in the table, is one of the event that the offer is for.
  abbrev pub Belongs : Db → Type 0
  Belongs db = (x : Seat) → seat_at seat.seat_id db ≡ some x → x.event_id ≡ seat.event_id

  abbrev pub Owes : ℕ → World Store → Type 0
  Owes d w = Surplus R cfg e (d + counts R cfg e seat.event_id) w.db w.redis

  abbrev pub Settled : ℕ → World Store → Type 0
  Settled d w = Surplus R cfg e d w.db w.redis

  pub loop_nobody :
      (rounds : ℕ) (skipped : List Waiter) (w : World Store)
      → zrange w.redis seat.event_id ≡ []
      → offer_loop R cfg env online seat (suc rounds) skipped w ≡ (
        nobody_waits R cfg seat
            (record w { redis = R.incr (seat_inventory seat.event_id) w.redis }),
        skipped,
      )
  unfolding offer_loop on_redis release_and_notify
  loop_nobody rounds skipped w h = ground arith

  abbrev pub popped : World Store → World Store
  popped w = record w { redis = R.zpopmin seat.event_id w.redis }

  pub loop_online :
      (rounds : ℕ) (skipped : List Waiter) (w : World Store) (v : Waiter) (vs : List Waiter)
      → zrange w.redis seat.event_id ≡ v ∷ vs
      → online v.user_id ≡ true
      → offer_loop R cfg env online seat (suc rounds) skipped w
        ≡ (offer_to_waiter R cfg env v.user_id seat (popped w), skipped)
  unfolding offer_loop on_redis release_and_notify
  loop_online rounds skipped w v vs h on = ground arith

  pub loop_offline :
      (rounds : ℕ) (skipped : List Waiter) (w : World Store) (v : Waiter) (vs : List Waiter)
      → zrange w.redis seat.event_id ≡ v ∷ vs
      → online v.user_id ≡ false
      → offer_loop R cfg env online seat (suc rounds) skipped w
        ≡ offer_loop R cfg env online seat rounds (skipped ++ v ∷ []) (popped w)
  unfolding offer_loop on_redis release_and_notify
  loop_offline rounds skipped w v vs h off = ground arith

  nobody-Settled :
      (d : ℕ) (w : World Store)
      → Owes d w
      → Settled d
          (nobody_waits R cfg seat
            (record w { redis = R.incr (seat_inventory seat.event_id) w.redis })).1
  unfolding nobody_waits
  nobody-Settled d w h =
      same-Surplus R cfg e d w.db _ _
        (get-del (R.incr (seat_inventory seat.event_id) w.redis) (seat_offers seat.seat_id)
          (seat_inventory e))
        (incr-Surplus R cfg e seat.event_id d w.db w.redis h)

  offer_loop-Settled :
      (d rounds : ℕ) (skipped : List Waiter) (w : World Store)
      → IsConsistent w.db
      → Belongs w.db
      → Owes d w
      → Settled d (offer_loop R cfg env online seat rounds skipped w).0.1
  offer_loop-Settled d zero skipped w c belongs h =
      unfold offer_loop in release-Surplus R cfg e seat d w h
  offer_loop-Settled d (suc rounds) skipped w c belongs h =
      go (λ v. offer_loop-Settled d rounds (skipped ++ v ∷ []) (popped w) c belongs after_pop)
        (zrange w.redis seat.event_id) refl
    where
      after_pop : Owes d (popped w)
      after_pop =
          same-Surplus R cfg e _ w.db w.redis _
            (get-zpopmin w.redis seat.event_id (seat_inventory e)) h

      go :
          ((v : Waiter)
            → Settled d
                (offer_loop R cfg env online seat rounds (skipped ++ v ∷ []) (popped w)).0.1)
          → (vs : List Waiter) → zrange w.redis seat.event_id ≡ vs
          → Settled d (offer_loop R cfg env online seat (suc rounds) skipped w).0.1
      go later [] empty = rw (loop_nobody rounds skipped w empty) (nobody-Settled d w h)
      go later (v ∷ vs) some_wait = elim (Bool-cases (online v.user_id)) [
        | inl on ↦
            rw (loop_online rounds skipped w v vs some_wait on)
              (offer_to_waiter-Surplus R cfg e env v.user_id seat (popped w) d c belongs after_pop)
        | inr off ↦ rw (loop_offline rounds skipped w v vs some_wait off) (later v)
      ]

  get-requeue :
      (ws : List Waiter) (s : Store)
      → get (requeue R cfg seat.event_id ws s) (seat_inventory e) ≡ get s (seat_inventory e)
  unfolding requeue
  get-requeue [] s = refl
  get-requeue (v ∷ ws) s =
      get-requeue ws (R.zadd_nx seat.event_id v s)
      ∙ get-zadd_nx s seat.event_id v (seat_inventory e)

  offer_round-Settled :
      (d : ℕ) (w : World Store)
      → IsConsistent w.db
      → Belongs w.db
      → Owes d w
      → Settled d (offer_round R cfg env online seat w).1
  unfolding offer_round
  offer_round-Settled d w c belongs h =
      let r = offer_loop R cfg env online seat max_offline_skips [] w in
      same-Surplus R cfg e d r.0.1.db r.0.1.redis _ (get-requeue r.1 r.0.1.redis)
        (offer_loop-Settled d max_offline_skips [] w c belongs h)

  -- In consistent tables the offer of a freed seat settles it, whoever waits, is on the page, or can be
  -- offered it: where an event has `d` free seats beyond its counter, and one more if the seat is one
  -- of its seats, it has `d` after the offer. The seat must be one of the event of the offer.
  pub offer_freed_seat-Settled :
      (d : ℕ) (w : World Store)
      → IsConsistent w.db
      → Belongs w.db
      → Owes d w
      → Settled d (offer_freed_seat R cfg env online seat w).1
  offer_freed_seat-Settled d w c belongs h = elim (Bool-cases over) [
    | inl yes_over ↦ rw (freed_release yes_over) (release-Surplus R cfg e seat d counted after)
    | inr not_over ↦ rw (freed_round not_over) (offer_round-Settled d counted c belongs after)
  ]
    where
      counted : World Store
      counted = record w { redis = R.incr (seat_offers seat.seat_id) w.redis }

      after : Owes d counted
      after =
          same-Surplus R cfg e _ w.db w.redis _
            (get-incr w.redis (seat_offers seat.seat_id) (seat_inventory e)) h

      over : Bool
      over = ltb cfg.max_offers (elim (as_number (get counted.redis (seat_offers seat.seat_id))) [
        | none ↦ 0
        | some n ↦ n
      ])

      freed_release :
          over ≡ true
          → offer_freed_seat R cfg env online seat w ≡ release_to_public R cfg seat counted
      freed_release t = unfold offer_freed_seat in ground arith

      freed_round :
          over ≡ false
          → offer_freed_seat R cfg env online seat w ≡ offer_round R cfg env online seat counted
      freed_round t = unfold offer_freed_seat in ground arith
