-- ===== src/Offers.antt =====
-- The offers of a freed seat to the users who wait: _offerSeatToNextWaiter and its parts in
-- backend/src/services/booking/bookingService.ts.
use ticketvault.Prelude.{
  ℕ, zero, suc, ◌+◌, ◌*◌, Bool, true, false, List, [], ◌∷◌, ◌++◌, none, some, map, ltb,
  if◌then◌else◌, Result, ok, err, Action, ◌>>=◌, ◌>>◌, pure, gets,
}
use ticketvault.Types.{SeatStatus, waitlist}
use ticketvault.Db.{seat_at}
use ticketvault.Redis.{Redis, seat_inventory, seat_offers, reservation, hold_of, Waiter}
use ticketvault.Scripts.{release_and_notify}
use ticketvault.World.{
  World, seat_updated, waitlist_offered, seat_available, on_redis, command, in_transaction, emit,
  catch, as_number,
}
use ticketvault.Events.{get_event_cached, price_of}
use ticketvault.Booking.{Env, FreedSeat, create_booking_in_transaction}

-- `config.reservation` and `config.waitlist`.
pub record Config : Type 0 where
  pub ttl_seconds : ℕ
  pub offer_ttl_seconds : ℕ
  pub max_offers : ℕ

abbrev pub max_offline_skips : ℕ
max_offline_skips = 20

module _ (R : Redis) (cfg : Config) where
  open R use {Store, get, zrange, setex, del, incr, zadd_nx, zrem}

  -- `_releaseToPublic`
  unfoldable pub release_to_public : FreedSeat → Action (World Store) (Unit {0})
  release_to_public seat = do
    command (del (seat_offers seat.seat_id))
    command (incr (seat_inventory seat.event_id))
    emit
        (seat_updated seat.event_id seat.seat_id SeatStatus.available seat.seat_number seat.section)
    waiters ← gets (λ w. zrange w.redis seat.event_id)
    -- `notifySeatAvailable` sends nothing to nobody
    elim waiters [
      | [] ↦ pure tt
      | w ∷ ws ↦ emit (
          seat_available (map (λ v. v.user_id) (w ∷ ws)) seat.event_id seat.seat_id seat.seat_number
            seat.section)
    ]

  -- The part of `_offerToWaiter` under `try`.
  unfoldable pub hold_for_waiter : Env → ℕ → FreedSeat → Action (World Store) (Unit {0})
  hold_for_waiter env user_id seat = do
    event ← get_event_cached R env.now seat.event_id
    let amount : ℕ = elim event [ none ↦ 0 | some e ↦ price_of e ]
    response ← in_transaction (
        create_booking_in_transaction env user_id
          (record { event_id = seat.event_id; seat_id = seat.seat_id })
          (waitlist seat.event_id user_id env.now) amount cfg.offer_ttl_seconds)
    command (
        setex (reservation env.uuid) cfg.offer_ttl_seconds
          (hold_of user_id seat.seat_id seat.event_id))
    emit (seat_updated seat.event_id seat.seat_id SeatStatus.reserved seat.seat_number seat.section)
    emit (
        waitlist_offered user_id env.uuid seat.event_id seat.seat_number seat.section
          (env.now + cfg.offer_ttl_seconds * 1000))

  unfoldable pub offer_to_waiter : Env → ℕ → FreedSeat → Action (World Store) (Unit {0})
  offer_to_waiter env user_id seat =
      catch (hold_for_waiter env user_id seat) (λ e. release_to_public seat)

  -- Nobody is waiting, and the script has put the seat back on sale.
  unfoldable pub nobody_waits : FreedSeat → Action (World Store) (Unit {0})
  nobody_waits seat = do
    command (del (seat_offers seat.seat_id))
    emit
        (seat_updated seat.event_id seat.seat_id SeatStatus.available seat.seat_number seat.section)

  -- The loop over the waiters, with the rounds that are left; beside the result it returns those
  -- who were skipped, oldest first.
  unfoldable pub offer_loop :
      Env
      → (ℕ → Bool)
      → FreedSeat
      → ℕ
      → List Waiter
      → World Store
      → (Result (Unit {0}) × World Store) × List Waiter
  offer_loop env online seat zero skipped w = (release_to_public seat w, skipped)
  offer_loop env online seat (suc rounds) skipped w =
      let (r, w') = on_redis (release_and_notify R seat.event_id) w in
      elim r [
        | err e ↦ ((err e, w'), skipped)
        | ok none ↦ (nobody_waits seat w', skipped)
        | ok (some waiter) ↦ elim (online waiter.user_id) [
          | true ↦ (offer_to_waiter env waiter.user_id seat w', skipped)
          | false ↦ offer_loop env online seat rounds (skipped ++ waiter ∷ []) w'
        ]
      ]

  -- The `finally` part: the skipped waiters keep their places.
  unfoldable pub requeue : ℕ → List Waiter → Store → Store
  requeue event_id [] s = s
  requeue event_id (w ∷ ws) s = requeue event_id ws (zadd_nx event_id w s)

  unfoldable pub offer_round : Env → (ℕ → Bool) → FreedSeat → Action (World Store) (Unit {0})
  offer_round env online seat w =
      let (r, skipped) = offer_loop env online seat max_offline_skips [] w in
      (r.0, record r.1 { redis = requeue seat.event_id skipped r.1.redis })

  -- `_offerSeatToNextWaiter`
  unfoldable pub offer_freed_seat : Env → (ℕ → Bool) → FreedSeat → Action (World Store) (Unit {0})
  offer_freed_seat env online seat = do
    command (incr (seat_offers seat.seat_id))
    offers ← gets (λ w. as_number (get w.redis (seat_offers seat.seat_id)))
    if ltb cfg.max_offers (elim offers [ none ↦ 0 | some n ↦ n ])
        then release_to_public seat
        else offer_round env online seat

  -- `offerSeatToNextWaiter`
  unfoldable pub offer_seat_to_next_waiter :
      Env → (ℕ → Bool) → ℕ → ℕ → Action (World Store) (Unit {0})
  offer_seat_to_next_waiter env online event_id seat_id = do
    row ← gets (λ w. seat_at seat_id w.db)
    elim row [
      | none ↦ command (incr (seat_inventory event_id))
      | some s ↦ offer_freed_seat env online (record {
        event_id = event_id;
        seat_id = seat_id;
        seat_number = s.seat_number;
        section = s.section;
      })
    ]
