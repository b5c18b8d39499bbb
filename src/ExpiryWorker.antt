-- ===== src/ExpiryWorker.antt =====
-- The runs of backend/src/workers/expiryWorker.ts, and `withLock` of backend/src/redis/scripts.ts.
use ticketvault.Prelude.{
  ℕ, Bool, true, false, List, [], ◌∷◌, if◌then◌else◌, Action, ◌>>=◌, ◌>>◌, pure, gets, throw,
}
use ticketvault.Types.{Booking}
use ticketvault.Redis.{Redis, reservation, Worker, expiry}
use ticketvault.Scripts.{acquire_lock, release_lock}
use ticketvault.World.{World, command, on_redis, in_transaction, catch}
use ticketvault.Booking.{Env}
use ticketvault.Expiry.{expired_bookings, expire_transaction}
use ticketvault.Offers.{Config, offer_seat_to_next_waiter}

module _ (R : Redis) where
  open R use {Store}

  -- Runs `fn` only if the lock is got, and lets go of it whether `fn` ends or throws.
  unfoldable pub with_lock :
      Worker → (ttl_seconds owner : ℕ) → Action (World Store) (Unit {0}) → Action (World Store) Bool
  with_lock w ttl_seconds owner fn = do
    got ← on_redis (acquire_lock R w owner ttl_seconds)
    if got
        then (do
          catch fn (λ e. do on_redis (release_lock R w owner); throw e)
          on_redis (release_lock R w owner)
          pure true)
        else pure false

-- `LOCK_TTL_SECONDS`
abbrev pub lock_ttl_seconds : ℕ
lock_ttl_seconds = 25

module _ (R : Redis) (cfg : Config) where
  open R use {Store, del}

  unfoldable pub after_expiry : Env → (ℕ → Bool) → Booking → Bool → Action (World Store) (Unit {0})
  after_expiry env online booking false = pure tt
  after_expiry env online booking true = do
    offer_seat_to_next_waiter R cfg env online booking.event_id booking.seat_id
    command (del (reservation booking.id))

  -- `_expireSingleBooking`; an error is logged and goes no further.
  unfoldable pub expire_single_booking :
      Env → (ℕ → Bool) → Booking → Action (World Store) (Unit {0})
  expire_single_booking env online booking =
      catch (in_transaction (expire_transaction booking) >>= after_expiry env online booking)
        (λ e. pure tt)

  -- The loop over the rows of the scan, each with the surroundings of its own call.
  unfoldable pub expire_all :
      (ℕ → Env) → (ℕ → Bool) → List Booking → Action (World Store) (Unit {0})
  expire_all env online [] = pure tt
  expire_all env online (b ∷ bs) = do
    expire_single_booking (env b.id) online b
    expire_all env online bs

  -- `processExpiredReservations`
  unfoldable pub process_expired_reservations :
      (ℕ → Env) → (ℕ → Bool) → (now owner : ℕ) → Action (World Store) (Unit {0})
  process_expired_reservations env online now owner =
      catch
        (do
          with_lock R expiry lock_ttl_seconds owner
              (do expired ← gets (λ w. expired_bookings now w.db); expire_all env online expired)
          pure tt)
        (λ e. pure tt)
