-- ===== src/PaymentService.antt =====
-- `simulatePayment` of backend/src/services/payment/paymentService.ts.
use ticketvault.Prelude.{
  ℕ, Bool, not, Option, none, some, ◌==◌, if◌then◌else◌, http_error, Action, ◌>>=◌, ◌>>◌, pure,
  throw_if, or_throw, gets,
}
use ticketvault.Db.{booking_at}
use ticketvault.Redis.{Redis, reservation}
use ticketvault.World.{World, command, in_transaction}
use ticketvault.Booking.{Env}
use ticketvault.Payment.{compensate_transaction}
use ticketvault.Service.{confirm_booking}
use ticketvault.Offers.{Config, offer_seat_to_next_waiter}

-- `a ?? b`
abbrev pub or_else : Option ℕ → ℕ → ℕ
or_else none b = b
or_else (some a) b = a

module _ (R : Redis) (cfg : Config) where
  open R use {Store, del}

  unfoldable pub offer_if_freed :
      Env → (ℕ → Bool) → Option (ℕ × ℕ) → Action (World Store) (Unit {0})
  offer_if_freed env online none = pure tt
  offer_if_freed env online (some (event_id, seat_id)) =
      offer_seat_to_next_waiter R cfg env online event_id seat_id

  -- The branch for a payment that failed.
  unfoldable pub compensate : Env → (ℕ → Bool) → ℕ → Action (World Store) (Unit {0})
  compensate env online booking_id = do
    freed ← in_transaction (compensate_transaction booking_id)
    offer_if_freed env online freed
    command (del (reservation booking_id))

  -- `simulatePayment`, with a UUID for a payment that was never initiated.
  unfoldable pub simulate_payment :
      Env → (ℕ → Bool) → ℕ → ℕ → ℕ → Bool → Action (World Store) (Unit {0})
  simulate_payment env online payment_uuid booking_id user_id success = do
    row ← gets (λ w. booking_at booking_id w.db)
    booking ← or_throw row (http_error 404)
    throw_if (not (booking.user_id == user_id)) (http_error 403)
    if success
        then confirm_booking R cfg env.now booking_id
            (or_else booking.stripe_payment_intent_id payment_uuid)
        else compensate env online booking_id
