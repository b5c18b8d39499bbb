-- ===== src/Service/Freed/Compensated.antt =====
-- A payment that fails keeps the counters in step with the free seats.
use ticketvault.Prelude.{ℕ, ◌≡◌, inl, inr, Bool, some, arith, ◌>>◌}
use ticketvault.Types.{BookingStatus, Reason}
use ticketvault.Db.Invariant.{IsConsistent}
use ticketvault.Redis.{Redis, seat_inventory, reservation}
use ticketvault.World.{World, in_transaction, command}
use ticketvault.Booking.{Env}
use ticketvault.Booking.Endings.{active_seat, ended, compensate_cases, compensate-IsConsistent}
use ticketvault.Offers.{Config, offer_seat_to_next_waiter}
use ticketvault.PaymentService.{compensate, offer_if_freed}
use ticketvault.Service.Stock.{Surplus, same-Surplus}
use ticketvault.Service.Freed.{
  BookingBelongs, ended-Surplus, seat-ended, then_del-Surplus, offer_seat_to_next_waiter-Settled,
}

module _ (R : Redis) (cfg : Config) (e : ℕ) (env : Env) (online : ℕ → Bool) where
  open R use {Store, get, get-del}

  -- In consistent tables a payment that fails, whatever the state of its booking, leaves as many free
  -- seats beyond the counter of any event as there were, if the seat of the booking is one of the
  -- event of the booking.
  pub compensate-Even :
      (d booking_id : ℕ) (w : World Store)
      → IsConsistent w.db
      → BookingBelongs R cfg e env online booking_id w.db
      → Surplus R cfg e d w.db w.redis
      → let w' = (compensate R cfg env online booking_id w).1 in Surplus R cfg e d w'.db w'.redis
  compensate-Even d booking_id w c belongs h = elim (compensate_cases booking_id w.db c) [
    | inl same ↦
        let next : (compensate R cfg env online booking_id w).1
            ≡ record w { redis = R.del (reservation booking_id) w.redis } =
          unfold compensate in_transaction offer_if_freed in ground arith in
        rw next (
          same-Surplus R cfg e d w.db w.redis _
            (get-del w.redis (reservation booking_id) (seat_inventory e)) h)
    | inr (b, found, pending, done) ↦
        let (s, there) = active_seat w.db booking_id b c found (ground arith) in
        let ours = belongs b s found there in
        let after =
          ended booking_id BookingStatus.compensated b (some BookingStatus.pending)
            Reason.payment_failed w.db in
        let kept = rw done at (compensate-IsConsistent booking_id w.db c) in
        let next : (compensate R cfg env online booking_id w).1
            ≡ ((offer_seat_to_next_waiter R cfg env online b.event_id b.seat_id
                  >> command (R.del (reservation booking_id)))
                (record w { db = after })).1 =
          unfold compensate in_transaction offer_if_freed in ground arith in
        rw next (
          then_del-Surplus R cfg e env online d booking_id
            (offer_seat_to_next_waiter R cfg env online b.event_id b.seat_id)
            (record w { db = after })
            (offer_seat_to_next_waiter-Settled R cfg e env online b.event_id b.seat_id d
              (record w { db = after }) kept
              (seat-ended R cfg e env online booking_id BookingStatus.compensated b s _ _ w.db there
                ours)
              (ended-Surplus R cfg e env online d booking_id BookingStatus.compensated b s _ _ w.db
                w.redis c found (ground arith) there ours h)))
  ]
