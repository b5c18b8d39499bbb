-- ===== src/Service/Freed/Expired.antt =====
-- The step of the expiry worker keeps the counters in step with the free seats.
use ticketvault.Prelude.{ℕ, ◌≡◌, ap, ◌∙◌, inl, inr, Bool, true, some, arith, ok, Result-cases, ◌>>◌}
use ticketvault.Types.{BookingStatus, Reason, Booking}
use ticketvault.Db.{Db, seat_at, booking_at, with_transaction}
use ticketvault.Db.Invariant.{IsConsistent}
use ticketvault.Redis.{Redis, reservation}
use ticketvault.World.{World, in_transaction, catch, command}
use ticketvault.Booking.{Env}
use ticketvault.Booking.Endings.{active_seat, ended, expire_cases, expire-IsConsistent}
use ticketvault.Expiry.{expire_transaction}
use ticketvault.Offers.{Config, offer_seat_to_next_waiter}
use ticketvault.ExpiryWorker.{expire_single_booking, after_expiry}
use ticketvault.Service.Stock.{Surplus, counts}
use ticketvault.Service.Freed.{
  available-ended, active_taken, BookingBelongs, seat-ended, then_del-Surplus,
  offer_seat_to_next_waiter-Settled,
}

module _ (R : Redis) (cfg : Config) (e : ℕ) (env : Env) (online : ℕ → Bool) where
  open R use {Store, get, get-del}

  expire_next :
      (scanned : Booking) (w : World Store) (after : Db)
      → with_transaction (expire_transaction scanned) w.db ≡ (ok true, after)
      → (expire_single_booking R cfg env online scanned w).1
        ≡ ((offer_seat_to_next_waiter R cfg env online scanned.event_id scanned.seat_id
              >> command (R.del (reservation scanned.id)))
            (record w { db = after })).1
  expire_next scanned w after done =
      let m = offer_seat_to_next_waiter R cfg env online scanned.event_id scanned.seat_id in
      elim (Result-cases (m (record w { db = after })).0) [
        | inl (x, failed) ↦
            unfold expire_single_booking in_transaction catch after_expiry in ground arith
        | inr (x, fine) ↦
            unfold expire_single_booking in_transaction catch after_expiry in ground arith
      ]

  -- In consistent tables the step of the expiry worker on a row that it has scanned leaves as many
  -- free seats beyond the counter of any event as there were, if the booking of the row still names
  -- the seat and the event of the row, and the seat is one of that event.
  pub expire_single_booking-Even :
      (d : ℕ) (scanned : Booking) (w : World Store)
      → IsConsistent w.db
      → BookingBelongs R cfg e env online scanned.id w.db
      → ((b : Booking)
          → booking_at scanned.id w.db ≡ some b
          → (b.seat_id ≡ scanned.seat_id) × (b.event_id ≡ scanned.event_id))
      → Surplus R cfg e d w.db w.redis
      → let w' = (expire_single_booking R cfg env online scanned w).1 in
        Surplus R cfg e d w'.db w'.redis
  expire_single_booking-Even d scanned w c belongs names h = elim (expire_cases scanned w.db) [
    | inl same ↦
        let stays : (expire_single_booking R cfg env online scanned w).1 ≡ w =
          unfold expire_single_booking in_transaction catch after_expiry in ground arith in
        rw stays h
    | inr (b, found, pending, done) ↦
        let (same_seat, same_event) = names b found in
        let (s, there) = active_seat w.db scanned.id b c found (ground arith) in
        let there' : seat_at scanned.seat_id w.db ≡ some s = rw (← same_seat) there in
        let ours : s.event_id ≡ scanned.event_id = belongs b s found there ∙ same_event in
        let after =
          ended scanned.id BookingStatus.expired scanned (some BookingStatus.pending)
            Reason.reservation_ttl_exceeded w.db in
        let kept = rw done at (expire-IsConsistent scanned w.db c (λ x at. (names x at).0)) in
        let freed =
          available-ended e scanned.id BookingStatus.expired scanned s (some BookingStatus.pending)
            Reason.reservation_ttl_exceeded w.db c there'
            (active_taken w.db scanned.id b s c found (ground arith) there) in
        let m = offer_seat_to_next_waiter R cfg env online scanned.event_id scanned.seat_id in
        let next : (expire_single_booking R cfg env online scanned w).1
            ≡ ((m >> command (R.del (reservation scanned.id))) (record w { db = after })).1 =
          expire_next scanned w after done in
        rw next (
          then_del-Surplus R cfg e env online d scanned.id m (record w { db = after })
            (offer_seat_to_next_waiter-Settled R cfg e env online scanned.event_id scanned.seat_id d
              (record w { db = after }) kept
              (seat-ended R cfg e env online scanned.id BookingStatus.expired scanned s _ _ w.db
                there' ours)
              (h.0, h.1, omega (arith, freed, ap (counts R cfg e) ours))))
  ]
