-- ===== src/Service/Freed.antt =====
-- Cancelling keeps the counters in step with the free seats: the
-- seat that the transaction frees is settled by the offer that follows.
pub mod Compensated
pub mod Expired
pub mod Paid
use ticketvault.Prelude.{
  ℕ, ◌+◌, ◌≡◌, refl, ap, ◌∙◌, inl, inr, Bool, true, false, Option, some, arith, ◌==◌, indicator, ok,
  Option-cases, Result-cases, Action, ◌>>◌,
}
use ticketvault.Types.{BookingStatus, Reason, Seat, Booking, is_active, is_available}
use ticketvault.Table.Keyed.{count-update, find-update, indicator-le-count}
use ticketvault.Db.{
  Db, seat_key, booking_key, seat_at, booking_at, insert_audit, update_seat, update_booking,
  free_seat, with_transaction,
}
use ticketvault.Db.Invariant.{IsConsistent, pending_on, confirmed_on}
use ticketvault.Redis.{Redis, seat_inventory, reservation}
use ticketvault.World.{World, in_transaction, catch, command}
use ticketvault.Events.{is_free_in, available_in}
use ticketvault.Booking.{Env, FreedSeat}
use ticketvault.Booking.Endings.{
  active_seat, freed_seat, ended, cancel_cases, cancel-IsConsistent, compensate_cases,
  compensate-IsConsistent, expire_cases, expire-IsConsistent,
}
use ticketvault.Expiry.{expire_transaction}
use ticketvault.Service.{cancel_booking}
use ticketvault.Offers.{Config, offer_freed_seat, offer_seat_to_next_waiter}
use ticketvault.PaymentService.{compensate, offer_if_freed}
use ticketvault.ExpiryWorker.{expire_single_booking, after_expiry}
use ticketvault.Service.Stock.{Surplus, counts, same-Surplus, incr-Surplus}
use ticketvault.Service.Settle.{offer_freed_seat-Settled}

-- The seat of an active booking is not free.
pub active_taken :
    (db : Db) (k : ℕ) (b : Booking) (s : Seat)
    → IsConsistent db
    → booking_at k db ≡ some b
    → is_active b.status ≡ true
    → seat_at b.seat_id db ≡ some s
    → is_available s.status ≡ false
active_taken db k b s c found active there = ground (
  arith,
  c.held b.seat_id,
  c.sold b.seat_id,
  indicator-le-count booking_key (pending_on b.seat_id) k db.bookings b found,
  indicator-le-count booking_key (confirmed_on b.seat_id) k db.bookings b found,
)

-- Ending a booking frees one seat of the event that the seat belongs to.
pub available-ended :
    (e k : ℕ) (u : BookingStatus) (b : Booking) (s : Seat) (old : Option BookingStatus)
    (why : Reason) (db : Db)
    → IsConsistent db
    → seat_at b.seat_id db ≡ some s
    → is_available s.status ≡ false
    → available_in e (ended k u b old why db) ≡ available_in e db + indicator (s.event_id == e)
unfolding available_in insert_audit update_seat update_booking free_seat
available-ended e k u b s old why db c there taken = ground (
  arith,
  count-update seat_key (is_free_in e) b.seat_id free_seat db.seats s there (c.seat_once b.seat_id),
)

module _ (R : Redis) (cfg : Config) (e : ℕ) (env : Env) (online : ℕ → Bool) where
  open R use {Store, get, get-del}

  -- The seat of a booking is one of the event that the booking is for.
  abbrev pub BookingBelongs : ℕ → Db → Type 0
  BookingBelongs k db =
      (b : Booking) (s : Seat)
      → booking_at k db ≡ some b
      → seat_at b.seat_id db ≡ some s
      → s.event_id ≡ b.event_id

  pub ended-Surplus :
      (d k : ℕ) (u : BookingStatus) (b : Booking) (s : Seat) (old : Option BookingStatus)
      (why : Reason) (db : Db) (store : Store)
      → IsConsistent db
      → booking_at k db ≡ some b
      → is_active b.status ≡ true
      → seat_at b.seat_id db ≡ some s
      → s.event_id ≡ b.event_id
      → Surplus R cfg e d db store
      → Surplus R cfg e (d + counts R cfg e b.event_id) (ended k u b old why db) store
  ended-Surplus d k u b s old why db store c found active there belongs (n, at, eq) = (
    n,
    at,
    omega (
      arith,
      available-ended e k u b s old why db c there (active_taken db k b s c found active there),
      ap (counts R cfg e) belongs,
    ),
  )

  -- The seat of the booking still belongs to the event once it has been freed.
  pub seat-ended :
      (k : ℕ) (u : BookingStatus) (b : Booking) (s : Seat) (old : Option BookingStatus)
      (why : Reason) (db : Db)
      → seat_at b.seat_id db ≡ some s
      → s.event_id ≡ b.event_id
      → (x : Seat) → seat_at b.seat_id (ended k u b old why db) ≡ some x
      → x.event_id ≡ b.event_id
  unfolding insert_audit update_seat update_booking free_seat
  seat-ended k u b s old why db there belongs x at =
      ground (arith, find-update seat_key b.seat_id b.seat_id free_seat db.seats (λ y. refl))

  abbrev pub Keeps : ℕ → World Store → Type 0
  Keeps d w = Surplus R cfg e d w.db w.redis

  pub then_del-Surplus :
      (d k : ℕ) (m : Action (World Store) (Unit {0})) (w : World Store)
      → Keeps d (m w).1
      → Keeps d ((m >> command (R.del (reservation k))) w).1
  then_del-Surplus d k m w h = elim (Result-cases (m w).0) [
    | inl (x, failed) ↦
        let stays : ((m >> command (R.del (reservation k))) w).1 ≡ (m w).1 = ground arith in
        rw stays h
    | inr (x, done) ↦
        let next : ((m >> command (R.del (reservation k))) w).1
            ≡ record ((m w).1) { redis = R.del (reservation k) (m w).1.redis } =
          ground arith in
        rw next (
          same-Surplus R cfg e d (m w).1.db (m w).1.redis _
            (get-del (m w).1.redis (reservation k) (seat_inventory e)) h)
  ]

  -- In consistent tables cancelling a booking, allowed or refused, with the offer that follows, leaves
  -- as many free seats beyond the counter of any event as there were, if the seat of the booking is
  -- one of the event of the booking.
  pub cancel_booking-Even :
      (d booking_id user_id : ℕ) (w : World Store)
      → IsConsistent w.db
      → BookingBelongs booking_id w.db
      → Surplus R cfg e d w.db w.redis
      → let w' = (cancel_booking R cfg env online booking_id user_id w).1 in
        Surplus R cfg e d w'.db w'.redis
  cancel_booking-Even d booking_id user_id w c belongs h =
      elim (cancel_cases booking_id user_id w.db c) [
        | inl (x, failed) ↦
            let stays : (cancel_booking R cfg env online booking_id user_id w).1 ≡ w =
              unfold cancel_booking in_transaction in ground arith in
            rw stays h
        | inr (b, s, found, own, active, there, done) ↦
            let ours = belongs b s found there in
            let after =
              ended booking_id BookingStatus.cancelled b (some b.status) Reason.user_cancelled
                w.db in
            let kept = rw done at (cancel-IsConsistent booking_id user_id w.db c) in
            let next : (cancel_booking R cfg env online booking_id user_id w).1
                ≡ ((offer_freed_seat R cfg env online (freed_seat b s)
                      >> command (R.del (reservation booking_id)))
                    (record w { db = after })).1 =
              unfold cancel_booking in_transaction in ground arith in
            rw next (
              then_del-Surplus d booking_id (offer_freed_seat R cfg env online (freed_seat b s))
                (record w { db = after })
                (offer_freed_seat-Settled R cfg e env online (freed_seat b s) d
                  (record w { db = after }) kept
                  (seat-ended booking_id BookingStatus.cancelled b s _ _ w.db there ours)
                  (ended-Surplus d booking_id BookingStatus.cancelled b s _ _ w.db w.redis c found
                    active there ours h)))
      ]

  pub offer_seat_to_next_waiter-Settled :
      (event_id seat_id d : ℕ) (w : World Store)
      → IsConsistent w.db
      → ((x : Seat) → seat_at seat_id w.db ≡ some x → x.event_id ≡ event_id)
      → Surplus R cfg e (d + counts R cfg e event_id) w.db w.redis
      → Keeps d (offer_seat_to_next_waiter R cfg env online event_id seat_id w).1
  offer_seat_to_next_waiter-Settled event_id seat_id d w c belongs h =
      elim (Option-cases (seat_at seat_id w.db)) [
        | inl absent ↦
            let counter_up : (offer_seat_to_next_waiter R cfg env online event_id seat_id w).1
                ≡ record w { redis = R.incr (seat_inventory event_id) w.redis } =
              unfold offer_seat_to_next_waiter in ground arith in
            rw counter_up (incr-Surplus R cfg e event_id d w.db w.redis h)
        | inr (s, there) ↦
            let seat : FreedSeat = record {
              event_id = event_id;
              seat_id = seat_id;
              seat_number = s.seat_number;
              section = s.section;
            } in
            let next : offer_seat_to_next_waiter R cfg env online event_id seat_id w
                ≡ offer_freed_seat R cfg env online seat w =
              unfold offer_seat_to_next_waiter in ground arith in
            rw next (offer_freed_seat-Settled R cfg e env online seat d w c belongs h)
      ]
