-- ===== src/Service/Refines.antt =====
-- What `createBooking` promises of the tables: one atomic booking, or nothing.
use mathlib.Core.Path.{subst}
use ticketvault.Prelude.{ℕ, ◌≡◌, refl, inl, inr, ◌⊎◌, none, some, arith, ok, err, Result}
use ticketvault.Types.{SeatStatus, Seat, CreateBookingRequest, BookingResponse, client}
use ticketvault.Db.{Db, seat_at}
use ticketvault.Redis.{Redis, idempotency}
use ticketvault.World.{World, on_redis}
use ticketvault.Events.{init_redis_inventory}
use ticketvault.Booking.{Env}
use ticketvault.Booking.Creation.{attempt_cases, created, booked_response}
use ticketvault.Service.{
  Polls, enqueue, initialize, pass_gate, refuse, create_claimed, create_booking,
}
use ticketvault.Offers.{Config}
use ticketvault.Service.Paths.{
  booked, book_failed, book_done, taken, gate_paths, claimed_paths, create_paths,
}

-- The answer names no booking.
abbrev pub IsUnbooked : Result BookingResponse → Type 0
IsUnbooked (ok r) = r.booking_id ≡ none
IsUnbooked (err e) = Unit

module _ (R : Redis) (cfg : Config) (env : Env) (user_id : ℕ) (request : CreateBookingRequest)
    (key : ℕ) where
  open R use {Store, get, get-set, get-del}

  -- The abstract operation on the tables: a seat that was free is held for the user by one new
  -- booking, which the answer names; or the tables are as before and the answer names none.
  abbrev pub OneBooking : Db → Result BookingResponse → Db → Type 0
  OneBooking db r after =
      ((after ≡ db) × IsUnbooked r)
      ⊎ ((s : Seat) × (amount : ℕ) × (seat_at request.seat_id db ≡ some s)
          × (s.status ≡ SeatStatus.available)
          × (after ≡ created env user_id request (client user_id key) amount cfg.ttl_seconds db)
          × (r
              ≡ ok (
                  booked_response env user_id request (client user_id key) amount cfg.ttl_seconds
                    s)))

  abbrev Refines : Db → Result BookingResponse × World Store → Type 0
  Refines db r = OneBooking db r.0 r.1.db

  enqueue-Refines :
      (amount : ℕ) (w : World Store) → Refines w.db (enqueue R cfg env user_id request key amount w)
  unfolding enqueue on_redis
  enqueue-Refines amount w = inl (ground arith, ground arith)

  refuse-Refines : (status : ℕ) (w : World Store) → Refines w.db (refuse R cfg user_id key status w)
  unfolding refuse
  refuse-Refines status w = inl (ground arith, ground arith)

  initialize-Refines : (w : World Store) → Refines w.db (initialize R cfg user_id request key w)
  unfolding initialize init_redis_inventory
  initialize-Refines w = inl (ground arith, ground arith)

  booked-Refines :
      (amount n : ℕ) (w : World Store)
      → Refines w.db (booked R cfg env user_id request key amount n w)
  booked-Refines amount n w =
      elim (attempt_cases env user_id request (client user_id key) amount cfg.ttl_seconds w.db) [
        | inl (x, failed) ↦
            rw (book_failed R cfg env user_id request key amount n w x failed) (inl (refl, tt))
        | inr (s, found, free, fresh, unheld, done) ↦
            let (answered, same_db, stored) =
              book_done R cfg env user_id request key amount n w _ _ done in
            inr (s, amount, found, free, same_db, answered)
      ]

  pass_gate-Refines :
      (amount : ℕ) (w : World Store)
      → Refines w.db (pass_gate R cfg env user_id request key amount w)
  pass_gate-Refines amount w = elim (gate_paths R cfg env user_id request key amount w) [
    | inl (_, missing) ↦ rw missing (initialize-Refines w)
    | inr (inl (_, sold_out)) ↦ rw sold_out (enqueue-Refines amount w)
    | inr (inr (inl (n, _, through))) ↦
        rw through (booked-Refines amount n (taken R cfg env user_id request key w))
    | inr (inr (inr (v, _, odd, broken))) ↦ rw broken (inl (refl, tt))
  ]

  create_claimed-Refines :
      (w : World Store) → Refines w.db (create_claimed R cfg env user_id request key w)
  create_claimed-Refines w =
      let (w', same_db, same_redis, same_sent, path) =
        claimed_paths R cfg env user_id request key w in
      elim path [
        | inl (status, refused) ↦ rw refused (
            subst (λ (db : Db). Refines db (refuse R cfg user_id key status w')) same_db
              (refuse-Refines status w'))
        | inr (amount, passed) ↦ rw passed (
            subst (λ (db : Db). Refines db (pass_gate R cfg env user_id request key amount w'))
              same_db (pass_gate-Refines amount w'))
      ]

  -- A request under a free key carries out one atomic booking on the tables, or leaves them as they
  -- were: if it answers with a booking, the seat was free and is held for the user by that booking,
  -- and if it fails, or is put in the queue, no row has changed.
  pub create_booking-OneBooking :
      (polls : Polls) (w : World Store)
      → get w.redis (idempotency user_id key) ≡ none
      → let (r, w') = create_booking R cfg env polls user_id request key w in
        OneBooking w.db r w'.db
  create_booking-OneBooking polls w free =
      elim (create_paths R cfg env user_id request key polls w) [
        | inl (_, processed) ↦ rw processed (create_claimed-Refines _)
        | inr (v, used, _) ↦ cc
      ]
