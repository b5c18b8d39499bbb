-- ===== src/Service/Offered.antt =====
-- An offer of a freed seat to one user: the seat is held for the user, or released.
use ticketvault.Prelude.{
  ℕ, ◌+◌, ◌*◌, ◌≡◌, refl, ap, ◌∙◌, inl, inr, ◌⊎◌, Option, some, arith, ok, List, ◌∷◌,
}
use ticketvault.Types.{
  SeatStatus, BookingStatus, Seat, Booking, Event, CreateBookingRequest, IdempotencyKey,
}
use ticketvault.Table.{find_where}
use ticketvault.Db.{Db, booking_at, insert_audit}
use ticketvault.Redis.{Redis, seat_inventory, seat_offers, incremented}
use ticketvault.World.{World, Message, seat_updated, waitlist_offered, in_transaction, catch}
use ticketvault.Events.{get_event_cached}
use ticketvault.Events.Cache.{cached_effect}
use ticketvault.Booking.{Env, FreedSeat, new_booking}
use ticketvault.Booking.Creation.{attempt, attempt_cases, booked_response, created}
use ticketvault.Offers.{Config, release_to_public, offer_to_waiter, hold_for_waiter}
use ticketvault.Service.Stock.{offered, offer_key, offer_price, offer_failed, offer_held}

module _ (R : Redis) (cfg : Config) (env : Env) (user_id : ℕ) (seat : FreedSeat) where
  open R use {Store, get, get-incr, get-del}

  abbrev pub offer_until : ℕ
  offer_until = env.now + cfg.offer_ttl_seconds * 1000

  -- The messages of an offer, on top of those before.
  abbrev pub offer_messages : (expires_at : ℕ) → List Message → List Message
  offer_messages expires_at before =
      waitlist_offered user_id env.uuid seat.event_id seat.seat_number seat.section expires_at
      ∷ seat_updated seat.event_id seat.seat_id SeatStatus.reserved seat.seat_number seat.section
      ∷ before

  -- The tables hold the seat for the user until the time that the message names.
  abbrev pub IsHeld : Db → List Message → List Message → Type 0
  IsHeld after sent before =
      (b : Booking) × (booking_at env.uuid after ≡ some b)
      × (b.user_id ≡ user_id)
      × (b.seat_id ≡ seat.seat_id)
      × (b.status ≡ BookingStatus.pending)
      × (sent ≡ offer_messages b.expires_at before)

  -- The tables are as before, and the counter of the event is raised.
  abbrev pub IsReleased : World Store → World Store → Type 0
  IsReleased w after =
      (after.db ≡ w.db)
      × (get after.redis (seat_inventory seat.event_id)
          ≡ incremented (get w.redis (seat_inventory seat.event_id)))

  release-IsReleased : (w : World Store) → IsReleased w (release_to_public R cfg seat w).1
  unfolding release_to_public
  release-IsReleased w =
      let counter =
        get-incr (R.del (seat_offers seat.seat_id) w.redis) (seat_inventory seat.event_id)
          (seat_inventory seat.event_id) in
      let kept = get-del w.redis (seat_offers seat.seat_id) (seat_inventory seat.event_id) in
      (ground arith, ground (arith, counter, kept))

  offer_sent :
      (w w' : World Store) (o : Option Event) (x : Seat) (after : Db)
      → get_event_cached R env.now seat.event_id w ≡ (ok o, w')
      → attempt env user_id
          (offered R cfg 0 env user_id seat w)
          (offer_key R cfg 0 env user_id seat w)
          (offer_price R cfg 0 env user_id seat w o)
          cfg.offer_ttl_seconds
          w'.db
        ≡ (
          ok (
              booked_response env user_id
                (offered R cfg 0 env user_id seat w)
                (offer_key R cfg 0 env user_id seat w)
                (offer_price R cfg 0 env user_id seat w o)
                cfg.offer_ttl_seconds
                x),
          after,
        )
      → (offer_to_waiter R cfg env user_id seat w).1.sent ≡ offer_messages offer_until w'.sent
  unfolding offer_to_waiter hold_for_waiter catch in_transaction
  offer_sent w w' o x after read done = ground arith

  held_row :
      (key : IdempotencyKey) (amount : ℕ) (db : Db)
      → let request : CreateBookingRequest = record {
        event_id = seat.event_id;
        seat_id = seat.seat_id;
      } in
        booking_at env.uuid (created env user_id request key amount cfg.offer_ttl_seconds db)
        ≡ some (new_booking env user_id request key amount offer_until)
  unfolding find_where insert_audit new_booking
  held_row key amount db = ground arith

  -- An offer to a user holds the seat for the user and sends the offer, or, if the seat cannot be
  -- held, releases it to everyone.
  pub offer_to_waiter_lem :
      (w : World Store)
      → let after = (offer_to_waiter R cfg env user_id seat w).1 in
        IsReleased w after ⊎ IsHeld after.db after.sent w.sent
  unfolding new_booking
  offer_to_waiter_lem w =
      let (o, w', read, same_db, same_redis, same_sent) = cached_effect R env.now seat.event_id w in
      let request = offered R cfg 0 env user_id seat w in
      let key = offer_key R cfg 0 env user_id seat w in
      let amount = offer_price R cfg 0 env user_id seat w o in
      elim (attempt_cases env user_id request key amount cfg.offer_ttl_seconds w'.db) [
        | inl (x, failed) ↦ rw (offer_failed R cfg 0 env user_id seat w o w' x read failed) (
            inl (
              (release-IsReleased w').0 ∙ same_db,
              (release-IsReleased w').1
                  ∙ ap (λ (st : Store). incremented (get st (seat_inventory seat.event_id)))
                      same_redis,
            ))
        | inr (s, _, _, _, _, done) ↦
            let (stored, kept) = offer_held R cfg 0 env user_id seat w o w' s _ read done in
            let sent = offer_sent w w' o s _ read done in
            inr (
              new_booking env user_id request key amount offer_until,
              ap (booking_at env.uuid) stored ∙ held_row key amount w'.db,
              refl,
              refl,
              refl,
              sent ∙ ap (offer_messages offer_until) same_sent,
            )
      ]
