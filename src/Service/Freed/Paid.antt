-- ===== src/Service/Freed/Paid.antt =====
-- A payment keeps the counters in step with the free seats, whatever comes of it.
use ticketvault.Prelude.{ℕ, ◌≡◌, ◌∙◌, inl, inr, Bool, false, some, arith}
use ticketvault.Types.{BookingStatus, SeatStatus, Reason, Booking, Seat, is_available}
use ticketvault.Table.Keyed.{count-update}
use ticketvault.Db.{Db, seat_key, seat_at, update_seat, update_booking, insert_audit}
use ticketvault.Db.Invariant.{IsConsistent}
use ticketvault.Db.Moved.{moved}
use ticketvault.Redis.{Redis, seat_inventory, seat_offers, reservation}
use ticketvault.World.{World, in_transaction, on_db}
use ticketvault.Events.{is_free_in, available_in}
use ticketvault.Booking.{Env, sell_seat, confirm_row}
use ticketvault.Booking.Endings.{confirm_cases, freed_seat, initiate_cases}
use ticketvault.Booking.Endings.{selling}
use ticketvault.Payment.{initiate_payment}
use ticketvault.PaymentService.{simulate_payment}
use ticketvault.Offers.{Config}
use ticketvault.Service.{confirm_booking, announce_sale}
use ticketvault.Service.Stock.{Surplus}
use ticketvault.Service.Freed.{active_taken, BookingBelongs}
use ticketvault.Service.Freed.Compensated.{compensate-Even}
use ticketvault.Service.Histories.{simulate_paths}

-- The tables after a booking has been confirmed.
abbrev sold : ℕ → ℕ → ℕ → Booking → Db → Db
sold now k payment_id b db =
    moved (confirm_row payment_id now) sell_seat BookingStatus.confirmed SeatStatus.booked
      (selling payment_id now) k b (some BookingStatus.pending) Reason.payment_success db

-- Selling a seat that is held leaves the number of free seats.
available-sold :
    (e now k payment_id : ℕ) (b : Booking) (s : Seat) (db : Db)
    → IsConsistent db
    → seat_at b.seat_id db ≡ some s
    → is_available s.status ≡ false
    → available_in e (sold now k payment_id b db) ≡ available_in e db
unfolding available_in insert_audit update_seat update_booking sell_seat
available-sold e now k payment_id b s db c there taken = ground (
  arith,
  count-update seat_key (is_free_in e) b.seat_id sell_seat db.seats s there (c.seat_once b.seat_id),
)

module _ (R : Redis) (cfg : Config) (e : ℕ) where
  open R use {Store, get, get-del}

  confirm_booking-Even :
      (d now k payment_id : ℕ) (w : World Store)
      → IsConsistent w.db
      → Surplus R cfg e d w.db w.redis
      → let w' = (confirm_booking R cfg now k payment_id w).1 in Surplus R cfg e d w'.db w'.redis
  confirm_booking-Even d now k payment_id w c h = elim (confirm_cases now k payment_id w.db c) [
    | inl (b, found, confirmed, done) ↦
        let stays : (confirm_booking R cfg now k payment_id w).1 ≡ w =
          unfold confirm_booking in_transaction on_db announce_sale in ground arith in
        rw stays h
    | inr (inl (x, failed)) ↦
        let stays : (confirm_booking R cfg now k payment_id w).1 ≡ w =
          unfold confirm_booking in_transaction on_db in ground arith in
        rw stays h
    | inr (inr (b, s, found, pending, there, done)) ↦
        let after = sold now k payment_id b w.db in
        let next : (confirm_booking R cfg now k payment_id w).1
            ≡ (announce_sale R cfg k (some (freed_seat b s)) (record w { db = after })).1 =
          unfold confirm_booking in_transaction on_db in ground arith in
        let free =
          available-sold e now k payment_id b s w.db c there
            (active_taken w.db k b s c found (ground arith) there) in
        rw next (
          unfold announce_sale in
          (
            h.0,
            get-del (R.del (reservation k) w.redis) (seat_offers b.seat_id) (seat_inventory e)
                ∙ (get-del w.redis (reservation k) (seat_inventory e) ∙ h.1),
            free ∙ h.2,
          ))
  ]

  pub initiate-Even :
      (d uuid k user_id : ℕ) (w : World Store)
      → Surplus R cfg e d w.db w.redis
      → let w' = (on_db (initiate_payment uuid k user_id) w).1 in Surplus R cfg e d w'.db w'.redis
  unfolding on_db
  initiate-Even d uuid k user_id w h = elim (initiate_cases uuid k user_id w.db) [
    | inl (x, failed) ↦ rw failed h
    | inr (b, found, own, pending, done) ↦ rw done (unfold available_in update_booking in h)
  ]

  -- In consistent tables a payment, refused, successful or failed, leaves as many free seats beyond the
  -- counter of any event as there were, if the seat of the booking is one of the event of the booking.
  pub simulate_payment-Even :
      (env : Env) (online : ℕ → Bool) (d payment_uuid k user_id : ℕ) (success : Bool)
      (w : World Store)
      → IsConsistent w.db
      → BookingBelongs R cfg e env online k w.db
      → Surplus R cfg e d w.db w.redis
      → let w' = (simulate_payment R cfg env online payment_uuid k user_id success w).1 in
        Surplus R cfg e d w'.db w'.redis
  simulate_payment-Even env online d payment_uuid k user_id success w c belongs h =
      elim (simulate_paths R cfg env online payment_uuid k user_id success w) [
        | inl stays ↦ rw stays h
        | inr (inl (payment_id, pays)) ↦ rw pays (confirm_booking-Even d env.now k payment_id w c h)
        | inr (inr fails) ↦ rw fails (compensate-Even R cfg e env online d k w c belongs h)
      ]
