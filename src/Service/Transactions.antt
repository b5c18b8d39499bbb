-- ===== src/Service/Transactions.antt =====
-- What a handler does to the tables: a sequence of the transactions of Booking/History, in which every
-- request names a seat and an event that are related by `A`.
pub mod Offers
pub mod Calls
use mathlib.Core.Path.{subst, sym}
use ticketvault.Prelude.{
  ℕ, zero, suc, ◌≡◌, refl, ap, ◌∙◌, inl, inr, ◌⊎◌, Bool, List, [], ◌∷◌, ◌++◌, Option, none, some,
  arith, Result, ok, err, Error, Action, ◌>>=◌, ◌>>◌, Result-cases, Bool-cases, Option-cases, ltb,
}
use ticketvault.Types.{IdempotencyKey, CreateBookingRequest, BookingResponse, client}
use ticketvault.Db.{Db, seat_at, with_transaction}
use ticketvault.Redis.{Redis}
use ticketvault.World.{World, on_redis, on_db, in_transaction, catch, command}
use ticketvault.Events.Cache.{cached_effect}
use ticketvault.Booking.{Env, FreedSeat, cancel_transaction, confirm_transaction}
use ticketvault.Booking.History.{Step}
use ticketvault.Booking.Courses.{Course, Permits, Named, Course-trans}
use ticketvault.Offers.{
  Config, release_to_public, offer_to_waiter, offer_loop, offer_round, max_offline_skips,
  nobody_waits, offer_freed_seat, offer_seat_to_next_waiter,
}
use ticketvault.Scripts.{join_waitlist}
use ticketvault.Redis.{Waiter, seat_offers, reservation}
use ticketvault.World.{as_number}
use ticketvault.Booking.Creation.{attempt, attempt_cases}
use ticketvault.Service.Stock.{offered, offer_key, offer_price, offer_failed, offer_held}
use ticketvault.Service.Settle.{popped, loop_nobody, loop_online, loop_offline}
use ticketvault.Events.{init_redis_inventory}
use ticketvault.Payment.{compensate_transaction}
use ticketvault.PaymentService.{offer_if_freed, compensate}
use ticketvault.Service.Paths.{
  booked, book_failed, book_done, taken, gate_paths, claimed_paths, create_paths,
}
use ticketvault.Service.{
  announce_sale, confirm_booking, Polls, create_booking, create_claimed, cancel_booking, refuse,
  enqueue, initialize, pass_gate, replay, wait_for_idempotent_response,
}

module _ (A : ℕ → ℕ → Type 0) {S : Type 0} where
  -- From every world the action changes the tables by transactions alone.
  abbrev pub Transacts : {B : Type 0} → Action (World S) B → Type 0
  Transacts m = (w : World S) → Course A w.db (m w).1.db

  pub bind-Course :
      {B C : Type 0} (m : Action (World S) B) (f : B → Action (World S) C) (w : World S)
      → Course A w.db (m w).1.db
      → ((a : B) → (m w).0 ≡ ok a → Course A (m w).1.db (f a (m w).1).1.db)
      → Course A w.db ((m >>= f) w).1.db
  bind-Course {B} {C} m f w first later = elim (Result-cases (m w).0) [
    | inl (x, failed) ↦ subst (λ (d : Db). Course A w.db d) (sym (stays x failed)) first
    | inr (a, done) ↦
        subst (λ (d : Db). Course A w.db d) (sym (goes a done))
          (Course-trans A first (later a done))
  ]
    where
      stays : (x : Error) → (m w).0 ≡ err x → ((m >>= f) w).1.db ≡ (m w).1.db
      stays x failed = ground arith

      goes : (a : B) → (m w).0 ≡ ok a → ((m >>= f) w).1.db ≡ (f a (m w).1).1.db
      goes a done = ground arith

  pub bind-Transacts :
      {B C : Type 0} (m : Action (World S) B) (f : B → Action (World S) C)
      → Transacts m
      → ((a : B) → Transacts (f a))
      → Transacts (m >>= f)
  bind-Transacts m f first later w = bind-Course m f w (first w) (λ a done. later a (m w).1)

  pub catch-Course :
      {B : Type 0} (m : Action (World S) B) (f : Error → Action (World S) B) (w : World S)
      → Course A w.db (m w).1.db
      → ((x : Error) → Transacts (f x))
      → Course A w.db (catch m f w).1.db
  unfolding catch
  catch-Course {B} m f w first later = elim (Result-cases (m w).0) [
    | inl (x, failed) ↦
        subst (λ (d : Db). Course A w.db d) (sym (goes x failed))
          (Course-trans A first (later x (m w).1))
    | inr (a, done) ↦ subst (λ (d : Db). Course A w.db d) (sym (stays a done)) first
  ]
    where
      stays : (a : B) → (m w).0 ≡ ok a → (catch m f w).1.db ≡ (m w).1.db
      stays a done = ground arith

      goes : (x : Error) → (m w).0 ≡ err x → (catch m f w).1.db ≡ (f x (m w).1).1.db
      goes x failed = ground arith

  pub in_transaction-Course :
      {B : Type 0} (f : Action Db B) (w : World S)
      → (step : Step w.db (with_transaction f w.db).1) → Permits A step
      → Course A w.db (in_transaction f w).1.db
  unfolding in_transaction on_db
  in_transaction-Course f w step fit = Course.next Course.here step fit

-- The tables are as before, or one transaction of a booking has run.
pub creates_one :
    (A : ℕ → ℕ → Type 0) (env : Env) (user_id : ℕ) (request : CreateBookingRequest)
    (key : IdempotencyKey) (amount hold_seconds : ℕ) (db after : Db)
    → A request.seat_id request.event_id
    → after ≡ (attempt env user_id request key amount hold_seconds db).1
    → Course A db after
creates_one A env user_id request key amount hold_seconds db after fit same =
    Course.next Course.here (Step.creates env user_id request key amount hold_seconds same) fit

pub stays_same : {A : ℕ → ℕ → Type 0} {db after : Db} → after ≡ db → Course A db after
stays_same {A} {db} same = subst (λ (d : Db). Course A db d) (sym same) Course.here
