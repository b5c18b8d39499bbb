-- ===== src/Service/Histories.antt =====
-- Every history of calls of the handlers: createBooking, cancelBooking, simulatePayment, initiatePayment,
-- the step of the expiry worker and the runs of the reconciler, one after another.
use ticketvault.Prelude.{
  ℕ, ◌≡◌, ◌≤◌, refl, ◌⊎◌, inl, inr, Bool, true, false, some, ok, ◌==◌, ◌>>=◌, pure, arith,
  Option-cases, Bool-cases,
}
use ticketvault.Types.{Booking, CreateBookingRequest}
use ticketvault.Table.{count_where}
use ticketvault.Db.{Db, booking_at, holds_seat}
use ticketvault.Db.Invariant.{IsConsistent}
use ticketvault.Redis.{Redis, reservation}
use ticketvault.World.{World, on_db, in_transaction, command}
use ticketvault.Booking.{Env}
use ticketvault.Booking.History.{Step, Reach-IsConsistent, no_double_booking}
use ticketvault.Payment.{initiate_payment}
use ticketvault.Expiry.{expire_transaction}
use ticketvault.Offers.{Config, offer_seat_to_next_waiter}
use ticketvault.Service.{Polls, create_booking, cancel_booking, confirm_booking}
use ticketvault.PaymentService.{compensate, simulate_payment, or_else}
use ticketvault.Reconciler.{reconcile}
use ticketvault.Reconciler.Runs.{reconcile-db}
use ticketvault.ExpiryWorker.{expire_single_booking, after_expiry}
use ticketvault.Service.Transactions.{
  bind-Course, catch-Course, in_transaction-Course, bind-Transacts,
}
use ticketvault.Service.Transactions.Offers.{next_waiter-Transacts}
use ticketvault.Service.Transactions.Calls.{
  create_booking-Transacts, cancel_booking-Course, compensate-Course, confirm-Transacts,
}
use ticketvault.Booking.Courses.{
  Course, Named, Course-trans, Course-Reach, Course-IsConsistent, Course-Named,
}
use ticketvault.Booking.Endings.{expire_cases, initiate_cases}

-- The row that the worker has scanned names the seat and the event that the booking still has.
abbrev pub IsScanned : Db → Booking → Type 0
IsScanned db scanned =
    (b : Booking)
    → booking_at scanned.id db ≡ some b
    → (b.seat_id ≡ scanned.seat_id) × (b.event_id ≡ scanned.event_id)

module _ (R : Redis) (cfg : Config) where
  open R use {Store}

  -- A payment is refused, confirms its booking, or gives it up.
  pub simulate_paths :
      (env : Env) (online : ℕ → Bool) (payment_uuid k user_id : ℕ) (success : Bool)
      (w : World Store)
      → let after = (simulate_payment R cfg env online payment_uuid k user_id success w).1 in
        (after ≡ w)
        ⊎ (((payment_id : ℕ) × (after ≡ (confirm_booking R cfg env.now k payment_id w).1))
            ⊎ (after ≡ (compensate R cfg env online k w).1))
  unfolding simulate_payment
  simulate_paths env online payment_uuid k user_id success w =
      elim (Option-cases (booking_at k w.db)) [
        | inl absent ↦ inl (ground arith)
        | inr (b, found) ↦ elim (Bool-cases (b.user_id == user_id)) [
          | inr foreign ↦ inl (ground arith)
          | inl own ↦ elim (Bool-cases success) [
            | inl pays ↦ inr (inl (or_else b.stripe_payment_intent_id payment_uuid, ground arith))
            | inr fails ↦ inr (inr (ground arith))
          ]
        ]
      ]

module _ (A : ℕ → ℕ → Type 0) (R : Redis) (cfg : Config) where
  open R use {Store}

  simulate-Course :
      (env : Env) (online : ℕ → Bool) (payment_uuid k user_id : ℕ) (success : Bool)
      (w : World Store)
      → IsConsistent w.db
      → Named A k w.db
      → Course A w.db (simulate_payment R cfg env online payment_uuid k user_id success w).1.db
  simulate-Course env online payment_uuid k user_id success w c named =
      elim (simulate_paths R cfg env online payment_uuid k user_id success w) [
        | inl stays ↦ rw stays Course.here
        | inr (inl (payment_id, pays)) ↦
            rw pays (confirm-Transacts A R cfg env online env.now k payment_id w)
        | inr (inr fails) ↦ rw fails (compensate-Course A R cfg env online k w c named)
      ]

  expire-Course :
      (env : Env) (online : ℕ → Bool) (scanned : Booking) (w : World Store)
      → IsScanned w.db scanned
      → Named A scanned.id w.db
      → Course A w.db (expire_single_booking R cfg env online scanned w).1.db
  unfolding expire_single_booking after_expiry
  expire-Course env online scanned w names named =
      let run = in_transaction (expire_transaction scanned) in
      catch-Course A (run >>= after_expiry R cfg env online scanned) (λ e. pure tt) w
        (bind-Course A run (after_expiry R cfg env online scanned) w
          (in_transaction-Course A (expire_transaction scanned) w
            (Step.expires scanned (λ b at. (names b at).0) refl) tt)
          go)
        (λ x v. Course.here)
    where
      go :
          (expired : Bool)
          → (in_transaction (expire_transaction scanned) w).0 ≡ ok expired
          → Course A
              (in_transaction (expire_transaction scanned) w).1.db
              (after_expiry R cfg env online scanned expired
                (in_transaction (expire_transaction scanned) w).1).1.db
      go false done = Course.here
      go true done = elim (expire_cases scanned w.db) [
        | inl same ↦ absurd (unfold in_transaction on_db in ground arith)
        | inr (b, found, pending, ended) ↦
            let (same_seat, same_event) = names b found in
            let fit : A scanned.seat_id scanned.event_id =
              rw (← same_seat, ← same_event) (named b found) in
            bind-Transacts A
              (offer_seat_to_next_waiter R cfg env online scanned.event_id scanned.seat_id)
              (λ _. command (R.del (reservation scanned.id)))
              (next_waiter-Transacts A R cfg env online scanned.event_id scanned.seat_id fit)
              (λ _ v. Course.here) _
      ]

  -- What a user, a payment or a worker may call.
  pub data Call (w : World Store) : World Store → Type 0 where
    books :
        (env : Env) (polls : Polls) (user_id : ℕ) (request : CreateBookingRequest) (key : ℕ)
        → A request.seat_id request.event_id
        → Call w (create_booking R cfg env polls user_id request key w).1
    cancels :
        (env : Env) (online : ℕ → Bool) (k user_id : ℕ)
        → Call w (cancel_booking R cfg env online k user_id w).1
    initiates : (uuid k user_id : ℕ) → Call w (on_db (initiate_payment uuid k user_id) w).1
    pays :
        (env : Env) (online : ℕ → Bool) (payment_uuid k user_id : ℕ) (success : Bool)
        → Call w (simulate_payment R cfg env online payment_uuid k user_id success w).1
    expires :
        (env : Env) (online : ℕ → Bool) (scanned : Booking)
        → IsScanned w.db scanned
        → Call w (expire_single_booking R cfg env online scanned w).1
    reconciles : (now me : ℕ) → Call w (reconcile R now me w).1

  pub data Calls (start : World Store) : World Store → Type 0 where
    idle : Calls start start
    then_call : {w after : World Store} → Calls start w → Call w after → Calls start after

  Call-Course :
      {w after : World Store}
      → Call w after
      → IsConsistent w.db
      → ((k : ℕ) → Named A k w.db)
      → Course A w.db after.db
  Call-Course {w} (books env polls user_id request key fit) c named =
      create_booking-Transacts A R cfg env user_id request key fit polls w
  Call-Course {w} (cancels env online k user_id) c named =
      cancel_booking-Course A R cfg env online k user_id w c (named k)
  Call-Course {w} (initiates uuid k user_id) c named = elim (initiate_cases uuid k user_id w.db) [
    | inl (e, failed) ↦ unfold on_db in rw failed Course.here
    | inr (b, found, own, pending, done) ↦
        unfold on_db in rw done (Course.next Course.here (Step.initiates uuid k refl) tt)
  ]
  Call-Course {w} (pays env online payment_uuid k user_id success) c named =
      simulate-Course env online payment_uuid k user_id success w c (named k)
  Call-Course {w} (expires env online scanned names) c named =
      expire-Course env online scanned w names (named scanned.id)
  Call-Course {w} (reconciles now me) c named = rw (reconcile-db R now me w) Course.here

  -- Whatever sequence of calls runs, with all that each does to Redis, to the pages and to the waiting
  -- users, the tables change by a history of single transactions, each on a seat of its event.
  pub Calls-Course :
      {start w : World Store}
      → IsConsistent start.db
      → ((k : ℕ) → Named A k start.db)
      → Calls start w
      → Course A start.db w.db
  Calls-Course c named idle = Course.here
  Calls-Course c named (then_call before call) =
      let reached = Calls-Course c named before in
      Course-trans A reached (
        Call-Course call (Course-IsConsistent A c reached)
          (λ k. Course-Named A k c (named k) reached))

-- Any seat may be named with any event.
abbrev pub Anything : ℕ → ℕ → Type 0
Anything seat_id event_id = Unit {0}

module _ (R : Redis) (cfg : Config) where
  open R use {Store}

  -- Every sequence of calls of the handlers (bookings, cancellations, payments started and simulated, the
  -- expiry of rows whose seat and event are as the worker scanned them, and runs of the reconciler) from
  -- consistent tables leads to consistent tables in which no seat has two active bookings.
  pub never_booked_twice :
      {start w : World Store}
      → IsConsistent start.db
      → Calls Anything R cfg start w
      → IsConsistent w.db × ((k : ℕ) → count_where (holds_seat k) w.db.bookings ≤ 1)
  never_booked_twice c calls =
      let reached = Course-Reach Anything (Calls-Course Anything R cfg c (λ k b at. tt) calls) in
      (Reach-IsConsistent c reached, λ k. no_double_booking k c reached)
