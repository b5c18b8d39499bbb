-- ===== src/Service/InStep.antt =====
-- The counters of Redis along every sequence of calls.
use ticketvault.Prelude.{ℕ, ◌≡◌, ◌⊎◌, inl, inr, some, arith, Option-cases}
use ticketvault.Types.{Seat}
use ticketvault.Db.{Db, seat_at}
use ticketvault.Db.Invariant.{IsConsistent}
use ticketvault.Redis.{Redis}
use ticketvault.World.{World}
use ticketvault.Offers.{Config}
use ticketvault.Reconciler.{reconcile}
use ticketvault.Reconciler.Runs.{reconcile_keeps}
use ticketvault.Events.{available_in}
use ticketvault.Booking.Courses.{
  Named, event_of_seat, Course-event_of_seat, Course-IsConsistent, Course-Named,
}
use ticketvault.Service.Stock.{Surplus}
use ticketvault.Service.Booked.{create_booking-Even}
use ticketvault.Service.Freed.{cancel_booking-Even}
use ticketvault.Service.Freed.Expired.{expire_single_booking-Even}
use ticketvault.Service.Freed.Paid.{simulate_payment-Even, initiate-Even}
use ticketvault.Service.Histories.{
  Call, books, cancels, initiates, pays, expires, reconciles, Calls, idle, then_call, Calls-Course,
}

-- The seat, if it is in the table, is one of the event.
abbrev pub Catalog : Db → ℕ → ℕ → Type 0
Catalog db seat_id event_id = (x : Seat) → seat_at seat_id db ≡ some x → x.event_id ≡ event_id

same-Catalog :
    (seat_id event_id : ℕ) (db after : Db)
    → event_of_seat seat_id after ≡ event_of_seat seat_id db
    → Catalog db seat_id event_id
    → Catalog after seat_id event_id
same-Catalog seat_id event_id db after same listed x at = elim (Option-cases (seat_at seat_id db)) [
  | inl absent ↦ absurd (ground arith)
  | inr (y, there) ↦ ground (arith, listed y)
]

module _ (R : Redis) (cfg : Config) (e : ℕ) where
  open R use {Store}

  -- A run of the reconciler keeps the difference, or removes it.
  reconcile-Surplus :
      (d now me : ℕ) (w : World Store)
      → Surplus R cfg e d w.db w.redis
      → let w' = (reconcile R now me w).1 in
        Surplus R cfg e d w'.db w'.redis ⊎ Surplus R cfg e 0 w'.db w'.redis
  reconcile-Surplus d now me w (n, at, eq) =
      let (same, kept) = reconcile_keeps R now me e n w at in
      rw same (elim kept [
        | inl repaired ↦ inr (available_in e w.db, repaired, omega arith)
        | inr stays ↦ inl (n, stays, eq)
      ])

  Call-Surplus :
      (A : ℕ → ℕ → Type 0) (d : ℕ) {w after : World Store}
      → Call A R cfg w after
      → IsConsistent w.db
      → ((seat_id event_id : ℕ) → A seat_id event_id → Catalog w.db seat_id event_id)
      → ((k : ℕ) → Named A k w.db)
      → Surplus R cfg e d w.db w.redis
      → Surplus R cfg e d after.db after.redis ⊎ Surplus R cfg e 0 after.db after.redis
  Call-Surplus A d {w} (books env polls user_id request key fit) c listed named h = inl (
      create_booking-Even R cfg e env user_id request key polls d w c
        (listed request.seat_id request.event_id fit) h)
  Call-Surplus A d {w} (cancels env online k user_id) c listed named h = inl (
      cancel_booking-Even R cfg e env online d k user_id w c
        (λ b s found there. listed b.seat_id b.event_id (named k b found) s there) h)
  Call-Surplus A d {w} (initiates uuid k user_id) c listed named h =
      inl (initiate-Even R cfg e d uuid k user_id w h)
  Call-Surplus A d {w} (pays env online payment_uuid k user_id success) c listed named h = inl (
      simulate_payment-Even R cfg e env online d payment_uuid k user_id success w c
        (λ b s found there. listed b.seat_id b.event_id (named k b found) s there) h)
  Call-Surplus A d {w} (expires env online scanned names) c listed named h = inl (
      expire_single_booking-Even R cfg e env online d scanned w c
        (λ b s found there. listed b.seat_id b.event_id (named scanned.id b found) s there) names h)
  Call-Surplus A d {w} (reconciles now me) c listed named h = reconcile-Surplus d now me w h

  -- Where tables are consistent and each booking names the event of its seat, every sequence of calls of
  -- the handlers and of runs of the reconciler, in which requests name seats with their events, keeps the
  -- number of free seats by which the Redis counter of any event falls short of the tables, unless a run
  -- of the reconciler has made it 0: a counter that is in step stays in step.
  pub stays_in_step :
      (d : ℕ) {start w : World Store}
      → IsConsistent start.db
      → ((k : ℕ) → Named (Catalog start.db) k start.db)
      → Calls (Catalog start.db) R cfg start w
      → Surplus R cfg e d start.db start.redis
      → Surplus R cfg e d w.db w.redis ⊎ Surplus R cfg e 0 w.db w.redis
  stays_in_step d {start} c named calls h = go calls
    where
      A : ℕ → ℕ → Type 0
      A = Catalog start.db

      step :
          {w after : World Store}
          → Calls A R cfg start w
          → Call A R cfg w after
          → (n : ℕ) → Surplus R cfg e n w.db w.redis
          → Surplus R cfg e n after.db after.redis ⊎ Surplus R cfg e 0 after.db after.redis
      step {w} before call n held =
          let reached = Calls-Course A R cfg c named before in
          Call-Surplus A n call (Course-IsConsistent A c reached)
            (λ s i fit. same-Catalog s i start.db w.db (Course-event_of_seat A s c reached) fit)
            (λ k. Course-Named A k c (named k) reached) held

      go :
          {w : World Store}
          → Calls A R cfg start w
          → Surplus R cfg e d w.db w.redis ⊎ Surplus R cfg e 0 w.db w.redis
      go idle = inl h
      go (then_call before call) = elim (go before) [
        | inl kept ↦ step before call d kept
        | inr even ↦ inr (elim (step before call 0 even) [ inl z ↦ z | inr z ↦ z ])
      ]
