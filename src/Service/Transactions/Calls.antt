-- ===== src/Service/Transactions/Calls.antt =====
-- The transactions that a booking, a cancellation and a payment run.
use mathlib.Core.Path.{subst, sym}
use ticketvault.Prelude.{
  ℕ, ◌≡◌, refl, ap, ◌∙◌, inl, inr, Bool, Option, none, some, arith, Result, ok, ◌>>◌,
}
use ticketvault.Types.{CreateBookingRequest, BookingResponse, client}
use ticketvault.Db.{Db}
use ticketvault.Redis.{Redis}
use ticketvault.World.{World, on_redis, on_db, in_transaction, command}
use ticketvault.Booking.{Env, FreedSeat, cancel_transaction, confirm_transaction}
use ticketvault.Booking.History.{Step}
use ticketvault.Booking.Courses.{Course, Named}
use ticketvault.Offers.{Config, offer_freed_seat}
use ticketvault.Scripts.{join_waitlist}
use ticketvault.Redis.{reservation}
use ticketvault.Booking.Creation.{attempt_cases}
use ticketvault.Events.{init_redis_inventory}
use ticketvault.Payment.{compensate_transaction}
use ticketvault.PaymentService.{offer_if_freed, compensate}
use ticketvault.Service.Paths.{
  booked, book_failed, book_done, taken, gate_paths, claimed_paths, create_paths,
}
use ticketvault.Service.{
  announce_sale, confirm_booking, Polls, create_booking, create_claimed, cancel_booking, refuse,
  enqueue, initialize, pass_gate, replay, wait_for_idempotent_response,
}
use ticketvault.Service.Transactions.{
  Transacts, bind-Course, bind-Transacts, in_transaction-Course, creates_one, stays_same,
}
use ticketvault.Service.Transactions.Offers.{offer_freed_seat-Transacts, next_waiter-Transacts}
use ticketvault.Booking.Endings.{freed_seat, cancel_cases, compensate_cases}
use ticketvault.Db.Invariant.{IsConsistent}

module _ (A : ℕ → ℕ → Type 0) (R : Redis) (cfg : Config) where
  open R use {Store}

  module _ (env : Env) (user_id : ℕ) (request : CreateBookingRequest) (key : ℕ)
      (fit : A request.seat_id request.event_id) where
    booked-Transacts :
        (amount n : ℕ) (w : World Store)
        → Course A w.db (booked R cfg env user_id request key amount n w).1.db
    booked-Transacts amount n w =
        elim (attempt_cases env user_id request (client user_id key) amount cfg.ttl_seconds w.db) [
          | inl (x, failed) ↦
              rw (book_failed R cfg env user_id request key amount n w x failed) Course.here
          | inr (s, _, _, _, _, done) ↦
              let (_, stored, _) = book_done R cfg env user_id request key amount n w _ _ done in
              creates_one A env user_id request (client user_id key) amount cfg.ttl_seconds w.db _
                fit (stored ∙ sym (ap (λ (r : Result BookingResponse × Db). r.1) done))
        ]

    gate-Transacts : (amount : ℕ) → Transacts A (pass_gate R cfg env user_id request key amount)
    gate-Transacts amount w = elim (gate_paths R cfg env user_id request key amount w) [
      | inl (_, absent) ↦ rw absent (unfold initialize init_redis_inventory in Course.here)
      | inr (inl (_, full)) ↦ rw full (unfold enqueue on_redis join_waitlist in Course.here)
      | inr (inr (inl (n, _, through))) ↦
          rw through (booked-Transacts amount n (taken R cfg env user_id request key w))
      | inr (inr (inr (v, _, _, broken))) ↦ rw broken Course.here
    ]

    claimed-Transacts : Transacts A (create_claimed R cfg env user_id request key)
    claimed-Transacts w =
        let (w', same_db, same_redis, same_sent, path) =
          claimed_paths R cfg env user_id request key w in
        let after = (create_claimed R cfg env user_id request key w).1.db in
        subst (λ (d : Db). Course A d after) same_db
          (elim path [
            | inl (status, refused) ↦ rw refused (unfold refuse in Course.here)
            | inr (amount, passed) ↦ rw passed (gate-Transacts amount w')
          ])

    replay-Transacts : (polls : Polls) → Transacts A (replay R cfg polls user_id request key)
    unfolding replay wait_for_idempotent_response
    replay-Transacts polls w = stays_same (ground arith)

    pub create_booking-Transacts :
        (polls : Polls) → Transacts A (create_booking R cfg env polls user_id request key)
    create_booking-Transacts polls w = elim (create_paths R cfg env user_id request key polls w) [
      | inl (_, processed) ↦ rw processed (claimed-Transacts _)
      | inr (v, _, waits) ↦ rw waits (replay-Transacts polls w)
    ]

  module _ (env : Env) (online : ℕ → Bool) where
    -- A booking that is cancelled and one whose payment fails must name its seat with its event.
    pub cancel_booking-Course :
        (k user_id : ℕ) (w : World Store)
        → IsConsistent w.db
        → Named A k w.db
        → Course A w.db (cancel_booking R cfg env online k user_id w).1.db
    unfolding cancel_booking
    cancel_booking-Course k user_id w c named =
        bind-Course A (in_transaction (cancel_transaction k user_id))
          (λ freed. offer_freed_seat R cfg env online freed >> command (R.del (reservation k))) w
          (in_transaction-Course A (cancel_transaction k user_id) w (Step.cancels k user_id refl)
            tt)
          λ freed done.
            bind-Transacts A (offer_freed_seat R cfg env online freed)
              (λ _. command (R.del (reservation k)))
              (offer_freed_seat-Transacts A R cfg env online freed (fits freed done))
              (λ _ v. Course.here) _
      where
        fits :
            (freed : FreedSeat)
            → (in_transaction (cancel_transaction k user_id) w).0 ≡ ok freed
            → A freed.seat_id freed.event_id
        fits freed done = elim (cancel_cases k user_id w.db c) [
          | inl (x, failed) ↦ absurd (unfold in_transaction on_db in ground arith)
          | inr (b, s, found, own, active, there, ended) ↦
              let same : freed ≡ freed_seat b s = unfold in_transaction on_db in ground arith in
              rw same (named b found)
        ]

    abbrev OfFreed : Option (ℕ × ℕ) → Type 0
    OfFreed none = Unit {0}
    OfFreed (some (event_id, seat_id)) = A seat_id event_id

    if_freed-Transacts :
        (freed : Option (ℕ × ℕ))
        → OfFreed freed
        → Transacts A (offer_if_freed R cfg env online freed)
    unfolding offer_if_freed
    if_freed-Transacts none fit w = Course.here
    if_freed-Transacts (some (event_id, seat_id)) fit w =
        next_waiter-Transacts A R cfg env online event_id seat_id fit w

    pub compensate-Course :
        (k : ℕ) (w : World Store)
        → IsConsistent w.db
        → Named A k w.db
        → Course A w.db (compensate R cfg env online k w).1.db
    unfolding compensate
    compensate-Course k w c named =
        bind-Course A (in_transaction (compensate_transaction k))
          (λ freed. offer_if_freed R cfg env online freed >> command (R.del (reservation k))) w
          (in_transaction-Course A (compensate_transaction k) w (Step.compensates k refl) tt)
          λ freed done.
            bind-Transacts A (offer_if_freed R cfg env online freed)
              (λ _. command (R.del (reservation k))) (if_freed-Transacts freed (fits freed done))
              (λ _ v. Course.here) _
      where
        fits :
            (freed : Option (ℕ × ℕ))
            → (in_transaction (compensate_transaction k) w).0 ≡ ok freed
            → OfFreed freed
        fits freed done = elim (compensate_cases k w.db c) [
          | inl nothing ↦
              let same : freed ≡ none = unfold in_transaction on_db in ground arith in rw same tt
          | inr (b, found, pending, ended) ↦
              let same : freed ≡ some (b.event_id, b.seat_id) =
                unfold in_transaction on_db in ground arith in
              rw same (named b found)
        ]

    sale-Transacts : (k : ℕ) (sold : Option FreedSeat) → Transacts A (announce_sale R cfg k sold)
    unfolding announce_sale
    sale-Transacts k none w = Course.here
    sale-Transacts k (some sold) w = Course.here

    pub confirm-Transacts :
        (now k payment_id : ℕ) → Transacts A (confirm_booking R cfg now k payment_id)
    unfolding confirm_booking
    confirm-Transacts now k payment_id w =
        bind-Transacts A (in_transaction (confirm_transaction now k payment_id))
          (announce_sale R cfg k)
          (λ v.
            in_transaction-Course A (confirm_transaction now k payment_id) v
              (Step.confirms now k payment_id refl) tt)
          (sale-Transacts k) w
