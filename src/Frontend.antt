-- ===== src/Frontend.antt =====
-- The state that a page keeps: frontend/src/store/bookingStore.ts, frontend/src/hooks/useBooking.ts
-- and frontend/src/hooks/useCountdown.ts.
pub mod Session
pub mod Dashboard
pub mod Live
pub mod Messages
pub mod SeatMap
pub mod Checkout
pub mod Pages
pub mod Views
use ticketvault.Prelude.{
  ℕ, ◌+◌, ◌-◌, ◌*◌, ◌/◌, ◌%◌, ◌<◌, ◌≡◌, refl, Bool, true, false, Option, none, some, ◌==◌, ◌&&◌,
  ltb, leb, if◌then◌else◌, arith, inl, inr, ap, Bool-cases,
}
use ticketvault.Types.{SeatStatus, ResponseStatus, BookingResponse}

pub record BookingStore : Type 0 where
  pub selected_seat_id : Option ℕ
  pub seat_statuses : ℕ → Option SeatStatus
  pub inventory_remaining : Option ℕ
  pub current_price : Option ℕ
  pub active_booking_id : Option ℕ
  pub reservation_expires_at : Option ℕ

unfoldable pub select_seat : Option ℕ → BookingStore → BookingStore
select_seat seat_id s = record s { selected_seat_id = seat_id }

unfoldable pub update_seat_status : ℕ → SeatStatus → BookingStore → BookingStore
update_seat_status seat_id status s = record s {
  seat_statuses = λ k. if seat_id == k then some status else s.seat_statuses k;
}

unfoldable pub update_inventory : ℕ → ℕ → BookingStore → BookingStore
update_inventory remaining price s = record s {
  inventory_remaining = some remaining;
  current_price = some price;
}

unfoldable pub set_active_booking : Option ℕ → ℕ → BookingStore → BookingStore
set_active_booking booking_id expires_at s = record s {
  active_booking_id = booking_id;
  reservation_expires_at = some expires_at;
}

unfoldable pub clear_active_booking : BookingStore → BookingStore
clear_active_booking s = record s { active_booking_id = none; reservation_expires_at = none }

unfoldable pub set_seat_statuses : (ℕ → Option SeatStatus) → BookingStore → BookingStore
set_seat_statuses statuses s = record s { seat_statuses = statuses }

-- The key of an attempt on a seat of an event.
pub record Attempt : Type 0 where
  pub event_id : ℕ
  pub seat_id : ℕ
  pub key : ℕ

-- How a request ends: with an answer, with an error status, or without a response.
pub data Reply : Type 0 where
  answered : BookingResponse → Reply
  failed : ℕ → Reply
  unreachable : Reply

-- The attempt that a call of `createBooking` works under, with the key that it would generate.
unfoldable pub start_attempt : (event_id seat_id fresh : ℕ) → Option Attempt → Attempt
start_attempt event_id seat_id fresh none = record {
  event_id = event_id;
  seat_id = seat_id;
  key = fresh;
}
start_attempt event_id seat_id fresh (some a) =
    if a.event_id == event_id && a.seat_id == seat_id
    then a
    else record { event_id = event_id; seat_id = seat_id; key = fresh }

-- What is kept of it: the key only for a failure that may be tried again.
unfoldable pub keep_attempt : Attempt → Reply → Option Attempt
keep_attempt a (answered r) = none
keep_attempt a (failed status) = if ltb status 500 then none else some a
keep_attempt a unreachable = some a

-- `setActiveBooking` after an answer
unfoldable pub hold_answer : Reply → BookingStore → BookingStore
hold_answer (answered r) s = elim r.status [
  | ResponseStatus.queued ↦ s
  | ResponseStatus.pending ↦ elim r.expires_at [
    | none ↦ s
    | some expires_at ↦ set_active_booking r.booking_id expires_at s
  ]
]
hold_answer _ s = s

pub record CountdownResult : Type 0 where
  pub minutes : ℕ
  pub seconds : ℕ
  pub expired : Bool

-- `calculate`; the difference is negative or 0 exactly if the expiry is not after now.
unfoldable pub calculate : Option ℕ → ℕ → CountdownResult
calculate none now = record { minutes = 0; seconds = 0; expired = false }
calculate (some expires_at) now =
    if leb expires_at now then record { minutes = 0; seconds = 0; expired = true } else record {
      minutes = (expires_at - now) / 60000;
      seconds = ((expires_at - now) % 60000) / 1000;
      expired = false;
    }

-- A countdown shows the whole seconds that are left, as minutes and fewer than 60 seconds, and has
-- expired exactly if the time has come.
pub countdown_shows_rest :
    (expires_at now : ℕ)
    → let c = calculate (some expires_at) now in
      (60 * c.minutes + c.seconds ≡ (expires_at - now) / 1000)
      × (c.seconds < 60)
      × (c.expired ≡ leb expires_at now)
unfolding calculate
countdown_shows_rest expires_at now = elim (Bool-cases (leb expires_at now)) [
  | inl over ↦ rw over (ground arith, omega arith, refl)
  | inr running ↦ rw running (omega arith, omega arith, refl)
]

attempt_names_seat :
    (event_id seat_id fresh : ℕ) (previous : Option Attempt)
    → let a = start_attempt event_id seat_id fresh previous in
      (a.event_id ≡ event_id) × (a.seat_id ≡ seat_id)
unfolding start_attempt
attempt_names_seat event_id seat_id fresh none = (refl, refl)
attempt_names_seat event_id seat_id fresh (some a) = (ground arith, ground arith)

kept_attempt :
    (event_id seat_id first fresh : ℕ) (previous : Option Attempt)
    → let a = start_attempt event_id seat_id first previous in
      start_attempt event_id seat_id fresh (some a) ≡ a
unfolding start_attempt
kept_attempt event_id seat_id first fresh previous =
    let (event, seat) = attempt_names_seat event_id seat_id first previous in
    ground (arith, event, seat)

-- A call that tries the same seat again after a failure works under the same key if the failure was
-- an unreachable server or a status of 500 and above, and under a new one otherwise.
retry_keeps_key :
    (event_id seat_id first fresh : ℕ) (previous : Option Attempt) (reply : Reply)
    → let a = start_attempt event_id seat_id first previous in
      let again = start_attempt event_id seat_id fresh (keep_attempt a reply) in
      again.key ≡ elim reply [
        | answered r ↦ fresh
        | unreachable ↦ a.key
        | failed status ↦ if ltb status 500 then fresh else a.key
      ]
unfolding start_attempt keep_attempt
retry_keeps_key event_id seat_id first fresh previous (answered r) = refl
retry_keeps_key event_id seat_id first fresh previous unreachable =
    ap (λ (a : Attempt). a.key) (kept_attempt event_id seat_id first fresh previous)
retry_keeps_key event_id seat_id first fresh previous (failed status) =
    elim (Bool-cases (ltb status 500)) [
      | inl final ↦ rw final refl
      | inr again ↦
          rw again
            (ap (λ (a : Attempt). a.key) (kept_attempt event_id seat_id first fresh previous))
    ]
