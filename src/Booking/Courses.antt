-- ===== src/Booking/Courses.antt =====
-- Histories in which every request names a seat together with the event that it is of, and what they
-- leave alone: the event of each seat, and that each booking names the event of its seat.
use mathlib.Core.Option
use mathlib.Core.Path.{subst}
use ticketvault.Prelude.{
  ℕ, ◌≡◌, refl, ◌∙◌, ◌∷◌, inl, inr, some, arith, ◌==◌, Bool-cases, Option, Option-cases,
}
use ticketvault.Types.{BookingStatus, Seat, Booking}
use ticketvault.Table.{find_where, update_where}
use ticketvault.Table.Keyed.{at_key, find-update}
use ticketvault.Db.{
  Db, seat_key, booking_key, seat_at, booking_at, update_booking, update_seat, insert_audit,
  set_status, free_seat,
}
use ticketvault.Db.Invariant.{IsConsistent}
use ticketvault.Payment.{set_payment_id}
use ticketvault.Booking.{confirm_row, new_booking, hold_seat, sell_seat}
use ticketvault.Booking.Creation.{attempt_cases, until}
use ticketvault.Booking.Endings.{cancel_cases, confirm_cases, compensate_cases, expire_cases}
use ticketvault.Booking.History.{
  Step, creates, cancels, confirms, compensates, initiates, expires, Reach, Reach-IsConsistent,
}

-- The event of a seat, if there is such a seat.
abbrev pub event_of_seat : ℕ → Db → Option ℕ
event_of_seat k db = Option.map (λ (s : Seat). s.event_id) (seat_at k db)

-- No transaction moves a seat to another event.
seat-update :
    (j k : ℕ) (g : Seat → Seat) (db after : Db)
    → ((s : Seat) → (g s).id ≡ s.id)
    → ((s : Seat) → (g s).event_id ≡ s.event_id)
    → after.seats ≡ update_where (at_key seat_key j) g db.seats
    → event_of_seat k after ≡ event_of_seat k db
seat-update j k g db after same_id same_event change = elim (Option-cases (seat_at k db)) [
  | inl absent ↦ rw change (ground (arith, find-update seat_key j k g db.seats same_id))
  | inr (x, at) ↦
      rw change (ground (arith, find-update seat_key j k g db.seats same_id, same_event x))
]

Step-event_of_seat :
    {db after : Db} (k : ℕ)
    → Step db after
    → IsConsistent db
    → event_of_seat k after ≡ event_of_seat k db
unfolding update_booking update_seat insert_audit free_seat hold_seat sell_seat
Step-event_of_seat {db} {after} k (creates env user_id request key amount hold_seconds e) c =
    elim (attempt_cases env user_id request key amount hold_seconds db) [
      | inl (_, failed) ↦ rw (e, failed) refl
      | inr (s, seat, free, fresh, unheld, done) ↦
          seat-update request.seat_id k
            (hold_seat (until env user_id request key amount hold_seconds)) db after (λ x. refl)
            (λ x. refl) (rw (e, done) refl)
    ]
Step-event_of_seat {db} {after} k (cancels j user_id e) c = elim (cancel_cases j user_id db c) [
  | inl (_, failed) ↦ rw (e, failed) refl
  | inr (b, s, at, own, active, seat, done) ↦
      seat-update b.seat_id k free_seat db after (λ x. refl) (λ x. refl) (rw (e, done) refl)
]
Step-event_of_seat {db} {after} k (confirms now j payment_id e) c =
    elim (confirm_cases now j payment_id db c) [
      | inl (b, at, confirmed, same) ↦ rw (e, same) refl
      | inr (inl (_, failed)) ↦ rw (e, failed) refl
      | inr (inr (b, s, at, pending, seat, done)) ↦
          seat-update b.seat_id k sell_seat db after (λ x. refl) (λ x. refl) (rw (e, done) refl)
    ]
Step-event_of_seat {db} {after} k (compensates j e) c = elim (compensate_cases j db c) [
  | inl same ↦ rw (e, same) refl
  | inr (b, at, pending, done) ↦
      seat-update b.seat_id k free_seat db after (λ x. refl) (λ x. refl) (rw (e, done) refl)
]
Step-event_of_seat {db} {after} k (initiates uuid j e) c = rw e refl
Step-event_of_seat {db} {after} k (expires scanned names e) c = elim (expire_cases scanned db) [
  | inl same ↦ rw (e, same) refl
  | inr (b, at, pending, done) ↦
      seat-update scanned.seat_id k free_seat db after (λ x. refl) (λ x. refl) (rw (e, done) refl)
]

module _ (A : ℕ → ℕ → Type 0) where
  -- A request may name a seat and an event only if they are so related.
  abbrev pub Permits : {db after : Db} → Step db after → Type 0
  Permits (creates env user_id request key amount hold_seconds e) =
      A request.seat_id request.event_id
  Permits (cancels j user_id e) = Unit {0}
  Permits (confirms now j payment_id e) = Unit {0}
  Permits (compensates j e) = Unit {0}
  Permits (initiates uuid j e) = Unit {0}
  Permits (expires scanned names e) = Unit {0}

  pub data Course (start : Db) : Db → Type 0 where
    here : Course start start
    next :
        {db after : Db}
        → Course start db
        → (step : Step db after) → Permits step
        → Course start after

  pub Course-trans : {a b c : Db} → Course a b → Course b c → Course a c
  Course-trans r Course.here = r
  Course-trans r (Course.next s step fit) = Course.next (Course-trans r s) step fit

  pub Course-Reach : {start db : Db} → Course start db → Reach start db
  Course-Reach Course.here = Reach.here
  Course-Reach (Course.next r step fit) = Reach.next (Course-Reach r) step

  pub Course-IsConsistent : {start db : Db} → IsConsistent start → Course start db → IsConsistent db
  Course-IsConsistent c r = Reach-IsConsistent c (Course-Reach r)

  pub Course-event_of_seat :
      {start db : Db} (k : ℕ)
      → IsConsistent start
      → Course start db
      → event_of_seat k db ≡ event_of_seat k start
  Course-event_of_seat k c Course.here = refl
  Course-event_of_seat k c (Course.next r step fit) =
      Step-event_of_seat k step (Course-IsConsistent c r) ∙ Course-event_of_seat k c r

  -- Each booking names a seat and an event that are so related.
  abbrev pub Named : ℕ → Db → Type 0
  Named k db = (b : Booking) → booking_at k db ≡ some b → A b.seat_id b.event_id

  Named-update :
      (j k : ℕ) (f : Booking → Booking) (db after : Db)
      → ((b : Booking) → (f b).id ≡ b.id)
      → ((b : Booking) → A b.seat_id b.event_id → A (f b).seat_id (f b).event_id)
      → after.bookings ≡ update_where (at_key booking_key j) f db.bookings
      → Named k db
      → Named k after
  Named-update j k f db after same_id keeps change named b at =
      elim (Option-cases (booking_at k db)) [
        | inl absent ↦ absurd (ground (arith, find-update booking_key j k f db.bookings same_id))
        | inr (x, there) ↦ elim (Bool-cases (j == k)) [
          | inl this ↦
              let same : f x ≡ b =
                ground (arith, find-update booking_key j k f db.bookings same_id) in
              subst (λ (y : Booking). A y.seat_id y.event_id) same (keeps x (named x there))
          | inr other ↦
              let same : x ≡ b =
                ground (arith, find-update booking_key j k f db.bookings same_id) in
              subst (λ (y : Booking). A y.seat_id y.event_id) same (named x there)
        ]
      ]

  Named-insert :
      (k : ℕ) (x : Booking) (db after : Db)
      → A x.seat_id x.event_id
      → after.bookings ≡ x ∷ db.bookings
      → Named k db
      → Named k after
  unfolding find_where
  Named-insert k x db after fit change named b at = elim (Bool-cases (x.id == k)) [
    | inl this ↦
        let same : x ≡ b = ground arith in subst (λ (y : Booking). A y.seat_id y.event_id) same fit
    | inr other ↦ named b (ground arith)
  ]

  Step-Named :
      {db after : Db} (k : ℕ) (step : Step db after)
      → Permits step
      → IsConsistent db
      → Named k db
      → Named k after
  unfolding update_booking update_seat insert_audit set_status set_payment_id confirm_row
      new_booking find_where
  Step-Named {db} {after} k (creates env user_id request key amount hold_seconds e) fit c named =
      elim (attempt_cases env user_id request key amount hold_seconds db) [
        | inl (_, failed) ↦ rw (e, failed) named
        | inr (s, seat, free, fresh, unheld, done) ↦
            Named-insert k
              (new_booking env user_id request key amount
                (until env user_id request key amount hold_seconds))
              db after fit (rw (e, done) refl) named
      ]
  Step-Named {db} {after} k (cancels j user_id e) fit c named = elim (cancel_cases j user_id db c) [
    | inl (_, failed) ↦ rw (e, failed) named
    | inr (b, s, at, own, active, seat, done) ↦
        Named-update j k (set_status BookingStatus.cancelled) db after (λ x. refl) (λ x h. h)
          (rw (e, done) refl) named
  ]
  Step-Named {db} {after} k (confirms now j payment_id e) fit c named =
      elim (confirm_cases now j payment_id db c) [
        | inl (b, at, confirmed, same) ↦ rw (e, same) named
        | inr (inl (_, failed)) ↦ rw (e, failed) named
        | inr (inr (b, s, at, pending, seat, done)) ↦
            Named-update j k (confirm_row payment_id now) db after (λ x. refl) (λ x h. h)
              (rw (e, done) refl) named
      ]
  Step-Named {db} {after} k (compensates j e) fit c named = elim (compensate_cases j db c) [
    | inl same ↦ rw (e, same) named
    | inr (b, at, pending, done) ↦
        Named-update j k (set_status BookingStatus.compensated) db after (λ x. refl) (λ x h. h)
          (rw (e, done) refl) named
  ]
  Step-Named {db} {after} k (initiates uuid j e) fit c named =
      Named-update j k (set_payment_id uuid) db after (λ x. refl) (λ x h. h) (rw e refl) named
  Step-Named {db} {after} k (expires scanned names e) fit c named = elim (expire_cases scanned db) [
    | inl same ↦ rw (e, same) named
    | inr (b, at, pending, done) ↦
        Named-update scanned.id k (set_status BookingStatus.expired) db after (λ x. refl) (λ x h. h)
          (rw (e, done) refl) named
  ]

  -- Along every such history each booking keeps to the relation.
  pub Course-Named :
      {start db : Db} (k : ℕ) → IsConsistent start → Named k start → Course start db → Named k db
  Course-Named k c named Course.here = named
  Course-Named k c named (Course.next r step fit) =
      Step-Named k step fit (Course-IsConsistent c r) (Course-Named k c named r)
