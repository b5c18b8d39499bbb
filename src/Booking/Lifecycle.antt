-- ===== src/Booking/Lifecycle.antt =====
-- The life of one booking along a history: what never changes, and which statuses may follow one
-- another.
use ticketvault.Prelude.{
  Option-cases, ℕ, ◌≡◌, refl, sym, ap, ◌∙◌, inl, inr, Bool, true, false, some, arith, ◌==◌,
  Bool-cases,
}
use mathlib.Core.Path.{subst}
use ticketvault.Types.{BookingStatus, Booking}
use ticketvault.Table.{find_where, update_where}
use ticketvault.Table.Keyed.{at_key, find-update}
use ticketvault.Db.{
  Db, booking_key, booking_at, update_booking, update_seat, insert_audit, set_status,
}
use ticketvault.Db.Invariant.{IsConsistent}
use ticketvault.Payment.{set_payment_id}
use ticketvault.Booking.{confirm_row, new_booking}
use ticketvault.Booking.Creation.{attempt_cases}
use ticketvault.Booking.Endings.{cancel_cases, confirm_cases, compensate_cases, expire_cases}
use ticketvault.Booking.History.{
  Step, creates, cancels, confirms, compensates, initiates, expires, Reach, here, next,
  Reach-IsConsistent,
}

-- A pending booking may end in any way, a confirmed one may be cancelled, and the other statuses
-- are final.
abbrev pub may_become : BookingStatus → BookingStatus → Bool
may_become BookingStatus.pending _ = true
may_become BookingStatus.confirmed BookingStatus.confirmed = true
may_become BookingStatus.confirmed BookingStatus.cancelled = true
may_become BookingStatus.cancelled BookingStatus.cancelled = true
may_become BookingStatus.expired BookingStatus.expired = true
may_become BookingStatus.compensated BookingStatus.compensated = true
may_become _ _ = false

may_become_refl : (s : BookingStatus) → may_become s s ≡ true
may_become_refl s = ground arith

may_become_trans :
    (s t u : BookingStatus) → may_become s t ≡ true → may_become t u ≡ true → may_become s u ≡ true
may_become_trans s t u h k = ground arith

pub record Follows (b later : Booking) : Type 0 where
  pub same_user : later.user_id ≡ b.user_id
  pub same_seat : later.seat_id ≡ b.seat_id
  pub same_event : later.event_id ≡ b.event_id
  pub same_request : later.idempotency_key ≡ b.idempotency_key
  pub same_amount : later.amount_paid ≡ b.amount_paid
  pub same_expiry : later.expires_at ≡ b.expires_at
  pub allowed : may_become b.status later.status ≡ true

Follows-refl : (b : Booking) → Follows b b
Follows-refl b = record {
  same_user = refl;
  same_seat = refl;
  same_event = refl;
  same_request = refl;
  same_amount = refl;
  same_expiry = refl;
  allowed = may_become_refl b.status;
}

abbrev pub Continues : ℕ → Booking → Db → Type 0
Continues k b db = (later : Booking) × (booking_at k db ≡ some later) × Follows b later

module _ (k : ℕ) (b : Booking) (db : Db) (found : booking_at k db ≡ some b) where
  kept : (after : Db) → after ≡ db → Continues k b after
  kept after same = rw same (b, found, Follows-refl b)

  -- An update of the booking with key `j`, if it suits the booking that stands there.
  updated :
      (j : ℕ) (f : Booking → Booking) (target : Booking)
      → booking_at j db ≡ some target
      → ((x : Booking) → (f x).id ≡ x.id)
      → Follows target (f target)
      → (after : Db) → after.bookings ≡ update_where (at_key booking_key j) f db.bookings
      → Continues k b after
  updated j f target at same_id good after change = elim (Bool-cases (j == k)) [
    | inl e ↦ (
      f b,
      rw change (ground (arith, find-update booking_key j k f db.bookings same_id)),
      subst (λ x. Follows x (f x)) (same e) good,
    )
    | inr e ↦ (
      b,
      rw change (ground (arith, find-update booking_key j k f db.bookings same_id)),
      Follows-refl b,
    )
  ]
    where
      same : (j == k) ≡ true → target ≡ b
      same e =
          let eq : j ≡ k = ground arith in
          let p : some target ≡ some b = sym at ∙ ap (λ (i : ℕ). booking_at i db) eq ∙ found in cc

-- Any transaction lets a booking stand, with its owner, seat, event, request, amount and expiry
-- unchanged, and moves its status only as its life allows.
pub Step-Continues :
    {db after : Db} (k : ℕ) (b : Booking)
    → Step db after
    → IsConsistent db
    → booking_at k db ≡ some b
    → Continues k b after
unfolding update_booking update_seat insert_audit set_status set_payment_id confirm_row new_booking
    find_where
Step-Continues {db} {after} k b (creates env user_id request key amount hold_seconds e) c found =
    elim (attempt_cases env user_id request key amount hold_seconds db) [
      | inl (_, failed) ↦ kept k b db found after (rw (e, failed) refl)
      | inr (s, seat, free, fresh, unheld, done) ↦
          (b, rw (e, done) (ground (arith, fresh)), Follows-refl b)
    ]
Step-Continues {db} {after} k b (cancels j user_id e) c found = elim (cancel_cases j user_id db c) [
  | inl (_, failed) ↦ kept k b db found after (rw (e, failed) refl)
  | inr (t, s, at, own, active, seat, done) ↦
      updated k b db found j (set_status BookingStatus.cancelled) t at (λ x. refl) (ground arith)
        after (rw (e, done) refl)
]
Step-Continues {db} {after} k b (confirms now j payment_id e) c found =
    elim (confirm_cases now j payment_id db c) [
      | inl (t, at, confirmed, same) ↦ kept k b db found after (rw (e, same) refl)
      | inr (inl (_, failed)) ↦ kept k b db found after (rw (e, failed) refl)
      | inr (inr (t, s, at, pending, seat, done)) ↦
          updated k b db found j (confirm_row payment_id now) t at (λ x. refl) (ground arith) after
            (rw (e, done) refl)
    ]
Step-Continues {db} {after} k b (compensates j e) c found = elim (compensate_cases j db c) [
  | inl same ↦ kept k b db found after (rw (e, same) refl)
  | inr (t, at, pending, done) ↦
      updated k b db found j (set_status BookingStatus.compensated) t at (λ x. refl) (ground arith)
        after (rw (e, done) refl)
]
Step-Continues {db} {after} k b (initiates uuid j e) c found =
    elim (Option-cases (booking_at j db)) [
      | inl absent ↦ (
        b,
        rw e (
            ground (
              arith,
              absent,
              ap (λ (i : ℕ). booking_at i db) {x = j} {y = k},
              find-update booking_key j k (set_payment_id uuid) db.bookings (λ x. refl),
            )),
        Follows-refl b,
      )
      | inr (t, at) ↦
          updated k b db found j (set_payment_id uuid) t at (λ x. refl)
            (ground (arith, may_become_refl t.status)) after (rw e refl)
    ]
Step-Continues {db} {after} k b (expires scanned names e) c found = elim (expire_cases scanned db) [
  | inl same ↦ kept k b db found after (rw (e, same) refl)
  | inr (t, at, pending, done) ↦
      updated k b db found scanned.id (set_status BookingStatus.expired) t at (λ x. refl)
        (ground arith) after (rw (e, done) refl)
]

Follows-trans : (a b c : Booking) → Follows a b → Follows b c → Follows a c
Follows-trans a b c f g = ground (arith, may_become_trans a.status b.status c.status)

-- So it is along every history.
pub Reach-Continues :
    {start db : Db} (k : ℕ) (b : Booking)
    → IsConsistent start
    → Reach start db
    → booking_at k start ≡ some b
    → Continues k b db
Reach-Continues k b c here found = (b, found, Follows-refl b)
Reach-Continues k b c (next r s) found =
    let (mid, at, f) = Reach-Continues k b c r found in
    let (later, at', g) = Step-Continues k mid s (Reach-IsConsistent c r) at in
    (later, at', Follows-trans b mid later f g)

-- A row that the expiry worker has scanned names the seat of its booking at any later time, which
-- is what its step asks for.
pub scanned_names_seat :
    {start db : Db} (scanned : Booking)
    → IsConsistent start
    → Reach start db
    → booking_at scanned.id start ≡ some scanned
    → (b : Booking) → booking_at scanned.id db ≡ some b
    → b.seat_id ≡ scanned.seat_id
scanned_names_seat scanned c r found b at =
    let (later, at', f) = Reach-Continues scanned.id scanned c r found in
    ground (arith, f.same_seat)
