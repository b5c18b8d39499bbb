-- ===== src/Db/Moved.antt =====
-- A booking that moves on together with its seat keeps the invariant.
use ticketvault.Prelude.{
  ℕ, ◌≡◌, refl, ap, inl, inr, true, Option, none, some, arith, ◌==◌, if◌then◌else◌, indicator,
  is_some, Bool-cases,
}
use mathlib.Core.Option
use ticketvault.Types.{
  SeatStatus, BookingStatus, Reason, Seat, Booking, is_pending, is_confirmed, is_active,
}
use ticketvault.Table.{find_where, update_where, count_where}
use ticketvault.Table.Keyed.{
  at_key, find-update, count_key-update, count-update, indicator-le-count,
}
use ticketvault.Db.{
  Db, seat_key, booking_key, seat_at, booking_at, update_seat, update_booking, insert_audit,
}
use ticketvault.Db.Invariant.{
  IsConsistent, pending_on, confirmed_on, held_by, sold_by, of_seat, status_of, last_logged,
}

-- A change of a booking and of its seat that leaves their keys, and sets statuses that agree.
pub record Transition (f : Booking → Booking) (g : Seat → Seat) (u : BookingStatus) (v : SeatStatus)
    : Type 0 where
  pub same_id : (b : Booking) → (f b).id ≡ b.id
  pub same_seat : (b : Booking) → (f b).seat_id ≡ b.seat_id
  pub same_seat_id : (s : Seat) → (g s).id ≡ s.id
  pub to_booking : (b : Booking) → (f b).status ≡ u
  pub to_seat : (s : Seat) → (g s).status ≡ v
  pub agree_held : indicator (is_pending u) ≡ held_by v
  pub agree_sold : indicator (is_confirmed u) ≡ sold_by v

of_seat-map :
    (φ : SeatStatus → ℕ) (g : Seat → Seat) (v : SeatStatus) (o : Option Seat)
    → ((s : Seat) → (g s).status ≡ v)
    → of_seat φ (Option.map g o) ≡ (if is_some o then φ v else 0)
of_seat-map φ g v none h = refl
of_seat-map φ g v (some s) h = ap φ (h s)

module _ (f : Booking → Booking) (g : Seat → Seat) (u : BookingStatus) (v : SeatStatus)
    (t : Transition f g u v) (k : ℕ) where
  -- The booking with the key moves to status `u`, its seat to `v`, and an audit row says so.
  abbrev pub moved : Booking → Option BookingStatus → Reason → Db → Db
  moved b old why db = insert_audit k old u why (update_seat b.seat_id g (update_booking k f db))

  module _ (db : Db) (c : IsConsistent db) (b : Booking) (found : booking_at k db ≡ some b)
      (active : is_active b.status ≡ true) where
    seat_after : ℕ → Option Seat
    seat_after j =
        find_where (at_key seat_key j) (update_where (at_key seat_key b.seat_id) g db.seats)

    seat_after_lem :
        (j : ℕ) (φ : SeatStatus → ℕ)
        → of_seat φ (seat_after j) ≡ (
            if b.seat_id == j
            then (if is_some (seat_at j db) then φ v else 0)
            else of_seat φ (seat_at j db))
    unfolding seat_after
    seat_after_lem j φ = elim (Bool-cases (b.seat_id == j)) [
      | inl e ↦
          rw (find-update seat_key b.seat_id j g db.seats t.same_seat_id, e)
            (of_seat-map φ g v (seat_at j db) t.to_seat)
      | inr e ↦ rw (find-update seat_key b.seat_id j g db.seats t.same_seat_id, e) refl
    ]

    moved_held :
        (j : ℕ)
        → count_where (pending_on j) (update_where (at_key booking_key k) f db.bookings)
          ≡ of_seat held_by (seat_after j)
    moved_held j = ground (
      arith,
      c.held j,
      c.sold j,
      t.to_booking b,
      t.same_seat b,
      count-update booking_key (pending_on j) k f db.bookings b found (c.booking_once k),
      indicator-le-count booking_key (pending_on j) k db.bookings b found,
      indicator-le-count booking_key (confirmed_on j) k db.bookings b found,
      seat_after_lem j held_by,
      t.agree_held,
    )

    moved_sold :
        (j : ℕ)
        → count_where (confirmed_on j) (update_where (at_key booking_key k) f db.bookings)
          ≡ of_seat sold_by (seat_after j)
    moved_sold j = ground (
      arith,
      c.held j,
      c.sold j,
      t.to_booking b,
      t.same_seat b,
      count-update booking_key (confirmed_on j) k f db.bookings b found (c.booking_once k),
      indicator-le-count booking_key (pending_on j) k db.bookings b found,
      indicator-le-count booking_key (confirmed_on j) k db.bookings b found,
      seat_after_lem j sold_by,
      t.agree_sold,
    )

    moved_audited :
        (old : Option BookingStatus) (why : Reason) (j : ℕ)
        → status_of (booking_at j (moved b old why db)) ≡ last_logged j (moved b old why db).audit
    unfolding update_seat update_booking insert_audit find_where
    moved_audited old why j = ground (
      arith,
      c.audited j,
      t.to_booking b,
      found,
      find-update booking_key k j f db.bookings t.same_id,
      ap (λ (i : ℕ). booking_at i db) {x = k} {y = j},
    )

    -- The move of an active booking and of its seat keeps the invariant.
    pub moved-IsConsistent :
        (old : Option BookingStatus) (why : Reason) → IsConsistent (moved b old why db)
    unfolding update_seat update_booking insert_audit seat_after
    moved-IsConsistent old why = record {
      seat_once =
          λ j. rw (count_key-update seat_key b.seat_id j g db.seats t.same_seat_id) (c.seat_once j);
      booking_once =
          λ j. rw (count_key-update booking_key k j f db.bookings t.same_id) (c.booking_once j);
      held = moved_held;
      sold = moved_sold;
      audited = moved_audited old why;
    }
