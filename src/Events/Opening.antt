-- ===== src/Events/Opening.antt =====
-- A new event: `createEvent` goes through on fresh identifiers, and what it leaves is in order.
use mathlib.Core.Path.{subst}
use ticketvault.Prelude.{
  ℕ, zero, suc, ◌+◌, ◌≤◌, ◌≡◌, refl, ap, List, [], ◌∷◌, none, some, arith, ◌==◌, ◌&&◌, length, ok,
}
use ticketvault.Types.{SeatStatus, Seat, Event}
use ticketvault.Table.{find_where, count_where}
use ticketvault.Table.Keyed.{count-find_none}
use ticketvault.Db.{Db, seat_key, seat_at, with_transaction}
use ticketvault.Db.Invariant.{IsConsistent}
use ticketvault.Redis.{Redis, seat_inventory, number}
use ticketvault.World.{World, in_transaction}
use ticketvault.Events.{is_free_in, available_in}
use ticketvault.Events.Seating.{Place, seating, numbers, numbered, seating-numbers}
use ticketvault.Events.Creation.{
  CreateEventInput, insert_event, insert_seat, new_seat, insert_seats, new_event, create_event,
}

-- The places carry the numbers from `from` on, one after the other.
abbrev Ascending : ℕ → List Place → Type 0
Ascending from [] = Unit
Ascending from (p ∷ ps) = (p.seat_number ≡ from) × Ascending (suc from) ps

numbered-Ascending :
    (from n : ℕ) (ps : List Place) → numbers ps ≡ numbered from n → Ascending from ps
numbered-Ascending from n [] h = tt
numbered-Ascending from zero (p ∷ ps) h = cc
numbered-Ascending from (suc n) (p ∷ ps) h = (cc, numbered-Ascending (suc from) n ps (cc))

length-numbered : (from n : ℕ) (ps : List Place) → numbers ps ≡ numbered from n → length ps ≡ n
length-numbered from zero [] h = refl
length-numbered from (suc n) [] h = cc
length-numbered from zero (p ∷ ps) h = cc
length-numbered from (suc n) (p ∷ ps) h = ap suc (length-numbered (suc from) n ps (cc))

-- A free seat under a fresh key keeps the tables consistent.
new-IsConsistent :
    (s : Seat) (db : Db)
    → seat_at s.id db ≡ none
    → s.status ≡ SeatStatus.available
    → IsConsistent db
    → IsConsistent (record db { seats = s ∷ db.seats })
unfolding find_where count_where
new-IsConsistent s db fresh free c = record {
  seat_once = λ k. ground (arith, c.seat_once k, count-find_none seat_key s.id db.seats fresh);
  booking_once = λ k. c.booking_once k;
  held = λ k. ground (arith, c.held k);
  sold = λ k. ground (arith, c.sold k);
  audited = λ k. c.audited k;
}

module _ (event_id : ℕ) (uuids : ℕ → ℕ) (distinct : (m n : ℕ) → uuids m ≡ uuids n → m ≡ n) where
  -- From this number on no seat of the table has the identifier or the place of a new one.
  pub record IsFresh (from : ℕ) (db : Db) : Type 0 where
    pub no_id : (k : ℕ) → from ≤ k → seat_at (uuids k) db ≡ none
    pub no_number :
        (k : ℕ)
        → from ≤ k
        → find_where (λ (t : Seat). t.event_id == event_id && t.seat_number == k) db.seats ≡ none

  abbrev with_seat : Place → Db → Db
  with_seat p db = record db { seats = new_seat event_id uuids p ∷ db.seats }

  seat_inserted :
      (p : Place) (db : Db)
      → IsFresh p.seat_number db
      → insert_seat (new_seat event_id uuids p) db ≡ (ok tt, with_seat p db)
  unfolding insert_seat new_seat
  seat_inserted p db f = ground (arith, f.no_id p.seat_number, f.no_number p.seat_number)

  still-IsFresh :
      (p : Place) (db : Db)
      → IsFresh p.seat_number db
      → IsFresh (suc p.seat_number) (with_seat p db)
  unfolding new_seat find_where
  still-IsFresh p db f = record {
    no_id = λ k later. ground (arith, f.no_id k, distinct p.seat_number k);
    no_number = λ k later. ground (arith, f.no_number k);
  }

  seats_inserted :
      (from : ℕ) (ps : List Place) (db : Db)
      → Ascending from ps
      → IsFresh from db
      → IsConsistent db
      → (db' : Db) × (insert_seats event_id uuids ps db ≡ (ok tt, db'))
        × IsConsistent db'
        × (available_in event_id db' ≡ length ps + available_in event_id db)
  unfolding insert_seats
  seats_inserted from [] db a f c = (db, refl, c, omega arith)
  seats_inserted from (p ∷ ps) db (at, a) f c =
      let f' : IsFresh p.seat_number db = rw at f in
      let next_fresh : IsFresh (suc from) (with_seat p db) =
        subst (λ (k : ℕ). IsFresh (suc k) (with_seat p db)) at (still-IsFresh p db f') in
      let kept : IsConsistent (with_seat p db) =
        new-IsConsistent (new_seat event_id uuids p) db
          (unfold new_seat in f'.no_id p.seat_number (omega arith)) (unfold new_seat in refl) c in
      let (db', inserted, c', counted) =
        seats_inserted (suc from) ps (with_seat p db) a next_fresh kept in
      let first = seat_inserted p db f' in
      let one_more : available_in event_id (with_seat p db) ≡ suc (available_in event_id db) =
        unfold available_in count_where new_seat in ground arith in
      (db', ground arith, c', omega arith)

-- An event without seats has none under any number, and none that is free.
no_place :
    (event_id k : ℕ) (ss : List Seat)
    → find_where (λ (s : Seat). s.event_id == event_id) ss ≡ none
    → find_where (λ (s : Seat). s.event_id == event_id && s.seat_number == k) ss ≡ none
unfolding find_where
no_place event_id k [] h = refl
no_place event_id k (s ∷ ss) h = ground (arith, no_place event_id k ss)

none_free :
    (event_id : ℕ) (ss : List Seat)
    → find_where (λ (s : Seat). s.event_id == event_id) ss ≡ none
    → count_where (is_free_in event_id) ss ≡ 0
unfolding find_where count_where
none_free event_id [] h = refl
none_free event_id (s ∷ ss) h = ground (arith, none_free event_id ss)

module _ (R : Redis) where
  open R use {Store, get, get-set}

  -- In consistent tables that have no row of its new identifiers, `createEvent` goes through: the event
  -- has as many free seats as it should, its counter shows that number, and the tables stay consistent.
  pub create_event-opens :
      (event_id : ℕ) (uuids : ℕ → ℕ) (input : CreateEventInput) (w : World Store)
      → ((m n : ℕ) → uuids m ≡ uuids n → m ≡ n)
      → ((n : ℕ) → seat_at (uuids n) w.db ≡ none)
      → find_where (λ e. e.id == event_id) w.db.events ≡ none
      → find_where (λ (s : Seat). s.event_id == event_id) w.db.seats ≡ none
      → IsConsistent w.db
      → let (r, w') = create_event R event_id uuids input w in
        ((e : Event) × (r ≡ ok e))
        × (available_in event_id w'.db ≡ input.total_seats)
        × (get w'.redis (seat_inventory event_id) ≡ some (number input.total_seats))
        × IsConsistent w'.db
  create_event-opens event_id uuids input w distinct no_seat no_event empty c =
      let opened = record w.db { events = new_event event_id input ∷ w.db.events } in
      let fresh : IsFresh event_id uuids distinct 1 opened = record {
        no_id = λ k later. no_seat k;
        no_number = λ k later. no_place event_id k w.db.seats empty;
      } in
      let c' : IsConsistent opened = record {
        seat_once = c.seat_once;
        booking_once = c.booking_once;
        held = c.held;
        sold = c.sold;
        audited = c.audited;
      } in
      let places = seating input.total_seats in
      let as_numbered = seating-numbers input.total_seats in
      let (after, inserted, kept, counted) =
        seats_inserted event_id uuids distinct 1 places opened
          (numbered-Ascending 1 input.total_seats places as_numbered) fresh c' in
      let event : insert_event (new_event event_id input) w.db ≡ (ok tt, opened) =
        unfold insert_event new_event in rw no_event refl in
      let none_yet : available_in event_id opened ≡ 0 =
        unfold available_in in none_free event_id w.db.seats empty in
      let all = length-numbered 1 input.total_seats places as_numbered in
      let w' : World Store = record w {
        db = after;
        redis = R.set (seat_inventory event_id) (number input.total_seats) w.redis;
      } in
      let e : Event = record {
        row = new_event event_id input;
        available_seats = input.total_seats;
        current_price = 0;
      } in
      let same : create_event R event_id uuids input w ≡ (ok e, w') =
        unfold create_event in_transaction with_transaction in ground arith in
      rw same ((e, refl), omega arith, rw get-set (ground arith), kept)
