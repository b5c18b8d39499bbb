-- ===== src/Listing.antt =====
-- The queries that pages show: `getEvents` and `getSeatsForEvent` of
-- backend/src/services/event/eventService.ts, and `getUserBookings` of
-- backend/src/services/booking/bookingService.ts.
use Prim.Native.String.{String}
use ticketvault.Prelude.{
  ℕ, ◌≡◌, refl, ap, ◌∙◌, inl, inr, Bool, List, [], ◌∷◌, Option, none, some, map, ◌&&◌, ◌||◌, not,
  ◌==◌, ltb, leb, arith, Bool-cases,
}
use ticketvault.Types.{SeatStatus, Seat, Booking, EventRow, is_published}
use ticketvault.Table.{select, find_where, count_where}
use ticketvault.Table.Sorting.{order_by, IsInOrder, order_by-IsInOrder, count-order_by}
use ticketvault.Db.{Db, seat_at}
use ticketvault.Events.{available_in}

-- A row of the list of events. The counts come straight from the tables.
pub record ListedEvent : Type 0 where
  pub row : EventRow
  pub available_seats : ℕ

abbrev pub earlier : EventRow → EventRow → Bool
earlier e f = leb e.starts_at f.starts_at

abbrev pub listed : Db → EventRow → ListedEvent
listed db e = record { row = e; available_seats = available_in e.id db }

unfoldable pub get_events : Db → List ListedEvent
get_events db = map (listed db) (order_by earlier (select (λ e. is_published e.status) db.events))

-- What `getSeatsForEvent` selects of a seat.
pub record ListedSeat : Type 0 where
  pub id : ℕ
  pub seat_number : ℕ
  pub section : String
  pub row_label : ℕ
  pub status : SeatStatus
  pub reserved_until : Option ℕ

-- `ORDER BY section, row_label, CAST(seat_number AS INTEGER)`, over the order of texts that the
-- database uses, which says of two sections whether the first stands before the second.
abbrev pub seat_earlier : (String → String → Bool) → Seat → Seat → Bool
seat_earlier before s t =
    before s.section t.section
    || (not (before t.section s.section)
        && (ltb s.row_label t.row_label
            || (s.row_label == t.row_label && leb s.seat_number t.seat_number)))

abbrev pub listed_seat : Seat → ListedSeat
listed_seat s = record {
  id = s.id;
  seat_number = s.seat_number;
  section = s.section;
  row_label = s.row_label;
  status = s.status;
  reserved_until = s.reserved_until;
}

unfoldable pub get_seats_for_event : (String → String → Bool) → ℕ → Db → List ListedSeat
get_seats_for_event before event_id db =
    map listed_seat (order_by (seat_earlier before) (select (λ s. s.event_id == event_id) db.seats))

-- A booking with what its seat and its event say.
pub record UserBooking : Type 0 where
  pub booking : Booking
  pub seat_number : ℕ
  pub section : String
  pub row_label : ℕ
  pub event_name : String
  pub venue : String
  pub starts_at : ℕ

abbrev pub event_at : ℕ → Db → Option EventRow
event_at k db = find_where (λ e. e.id == k) db.events

-- The joins: ids are primary keys, so a booking meets one seat and one event at most, and is left
-- out if either is not there.
abbrev pub joined : Booking → Option Seat → Option EventRow → Option UserBooking
joined b (some s) (some e) = some (record {
  booking = b;
  seat_number = s.seat_number;
  section = s.section;
  row_label = s.row_label;
  event_name = e.name;
  venue = e.venue;
  starts_at = e.starts_at;
})
joined b _ _ = none

unfoldable pub join_bookings : Db → List Booking → List UserBooking
join_bookings db [] = []
join_bookings db (b ∷ bs) =
    let rest = join_bookings db bs in
    elim (joined b (seat_at b.seat_id db) (event_at b.event_id db)) [
      | none ↦ rest
      | some r ↦ r ∷ rest
    ]

-- The table holds the newest booking first, which is the order `created_at DESC`.
unfoldable pub get_user_bookings : ℕ → Db → List UserBooking
get_user_bookings user_id db = join_bookings db (select (λ b. b.user_id == user_id) db.bookings)

pub count-select {ℓ} :
    {A : Type ℓ} (p q : A → Bool) (xs : List A)
    → count_where p (select q xs) ≡ count_where (λ x. q x && p x) xs
unfolding count_where select
count-select p q [] = refl
count-select p q (x ∷ xs) = ground (arith, count-select p q xs)

rows-listed :
    (db : Db) (es : List EventRow) → map (λ (l : ListedEvent). l.row) (map (listed db) es) ≡ es
rows-listed db [] = refl
rows-listed db (e ∷ es) = ap (λ (r : List EventRow). e ∷ r) (rows-listed db es)

-- Each listed event shows the free seats of its event.
abbrev pub ShowsFree : Db → List ListedEvent → Type 0
ShowsFree db [] = Unit
ShowsFree db (l ∷ ls) = (l.available_seats ≡ available_in l.row.id db) × ShowsFree db ls

listed-ShowsFree : (db : Db) (es : List EventRow) → ShowsFree db (map (listed db) es)
listed-ShowsFree db [] = tt
listed-ShowsFree db (e ∷ es) = (refl, listed-ShowsFree db es)

-- The list of events holds the published events and no others, each as often as the table does, by
-- the time at which they start, and each with the number of its free seats.
pub get_events_lem :
    (db : Db)
    → let rows = map (λ (l : ListedEvent). l.row) (get_events db) in
      ((p : EventRow → Bool)
        → count_where p rows ≡ count_where (λ e. is_published e.status && p e) db.events)
      × IsInOrder earlier rows
      × ShowsFree db (get_events db)
unfolding get_events
get_events_lem db =
    let published = select (λ (e : EventRow). is_published e.status) db.events in
    let sorted = order_by earlier published in
    (
      λ p. rw (rows-listed db sorted) (
          count-order_by earlier p published
          ∙ count-select p (λ e. is_published e.status) db.events),
      rw (rows-listed db sorted) (order_by-IsInOrder earlier (λ x y h. ground arith) published),
      listed-ShowsFree db sorted,
    )

-- Every booking names a seat and an event that are there.
abbrev pub HasBoth : Db → List Booking → Type 0
HasBoth db [] = Unit
HasBoth db (b ∷ bs) =
    ((s : Seat) × (seat_at b.seat_id db ≡ some s))
    × ((e : EventRow) × (event_at b.event_id db ≡ some e))
    × HasBoth db bs

join_all :
    (db : Db) (p : Booking → Bool) (bs : List Booking)
    → HasBoth db bs
    → map (λ (r : UserBooking). r.booking) (join_bookings db (select p bs)) ≡ select p bs
unfolding join_bookings select
join_all db p [] h = refl
join_all db p (b ∷ bs) (seat, event, h) = elim (Bool-cases (p b)) [
  | inl kept ↦
      rw (kept, seat.1, event.1, join_bookings)
        (ap (λ (r : List Booking). b ∷ r) (join_all db p bs h))
  | inr left ↦ rw left (join_all db p bs h)
]

-- If every booking names a seat and an event that are there, a user's list shows exactly the user's
-- bookings, in the order of the table, the newest first.
pub get_user_bookings_lem :
    (user_id : ℕ) (db : Db)
    → HasBoth db db.bookings
    → map (λ (r : UserBooking). r.booking) (get_user_bookings user_id db)
      ≡ select (λ b. b.user_id == user_id) db.bookings
unfolding get_user_bookings
get_user_bookings_lem user_id db h = join_all db (λ b. b.user_id == user_id) db.bookings h
