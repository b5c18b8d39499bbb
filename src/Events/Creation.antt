-- ===== src/Events/Creation.antt =====
-- `createEvent` of backend/src/services/event/eventService.ts.
use Prim.Native.String.{String}
use ticketvault.Prelude.{
  ℕ, List, [], ◌∷◌, none, ◌==◌, if◌then◌else◌, is_some, ok, err, unique_violation, events_pkey,
  seats_pkey, seats_event_id_seat_number_key, ◌&&◌, Action, ◌>>◌, pure,
}
use ticketvault.Types.{Seat, SeatStatus, EventRow, EventStatus, Event}
use ticketvault.Table.{find_where}
use ticketvault.Db.{Db, seat_at}
use ticketvault.Redis.{Redis, seat_inventory, number}
use ticketvault.World.{World, command, in_transaction}
use ticketvault.Events.Seating.{Place, seating}

pub record CreateEventInput : Type 0 where
  pub name : String
  pub venue : String
  pub total_seats : ℕ
  pub base_price : ℕ
  pub starts_at : ℕ
  pub ends_at : ℕ

unfoldable pub insert_event : EventRow → Action Db (Unit {0})
insert_event e db =
    if is_some (find_where (λ f. f.id == e.id) db.events)
    then (err (unique_violation events_pkey), db)
    else (ok tt, record db { events = e ∷ db.events })

unfoldable pub insert_seat : Seat → Action Db (Unit {0})
insert_seat s db =
    if is_some (seat_at s.id db)
    then (err (unique_violation seats_pkey), db)
    else if is_some
        (find_where (λ t. t.event_id == s.event_id && t.seat_number == s.seat_number) db.seats)
    then (err (unique_violation seats_event_id_seat_number_key), db)
    else (ok tt, record db { seats = s ∷ db.seats })

-- A seat as the table creates it, with the UUID that is drawn for its number.
unfoldable pub new_seat : ℕ → (ℕ → ℕ) → Place → Seat
new_seat event_id uuids p = record {
  id = uuids p.seat_number;
  event_id = event_id;
  seat_number = p.seat_number;
  section = p.section;
  row_label = p.row_label;
  status = SeatStatus.available;
  reserved_until = none;
  version = 0;
}

unfoldable pub insert_seats : ℕ → (ℕ → ℕ) → List Place → Action Db (Unit {0})
insert_seats event_id uuids [] = pure tt
insert_seats event_id uuids (p ∷ ps) = do
  insert_seat (new_seat event_id uuids p)
  insert_seats event_id uuids ps

unfoldable pub new_event : ℕ → CreateEventInput → EventRow
new_event event_id input = record {
  id = event_id;
  name = input.name;
  venue = input.venue;
  total_seats = input.total_seats;
  base_price = input.base_price;
  starts_at = input.starts_at;
  ends_at = input.ends_at;
  status = EventStatus.published;
}

module _ (R : Redis) where
  open R use {Store, set}

  -- The counter is set when the tables are written, before the commit, which does not fail here. The
  -- event that comes back has no price; 0 stands for that.
  unfoldable pub create_event : ℕ → (ℕ → ℕ) → CreateEventInput → Action (World Store) Event
  create_event event_id uuids input = do
    in_transaction (do
      insert_event (new_event event_id input)
      insert_seats event_id uuids (seating input.total_seats))
    command (set (seat_inventory event_id) (number input.total_seats))
    pure (record {
      row = new_event event_id input;
      available_seats = input.total_seats;
      current_price = 0;
    })
