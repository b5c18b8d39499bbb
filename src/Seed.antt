-- ===== src/Seed.antt =====
-- The event of the demonstration and its seats: backend/src/db/seed.ts. The two accounts
-- that it adds are in Seed/Accounts.
pub mod Accounts
use ticketvault.Prelude.{
  ℕ, zero, suc, ◌+◌, ◌-◌, ◌*◌, Bool, List, [], ◌∷◌, leb, if◌then◌else◌, is_some, ◌==◌, ◌&&◌, ◌||◌,
  Action, ◌>>=◌, ◌>>◌, pure, ok,
}
use Prim.Native.String.{String}
use ticketvault.Types.{EventStatus, EventRow, Seat}
use ticketvault.Table.{find_where}
use ticketvault.Db.{Db, seat_at}
use ticketvault.Redis.{Redis, seat_inventory, number}
use ticketvault.World.{World, on_db, command}
use ticketvault.Events.Seating.{Place, seats_per_row}
use ticketvault.Events.Creation.{new_seat}

abbrev pub day_ms : ℕ
day_ms = 24 * 60 * 60 * 1000

abbrev pub seeded_event : (now event_id : ℕ) → EventRow
seeded_event now event_id = record {
  id = event_id;
  name = "Coldplay World Tour 2025";
  venue = "Madison Square Garden, New York";
  total_seats = 500;
  base_price = 14999;
  starts_at = now + 30 * day_ms;
  ends_at = now + 30 * day_ms + 3 * 60 * 60 * 1000;
  status = EventStatus.published;
}

-- The sections with the letters of their rows.
abbrev pub seeded_sections : List (String × List ℕ)
seeded_sections =
    ("Floor", 65 ∷ 66 ∷ 67 ∷ 68 ∷ 69 ∷ 70 ∷ 71 ∷ 72 ∷ 73 ∷ 74 ∷ [])
    ∷ ("Lower", 65 ∷ 66 ∷ 67 ∷ 68 ∷ 69 ∷ [])
    ∷ ("Upper", 65 ∷ 66 ∷ 67 ∷ 68 ∷ 69 ∷ [])
    ∷ []

-- `ON CONFLICT DO NOTHING`
unfoldable pub insert_event_or_skip : EventRow → Action Db (Unit {0})
insert_event_or_skip e db =
    if is_some (find_where (λ f. f.id == e.id) db.events)
    then (ok tt, db)
    else (ok tt, record db { events = e ∷ db.events })

unfoldable pub insert_seat_or_skip : Seat → Action Db (Unit {0})
insert_seat_or_skip s db =
    if is_some (seat_at s.id db)
      || is_some
          (find_where (λ t. t.event_id == s.event_id && t.seat_number == s.seat_number) db.seats)
    then (ok tt, db)
    else (ok tt, record db { seats = s ∷ db.seats })

module _ (event_id : ℕ) (uuids : ℕ → ℕ) where
  abbrev pub place : String → ℕ → ℕ → Place
  place section label n = record { seat_number = n; section = section; row_label = label }

  -- The loop over the seats of a row, of which `k` are left, from `seatNum` on; the number of the next
  -- seat comes back. The count of the inserted seats is one less.
  unfoldable pub seed_row : String → ℕ → (k seat_num : ℕ) → Action Db ℕ
  seed_row section label zero seat_num = pure seat_num
  seed_row section label (suc k) seat_num = elim (leb seat_num 500) [
    | Bool.false ↦ pure seat_num
    | Bool.true ↦ do
      insert_seat_or_skip (new_seat event_id uuids (place section label seat_num))
      seed_row section label k (seat_num + 1)
  ]

  unfoldable pub seed_rows : String → List ℕ → ℕ → Action Db ℕ
  seed_rows section [] seat_num = pure seat_num
  seed_rows section (label ∷ labels) seat_num = do
    next ← seed_row section label seats_per_row seat_num
    seed_rows section labels next

  unfoldable pub seed_sections : List (String × List ℕ) → ℕ → Action Db ℕ
  seed_sections [] seat_num = pure seat_num
  seed_sections ((section, labels) ∷ rest) seat_num = do
    next ← seed_rows section labels seat_num
    seed_sections rest next

  unfoldable pub seed : (R : Redis) → (now : ℕ) → Action (World R.Store) (Unit {0})
  seed R now = do
    on_db (insert_event_or_skip (seeded_event now event_id))
    next ← on_db (seed_sections seeded_sections 1)
    command (R.set (seat_inventory event_id) (number (next - 1)))
