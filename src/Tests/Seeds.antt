-- ===== src/Tests/Seeds.antt =====
-- What the seed leaves in empty tables: a counter of 400 for an event of 500 seats.
use ticketvault.Prelude.{◌+◌, ◌≡◌, refl, some}
use ticketvault.Table.{find_where}
use ticketvault.Redis.{seat_inventory, number}
use ticketvault.Redis.Sample.{maps}
use ticketvault.World.{on_db}
use ticketvault.Seed.{
  seed, seed_sections, seed_rows, seed_row, insert_seat_or_skip, insert_event_or_skip,
}
use ticketvault.Events.Creation.{new_seat}
use ticketvault.Tests.Samples.{world}

seeded_400 :
    let w = (seed 8 (λ n. n + 10) maps 0 world).1 in
    maps.get w.redis (seat_inventory 8) ≡ some (number 400)
unfolding seed seed_sections seed_rows seed_row insert_seat_or_skip insert_event_or_skip find_where
    new_seat on_db
seeded_400 = refl
