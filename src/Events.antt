-- ===== src/Events.antt =====
-- The reading side, and in Events/Creation the writing side, of backend/src/services/event/eventService.ts.
pub mod Cache
pub mod Seating
pub mod Creation
pub mod Opening
use ticketvault.Prelude.{
  ℕ, ◌+◌, Bool, List, Option, none, some, ◌&&◌, ◌==◌, ltb, if◌then◌else◌, ok, Action, ◌>>=◌, ◌>>◌,
  pure, gets,
}
use ticketvault.Types.{Seat, EventRow, Event, is_available}
use ticketvault.Table.{find_where, count_where}
use ticketvault.Db.{Db}
use ticketvault.Redis.{Redis, Key, seat_inventory, Value, number}
use ticketvault.Pricing.{calculate_price}
use ticketvault.World.{World, CachedEvent, command, as_number}

-- `COUNT(s.id) FILTER (WHERE s.status = 'available')` over the seats of an event
abbrev pub is_free_in : ℕ → Seat → Bool
is_free_in event_id s = s.event_id == event_id && is_available s.status

unfoldable pub available_in : ℕ → Db → ℕ
available_in event_id db = count_where (is_free_in event_id) db.seats

abbrev pub event_cache_ttl_ms : ℕ
event_cache_ttl_ms = 5000

unfoldable pub price_of : Event → ℕ
price_of e = calculate_price e.row.base_price e.available_seats e.row.total_seats

module _ (R : Redis) where
  open R use {Store, get, set}

  unfoldable pub with_live_inventory : Store → Event → Event
  unfolding price_of
  with_live_inventory s e =
      let live : Event = record e {
        available_seats = elim (as_number (get s (seat_inventory e.row.id))) [
          | none ↦ e.available_seats
          | some n ↦ n
        ];
      } in
      record live { current_price = price_of live }

  unfoldable pub get_event_by_id : ℕ → World Store → Option Event
  unfolding with_live_inventory available_in
  get_event_by_id event_id w = elim (find_where (λ e. e.id == event_id) w.db.events) [
    | none ↦ none
    | some row ↦ some (
        with_live_inventory w.redis
          (record { row = row; available_seats = available_in event_id w.db; current_price = 0 }))
  ]

  -- The cached event, if it is still good at the time `now`.
  unfoldable pub cache_hit : ℕ → ℕ → World Store → Option Event
  cache_hit now event_id w = elim (w.event_cache event_id) [
    | none ↦ none
    | some hit ↦ if ltb now hit.expires_at then some hit.event else none
  ]

  abbrev pub remember : ℕ → ℕ → Event → World Store → World Store
  remember now event_id e w = record w {
    event_cache = λ k.
        if k == event_id
        then some (record { event = e; expires_at = now + event_cache_ttl_ms })
        else w.event_cache k;
  }

  unfoldable pub get_event_cached : ℕ → ℕ → Action (World Store) (Option Event)
  unfolding cache_hit get_event_by_id with_live_inventory
  get_event_cached now event_id w = elim (cache_hit now event_id w) [
    | some e ↦ (ok (some (with_live_inventory w.redis e)), w)
    | none ↦ elim (get_event_by_id event_id w) [
      | none ↦ (ok none, w)
      | some e ↦ (ok (some e), remember now event_id e w)
    ]
  ]

  unfoldable pub init_redis_inventory : ℕ → Action (World Store) (Unit {0})
  unfolding available_in
  init_redis_inventory event_id = do
    count ← gets (λ w. available_in event_id w.db)
    command (set (seat_inventory event_id) (number count))
