-- ===== src/Events/Cache.antt =====
-- Reading an event through the cache changes nothing but the cache.
use ticketvault.Prelude.{ℕ, ◌≡◌, refl, inl, inr, Option, none, some, arith, ok, Option-cases}
use ticketvault.Types.{Event}
use ticketvault.Redis.{Redis}
use ticketvault.World.{World}
use ticketvault.Events.{get_event_cached, cache_hit, get_event_by_id, remember, with_live_inventory}

module _ (R : Redis) where
  open R use {Store}

  -- Reading an event through the cache cannot fail, leaves the tables and Redis alone, and sends nothing.
  pub cached_effect :
      (now f : ℕ) (w : World Store)
      → (o : Option Event) × (w' : World Store) × (get_event_cached R now f w ≡ (ok o, w'))
        × (w'.db ≡ w.db)
        × (w'.redis ≡ w.redis)
        × (w'.sent ≡ w.sent)
  unfolding get_event_cached
  cached_effect now f w = elim (Option-cases (cache_hit R now f w)) [
    | inr (x, hit) ↦ (some (with_live_inventory R w.redis x), w, ground arith, refl, refl, refl)
    | inl miss ↦ elim (Option-cases (get_event_by_id R f w)) [
      | inl absent ↦ (none, w, ground arith, refl, refl, refl)
      | inr (x, there) ↦ (some x, remember R now f x w, ground arith, refl, refl, refl)
    ]
  ]
