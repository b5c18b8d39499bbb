-- ===== src/Reconciler.antt =====
-- backend/src/workers/inventoryReconciler.ts: the counters against the tables.
pub mod Repair
pub mod Checks
pub mod Runs
use ticketvault.Prelude.{
  ℕ, ◌*◌, ◌/◌, Bool, false, List, [], ◌∷◌, Option, none, some, ◌&&◌, ◌==◌, ltb, if◌then◌else◌,
  Action, ◌>>=◌, ◌>>◌, pure, gets,
}
use ticketvault.Types.{EventRow, is_published}
use ticketvault.Table.{select}
use ticketvault.Redis.{Redis, reconciler, seat_inventory, inventory_mismatch, Value, number}
use ticketvault.World.{World, command, catch}
use ticketvault.Events.{available_in}
use ticketvault.ExpiryWorker.{with_lock}

-- `LOCK_TTL_SECONDS` and `INTERVAL_MS`
abbrev pub lock_ttl_seconds : ℕ
lock_ttl_seconds = 60

abbrev pub interval_ms : ℕ
interval_ms = 300000

-- `(2 * INTERVAL_MS) / 1000`
abbrev pub note_ttl_seconds : ℕ
note_ttl_seconds = 2 * interval_ms / 1000

-- `WHERE e.status = 'published' AND e.ends_at > now()`
unfoldable pub is_running : ℕ → EventRow → Bool
is_running now e = is_published e.status && ltb now e.ends_at

-- `parseInt(raw, 10) === actual`, and the same test of the mismatch that the last run noted
abbrev pub shows : ℕ → Option Value → Bool
shows n (some (number m)) = m == n
shows n _ = false

module _ (R : Redis) where
  open R use {Store, get, set, setex, del}

  -- The body of the loop, on what the query counted for the event.
  unfoldable pub check_event : ℕ → ℕ → Store → Store
  check_event event_id actual s = elim (get s (seat_inventory event_id)) [
    | none ↦ del (inventory_mismatch event_id) s
    | some raw ↦
        if shows actual (some raw)
        then del (inventory_mismatch event_id) s
        else if shows actual (get s (inventory_mismatch event_id))
        then del (inventory_mismatch event_id) (set (seat_inventory event_id) (number actual) s)
        else setex (inventory_mismatch event_id) note_ttl_seconds (number actual) s
  ]

  unfoldable pub check_all : List (ℕ × ℕ) → Store → Store
  check_all [] s = s
  check_all ((event_id, actual) ∷ rows) s = check_all rows (check_event event_id actual s)

  abbrev pub counted : (ℕ → ℕ) → List EventRow → List (ℕ × ℕ)
  counted count [] = []
  counted count (e ∷ es) = (e.id, count e.id) ∷ counted count es

  -- `reconcile`
  unfoldable pub reconcile : (now owner : ℕ) → Action (World Store) (Unit {0})
  reconcile now owner =
      catch
        (do
          with_lock R reconciler lock_ttl_seconds owner (do
            rows ←
                gets (λ w. counted (λ e. available_in e w.db) (select (is_running now) w.db.events))
            command (check_all rows))
          pure tt)
        (λ e. pure tt)
