-- ===== src/Scripts.antt =====
-- The six Lua scripts of backend/src/redis/scripts.ts. Redis runs a script as one step.
pub mod Fifo
pub mod Gate
pub mod Queue
pub mod Locks
use ticketvault.Prelude.{
  ℕ, zero, suc, ◌+◌, Bool, true, false, List, [], ◌∷◌, Option, none, some, ◌==◌, if◌then◌else◌,
  Result, ok, err, other_error, Action,
}
use ticketvault.Redis.{
  Redis, Key, seat_inventory, worker_lock, Worker, Value, number, processing, owner, Waiter,
}

-- What `DECR_IF_POSITIVE` returns: -2 for a counter that is not there, -1 for one at 0, and
-- otherwise the new value.
pub data Remaining : Type 0 where
  missing sold_out : Remaining
  left : ℕ → Remaining

-- `ZRANK key member` plus one, absent if the member is not in the set.
unfoldable pub position_of : ℕ → List Waiter → Option ℕ
position_of u [] = none
position_of u (w ∷ ws) =
    let later = position_of u ws in
    if w.user_id == u then some 1 else elim later [ none ↦ none | some n ↦ some (suc n) ]

abbrev pub is_owner : ℕ → Option Value → Bool
is_owner me (some (owner o)) = o == me
is_owner me _ = false

module _ (R : Redis) where
  open R use {Store, get, zrange, setex, del, incr, decr, zadd_nx, zpopmin}

  unfoldable pub atomic_decrement : ℕ → Action Store Remaining
  atomic_decrement event_id s = elim (get s (seat_inventory event_id)) [
    | none ↦ (ok missing, s)
    | some (number zero) ↦ (ok sold_out, s)
    | some (number (suc n)) ↦ (ok (left n), decr (seat_inventory event_id) s)
    | some _ ↦ (err other_error, s)
  ]

  -- `RELEASE_AND_NOTIFY`: the longest-waiting user, or a counter raised by one.
  unfoldable pub release_and_notify : ℕ → Action Store (Option Waiter)
  release_and_notify event_id s = elim (zrange s event_id) [
    | [] ↦ (ok none, incr (seat_inventory event_id) s)
    | w ∷ _ ↦ (ok (some w), zpopmin event_id s)
  ]

  -- `JOIN_WAITLIST`
  unfoldable pub join_waitlist : ℕ → ℕ → ℕ → Action Store (Option ℕ)
  join_waitlist event_id now user_id s =
      let after = zadd_nx event_id (record { user_id = user_id; joined_at = now }) s in
      (ok (position_of user_id (zrange after event_id)), after)

  -- `SET NX EX`: sets a key that is not there, with a time to live in seconds, and says whether it did.
  unfoldable pub set_nx : Key → ℕ → Value → Action Store Bool
  set_nx k ttl_seconds v s = elim (get s k) [
    | none ↦ (ok true, setex k ttl_seconds v s)
    | some _ ↦ (ok false, s)
  ]

  unfoldable pub claim_idempotency_key : Key → ℕ → Action Store Bool
  unfolding set_nx
  claim_idempotency_key k processing_ttl_seconds = set_nx k processing_ttl_seconds processing

  unfoldable pub acquire_lock : Worker → (me ttl_seconds : ℕ) → Action Store Bool
  unfolding set_nx
  acquire_lock w me ttl_seconds = set_nx (worker_lock w) ttl_seconds (owner me)

  -- `RELEASE_LOCK`: deletes the lock only if it is the caller's.
  unfoldable pub release_lock : Worker → ℕ → Action Store (Unit {0})
  release_lock w me s =
      (ok tt, if is_owner me (get s (worker_lock w)) then del (worker_lock w) s else s)
