-- ===== src/Scripts/Locks.antt =====
-- The idempotency claim and the worker lock: one holder at a time, and only the holder lets go.
use ticketvault.Prelude.{
  ◌*◌, ◌<◌, ◌≤◌, sym, ap, ℕ, ◌≡◌, ◌≢◌, refl, inl, inr, true, false, none, some, arith,
  if◌then◌else◌, is_some, ok, Option-cases,
}
use ticketvault.Redis.{Redis, Key, same, processing, owner, Worker, worker_lock, expiry, reconciler}
use ticketvault.Scripts.{set_nx, claim_idempotency_key, acquire_lock, release_lock}

same_refl : (k : Key) → same k k ≡ true
same_refl (Key.worker_lock expiry) = refl
same_refl (Key.worker_lock reconciler) = refl
same_refl k = ground arith

module _ (R : Redis) where
  open R use {Store, get, setex, ttl, pass, get-set, get-setex, get-del, get-pass, ttl-setex}

  -- A claim succeeds exactly if the key is free, leaves other keys alone, and a second claim fails
  -- and changes nothing.
  pub claim_once :
      (k j : Key) (ttl_seconds : ℕ) (s : Store)
      → let (r, s') = claim_idempotency_key R k ttl_seconds s in
        (r ≡ ok (if is_some (get s k) then false else true))
        × (get s' j ≡ (
            if is_some (get s k) then get s j else if same k j then some processing else get s j))
        × (claim_idempotency_key R k ttl_seconds s' ≡ (ok false, s'))
  unfolding claim_idempotency_key
  claim_once k j ttl_seconds s = elim (Option-cases (get s k)) [
    | inl free ↦ (
      ground arith,
      ground (arith, get-setex s k ttl_seconds processing j),
      ground (arith, get-setex s k ttl_seconds processing k, same_refl k),
    )
    | inr (v, taken) ↦ (ground arith, ground arith, ground arith)
  ]

  -- While one instance holds the lock of a worker, another cannot get it, nor free it.
  lock_excludes :
      (w : Worker) (me other ttl_seconds : ℕ) (s : Store)
      → me ≢ other
      → get s (worker_lock w) ≡ some (owner me)
      → (acquire_lock R w other ttl_seconds s ≡ (ok false, s))
        × (release_lock R w other s ≡ (ok tt, s))
  unfolding acquire_lock set_nx release_lock
  lock_excludes w me other ttl_seconds s differ held = (ground arith, ground arith)

  -- A lock that is free is got, with its time to live.
  lock_got :
      (w : Worker) (me ttl_seconds : ℕ) (s : Store)
      → get s (worker_lock w) ≡ none
      → let s' = setex (worker_lock w) ttl_seconds (owner me) s in
        (acquire_lock R w me ttl_seconds s ≡ (ok true, s'))
        × (get s' (worker_lock w) ≡ some (owner me))
        × (ttl s' (worker_lock w) ≡ some (1000 * ttl_seconds))
  unfolding acquire_lock set_nx
  lock_got w me ttl_seconds s free =
      let k = worker_lock w in
      (
        ground arith,
        ground (arith, get-setex s k ttl_seconds (owner me) k, same_refl k),
        ground (arith, ttl-setex s k ttl_seconds (owner me) k, same_refl k),
      )

  lock_freed :
      (w : Worker) (me : ℕ) (s : Store)
      → get s (worker_lock w) ≡ some (owner me)
      → get (release_lock R w me s).1 (worker_lock w) ≡ none
  unfolding release_lock
  lock_freed w me s held =
      ground (arith, same_refl (worker_lock w), get-del s (worker_lock w) (worker_lock w))

  -- Whoever gets a lock that is free holds it for its time to live: before that has passed, another
  -- instance can neither get it nor free it, but gets it once the holder has let go of it; when it has
  -- passed, another instance gets the lock though the holder has not let go of it, and then the first
  -- one cannot free it.
  pub lock_cycle :
      (w : Worker) (me other ttl_seconds early late : ℕ) (s : Store)
      → me ≢ other
      → early < 1000 * ttl_seconds
      → 1000 * ttl_seconds ≤ late
      → get s (worker_lock w) ≡ none
      → let (r, s') = acquire_lock R w me ttl_seconds s in
        let held = pass early s' in
        let (r', taken) = acquire_lock R w other ttl_seconds (pass late s') in
        (r ≡ ok true)
        × (acquire_lock R w other ttl_seconds held ≡ (ok false, held))
        × (release_lock R w other held ≡ (ok tt, held))
        × ((acquire_lock R w other ttl_seconds (release_lock R w me held).1).0 ≡ ok true)
        × (r' ≡ ok true)
        × (release_lock R w me taken ≡ (ok tt, taken))
  lock_cycle w me other ttl_seconds early late s differ soon over free =
      let k = worker_lock w in
      let s' = setex k ttl_seconds (owner me) s in
      let (got, mine, lasts) = lock_got w me ttl_seconds s free in
      let held : get (pass early s') k ≡ some (owner me) =
        ground (arith, mine, lasts, get-pass s' early k) in
      let gone : get (pass late s') k ≡ none = ground (arith, lasts, get-pass s' late k) in
      let (refused, kept) = lock_excludes w me other ttl_seconds (pass early s') differ held in
      let freed = lock_freed w me (pass early s') held in
      let (got', theirs, _) = lock_got w other ttl_seconds (pass late s') gone in
      let apart : other ≢ me = λ e. differ (sym e) in
      rw (got, got')
        (
          refl,
          refused,
          kept,
          ap (λ p. p.0)
              (lock_got w other ttl_seconds (release_lock R w me (pass early s')).1 freed).0,
          refl,
          (lock_excludes w other me ttl_seconds (setex k ttl_seconds (owner other) (pass late s'))
              apart theirs).1,
        )
