-- ===== src/Reconciler/Runs.antt =====
-- The runs of `reconcile` of backend/src/workers/inventoryReconciler.ts, over all running events and
-- under the lock of the worker.
use ticketvault.Prelude.{
  ◌+◌, ◌*◌, ◌<◌, ℕ, ◌≡◌, ◌∙◌, refl, inl, inr, true, false, List, none, some, arith, Option-cases,
}
use ticketvault.Types.{EventRow}
use ticketvault.Table.{select}
use ticketvault.Db.{Db}
use ticketvault.Redis.{
  Redis, Key, same, reconciler, seat_inventory, inventory_mismatch, worker_lock, number, owner,
  Value,
}
use ticketvault.Scripts.{acquire_lock, release_lock, set_nx}
use ticketvault.World.{World, on_redis, catch}
use ticketvault.Events.{available_in}
use ticketvault.ExpiryWorker.{with_lock}
use ticketvault.Reconciler.Checks.{
  FreshlyNoted, all-Unlimited, is_watched, listed_if_watched, all_other, all-Kept, Noted, Kept,
  first_run, second_run,
}
use ticketvault.Reconciler.{
  lock_ttl_seconds, interval_ms, is_running, check_all, counted, reconcile,
}

module _ (R : Redis) where
  open R use {
    Store, get, set, setex, del, ttl, pass, get-set, get-setex, get-del, get-pass, ttl-setex,
    ttl-del,
  }

  abbrev running : ℕ → Db → List EventRow
  running now db = select (is_running now) db.events

  -- The store after a run that got the lock, before it lets go of it, and after.
  abbrev under_lock : (now me : ℕ) → World Store → Store
  under_lock now me w =
      check_all R (counted R (λ e. available_in e w.db) (running now w.db))
        (setex (worker_lock reconciler) lock_ttl_seconds (owner me) w.redis)

  abbrev run_end : (now me : ℕ) → World Store → Store
  run_end now me w = (release_lock R reconciler me (under_lock now me w)).1

  run_lem :
      (now me : ℕ) (w : World Store)
      → get w.redis (worker_lock reconciler) ≡ none
      → (reconcile R now me w).1 ≡ record w { redis = run_end now me w }
  unfolding reconcile with_lock acquire_lock set_nx on_redis catch
  run_lem now me w free = ground arith

  held_lem :
      (now me : ℕ) (w : World Store) (v : Value)
      → get w.redis (worker_lock reconciler) ≡ some v
      → (reconcile R now me w).1 ≡ w
  unfolding reconcile with_lock acquire_lock set_nx on_redis catch
  held_lem now me w v held = ground arith

  -- The lock is free after the run, and the keys of the event are as the checks left them.
  run_frees :
      (now me : ℕ) (w : World Store) → get (run_end now me w) (worker_lock reconciler) ≡ none
  unfolding release_lock
  run_frees now me w =
      let held : get (under_lock now me w) (worker_lock reconciler) ≡ some (owner me) =
        all_other R 0 (λ e. available_in e w.db) (running now w.db) _ (worker_lock reconciler)
          (λ f. refl) (λ f. refl)
        ∙ get-setex w.redis (worker_lock reconciler) lock_ttl_seconds (owner me)
            (worker_lock reconciler) in
      ground (
        arith,
        held,
        get-del (under_lock now me w) (worker_lock reconciler) (worker_lock reconciler),
      )

  run_leaves :
      (now me : ℕ) (w : World Store) (j : Key)
      → same (worker_lock reconciler) j ≡ false
      → get (run_end now me w) j ≡ get (under_lock now me w) j
  unfolding release_lock
  run_leaves now me w j other =
      ground (arith, get-del (under_lock now me w) (worker_lock reconciler) j)

  run_ttl :
      (now me : ℕ) (w : World Store) (j : Key)
      → same (worker_lock reconciler) j ≡ false
      → ttl (run_end now me w) j ≡ ttl (under_lock now me w) j
  unfolding release_lock
  run_ttl now me w j other =
      ground (arith, ttl-del (under_lock now me w) (worker_lock reconciler) j)

  -- What a run finds under the lock is what was there before it.
  lock_leaves :
      (me : ℕ) (w : World Store) (j : Key)
      → same (worker_lock reconciler) j ≡ false
      → get (setex (worker_lock reconciler) lock_ttl_seconds (owner me) w.redis) j ≡ get w.redis j
  lock_leaves me w j other =
      ground (arith, get-setex w.redis (worker_lock reconciler) lock_ttl_seconds (owner me) j)

  -- A run that gets the lock notes a wrong counter of a watched event or repairs it; a run that finds
  -- the note of the same count repairs it.
  run_notes :
      (now me k n : ℕ) (w : World Store)
      → is_watched now k w.db.events ≡ true
      → get w.redis (seat_inventory k) ≡ some (number n)
      → FreshlyNoted R k (λ e. available_in e w.db) n (run_end now me w)
  run_notes now me k n w watched at =
      elim (first_run R k (λ e. available_in e w.db) n (running now w.db) _
        (listed_if_watched now k w.db.events watched)
        (lock_leaves me w (seat_inventory k) refl ∙ at)) [
          | inl right ↦ inl (run_leaves now me w (seat_inventory k) refl ∙ right)
          | inr (left_as_is, noted, lasts) ↦ inr (
            run_leaves now me w (seat_inventory k) refl ∙ left_as_is,
            run_leaves now me w (inventory_mismatch k) refl ∙ noted,
            run_ttl now me w (inventory_mismatch k) refl ∙ lasts,
          )
        ]

  run_repairs :
      (now me k n : ℕ) (w : World Store)
      → is_watched now k w.db.events ≡ true
      → Noted R k (λ e. available_in e w.db) n w.redis
      → get (run_end now me w) (seat_inventory k) ≡ some (number (available_in k w.db))
  run_repairs now me k n w watched noted =
      run_leaves now me w (seat_inventory k) refl
      ∙ second_run R k (λ e. available_in e w.db) n (running now w.db) _
          (listed_if_watched now k w.db.events watched) before
    where
      before :
          Noted R k
            (λ e. available_in e w.db)
            n
            (setex (worker_lock reconciler) lock_ttl_seconds (owner me) w.redis)
      before = elim noted [
        | inl right ↦ inl (lock_leaves me w (seat_inventory k) refl ∙ right)
        | inr (left_as_is, mark) ↦ inr (
          lock_leaves me w (seat_inventory k) refl ∙ left_as_is,
          lock_leaves me w (inventory_mismatch k) refl ∙ mark,
        )
      ]

  run-Unlimited :
      (now me k : ℕ) (w : World Store)
      → ttl w.redis (seat_inventory k) ≡ none
      → ttl (run_end now me w) (seat_inventory k) ≡ none
  run-Unlimited now me k w unlimited =
      run_ttl now me w (seat_inventory k) refl
      ∙ all-Unlimited R k (λ e. available_in e w.db) (running now w.db) _
          (ground (
            arith,
            ttl-setex w.redis (worker_lock reconciler) lock_ttl_seconds (owner me)
                (seat_inventory k),
          ))

  -- A note that is just made outlasts every pause of less than its ten minutes.
  pass-Noted :
      (k n t : ℕ) (count : ℕ → ℕ) (s : Store)
      → ttl s (seat_inventory k) ≡ none
      → t < 2 * interval_ms
      → FreshlyNoted R k count n s
      → Noted R k count n (pass t s)
  pass-Noted k n t count s unlimited soon (inl right) =
      inl (ground (arith, get-pass s t (seat_inventory k)))
  pass-Noted k n t count s unlimited soon (inr (at, noted, lasts)) = inr (
    ground (arith, get-pass s t (seat_inventory k)),
    ground (arith, get-pass s t (inventory_mismatch k)),
  )

  -- The world `t` milliseconds later, if nothing else happens.
  abbrev pub after_pause : ℕ → World Store → World Store
  after_pause t w = record w { redis = pass t w.redis }

  -- Two runs of the reconciler less than ten minutes apart, of which the first finds its lock free and
  -- between which nothing else happens, set the counter of an event that is published and not over at
  -- either, whatever number it showed without a limit of time, to the number of its free seats; and they
  -- change no table and leave the lock free.
  pub reconcile_twice :
      (now t me other k n : ℕ) (w : World Store)
      → t < 2 * interval_ms
      → is_watched now k w.db.events ≡ true
      → is_watched (now + t) k w.db.events ≡ true
      → get w.redis (worker_lock reconciler) ≡ none
      → get w.redis (seat_inventory k) ≡ some (number n)
      → ttl w.redis (seat_inventory k) ≡ none
      → let w' = (reconcile R (now + t) other (after_pause t (reconcile R now me w).1)).1 in
        (get w'.redis (seat_inventory k) ≡ some (number (available_in k w.db)))
        × (w'.db ≡ w.db)
        × (get w'.redis (worker_lock reconciler) ≡ none)
  reconcile_twice now t me other k n w soon first then free at unlimited =
      let between = after_pause t (record w { redis = run_end now me w }) in
      let free_again : get between.redis (worker_lock reconciler) ≡ none =
        ground
          (arith, run_frees now me w, get-pass (run_end now me w) t (worker_lock reconciler)) in
      let noted =
        pass-Noted k n t (λ e. available_in e w.db) (run_end now me w)
          (run-Unlimited now me k w unlimited) soon (run_notes now me k n w first at) in
      rw (run_lem now me w free) (
        rw (run_lem (now + t) other between free_again) (
          run_repairs (now + t) other k n between then noted,
          refl,
          run_frees (now + t) other between,
        ))

  -- A run, whether or not it gets the lock, changes no table, and leaves a counter or repairs it.
  pub reconcile_keeps :
      (now me k n : ℕ) (w : World Store)
      → get w.redis (seat_inventory k) ≡ some (number n)
      → let w' = (reconcile R now me w).1 in
        (w'.db ≡ w.db) × Kept R k (λ e. available_in e w.db) n w'.redis
  reconcile_keeps now me k n w at = elim (Option-cases (get w.redis (worker_lock reconciler))) [
    | inl free ↦ rw (run_lem now me w free) (refl, after_run)
    | inr (v, held) ↦ rw (held_lem now me w v held) (refl, inr at)
  ]
    where
      after_run : Kept R k (λ e. available_in e w.db) n (run_end now me w)
      after_run = rw (run_leaves now me w (seat_inventory k) refl) (
          all-Kept R k (λ e. available_in e w.db) n (running now w.db) _
            (lock_leaves me w (seat_inventory k) refl ∙ at))

  pub reconcile-db : (now me : ℕ) (w : World Store) → (reconcile R now me w).1.db ≡ w.db
  reconcile-db now me w = elim (Option-cases (get w.redis (worker_lock reconciler))) [
    | inl free ↦ rw (run_lem now me w free) refl
    | inr (v, held) ↦ rw (held_lem now me w v held) refl
  ]
