-- ===== src/Tests/Stores.antt =====
-- The theorems about the scripts, the reconciler, the price and the cache, at the sample.
use ticketvault.Prelude.{List, ◌≡◌, refl, none, some, arith, ok, [], ◌∷◌, true, false}
use ticketvault.Redis.{seat_inventory, worker_lock, expiry, reconciler, number}
use ticketvault.Redis.Sample.{Maps, maps}
use ticketvault.Scripts.{release_and_notify, acquire_lock, release_lock}
use ticketvault.Scripts.Gate.{requests, requests-min}
use ticketvault.Scripts.Fifo.{join_all, served, first_come_first_served}
use ticketvault.Redis.{Waiter}
use ticketvault.Scripts.Queue.{release_to_nobody}
use ticketvault.Scripts.Locks.{lock_cycle}
use ticketvault.Reconciler.{reconcile, is_running}
use ticketvault.Reconciler.Checks.{is_watched}
use ticketvault.Reconciler.Runs.{reconcile_twice, after_pause}
use ticketvault.World.{World}
use ticketvault.Table.{find_where}
use ticketvault.Events.{available_in}
use ticketvault.Pricing.{surged}
use ticketvault.Pricing.Doubles.{nearest, scaled, half_even, times, math_round}
use ticketvault.Tests.Samples.{store, waiting, world}

-- Three requests for one seat.
requests-min_example :
    ((requests maps 7 3 store).0 ≡ 1)
    × (maps.get (requests maps 7 3 store).1 (seat_inventory 7) ≡ some (number 0))
requests-min_example = requests-min maps 7 3 1 store refl

abbrev nobody : Maps
nobody = record store { queues = λ q. [] }

release_to_nobody_at_sample :
    ((release_and_notify maps 7 nobody).0 ≡ ok none)
    × (maps.get (release_and_notify maps 7 nobody).1 (seat_inventory 7) ≡ some (number 2))
release_to_nobody_at_sample = release_to_nobody maps 7 7 nobody refl

lock_cycle_example :
    let (r, s) = acquire_lock maps expiry 1 25 store in
    let held = maps.pass 24999 s in
    let (r', s') = acquire_lock maps expiry 2 25 (maps.pass 30000 s) in
    (r ≡ ok true)
    × (acquire_lock maps expiry 2 25 held ≡ (ok false, held))
    × (release_lock maps expiry 2 held ≡ (ok tt, held))
    × ((acquire_lock maps expiry 2 25 (release_lock maps expiry 1 held).1).0 ≡ ok true)
    × (r' ≡ ok true)
    × (release_lock maps expiry 1 s' ≡ (ok tt, s'))
lock_cycle_example =
    lock_cycle maps expiry 1 2 25 24999 30000 store (omega arith) (omega arith) (omega arith) refl

-- The counter shows 4 where the tables hold one free seat.
abbrev drifted : World Maps
drifted = record world { redis = maps.set (seat_inventory 7) (number 4) world.redis }

reconcile_twice_example :
    let w' =
      (reconcile maps 300700 9 (after_pause maps 300000 (reconcile maps 700 8 drifted).1)).1 in
    (maps.get w'.redis (seat_inventory 7) ≡ some (number (available_in 7 drifted.db)))
    × (w'.db ≡ drifted.db)
    × (maps.get w'.redis (worker_lock reconciler) ≡ none)
unfolding is_watched find_where is_running
reconcile_twice_example =
    reconcile_twice maps 700 300000 8 9 7 4 drifted (omega arith) refl refl refl refl refl

-- The products are those of doubles: 1.3 times 4.35 is below 5.655.
rounded_down : surged 435 13 ≡ 565
unfolding surged nearest scaled half_even times math_round
rounded_down = refl

-- Two users who join behind the one who waits.
abbrev newcomers : List Waiter
newcomers = record { user_id = 8; joined_at = 30 } ∷ record { user_id = 9; joined_at = 40 } ∷ []

first_come_first_served_example :
    served maps 7 3 (join_all maps 7 newcomers store) ≡ waiting ∷ newcomers
first_come_first_served_example =
    first_come_first_served maps 7 newcomers store
      (((refl, refl), ((refl, refl), tt)), (((refl, refl), tt), (tt, tt)))
