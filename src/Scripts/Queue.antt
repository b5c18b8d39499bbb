-- ===== src/Scripts/Queue.antt =====
-- The waiting queue: one place for each user, which joining again keeps, and the longest-waiting
-- user first.
use ticketvault.Prelude.{
  ℕ, ◌+◌, ◌<◌, ◌≡◌, refl, true, false, List, [], ◌∷◌, ◌++◌, none, some, arith, ◌==◌, if◌then◌else◌,
  length, ok,
}
use ticketvault.Redis.{
  Redis, seat_inventory, Waiter, is_waiting, insert_waiter, add_waiter, incremented,
}
use ticketvault.Scripts.{position_of, release_and_notify, join_waitlist}

-- Everyone in the queue joined before `now`.
abbrev pub AllBefore : ℕ → List Waiter → Type 0
AllBefore now [] = Unit
AllBefore now (w ∷ ws) = (w.joined_at < now) × AllBefore now ws

insert-last :
    (w : Waiter) (ws : List Waiter) → AllBefore w.joined_at ws → insert_waiter w ws ≡ ws ++ w ∷ []
unfolding insert_waiter
insert-last w [] h = refl
insert-last w (v ∷ ws) h = ground (arith, insert-last w ws)

position-last :
    (w : Waiter) (ws : List Waiter)
    → is_waiting w.user_id ws ≡ false
    → position_of w.user_id (ws ++ w ∷ []) ≡ some (length ws + 1)
unfolding position_of
position-last w [] h = ground arith
position-last w (v ∷ ws) h = ground (arith, position-last w ws)

module _ (R : Redis) where
  open R use {
    Store, get, zrange, zrange-zadd_nx, zrange-zpopmin, get-zpopmin, get-incr, zrange-incr,
  }

  -- Joining again changes no queue, and answers with the place that the user has.
  pub join_again :
      (event_id now user_id q : ℕ) (s : Store)
      → is_waiting user_id (zrange s event_id) ≡ true
      → (zrange (join_waitlist R event_id now user_id s).1 q ≡ zrange s q)
        × ((join_waitlist R event_id now user_id s).0
            ≡ ok (position_of user_id (zrange s event_id)))
  unfolding join_waitlist add_waiter
  join_again event_id now user_id q s h = (
    ground (arith, zrange-zadd_nx s event_id (record { user_id = user_id; joined_at = now }) q),
    ground
        (arith, zrange-zadd_nx s event_id (record { user_id = user_id; joined_at = now }) event_id),
  )

  -- A user who joins after everyone else is put last, and told the last place.
  pub join_last :
      (event_id now user_id : ℕ) (s : Store)
      → is_waiting user_id (zrange s event_id) ≡ false
      → AllBefore now (zrange s event_id)
      → let w : Waiter = record { user_id = user_id; joined_at = now } in
        (zrange (join_waitlist R event_id now user_id s).1 event_id ≡ zrange s event_id ++ w ∷ [])
        × ((join_waitlist R event_id now user_id s).0 ≡ ok (some (length (zrange s event_id) + 1)))
  unfolding join_waitlist add_waiter
  join_last event_id now user_id s new before =
      let w : Waiter = record { user_id = user_id; joined_at = now } in
      (
        ground (arith, zrange-zadd_nx s event_id w event_id, insert-last w (zrange s event_id)),
        ground (
          arith,
          zrange-zadd_nx s event_id w event_id,
          insert-last w (zrange s event_id),
          position-last w (zrange s event_id),
        ),
      )

  -- A release to a queue takes its first user out of it and leaves every counter alone.
  pub release_serves_first :
      (event_id e : ℕ) (s : Store) (w : Waiter) (ws : List Waiter)
      → zrange s event_id ≡ w ∷ ws
      → ((release_and_notify R event_id s).0 ≡ ok (some w))
        × (zrange (release_and_notify R event_id s).1 event_id ≡ ws)
        × (get (release_and_notify R event_id s).1 (seat_inventory e) ≡ get s (seat_inventory e))
  unfolding release_and_notify
  release_serves_first event_id e s w ws h = (
    ground arith,
    ground (arith, zrange-zpopmin s event_id event_id),
    ground (arith, get-zpopmin s event_id (seat_inventory e)),
  )

  -- With nobody waiting it raises the counter of its event, and no other.
  pub release_to_nobody :
      (event_id e : ℕ) (s : Store)
      → zrange s event_id ≡ []
      → ((release_and_notify R event_id s).0 ≡ ok none)
        × (get (release_and_notify R event_id s).1 (seat_inventory e) ≡ (
            if event_id == e
            then incremented (get s (seat_inventory event_id))
            else get s (seat_inventory e)))
  unfolding release_and_notify
  release_to_nobody event_id e s h =
      (ground arith, ground (arith, get-incr s (seat_inventory event_id) (seat_inventory e)))
