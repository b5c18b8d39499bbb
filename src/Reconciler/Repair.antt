-- ===== src/Reconciler/Repair.antt =====
-- What the reconciler does to a counter: a mismatch has to be seen twice before it is repaired.
use ticketvault.Prelude.{ℕ, ◌≡◌, ◌≢◌, ◌⊎◌, ap, none, some, arith}
use ticketvault.Redis.{Redis, seat_inventory, inventory_mismatch, number}
use ticketvault.Reconciler.{check_event, note_ttl_seconds}

module _ (R : Redis) where
  open R use {Store, get, set, setex, del, get-set, get-setex, get-del}

  first_check :
      (event_id actual shown : ℕ) (s : Store)
      → get s (seat_inventory event_id) ≡ some (number shown)
      → shown ≢ actual
      → get s (inventory_mismatch event_id) ≢ some (number actual)
      → check_event R event_id actual s
        ≡ setex (inventory_mismatch event_id) note_ttl_seconds (number actual) s
  unfolding check_event
  first_check event_id actual shown s counter differ new = ground arith

  second_check :
      (event_id actual shown : ℕ) (s : Store)
      → get s (seat_inventory event_id) ≡ some (number shown)
      → shown ≢ actual
      → get s (inventory_mismatch event_id) ≡ some (number actual)
      → check_event R event_id actual s
        ≡ del (inventory_mismatch event_id) (set (seat_inventory event_id) (number actual) s)
  unfolding check_event
  second_check event_id actual shown s counter differ noted = ground arith

  -- The first run that sees a mismatch notes it and leaves the counter; a second one that sees the
  -- same count in the tables sets the counter to it and forgets the note.
  check_event_twice :
      (event_id actual shown : ℕ) (s : Store)
      → get s (seat_inventory event_id) ≡ some (number shown)
      → shown ≢ actual
      → get s (inventory_mismatch event_id) ≢ some (number actual)
      → let t = check_event R event_id actual s in
        let u = check_event R event_id actual t in
        (get t (seat_inventory event_id) ≡ some (number shown))
        × (get t (inventory_mismatch event_id) ≡ some (number actual))
        × (get u (seat_inventory event_id) ≡ some (number actual))
        × (get u (inventory_mismatch event_id) ≡ none)
  check_event_twice event_id actual shown s counter differ new =
      let mark = setex (inventory_mismatch event_id) note_ttl_seconds (number actual) s in
      let kept : get mark (seat_inventory event_id) ≡ some (number shown) = ground (
        arith,
        get-setex s (inventory_mismatch event_id) note_ttl_seconds (number actual)
            (seat_inventory event_id),
      ) in
      let noted : get mark (inventory_mismatch event_id) ≡ some (number actual) = ground (
        arith,
        get-setex s (inventory_mismatch event_id) note_ttl_seconds (number actual)
            (inventory_mismatch event_id),
      ) in
      let fixed = set (seat_inventory event_id) (number actual) mark in
      rw (first_check event_id actual shown s counter differ new) (
        rw (second_check event_id actual shown mark kept differ noted) (
          kept,
          noted,
          ground (
            arith,
            get-del fixed (inventory_mismatch event_id) (seat_inventory event_id),
            get-set mark (seat_inventory event_id) (number actual) (seat_inventory event_id),
          ),
          ground (arith, get-del fixed (inventory_mismatch event_id) (inventory_mismatch event_id)),
        ))

  -- A counter that agrees with the tables, or that is not there, is left alone, and so is every
  -- counter of another event.
  check_event_leaves :
      (event_id e actual : ℕ) (s : Store)
      → ((get s (seat_inventory event_id) ≡ some (number actual))
          ⊎ (get s (seat_inventory event_id) ≡ none))
        ⊎ (event_id ≢ e)
      → get (check_event R event_id actual s) (seat_inventory e) ≡ get s (seat_inventory e)
  unfolding check_event
  check_event_leaves event_id e actual s h = ground (
    arith,
    get-del s (inventory_mismatch event_id) (seat_inventory e),
    get-setex s (inventory_mismatch event_id) note_ttl_seconds (number actual) (seat_inventory e),
    get-set s (seat_inventory event_id) (number actual) (seat_inventory e),
    get-del (set (seat_inventory event_id) (number actual) s) (inventory_mismatch event_id)
        (seat_inventory e),
    ap (λ (i : ℕ). get s (seat_inventory i)) {x = event_id} {y = e},
  )
