-- ===== src/Reconciler/Checks.antt =====
-- The loop of `reconcile` of backend/src/workers/inventoryReconciler.ts over the running events, as it
-- meets the keys of one event.
use ticketvault.Prelude.{
  none, ◌*◌, ℕ, ◌≡◌, ◌⊎◌, ◌∙◌, refl, inl, inr, true, false, List, [], ◌∷◌, some, arith, ◌==◌, ◌&&◌,
  ◌||◌, is_some, Bool, Bool-cases,
}
use ticketvault.Types.{EventRow}
use ticketvault.Table.{select, find_where}
use ticketvault.Redis.{Redis, Key, same, seat_inventory, inventory_mismatch, number}
use ticketvault.Reconciler.{
  note_ttl_seconds, interval_ms, is_running, check_event, check_all, counted, shows,
}

-- The event is in the table, published and not over.
unfoldable pub is_watched : ℕ → ℕ → List EventRow → Bool
is_watched now k events = is_some (find_where (λ e. e.id == k && is_running now e) events)

abbrev pub is_listed : ℕ → List EventRow → Bool
is_listed k [] = false
is_listed k (e ∷ es) = e.id == k || is_listed k es

id_cases : (a b : ℕ) → (a ≡ b) ⊎ ((a == b) ≡ false)
id_cases a b = elim (Bool-cases (a == b)) [
  | inl same_id ↦ inl (ground arith)
  | inr other ↦ inr other
]

pub listed_if_watched :
    (now k : ℕ) (events : List EventRow)
    → is_watched now k events ≡ true
    → is_listed k (select (is_running now) events) ≡ true
unfolding is_watched find_where select
listed_if_watched now k [] watched = absurd (ground arith)
listed_if_watched now k (e ∷ es) watched =
    let rest = listed_if_watched now k es in ground (arith, rest)

module _ (R : Redis) (k : ℕ) (count : ℕ → ℕ) where
  open R use {
    Store, get, set, setex, del, ttl, get-set, get-setex, ttl-set, ttl-setex, ttl-del, get-del,
  }

  abbrev pub Repaired : Store → Type 0
  Repaired s = get s (seat_inventory k) ≡ some (number (count k))

  abbrev pub Kept : ℕ → Store → Type 0
  Kept n s = Repaired s ⊎ (get s (seat_inventory k) ≡ some (number n))

  -- The mismatch is noted, or gone.
  abbrev pub Noted : ℕ → Store → Type 0
  Noted n s =
      Repaired s
      ⊎ (get s (seat_inventory k) ≡ some (number n))
        × (get s (inventory_mismatch k) ≡ some (number (count k)))

  -- The same, where a note is as young as can be.
  abbrev pub FreshlyNoted : ℕ → Store → Type 0
  FreshlyNoted n s =
      Repaired s
      ⊎ (get s (seat_inventory k) ≡ some (number n))
        × (get s (inventory_mismatch k) ≡ some (number (count k)))
        × (ttl s (inventory_mismatch k) ≡ some (2 * interval_ms))

  -- The counter is kept without a limit of time.
  abbrev pub Unlimited : Store → Type 0
  Unlimited s = ttl s (seat_inventory k) ≡ none

  -- A check concerns the two keys of its event alone.
  check_other :
      (f actual : ℕ) (s : Store) (j : Key)
      → same (seat_inventory f) j ≡ false
      → same (inventory_mismatch f) j ≡ false
      → get (check_event R f actual s) j ≡ get s j
  unfolding check_event
  check_other f actual s j first second = ground (
    arith,
    get-del s (inventory_mismatch f) j,
    get-setex s (inventory_mismatch f) note_ttl_seconds (number actual) j,
    get-set s (seat_inventory f) (number actual) j,
    get-del (set (seat_inventory f) (number actual) s) (inventory_mismatch f) j,
  )

  ttl_other :
      (f actual : ℕ) (s : Store) (j : Key)
      → same (seat_inventory f) j ≡ false
      → same (inventory_mismatch f) j ≡ false
      → ttl (check_event R f actual s) j ≡ ttl s j
  unfolding check_event
  ttl_other f actual s j first second = ground (
    arith,
    ttl-del s (inventory_mismatch f) j,
    ttl-setex s (inventory_mismatch f) note_ttl_seconds (number actual) j,
    ttl-set s (seat_inventory f) (number actual) j,
    ttl-del (set (seat_inventory f) (number actual) s) (inventory_mismatch f) j,
  )

  check-Unlimited : (f actual : ℕ) (s : Store) → Unlimited s → Unlimited (check_event R f actual s)
  unfolding check_event
  check-Unlimited f actual s unlimited = ground (
    arith,
    ttl-del s (inventory_mismatch f) (seat_inventory k),
    ttl-setex s (inventory_mismatch f) note_ttl_seconds (number actual) (seat_inventory k),
    ttl-set s (seat_inventory f) (number actual) (seat_inventory k),
    ttl-del (set (seat_inventory f) (number actual) s) (inventory_mismatch f) (seat_inventory k),
  )

  check_notes :
      (n : ℕ) (s : Store)
      → get s (seat_inventory k) ≡ some (number n)
      → FreshlyNoted n (check_event R k (count k) s)
  unfolding check_event
  check_notes n s at =
      let counter = seat_inventory k in
      let note = inventory_mismatch k in
      let fixed = set counter (number (count k)) s in
      elim (Bool-cases (n == count k)) [
        | inl right ↦ inl (ground (arith, get-del s note counter))
        | inr wrong ↦ elim (Bool-cases (shows (count k) (get s note))) [
          | inl again ↦ inl (
              ground
                (arith, get-set s counter (number (count k)) counter, get-del fixed note counter))
          | inr new ↦ inr (
            ground (arith, get-setex s note note_ttl_seconds (number (count k)) counter),
            ground (arith, get-setex s note note_ttl_seconds (number (count k)) note),
            ground (arith, ttl-setex s note note_ttl_seconds (number (count k)) note),
          )
        ]
      ]

  check_repairs : (n : ℕ) (s : Store) → Noted n s → Repaired (check_event R k (count k) s)
  unfolding check_event
  check_repairs n s (inl right) =
      ground (arith, get-del s (inventory_mismatch k) (seat_inventory k))
  check_repairs n s (inr (at, noted)) =
      let fixed = set (seat_inventory k) (number (count k)) s in
      ground (
        arith,
        get-set s (seat_inventory k) (number (count k)) (seat_inventory k),
        get-del fixed (inventory_mismatch k) (seat_inventory k),
        get-del s (inventory_mismatch k) (seat_inventory k),
      )

  -- The checks of the listed events, one after another.
  abbrev pub checked : List EventRow → Store → Store
  checked es = check_all R (counted R count es)

  pub all_other :
      (es : List EventRow) (s : Store) (j : Key)
      → ((f : ℕ) → same (seat_inventory f) j ≡ false)
      → ((f : ℕ) → same (inventory_mismatch f) j ≡ false)
      → get (checked es s) j ≡ get s j
  unfolding check_all
  all_other [] s j first second = refl
  all_other (e ∷ es) s j first second =
      all_other es (check_event R e.id (count e.id) s) j first second
      ∙ check_other e.id (count e.id) s j (first e.id) (second e.id)

  -- What is known of the event's keys is kept by the checks, and a check of the event is among them.
  pub all-Repaired : (es : List EventRow) (s : Store) → Repaired s → Repaired (checked es s)
  unfolding check_all
  all-Repaired [] s right = right
  all-Repaired (e ∷ es) s right = elim (id_cases e.id k) [
    | inl own ↦ rw own (all-Repaired es _ (check_repairs 0 s (inl right)))
    | inr other ↦
        all-Repaired es _ (check_other e.id (count e.id) s (seat_inventory k) other refl ∙ right)
  ]

  all-FreshlyNoted :
      (n : ℕ) (es : List EventRow) (s : Store) → FreshlyNoted n s → FreshlyNoted n (checked es s)
  unfolding check_all
  all-FreshlyNoted n es s (inl right) = inl (all-Repaired es s right)
  all-FreshlyNoted n [] s (inr noted) = inr noted
  all-FreshlyNoted n (e ∷ es) s (inr (at, noted, lasts)) = elim (id_cases e.id k) [
    | inl own ↦ rw own (inl (all-Repaired es _ (check_repairs n s (inr (at, noted)))))
    | inr other ↦
        let actual = count e.id in
        all-FreshlyNoted n es (check_event R e.id actual s) (
          inr (
            check_other e.id actual s (seat_inventory k) other refl ∙ at,
            check_other e.id actual s (inventory_mismatch k) refl other ∙ noted,
            ttl_other e.id actual s (inventory_mismatch k) refl other ∙ lasts,
          ))
  ]

  pub all-Unlimited : (es : List EventRow) (s : Store) → Unlimited s → Unlimited (checked es s)
  unfolding check_all
  all-Unlimited [] s unlimited = unlimited
  all-Unlimited (e ∷ es) s unlimited =
      all-Unlimited es _ (check-Unlimited e.id (count e.id) s unlimited)

  pub all-Kept :
      (n : ℕ) (es : List EventRow) (s : Store)
      → get s (seat_inventory k) ≡ some (number n)
      → Kept n (checked es s)
  unfolding check_all
  all-Kept n [] s at = inr at
  all-Kept n (e ∷ es) s at = elim (id_cases e.id k) [
    | inl own ↦ elim (check_notes n s at) [
      | inl right ↦ rw own (inl (all-Repaired es _ right))
      | inr (as_is, noted, lasts) ↦ rw own (all-Kept n es _ as_is)
    ]
    | inr other ↦
        all-Kept n es _ (check_other e.id (count e.id) s (seat_inventory k) other refl ∙ at)
  ]

  pub first_run :
      (n : ℕ) (es : List EventRow) (s : Store)
      → is_listed k es ≡ true
      → get s (seat_inventory k) ≡ some (number n)
      → FreshlyNoted n (checked es s)
  unfolding check_all
  first_run n [] s listed at = absurd (ground arith)
  first_run n (e ∷ es) s listed at = elim (id_cases e.id k) [
    | inl own ↦ rw own (all-FreshlyNoted n es _ (check_notes n s at))
    | inr other ↦
        first_run n es _ (ground arith)
          (check_other e.id (count e.id) s (seat_inventory k) other refl ∙ at)
  ]

  pub second_run :
      (n : ℕ) (es : List EventRow) (s : Store)
      → is_listed k es ≡ true
      → Noted n s
      → Repaired (checked es s)
  unfolding check_all
  second_run n es s listed (inl right) = all-Repaired es s right
  second_run n [] s listed (inr noted) = absurd (ground arith)
  second_run n (e ∷ es) s listed (inr (at, noted)) = elim (id_cases e.id k) [
    | inl own ↦ rw own (all-Repaired es _ (check_repairs n s (inr (at, noted))))
    | inr other ↦
        let actual = count e.id in
        second_run n es (check_event R e.id actual s) (ground arith) (
          inr (
            check_other e.id actual s (seat_inventory k) other refl ∙ at,
            check_other e.id actual s (inventory_mismatch k) refl other ∙ noted,
          ))
  ]
