-- ===== src/Scripts/Fifo.antt =====
-- The waiting queue over many calls: who joins first is served first.
use mathlib.Core.List.{append_assoc, append-nil}
use ticketvault.Prelude.{
  ℕ, zero, suc, ◌≡◌, refl, ap, sym, ◌∙◌, List, [], ◌∷◌, ◌++◌, none, some, length, arith, ok, err,
}
use ticketvault.Redis.{Redis, Waiter, add_waiter}
use ticketvault.Redis.Ordered.{Ordered, add_between, Ordered-append_assoc}
use ticketvault.Scripts.{release_and_notify, join_waitlist}

-- A member that stands after all others is added last.
add_last :
    (w : Waiter) (q ws : List Waiter) → Ordered (q ++ (w ∷ ws)) → add_waiter w q ≡ q ++ w ∷ []
add_last w q ws h =
    sym (ap (add_waiter w) (append-nil q))
    ∙ add_between w q ws [] (rw (append-nil ws) h)
    ∙ append-nil (q ++ w ∷ [])

module _ (R : Redis) (event_id : ℕ) where
  open R use {Store, zrange, zrange-zadd_nx, zrange-zpopmin}

  -- The users join one after another.
  pub join_all : List Waiter → Store → Store
  join_all [] s = s
  join_all (w ∷ ws) s = join_all ws (join_waitlist R event_id w.joined_at w.user_id s).1

  -- The users whom so many releases serve, up to the first that finds nobody.
  pub served : ℕ → Store → List Waiter
  served zero s = []
  served (suc k) s =
      let (r, s') = release_and_notify R event_id s in
      elim r [ err e ↦ [] | ok none ↦ [] | ok (some w) ↦ w ∷ served k s' ]

  zrange-join_all :
      (ws : List Waiter) (s : Store)
      → Ordered (zrange s event_id ++ ws)
      → zrange (join_all ws s) event_id ≡ zrange s event_id ++ ws
  unfolding join_all join_waitlist
  zrange-join_all [] s h = sym (append-nil (zrange s event_id))
  zrange-join_all (w ∷ ws) s h =
      let q = zrange s event_id in
      let s' = (join_waitlist R event_id w.joined_at w.user_id s).1 in
      let joined : zrange (join_waitlist R event_id w.joined_at w.user_id s).1 event_id
          ≡ zrange s event_id ++ w ∷ [] =
        ground (arith, zrange-zadd_nx s event_id w event_id, add_last w q ws h) in
      zrange-join_all ws s' (rw joined (Ordered-append_assoc w q ws h))
      ∙ ap (λ (l : List Waiter). l ++ ws) joined
      ∙ append_assoc q (w ∷ []) ws

  served-zrange : (l : List Waiter) (s : Store) → zrange s event_id ≡ l → served (length l) s ≡ l
  unfolding served release_and_notify
  served-zrange [] s h = refl
  served-zrange (w ∷ l) s h =
      ground (arith, zrange-zpopmin s event_id event_id, served-zrange l (R.zpopmin event_id s))

  -- If users join one after another, none of them waiting yet and each later than those before, as
  -- many releases as then wait serve those who waited before and then these, in this order.
  pub first_come_first_served :
      (ws : List Waiter) (s : Store)
      → Ordered (zrange s event_id ++ ws)
      → served (length (zrange s event_id ++ ws)) (join_all ws s) ≡ zrange s event_id ++ ws
  first_come_first_served ws s h =
      served-zrange (zrange s event_id ++ ws) (join_all ws s) (zrange-join_all ws s h)
