-- ===== src/Service/Fairness.antt =====
-- Who is served when a seat is freed: the longest-waiting user who is on the page. The others keep
-- their places.
use ticketvault.Prelude.{
  ℕ, zero, suc, ◌≡◌, refl, ap, ◌∙◌, sym, inl, inr, Bool, List, [], ◌∷◌, ◌++◌, arith, if◌then◌else◌,
  Bool-cases,
}
use mathlib.Core.List.{append_assoc, append-nil}
use ticketvault.Redis.{Redis, Waiter, seat_inventory, seat_offers}
use ticketvault.Redis.Ordered.{BeforeAll, Ordered, Ordered-append_assoc, add_between}
use ticketvault.World.{World}
use ticketvault.Events.Cache.{cached_effect}
use ticketvault.Booking.{Env, FreedSeat}
use ticketvault.Booking.Creation.{attempt_cases}
use ticketvault.Offers.{
  Config, release_to_public, nobody_waits, offer_to_waiter, offer_loop, requeue, offer_round,
  max_offline_skips,
}
use ticketvault.Service.Stock.{
  release_effect, offer_failed, offer_held, offered, offer_key, offer_price,
}
use ticketvault.Service.Settle.{loop_nobody, loop_online, loop_offline, popped}

-- The first users of a queue who are away, up to `rounds` of them, and the queue behind the first
-- user who is not.
abbrev pub away : (ℕ → Bool) → ℕ → List Waiter → List Waiter
away online zero ws = []
away online (suc n) [] = []
away online (suc n) (w ∷ ws) = if online w.user_id then [] else w ∷ away online n ws

abbrev pub behind : (ℕ → Bool) → ℕ → List Waiter → List Waiter
behind online zero ws = ws
behind online (suc n) [] = []
behind online (suc n) (w ∷ ws) = if online w.user_id then ws else behind online n ws

BeforeAll-left :
    (online : ℕ → Bool) (n : ℕ) (v : Waiter) (ws : List Waiter)
    → BeforeAll v ws
    → BeforeAll v (away online n ws ++ behind online n ws)
BeforeAll-left online zero v ws h = h
BeforeAll-left online (suc n) v [] h = h
BeforeAll-left online (suc n) v (w ∷ ws) h = elim (Bool-cases (online w.user_id)) [
  | inl on ↦ rw on h.1
  | inr off ↦ rw off (h.0, BeforeAll-left online n v ws h.1)
]

Ordered-left :
    (online : ℕ → Bool) (n : ℕ) (ws : List Waiter)
    → Ordered ws
    → Ordered (away online n ws ++ behind online n ws)
Ordered-left online zero ws h = h
Ordered-left online (suc n) [] h = h
Ordered-left online (suc n) (w ∷ ws) h = elim (Bool-cases (online w.user_id)) [
  | inl on ↦ rw on h.1
  | inr off ↦ rw off (BeforeAll-left online n w ws h.0, Ordered-left online n ws h.1)
]

module _ (R : Redis) (cfg : Config) (env : Env) (online : ℕ → Bool) (seat : FreedSeat) where
  open R use {Store, zrange, zrange-setex, zrange-del, zrange-incr, zrange-zpopmin, zrange-zadd_nx}

  abbrev queue : World Store → List Waiter
  queue w = zrange w.redis seat.event_id

  queue-release : (w : World Store) → queue (release_to_public R cfg seat w).1 ≡ queue w
  queue-release w =
      ap (λ (s : Store). zrange s seat.event_id) (release_effect R cfg 0 seat w).1
      ∙ (zrange-incr _ (seat_inventory seat.event_id) seat.event_id
          ∙ zrange-del w.redis (seat_offers seat.seat_id) seat.event_id)

  queue-offer :
      (user_id : ℕ) (w : World Store) → queue (offer_to_waiter R cfg env user_id seat w).1 ≡ queue w
  queue-offer user_id w =
      let (o, w', read, same_db, same_redis, same_sent) = cached_effect R env.now seat.event_id w in
      elim (attempt_cases env user_id (offered R cfg 0 env user_id seat w)
        (offer_key R cfg 0 env user_id seat w) (offer_price R cfg 0 env user_id seat w o)
        cfg.offer_ttl_seconds w'.db) [
          | inl (x, failed) ↦
              rw (offer_failed R cfg 0 env user_id seat w o w' x read failed)
                (queue-release w' ∙ ap (λ (s : Store). zrange s seat.event_id) same_redis)
          | inr (x, found, free, fresh, unheld, done) ↦
              ap (λ (s : Store). zrange s seat.event_id)
                (offer_held R cfg 0 env user_id seat w o w' x _ read done).1
              ∙ (zrange-setex w'.redis _ _ _ seat.event_id
                  ∙ ap (λ (s : Store). zrange s seat.event_id) same_redis)
        ]

  queue-nobody :
      (w : World Store)
      → queue
          (nobody_waits R cfg seat
            (record w { redis = R.incr (seat_inventory seat.event_id) w.redis })).1
        ≡ queue w
  unfolding nobody_waits
  queue-nobody w =
      zrange-del _ (seat_offers seat.seat_id) seat.event_id
      ∙ zrange-incr w.redis (seat_inventory seat.event_id) seat.event_id

  -- What the loop leaves in the queue, and whom it has skipped.
  offer_loop-queue :
      (rounds : ℕ) (skipped : List Waiter) (w : World Store) (ws : List Waiter)
      → queue w ≡ ws
      → let r = offer_loop R cfg env online seat rounds skipped w in
        (queue r.0.1 ≡ behind online rounds ws) × (r.1 ≡ skipped ++ away online rounds ws)
  offer_loop-queue zero skipped w ws h =
      unfold offer_loop in (queue-release w ∙ h, sym (append-nil skipped))
  offer_loop-queue (suc n) skipped w [] h =
      rw (loop_nobody R cfg 0 env online seat n skipped w h)
        (queue-nobody w ∙ h, sym (append-nil skipped))
  offer_loop-queue (suc n) skipped w (v ∷ vs) h =
      let after_pop : queue (popped R cfg 0 env online seat w) ≡ vs =
        ground (arith, zrange-zpopmin w.redis seat.event_id seat.event_id) in
      elim (Bool-cases (online v.user_id)) [
        | inl on ↦
            rw (loop_online R cfg 0 env online seat n skipped w v vs h on, on)
              (
                queue-offer v.user_id (popped R cfg 0 env online seat w) ∙ after_pop,
                sym (append-nil skipped),
              )
        | inr off ↦
            let (left, passed) =
              offer_loop-queue n (skipped ++ v ∷ []) (popped R cfg 0 env online seat w) vs
                after_pop in
            rw (loop_offline R cfg 0 env online seat n skipped w v vs h off, off)
              (left, passed ∙ append_assoc skipped (v ∷ []) (away online n vs))
      ]

  requeue-queue :
      (pre vs rest : List Waiter) (s : Store)
      → zrange s seat.event_id ≡ pre ++ rest
      → Ordered (pre ++ (vs ++ rest))
      → zrange (requeue R cfg seat.event_id vs s) seat.event_id ≡ pre ++ (vs ++ rest)
  unfolding requeue
  requeue-queue pre [] rest s h o = h
  requeue-queue pre (v ∷ vs) rest s h o =
      let s' = R.zadd_nx seat.event_id v s in
      let added : zrange s' seat.event_id ≡ (pre ++ v ∷ []) ++ rest =
        ground
          (arith, zrange-zadd_nx s seat.event_id v seat.event_id, add_between v pre vs rest o) in
      requeue-queue (pre ++ v ∷ []) vs rest s' added (Ordered-append_assoc v pre (vs ++ rest) o)
      ∙ append_assoc pre (v ∷ []) (vs ++ rest)

  -- On a queue in its order a round of offers takes out the first user who is on the page, if fewer
  -- than 20 who are away stand before that user, and leaves everyone else in place.
  pub offer_round-queue :
      (w : World Store)
      → Ordered (queue w)
      → zrange (offer_round R cfg env online seat w).1.redis seat.event_id
        ≡ away online max_offline_skips (zrange w.redis seat.event_id)
          ++ behind online max_offline_skips (zrange w.redis seat.event_id)
  unfolding offer_round
  offer_round-queue w o =
      let (left, passed) = offer_loop-queue max_offline_skips [] w (queue w) refl in
      rw passed (
        requeue-queue [] (away online max_offline_skips (queue w))
          (behind online max_offline_skips (queue w)) _ left
          (Ordered-left online max_offline_skips (queue w) o))
