-- ===== src/Service/Transactions/Offers.antt =====
-- The transactions that an offer of a freed seat runs: they book this seat, if they book any.
use mathlib.Core.Path.{subst, sym}
use ticketvault.Prelude.{
  ℕ, zero, suc, ◌≡◌, refl, ap, ◌∙◌, inl, inr, ◌⊎◌, Bool, List, [], ◌∷◌, ◌++◌, none, some, arith,
  Result, Bool-cases, Option-cases, ltb,
}
use ticketvault.Types.{BookingResponse}
use ticketvault.Db.{Db, seat_at}
use ticketvault.Redis.{Redis}
use ticketvault.World.{World}
use ticketvault.Events.Cache.{cached_effect}
use ticketvault.Booking.{Env, FreedSeat}
use ticketvault.Booking.Courses.{Course}
use ticketvault.Offers.{
  Config, release_to_public, offer_to_waiter, offer_loop, offer_round, max_offline_skips,
  nobody_waits, offer_freed_seat, offer_seat_to_next_waiter,
}
use ticketvault.Redis.{Waiter, seat_offers}
use ticketvault.World.{as_number}
use ticketvault.Booking.Creation.{attempt_cases}
use ticketvault.Service.Stock.{offered, offer_key, offer_price, offer_failed, offer_held}
use ticketvault.Service.Settle.{popped, loop_nobody, loop_online, loop_offline}
use ticketvault.Service.Transactions.{Transacts, creates_one, stays_same}

module _ (A : ℕ → ℕ → Type 0) (R : Redis) (cfg : Config) where
  open R use {Store, zrange}

  release-Transacts : (seat : FreedSeat) → Transacts A (release_to_public R cfg seat)
  unfolding release_to_public
  release-Transacts seat w = stays_same (ground arith)

  offer_to_waiter-Transacts :
      (env : Env) (user_id : ℕ) (seat : FreedSeat)
      → A seat.seat_id seat.event_id
      → Transacts A (offer_to_waiter R cfg env user_id seat)
  offer_to_waiter-Transacts env user_id seat fit w =
      let (o, w', read, same_db, same_redis, same_sent) = cached_effect R env.now seat.event_id w in
      let request = offered R cfg 0 env user_id seat w in
      let key = offer_key R cfg 0 env user_id seat w in
      let amount = offer_price R cfg 0 env user_id seat w o in
      let after = (offer_to_waiter R cfg env user_id seat w).1.db in
      elim (attempt_cases env user_id request key amount cfg.offer_ttl_seconds w'.db) [
        | inl (x, failed) ↦
            subst (λ (d : Db). Course A d after) same_db
              (rw (offer_failed R cfg 0 env user_id seat w o w' x read failed)
                (release-Transacts seat w'))
        | inr (s, _, _, _, _, done) ↦
            let (stored, kept) = offer_held R cfg 0 env user_id seat w o w' s _ read done in
            subst (λ (d : Db). Course A d after) same_db
              (creates_one A env user_id request key amount cfg.offer_ttl_seconds w'.db after fit
                (stored ∙ sym (ap (λ (r : Result BookingResponse × Db). r.1) done)))
      ]

  module _ (env : Env) (online : ℕ → Bool) (seat : FreedSeat)
      (fit : A seat.seat_id seat.event_id) where
    after_pop : World Store → World Store
    after_pop w = popped R cfg 0 env online seat w

    loop-Transacts :
        (rounds : ℕ) (skipped : List Waiter) (w : World Store)
        → Course A w.db (offer_loop R cfg env online seat rounds skipped w).0.1.db
    unfolding after_pop
    loop-Transacts zero skipped w = unfold offer_loop in release-Transacts seat w
    loop-Transacts (suc rounds) skipped w =
        go (λ v. loop-Transacts rounds (skipped ++ v ∷ []) (after_pop w))
          (zrange w.redis seat.event_id) refl
      where
        go :
            ((v : Waiter)
              → Course A w.db
                  (offer_loop R cfg env online seat rounds
                    (skipped ++ v ∷ [])
                    (after_pop w)).0.1.db)
            → (vs : List Waiter) → zrange w.redis seat.event_id ≡ vs
            → Course A w.db (offer_loop R cfg env online seat (suc rounds) skipped w).0.1.db
        go later [] empty =
            rw (loop_nobody R cfg 0 env online seat rounds skipped w empty)
              (unfold nobody_waits in Course.here)
        go later (v ∷ vs) some_wait = elim (Bool-cases (online v.user_id)) [
          | inl on ↦
              rw (loop_online R cfg 0 env online seat rounds skipped w v vs some_wait on)
                (offer_to_waiter-Transacts env v.user_id seat fit (after_pop w))
          | inr off ↦
              rw (loop_offline R cfg 0 env online seat rounds skipped w v vs some_wait off)
                (later v)
        ]

    round-Transacts : Transacts A (offer_round R cfg env online seat)
    unfolding offer_round
    round-Transacts w = loop-Transacts max_offline_skips [] w

    -- The offer of a freed seat changes the tables by transactions alone.
    pub offer_freed_seat-Transacts : Transacts A (offer_freed_seat R cfg env online seat)
    offer_freed_seat-Transacts w =
        let counted = record w { redis = R.incr (seat_offers seat.seat_id) w.redis } in
        elim (freed_paths w) [
          | inl public ↦ rw public (release-Transacts seat counted)
          | inr offers ↦ rw offers (round-Transacts counted)
        ]
      where
        freed_paths :
            (w : World Store)
            → let counted = record w { redis = R.incr (seat_offers seat.seat_id) w.redis } in
              (offer_freed_seat R cfg env online seat w ≡ release_to_public R cfg seat counted)
              ⊎ (offer_freed_seat R cfg env online seat w
                  ≡ offer_round R cfg env online seat counted)
        freed_paths w =
            let counted = record w { redis = R.incr (seat_offers seat.seat_id) w.redis } in
            elim (Bool-cases (
              ltb cfg.max_offers
                (elim (as_number (R.get counted.redis (seat_offers seat.seat_id))) [
                  | none ↦ 0
                  | some n ↦ n
                ]))) [
                  | inl many ↦ inl (unfold offer_freed_seat in rw many refl)
                  | inr few ↦ inr (unfold offer_freed_seat in rw few refl)
                ]

  module _ (env : Env) (online : ℕ → Bool) where
    pub next_waiter-Transacts :
        (event_id seat_id : ℕ)
        → A seat_id event_id
        → Transacts A (offer_seat_to_next_waiter R cfg env online event_id seat_id)
    next_waiter-Transacts event_id seat_id fit w = elim (Option-cases (seat_at seat_id w.db)) [
      | inl absent ↦ stays_same (unfold offer_seat_to_next_waiter in ground arith)
      | inr (s, there) ↦
          let seat : FreedSeat = record {
            event_id = event_id;
            seat_id = seat_id;
            seat_number = s.seat_number;
            section = s.section;
          } in
          let offers : offer_seat_to_next_waiter R cfg env online event_id seat_id w
              ≡ offer_freed_seat R cfg env online seat w =
            unfold offer_seat_to_next_waiter in ground arith in
          rw offers (offer_freed_seat-Transacts env online seat fit w)
    ]
