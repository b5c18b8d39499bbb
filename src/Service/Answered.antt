-- ===== src/Service/Answered.antt =====
-- What a request that is answered with a booking has done: the one way through `createBooking` that
-- ends so, and what it leaves in Redis and tells the pages.
use mathlib.Core.Path.{subst}
use ticketvault.Prelude.{
  ℕ, suc, ◌≡◌, ◌≢◌, ap, sym, ◌∙◌, inl, inr, some, none, arith, ok, ◌==◌, Result, if◌then◌else◌,
  List, ◌∷◌,
}
use Prim.Native.String.{String}
use ticketvault.Types.{SeatStatus, CreateBookingRequest, BookingResponse, client}
use ticketvault.Redis.{Redis, seat_inventory, idempotency, reservation, number, processing, Value}
use ticketvault.Scripts.{join_waitlist}
use ticketvault.World.{World, Message, seat_updated, inventory_updated, on_redis}
use ticketvault.Events.{init_redis_inventory}
use ticketvault.Booking.{Env}
use ticketvault.Booking.Creation.{attempt_cases, booked_response}
use ticketvault.Service.{
  processing_ttl_seconds, idempotency_ttl_seconds, Polls, enqueue, initialize, pass_gate, refuse,
  create_booking,
}
use ticketvault.Offers.{Config}
use ticketvault.Service.Paths.{
  booked, book_failed, book_done, book_sent, taken, gate_paths, claimed_paths, create_paths,
}

module _ (R : Redis) (cfg : Config) (env : Env) (user_id : ℕ) (request : CreateBookingRequest)
    (key : ℕ) where
  open R use {Store, get, get-set, get-setex, get-zrem, get-decr}

  -- What the event's counter shows is what the pages are told, with the seat's new status.
  abbrev pub IsAnnounced : List Message → Result BookingResponse × World Store → Type 0
  IsAnnounced before call =
      (remaining price seat_number : ℕ) × (section : String) × (get call.1.redis
          (seat_inventory request.event_id)
        ≡ some (number remaining))
      × (call.1.sent
          ≡ inventory_updated request.event_id remaining price
            ∷ seat_updated request.event_id request.seat_id SeatStatus.reserved seat_number section
            ∷ before)

  -- What is written after the gate leaves the counter of the event alone.
  pub counter_after :
      (n e : ℕ) (w : World Store) (b : BookingResponse)
      → get w.redis (seat_inventory request.event_id) ≡ some (number (suc n))
      → get
          (R.zrem request.event_id user_id (
            R.setex (idempotency user_id key) idempotency_ttl_seconds (Value.answer b) (
              R.setex
                (reservation env.uuid)
                cfg.ttl_seconds
                (Value.hold_of user_id request.seat_id request.event_id)
                (R.decr (seat_inventory request.event_id) w.redis))))
          (seat_inventory e)
        ≡ (if request.event_id == e then some (number n) else get w.redis (seat_inventory e))
  counter_after n e w b at =
      get-zrem _ request.event_id user_id (seat_inventory e)
      ∙ get-setex _ _ _ _ (seat_inventory e)
      ∙ get-setex _ _ _ _ (seat_inventory e)
      ∙ get-decr w.redis (seat_inventory request.event_id) n (seat_inventory e) at

  enqueue_unnamed :
      (amount k : ℕ) (w : World Store) (b : BookingResponse)
      → (enqueue R cfg env user_id request key amount w).0 ≡ ok b
      → b.booking_id ≢ some k
  unfolding enqueue on_redis join_waitlist
  enqueue_unnamed amount k w b answers names = ground arith

  initialize_fails :
      (w : World Store) (b : BookingResponse) → (initialize R cfg user_id request key w).0 ≢ ok b
  unfolding initialize init_redis_inventory
  initialize_fails w b answers = ground arith

  refuse_fails :
      (status : ℕ) (w : World Store) (b : BookingResponse)
      → (refuse R cfg user_id key status w).0 ≢ ok b
  unfolding refuse
  refuse_fails status w b answers = ground arith

  -- An answer that names a booking comes through the gate.
  gate_named :
      (amount k : ℕ) (w : World Store) (b : BookingResponse)
      → (pass_gate R cfg env user_id request key amount w).0 ≡ ok b
      → b.booking_id ≡ some k
      → (n : ℕ) × (get w.redis (seat_inventory request.event_id) ≡ some (number (suc n)))
        × (pass_gate R cfg env user_id request key amount w
            ≡ booked R cfg env user_id request key amount n (taken R cfg env user_id request key w))
  gate_named amount k w b answers names = elim (gate_paths R cfg env user_id request key amount w) [
    | inl (_, missing) ↦ absurd (initialize_fails w b (ap reply (sym missing) ∙ answers))
    | inr (inl (_, sold_out)) ↦
        absurd (enqueue_unnamed amount k w b (ap reply (sym sold_out) ∙ answers) names)
    | inr (inr (inl (n, at, through))) ↦ (n, at, through)
    | inr (inr (inr (v, _, odd, broken))) ↦ absurd (ground arith)
  ]
    where
      reply : Result BookingResponse × World Store → Result BookingResponse
      reply call = call.0

  -- A request under a free key whose answer names a booking has booked at the gate, from a world that
  -- differs from the first by the claim of the key and by the cache of events.
  pub create_named :
      (polls : Polls) (w : World Store) (b : BookingResponse) (k : ℕ)
      → get w.redis (idempotency user_id key) ≡ none
      → (create_booking R cfg env polls user_id request key w).0 ≡ ok b
      → b.booking_id ≡ some k
      → (w' : World Store) × (amount n : ℕ) × (w'.db ≡ w.db)
        × (w'.redis ≡ R.setex (idempotency user_id key) processing_ttl_seconds processing w.redis)
        × (w'.sent ≡ w.sent)
        × (get w'.redis (seat_inventory request.event_id) ≡ some (number (suc n)))
        × (create_booking R cfg env polls user_id request key w
            ≡ booked R cfg env user_id request key amount n
                (taken R cfg env user_id request key w'))
  create_named polls w b k free answers names =
      elim (create_paths R cfg env user_id request key polls w) [
        | inr (v, used, _) ↦ cc
        | inl (_, processed) ↦
            let claimed = record w {
              redis = R.setex (idempotency user_id key) processing_ttl_seconds processing w.redis;
            } in
            let (w', same_db, same_redis, same_sent, path) =
              claimed_paths R cfg env user_id request key claimed in
            let answers' = ap reply (sym processed) ∙ answers in
            elim path [
              | inl (status, refused) ↦
                  absurd (refuse_fails status w' b (ap reply (sym refused) ∙ answers'))
              | inr (amount, passed) ↦
                  let (n, at, through) =
                    gate_named amount k w' b (ap reply (sym passed) ∙ answers') names in
                  (w', amount, n, same_db, same_redis, same_sent, at, processed ∙ passed ∙ through)
            ]
      ]
    where
      reply : Result BookingResponse × World Store → Result BookingResponse
      reply call = call.0

  booked-IsAnnounced :
      (amount n : ℕ) (w : World Store) (b : BookingResponse)
      → get w.redis (seat_inventory request.event_id) ≡ some (number (suc n))
      → let call =
          booked R cfg env user_id request key amount n (taken R cfg env user_id request key w) in
        call.0 ≡ ok b → IsAnnounced w.sent call
  booked-IsAnnounced amount n w b at answers =
      let w0 = taken R cfg env user_id request key w in
      elim (attempt_cases env user_id request (client user_id key) amount cfg.ttl_seconds w.db) [
        | inl (x, failed) ↦
            let failed' = book_failed R cfg env user_id request key amount n w0 x failed in
            absurd (ground (arith, ap (λ (r : Result BookingResponse × World Store). r.0) failed'))
        | inr (s, _, _, _, _, done) ↦
            let (_, _, stored) = book_done R cfg env user_id request key amount n w0 _ _ done in
            let answer =
              booked_response env user_id request (client user_id key) amount cfg.ttl_seconds s in
            (
              n,
              amount,
              s.seat_number,
              s.section,
              ap (λ (st : Store). get st (seat_inventory request.event_id)) stored
                  ∙ counter_after n request.event_id w answer at
                  ∙ ground arith,
              book_sent R cfg env user_id request key amount n w0 s _ done,
            )
      ]

  -- A request under a free key that is answered with a booking sends two messages, the new status of
  -- its seat and then the number that the counter of the event shows from then on.
  pub create_booking-IsAnnounced :
      (polls : Polls) (w : World Store) (b : BookingResponse) (k : ℕ)
      → get w.redis (idempotency user_id key) ≡ none
      → (create_booking R cfg env polls user_id request key w).0 ≡ ok b
      → b.booking_id ≡ some k
      → IsAnnounced w.sent (create_booking R cfg env polls user_id request key w)
  create_booking-IsAnnounced polls w b k free answers names =
      let (w', amount, n, _, _, same_sent, at, same) =
        create_named polls w b k free answers names in
      let told =
        booked-IsAnnounced amount n w' b at
          (ap (λ (r : Result BookingResponse × World Store). r.0) (sym same) ∙ answers) in
      let call =
        booked R cfg env user_id request key amount n (taken R cfg env user_id request key w') in
      rw same (subst (λ (l : List Message). IsAnnounced l call) same_sent told)
