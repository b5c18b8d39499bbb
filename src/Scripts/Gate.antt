-- ===== src/Scripts/Gate.antt =====
-- The inventory gate: of any number of requests on a counter, exactly as many pass as it held.
use ticketvault.Prelude.{ℕ, zero, suc, ◌+◌, ◌-◌, ◌≡◌, some, arith, Result, ok}
use ticketvault.Redis.{Redis, seat_inventory, number}
use ticketvault.Scripts.{Remaining, left, atomic_decrement}
use Prim.Native.Nat.{min}

abbrev pub passes : Result Remaining → ℕ
passes (ok (left n)) = 1
passes _ = 0

module _ (R : Redis) where
  open R use {Store, get, get-decr}

  -- The requests of `n` clients, one script after another, and how many of them pass.
  unfoldable pub requests : ℕ → ℕ → Store → ℕ × Store
  requests event_id zero s = (0, s)
  requests event_id (suc n) s =
      let (r, s') = atomic_decrement R event_id s in
      let (passed, last) = requests event_id n s' in (passes r + passed, last)

  -- Of `n` requests on a counter at `stock`, `min n stock` pass, and the counter ends at
  -- `stock - n`, or at 0 if that is negative.
  pub requests-min :
      (event_id n stock : ℕ) (s : Store)
      → get s (seat_inventory event_id) ≡ some (number stock)
      → ((requests event_id n s).0 ≡ min n stock)
        × (get (requests event_id n s).1 (seat_inventory event_id) ≡ some (number (stock - n)))
  unfolding requests atomic_decrement
  requests-min event_id zero stock s h = (omega arith, ground arith)
  requests-min event_id (suc n) zero s h =
      let (passed, rest) = requests-min event_id n zero s h in (ground arith, ground arith)
  requests-min event_id (suc n) (suc k) s h =
      let (passed, rest) =
        requests-min event_id n k (R.decr (seat_inventory event_id) s) (
          rw (get-decr s (seat_inventory event_id) k (seat_inventory event_id) h) (ground arith)) in
      (ground arith, ground arith)
