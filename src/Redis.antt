-- ===== src/Redis.antt =====
-- Redis as the program relies on it: a store that is a parameter of every definition that talks to
-- it, with the documented effect of each command as a law. The keys are those of `KEYS` in
-- backend/src/redis/client.ts. What is set for a time has a time to live, and `pass` lets time go by; the
-- time to live of the count of offers, which is renewed by each offer, is not kept.
pub mod Ordered
pub mod Sample
pub mod Names
use ticketvault.Prelude.{
  ℕ, suc, ◌+◌, ◌≡◌, Bool, true, false, List, [], ◌∷◌, Option, none, some, ◌&&◌, ◌||◌, not, ◌==◌,
  ltb, leb, ◌*◌, if◌then◌else◌,
}
use ticketvault.Types.{BookingResponse}

pub data Worker : Type 0 where
  expiry reconciler : Worker

-- The keys that hold a text or a number. A waiting queue is named by its event alone, and holds a
-- sorted set.
pub data Key : Type 0 where
  seat_inventory seat_offers reservation inventory_mismatch : ℕ → Key
  idempotency : ℕ → ℕ → Key
  worker_lock : Worker → Key

abbrev pub same : Key → Key → Bool
same (seat_inventory a) (seat_inventory b) = a == b
same (seat_offers a) (seat_offers b) = a == b
same (reservation a) (reservation b) = a == b
same (inventory_mismatch a) (inventory_mismatch b) = a == b
same (idempotency u a) (idempotency v b) = u == v && a == b
same (worker_lock expiry) (worker_lock expiry) = true
same (worker_lock reconciler) (worker_lock reconciler) = true
same _ _ = false

-- The texts that the program stores, by what they stand for.
pub data Value : Type 0 where
  number : ℕ → Value
  processing : Value
  answer : BookingResponse → Value
  hold_of : ℕ → ℕ → ℕ → Value
  owner : ℕ → Value

-- A member of a waiting queue with its score.
pub record Waiter : Type 0 where
  pub user_id : ℕ
  pub joined_at : ℕ

-- Whether a key is gone once `t` milliseconds have passed, by its time to live.
abbrev pub is_expired : ℕ → Option ℕ → Bool
is_expired t none = false
is_expired t (some time_left) = leb time_left t

abbrev pub incremented : Option Value → Option Value
incremented none = some (number 1)
incremented (some (number n)) = some (number (suc n))
incremented (some v) = some v

abbrev pub is_waiting : ℕ → List Waiter → Bool
is_waiting u [] = false
is_waiting u (w ∷ ws) = w.user_id == u || is_waiting u ws

-- A sorted set is ordered by score, and by member among equal scores.
abbrev pub precedes : Waiter → Waiter → Bool
precedes v w =
    ltb v.joined_at w.joined_at || (v.joined_at == w.joined_at && ltb v.user_id w.user_id)

unfoldable pub insert_waiter : Waiter → List Waiter → List Waiter
insert_waiter v [] = v ∷ []
insert_waiter v (w ∷ ws) = if precedes v w then v ∷ w ∷ ws else w ∷ insert_waiter v ws

-- `ZADD NX`
unfoldable pub add_waiter : Waiter → List Waiter → List Waiter
unfolding insert_waiter
add_waiter v ws = if is_waiting v.user_id ws then ws else insert_waiter v ws

unfoldable pub remove_waiter : ℕ → List Waiter → List Waiter
remove_waiter u [] = []
remove_waiter u (w ∷ ws) = if w.user_id == u then remove_waiter u ws else w ∷ remove_waiter u ws

abbrev pub rest_of : List Waiter → List Waiter
rest_of [] = []
rest_of (w ∷ ws) = ws

pub record Redis : Type 1 where
  pub Store : Type 0
  pub get : Store → Key → Option Value
  pub zrange : Store → ℕ → List Waiter
  pub set : Key → Value → Store → Store
  -- `SETEX`, with the time to live in seconds
  pub setex : Key → ℕ → Value → Store → Store
  -- `PTTL`: the milliseconds that a key has left, if they are limited
  pub ttl : Store → Key → Option ℕ
  pub pass : ℕ → Store → Store
  pub del : Key → Store → Store
  pub incr : Key → Store → Store
  pub decr : Key → Store → Store
  pub zadd_nx : ℕ → Waiter → Store → Store
  pub zrem : ℕ → ℕ → Store → Store
  pub zpopmin : ℕ → Store → Store
  pub get-set :
      (s : Store) (k : Key) (v : Value) (j : Key)
      → get (set k v s) j ≡ (if same k j then some v else get s j)
  pub get-setex :
      (s : Store) (k : Key) (t : ℕ) (v : Value) (j : Key)
      → get (setex k t v s) j ≡ (if same k j then some v else get s j)
  pub get-pass :
      (s : Store) (t : ℕ) (j : Key)
      → get (pass t s) j ≡ (if is_expired t (ttl s j) then none else get s j)
  pub ttl-set :
      (s : Store) (k : Key) (v : Value) (j : Key)
      → ttl (set k v s) j ≡ (if same k j then none else ttl s j)
  pub ttl-setex :
      (s : Store) (k : Key) (t : ℕ) (v : Value) (j : Key)
      → ttl (setex k t v s) j ≡ (if same k j then some (1000 * t) else ttl s j)
  pub ttl-zrem : (s : Store) (q u : ℕ) (j : Key) → ttl (zrem q u s) j ≡ ttl s j
  pub ttl-del : (s : Store) (k j : Key) → ttl (del k s) j ≡ (if same k j then none else ttl s j)
  pub get-del : (s : Store) (k j : Key) → get (del k s) j ≡ (if same k j then none else get s j)
  pub get-incr :
      (s : Store) (k j : Key)
      → get (incr k s) j ≡ (if same k j then incremented (get s k) else get s j)
  -- only for a number above 0: what is stored is never negative
  pub get-decr :
      (s : Store) (k : Key) (n : ℕ) (j : Key)
      → get s k ≡ some (number (suc n))
      → get (decr k s) j ≡ (if same k j then some (number n) else get s j)
  pub get-zadd_nx : (s : Store) (q : ℕ) (w : Waiter) (j : Key) → get (zadd_nx q w s) j ≡ get s j
  pub get-zrem : (s : Store) (q u : ℕ) (j : Key) → get (zrem q u s) j ≡ get s j
  pub get-zpopmin : (s : Store) (q : ℕ) (j : Key) → get (zpopmin q s) j ≡ get s j
  pub zrange-set : (s : Store) (k : Key) (v : Value) (q : ℕ) → zrange (set k v s) q ≡ zrange s q
  pub zrange-setex :
      (s : Store) (k : Key) (t : ℕ) (v : Value) (q : ℕ) → zrange (setex k t v s) q ≡ zrange s q
  pub zrange-pass : (s : Store) (t q : ℕ) → zrange (pass t s) q ≡ zrange s q
  pub zrange-del : (s : Store) (k : Key) (q : ℕ) → zrange (del k s) q ≡ zrange s q
  pub zrange-incr : (s : Store) (k : Key) (q : ℕ) → zrange (incr k s) q ≡ zrange s q
  pub zrange-decr : (s : Store) (k : Key) (q : ℕ) → zrange (decr k s) q ≡ zrange s q
  pub zrange-zadd_nx :
      (s : Store) (p : ℕ) (w : Waiter) (q : ℕ)
      → zrange (zadd_nx p w s) q ≡ (if p == q then add_waiter w (zrange s q) else zrange s q)
  pub zrange-zrem :
      (s : Store) (p u q : ℕ)
      → zrange (zrem p u s) q ≡ (if p == q then remove_waiter u (zrange s q) else zrange s q)
  pub zrange-zpopmin :
      (s : Store) (p q : ℕ)
      → zrange (zpopmin p s) q ≡ (if p == q then rest_of (zrange s q) else zrange s q)
