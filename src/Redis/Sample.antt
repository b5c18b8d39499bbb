-- ===== src/Redis/Sample.antt =====
-- A store that meets the laws: a function from keys to values and one from events to queues.
use ticketvault.Prelude.{ℕ, suc, ◌≡◌, ◌*◌, refl, List, Option, none, some, ◌==◌, if◌then◌else◌}
use ticketvault.Redis.{
  Redis, Key, same, is_expired, Value, number, incremented, Waiter, add_waiter, remove_waiter,
  rest_of,
}

pub record Maps : Type 0 where
  pub values : Key → Option Value
  pub queues : ℕ → List Waiter
  pub ttls : Key → Option ℕ

abbrev pub decremented : Option Value → Option Value
decremented (some (number (suc n))) = some (number n)
decremented v = v

abbrev pub at : Key → (Option Value → Option Value) → Maps → Maps
at k f m = record m { values = λ j. if same k j then f (m.values k) else m.values j }

-- A key with a new time to live.
abbrev pub lasting : Key → Option ℕ → Maps → Maps
lasting k t m = record m { ttls = λ j. if same k j then t else m.ttls j }

abbrev pub queue_at : ℕ → (List Waiter → List Waiter) → Maps → Maps
queue_at q f m = record m { queues = λ p. if q == p then f (m.queues p) else m.queues p }

pub get-decr_lem :
    (m : Maps) (k : Key) (n : ℕ) (j : Key)
    → m.values k ≡ some (number (suc n))
    → (at k decremented m).values j ≡ (if same k j then some (number n) else m.values j)
get-decr_lem m k n j h = rw h refl

abbrev pub maps : Redis
maps = record {
  Store = Maps;
  get = λ m k. m.values k;
  zrange = λ m q. m.queues q;
  set = λ k v m. lasting k none (at k (λ _. some v) m);
  setex = λ k t v m. lasting k (some (1000 * t)) (at k (λ _. some v) m);
  ttl = λ m k. m.ttls k;
  pass = λ t m. record m { values = λ j. if is_expired t (m.ttls j) then none else m.values j };
  del = λ k m. lasting k none (at k (λ _. none) m);
  incr = λ k. at k incremented;
  decr = λ k. at k decremented;
  zadd_nx = λ q w. queue_at q (add_waiter w);
  zrem = λ q u. queue_at q (remove_waiter u);
  zpopmin = λ q. queue_at q rest_of;
  get-set = λ s k v j. refl;
  get-setex = λ s k t v j. refl;
  get-pass = λ s t j. refl;
  ttl-set = λ s k v j. refl;
  ttl-setex = λ s k t v j. refl;
  ttl-zrem = λ s q u j. refl;
  ttl-del = λ s k j. refl;
  get-del = λ s k j. refl;
  get-incr = λ s k j. refl;
  get-decr = get-decr_lem;
  get-zadd_nx = λ s q w j. refl;
  get-zrem = λ s q u j. refl;
  get-zpopmin = λ s q j. refl;
  zrange-set = λ s k v q. refl;
  zrange-setex = λ s k t v q. refl;
  zrange-pass = λ s t q. refl;
  zrange-del = λ s k q. refl;
  zrange-incr = λ s k q. refl;
  zrange-decr = λ s k q. refl;
  zrange-zadd_nx = λ s p w q. refl;
  zrange-zrem = λ s p u q. refl;
  zrange-zpopmin = λ s p q. refl;
}
