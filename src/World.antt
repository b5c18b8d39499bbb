-- ===== src/World.antt =====
-- What the services share: the database, Redis, the sockets and the cache of events; and how the
-- handlers reach them.
use Prim.Native.String.{String}
use ticketvault.Prelude.{ℕ, List, ◌∷◌, Option, none, some, ok, err, Error, Action}
use ticketvault.Types.{SeatStatus, Event}
use ticketvault.Db.{Db, with_transaction}
use ticketvault.Redis.{Value, number}

-- The messages of backend/src/services/websocket/wsService.ts: to everyone who watches an event,
-- and to the rooms of single users.
pub data Message : Type 0 where
  seat_updated : (event_id seat_id : ℕ) → SeatStatus → (seat_number : ℕ) → String → Message
  inventory_updated : (event_id remaining current_price : ℕ) → Message
  waitlist_offered :
      (user_id booking_id event_id seat_number : ℕ) → String → (expires_at : ℕ) → Message
  seat_available : (user_ids : List ℕ) → (event_id seat_id seat_number : ℕ) → String → Message

pub record CachedEvent : Type 0 where
  pub event : Event
  pub expires_at : ℕ

pub record World (S : Type 0) : Type 0 where
  pub db : Db
  pub redis : S
  pub sent : List Message
  pub event_cache : ℕ → Option CachedEvent

module _ {S : Type 0} where
  -- A command or a script of Redis.
  unfoldable pub on_redis : {A : Type 0} → Action S A → Action (World S) A
  on_redis f w = let (r, s) = f w.redis in (r, record w { redis = s })

  abbrev pub command : (S → S) → Action (World S) (Unit {0})
  command f w = (ok tt, record w { redis = f w.redis })

  -- `query`, outside a transaction.
  unfoldable pub on_db : {A : Type 0} → Action Db A → Action (World S) A
  on_db f w = let (r, d) = f w.db in (r, record w { db = d })

  unfoldable pub in_transaction : {A : Type 0} → Action Db A → Action (World S) A
  unfolding on_db
  in_transaction f = on_db (with_transaction f)

  -- The newest message stands first.
  abbrev pub emit : Message → Action (World S) (Unit {0})
  emit m w = (ok tt, record w { sent = m ∷ w.sent })

-- `try ... catch`
unfoldable pub catch : {S A : Type 0} → Action S A → (Error → Action S A) → Action S A
catch m handler s = let (r, s') = m s in elim r [ ok a ↦ (ok a, s') | err e ↦ handler e s' ]

-- `parseInt` of a stored number.
abbrev pub as_number : Option Value → Option ℕ
as_number (some (number n)) = some n
as_number _ = none
