-- ===== src/Tests/Samples.antt =====
-- An event with two seats, one free and one held by user 5; user 6 waits.
use ticketvault.Prelude.{ℕ, Bool, true, false, [], ◌∷◌, Option, none, some, arith}
use ticketvault.Types.{
  SeatStatus, BookingStatus, EventStatus, Reason, Seat, Booking, EventRow, CreateBookingRequest,
  client,
}
use ticketvault.Table.{find_where, count_where}
use ticketvault.Db.{Db}
use ticketvault.Db.Invariant.{IsConsistent}
use ticketvault.Redis.{Key, Value, number, Waiter, seat_inventory}
use ticketvault.Redis.Sample.{Maps}
use ticketvault.World.{World}
use ticketvault.Booking.{Env, FreedSeat}
use ticketvault.Service.{Polls}
use ticketvault.Offers.{Config}

abbrev pub concert : EventRow
concert = record {
  id = 7;
  name = "Concert";
  venue = "Hall";
  total_seats = 2;
  base_price = 5000;
  starts_at = 1000000;
  ends_at = 2000000;
  status = EventStatus.published;
}

abbrev pub free_one : Seat
free_one = record {
  id = 1;
  event_id = 7;
  seat_number = 1;
  section = "Floor";
  row_label = 65;
  status = SeatStatus.available;
  reserved_until = none;
  version = 0;
}

abbrev pub held_one : Seat
held_one = record free_one {
  id = 2;
  seat_number = 2;
  status = SeatStatus.reserved;
  reserved_until = some 600;
}

abbrev pub holding : Booking
holding = record {
  id = 100;
  user_id = 5;
  seat_id = 2;
  event_id = 7;
  status = BookingStatus.pending;
  idempotency_key = client 5 1;
  amount_paid = 5000;
  stripe_payment_intent_id = none;
  expires_at = 600;
  confirmed_at = none;
}

abbrev pub tables : Db
tables = record {
  events = concert ∷ [];
  seats = free_one ∷ held_one ∷ [];
  bookings = holding ∷ [];
  audit =
      record {
        booking_id = 100;
        old_status = none;
        new_status = BookingStatus.pending;
        reason = Reason.booking_created;
      }
      ∷ [];
}

pub tables-IsConsistent : IsConsistent tables
unfolding find_where count_where
tables-IsConsistent = record {
  seat_once = λ k. ground arith;
  booking_once = λ k. ground arith;
  held = λ k. ground arith;
  sold = λ k. ground arith;
  audited = λ k. ground arith;
}

abbrev pub waiting : Waiter
waiting = record { user_id = 6; joined_at = 10 }

abbrev stored : Key → Option Value
stored (seat_inventory k) = some (number 1)
stored _ = none

abbrev pub store : Maps
store = record { values = stored; queues = λ q. waiting ∷ []; ttls = λ k. none }

abbrev pub world : World Maps
world = record { db = tables; redis = store; sent = []; event_cache = λ k. none }

abbrev pub config : Config
config = record { ttl_seconds = 600; offer_ttl_seconds = 120; max_offers = 3 }

abbrev pub env : Env
env = record { now = 700; uuid = 101; locked = λ k. false }

abbrev pub anyone : ℕ → Bool
anyone u = true

abbrev pub request : CreateBookingRequest
request = record { event_id = 7; seat_id = 1 }

abbrev pub freed : FreedSeat
freed = record { event_id = 7; seat_id = 1; seat_number = 1; section = "Floor" }

abbrev pub polls : Polls
polls = record { elapsed = λ i. Prim.Native.Nat.◌*◌ 200 i; later = λ i k. none }
