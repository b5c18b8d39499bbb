-- ===== src/Booking/History.antt =====
-- Every history of transactions on the booking tables, in any order and of any clients. A
-- transaction is one step: the row locks that it takes keep its rows from the others. Of initiatePayment,
-- which is none, the query that writes is a step, at whatever time after the one that reads.
use ticketvault.Prelude.{ℕ, ◌+◌, ◌≤◌, ◌≡◌, refl, List, [], ◌∷◌, some, arith}
use ticketvault.Types.{Booking, IdempotencyKey, CreateBookingRequest}
use ticketvault.Table.{count_where}
use ticketvault.Table.Keyed.{at_key, find-update, count-update_same}
use ticketvault.Db.{Db, booking_key, booking_at, holds_seat, update_booking, with_transaction}
use ticketvault.Db.Invariant.{IsConsistent, pending_on, confirmed_on}
use ticketvault.Booking.{Env, cancel_transaction, confirm_transaction}
use ticketvault.Booking.Creation.{attempt, attempt-IsConsistent}
use ticketvault.Booking.Endings.{
  cancel-IsConsistent, confirm-IsConsistent, compensate-IsConsistent, expire-IsConsistent,
}
use ticketvault.Payment.{compensate_transaction, record_payment_id, set_payment_id}
use ticketvault.Expiry.{expire_transaction}

-- What a client, a payment or the expiry worker may do to the tables. The worker acts on a row that
-- it has scanned before, of which it knows the seat.
pub data Step (db after : Db) : Type 0 where
  creates :
      (env : Env) (user_id : ℕ) (request : CreateBookingRequest) (key : IdempotencyKey)
      (amount hold_seconds : ℕ)
      → after ≡ (attempt env user_id request key amount hold_seconds db).1
      → Step db after
  cancels :
      (k user_id : ℕ)
      → after ≡ (with_transaction (cancel_transaction k user_id) db).1
      → Step db after
  confirms :
      (now k payment_id : ℕ)
      → after ≡ (with_transaction (confirm_transaction now k payment_id) db).1
      → Step db after
  compensates : (k : ℕ) → after ≡ (with_transaction (compensate_transaction k) db).1 → Step db after
  initiates : (uuid k : ℕ) → after ≡ record_payment_id uuid k db → Step db after
  expires :
      (scanned : Booking)
      → ((b : Booking) → booking_at scanned.id db ≡ some b → b.seat_id ≡ scanned.seat_id)
      → after ≡ (with_transaction (expire_transaction scanned) db).1
      → Step db after

pub data Reach (start : Db) : Db → Type 0 where
  here : Reach start start
  next : {db after : Db} → Reach start db → Step db after → Reach start after

initiate-IsConsistent :
    (uuid k : ℕ) (db : Db) → IsConsistent db → IsConsistent (record_payment_id uuid k db)
unfolding update_booking set_payment_id
initiate-IsConsistent uuid k db c = record {
  seat_once = c.seat_once;
  booking_once = λ j.
      rw (count-update_same _ (at_key booking_key j) (set_payment_id uuid) db.bookings (λ x. refl))
        (c.booking_once j);
  held = λ j.
      rw (count-update_same _ (pending_on j) (set_payment_id uuid) db.bookings (λ x. refl))
        (c.held j);
  sold = λ j.
      rw (count-update_same _ (confirmed_on j) (set_payment_id uuid) db.bookings (λ x. refl))
        (c.sold j);
  audited = λ j. ground (
    arith,
    c.audited j,
    find-update booking_key k j (set_payment_id uuid) db.bookings (λ x. refl),
  );
}

Step-IsConsistent : {db after : Db} → Step db after → IsConsistent db → IsConsistent after
Step-IsConsistent {db} (creates env user_id request key amount hold_seconds e) c =
    rw e (attempt-IsConsistent env user_id request key amount hold_seconds db c)
Step-IsConsistent {db} (cancels k user_id e) c = rw e (cancel-IsConsistent k user_id db c)
Step-IsConsistent {db} (confirms now k payment_id e) c =
    rw e (confirm-IsConsistent now k payment_id db c)
Step-IsConsistent {db} (compensates k e) c = rw e (compensate-IsConsistent k db c)
Step-IsConsistent {db} (initiates uuid k e) c = rw e (initiate-IsConsistent uuid k db c)
Step-IsConsistent {db} (expires scanned same e) c = rw e (expire-IsConsistent scanned db c same)

-- From consistent tables, every history of transactions leads to consistent tables.
pub Reach-IsConsistent : {start db : Db} → IsConsistent start → Reach start db → IsConsistent db
Reach-IsConsistent c here = c
Reach-IsConsistent c (next r s) = Step-IsConsistent s (Reach-IsConsistent c r)

count-active :
    (k : ℕ) (bs : List Booking)
    → count_where (holds_seat k) bs
      ≡ count_where (pending_on k) bs + count_where (confirmed_on k) bs
unfolding count_where
count-active k [] = refl
count-active k (b ∷ bs) = ground (arith, count-active k bs)

-- After every history of transactions no seat has two active bookings.
pub no_double_booking :
    {start db : Db} (k : ℕ)
    → IsConsistent start
    → Reach start db
    → count_where (holds_seat k) db.bookings ≤ 1
no_double_booking {db = db} k c r =
    let d = Reach-IsConsistent c r in ground (arith, count-active k db.bookings, d.held k, d.sold k)
