-- ===== src/Tests/Tables.antt =====
-- The theorems about the tables, at the sample.
use ticketvault.Prelude.{
  ◌≡◌, ◌≢◌, ◌≤◌, refl, some, none, ok, false, arith, err, unique_violation,
  uniq_active_booking_per_seat,
}
use ticketvault.Types.{BookingStatus, Booking, client}
use ticketvault.Table.{find_where, count_where, update_where}
use ticketvault.Db.{Db, booking_at, holds_seat, with_transaction}
use ticketvault.Db.Invariant.{IsConsistent}
use ticketvault.Booking.{create_booking_in_transaction, cancel_transaction, confirm_transaction}
use ticketvault.Booking.Creation.{attempt, attempt-ne-uniq_active}
use ticketvault.Booking.History.{
  Reach, here, next, cancels, creates, Reach-IsConsistent, no_double_booking,
}
use ticketvault.Booking.Lifecycle.{Follows, Reach-Continues}
use ticketvault.Booking.Races.{settled_stays}
use ticketvault.Payment.{compensate_transaction}
use ticketvault.Expiry.{expire_transaction}
use ticketvault.Tests.Samples.{tables, tables-IsConsistent, env, request, holding}

-- User 6 books the free seat, and user 5 gives the other one back.
abbrev booked : Db
booked = (attempt env 6 request (client 6 1) 5000 600 tables).1

abbrev cancelled : Db
cancelled = (with_transaction (cancel_transaction 100 5) booked).1

history : Reach tables cancelled
history = next (next here (creates env 6 request (client 6 1) 5000 600 refl)) (cancels 100 5 refl)

no_double_booking_example : count_where (holds_seat 1) cancelled.bookings ≤ 1
no_double_booking_example = no_double_booking 1 tables-IsConsistent history

Reach-IsConsistent_example : IsConsistent cancelled
Reach-IsConsistent_example = Reach-IsConsistent tables-IsConsistent history

Reach-Continues_example :
    (later : Booking) × (booking_at 100 cancelled ≡ some later) × Follows holding later
unfolding find_where
Reach-Continues_example = Reach-Continues 100 holding tables-IsConsistent history refl

attempt-ne-uniq_active_example :
    (attempt env 6 request (client 6 1) 5000 600 tables).0
    ≢ err (unique_violation uniq_active_booking_per_seat)
attempt-ne-uniq_active_example =
    attempt-ne-uniq_active env 6 request (client 6 1) 5000 600 tables tables-IsConsistent

-- User 5 gives seat 2 back, and the worker that has scanned the booking comes too late.
given_back : IsConsistent cancelled
given_back = Reach-IsConsistent tables-IsConsistent history

abbrev given_up : Booking
given_up = record holding { status = BookingStatus.cancelled }

settled_stays_example :
    (with_transaction (expire_transaction holding) cancelled ≡ (ok false, cancelled))
    × (with_transaction (compensate_transaction 100) cancelled ≡ (ok none, cancelled))
    × ((with_transaction (confirm_transaction 700 100 9) cancelled).1 ≡ cancelled)
unfolding find_where with_transaction cancel_transaction create_booking_in_transaction update_where
settled_stays_example =
    settled_stays 700 9 holding given_up cancelled given_back refl (ground arith)
