-- ===== src/Tests/Histories.antt =====
-- The theorems about sequences of calls, at the sample.
use ticketvault.Reconciler.{reconcile}
use ticketvault.Prelude.{ℕ, ◌≤◌, ◌⊎◌, refl, arith}
use ticketvault.Table.{find_where, count_where}
use ticketvault.Db.{holds_seat}
use ticketvault.Db.Invariant.{IsConsistent}
use ticketvault.Redis.Sample.{maps}
use ticketvault.Events.{available_in}
use ticketvault.Booking.Courses.{Named}
use ticketvault.Service.{cancel_booking, create_booking}
use ticketvault.Service.Stock.{Surplus}
use ticketvault.Service.Histories.{Call, Calls, never_booked_twice}
use ticketvault.Service.InStep.{Catalog, stays_in_step}
use ticketvault.Tests.Samples.{
  tables, tables-IsConsistent, world, config, env, anyone, request, polls,
}

never_booked_twice_example :
    let w = (cancel_booking maps config env anyone 100 5 world).1 in
    IsConsistent w.db × ((k : ℕ) → count_where (holds_seat k) w.db.bookings ≤ 1)
never_booked_twice_example =
    never_booked_twice maps config tables-IsConsistent
      (Calls.then_call Calls.idle (Call.cancels env anyone 100 5))

tables-Named : (k : ℕ) → Named (Catalog tables) k tables
unfolding find_where
tables-Named k b found x there = ground arith

listed : Catalog tables 1 7
unfolding find_where
listed x there = ground arith

in_step : Surplus maps config 7 0 world.db world.redis
unfolding available_in count_where
in_step = (1, refl, refl)

-- The user who waits asks for the free seat, then the seat that is held is given up, and the counters are
-- checked.
stays_in_step_example :
    let w = (create_booking maps config env polls 6 request 1 world).1 in
    let w' = (cancel_booking maps config env anyone 100 5 w).1 in
    let end = (reconcile maps 700 9 w').1 in
    Surplus maps config 7 0 end.db end.redis ⊎ Surplus maps config 7 0 end.db end.redis
stays_in_step_example =
    stays_in_step maps config 7 0 tables-IsConsistent tables-Named
      (Calls.then_call
        (Calls.then_call (Calls.then_call Calls.idle (Call.books env polls 6 request 1 listed))
          (Call.cancels env anyone 100 5))
        (Call.reconciles 700 9))
      in_step
