-- ===== src/Tests/Routes.antt =====
-- The theorems about the routes, the lists and the dashboard, at the sample.
use ticketvault.Prelude.{
  true, false, ◌≡◌, ◌≢◌, ◌==◌, ◌+◌, refl, map, arith, none, some, ok, [], ◌∷◌,
}
use ticketvault.Table.{select, count_where}
use ticketvault.Types.{BookingStatus, Event, Seat, Role, CreateBookingRequest, client}
use ticketvault.Table.{find_where}
use ticketvault.Http.{Request}
use ticketvault.Wire.{ApiCall, Service, wire, served}
use ticketvault.Wire.Served.{calls_served}
use ticketvault.Db.{Db}
use ticketvault.Redis.{seat_inventory, number}
use ticketvault.Redis.Names.{idempotency, codes, text_of, read_name, read_name-text_of}
use ticketvault.Db.Invariant.{IsConsistent}
use ticketvault.Scripts.{claim_idempotency_key, atomic_decrement, set_nx}
use ticketvault.World.{on_redis, on_db, in_transaction, catch}
use ticketvault.Events.{get_event_cached, cache_hit, get_event_by_id, with_live_inventory, price_of}
use ticketvault.Pricing.Doubles.{nearest, scaled, half_even, times, math_round}
use ticketvault.Pricing.{calculate_price, price_by, surged, ratio_at_least}
use ticketvault.Db.{insert_booking, select_seat_nowait, with_transaction}
use ticketvault.Booking.{create_booking_in_transaction}
use ticketvault.Booking.Creation.{booked_response}
use ticketvault.Service.Foreign.{Drifted, create_booking-drifts}
use ticketvault.Redis.Sample.{Maps, maps}
use ticketvault.World.{World}
use ticketvault.Accounts.{Crypto}
use ticketvault.Events.{available_in}
use ticketvault.Events.Creation.{CreateEventInput, create_event}
use ticketvault.Events.Opening.{create_event-opens}
use ticketvault.Service.{create_booking, create_claimed, pass_gate, book, announce}
use ticketvault.Service.Refines.{OneBooking, create_booking-OneBooking}
use ticketvault.Listing.{UserBooking, get_user_bookings, get_user_bookings_lem}
use ticketvault.Admin.{event_stats}
use ticketvault.Admin.Joins.{event_stats-multiplied}
use ticketvault.Http.{Request, Limits, Surroundings, handle}
use ticketvault.Http.Guards.{refusal, users_refused}
use ticketvault.Http.Site.{Site, routed, serve, site_refusal, strangers_refused}
use ticketvault.Tests.Samples.{
  free_one, held_one, tables, tables-IsConsistent, concert, holding, world, config, env, anyone,
  request, polls,
}

create_booking-OneBooking_example :
    let (r, w) = create_booking maps config env polls 6 request 1 world in
    OneBooking maps config env 6 request 1 tables r w.db
create_booking-OneBooking_example =
    create_booking-OneBooking maps config env 6 request 1 polls world refl

get_user_bookings_lem_at_sample :
    map (λ (r : UserBooking). r.booking) (get_user_bookings 5 tables) ≡ holding ∷ []
unfolding find_where select
get_user_bookings_lem_at_sample = get_user_bookings_lem 5 tables ((_, refl), (_, refl), tt)

-- A second booking of the event, on the same seat and already over.
abbrev doubled : Db
doubled = record tables {
  bookings = record holding { id = 101; status = BookingStatus.expired } ∷ holding ∷ [];
}

-- One seat is reserved, and the dashboard shows two.
event_stats-multiplied_example : (event_stats doubled concert).reserved_count ≡ 2
unfolding count_where select
event_stats-multiplied_example = (event_stats-multiplied doubled concert).1

abbrev crypto : Crypto
crypto = record {
  hash_token = λ t. t;
  compare = λ p h. p == h;
  hash_password = λ p. p;
  verify = λ t. some (record { user_id = t; email = t; role = Role.user });
}

abbrev surroundings : Surroundings
surroundings = record {
  env = env;
  polls = polls;
  online = anyone;
  event_id = 8;
  uuids = λ n. n + 10;
  before = λ x y. false;
}

abbrev open_limits : Limits
open_limits = record { overall = true; booking = true }

abbrev site : Site Maps
site = record { accounts = record { users = []; refresh_tokens = [] }; world = world }

strangers_refused_example :
    serve maps config crypto surroundings open_limits
      (record { now = 700; token = 5; uuid = 9 })
      none
      (routed (Request.cancel 100))
      site
    ≡ (site_refusal 401, site)
strangers_refused_example =
    strangers_refused maps config crypto surroundings open_limits
      (record { now = 700; token = 5; uuid = 9 }) none (routed (Request.cancel 100)) site refl refl
      refl

users_refused_at_sample :
    handle maps config crypto surroundings open_limits (some 5) Request.show_dashboard world
    ≡ (refusal 403, world)
users_refused_at_sample =
    users_refused maps config crypto surroundings open_limits (some 5) world Request.show_dashboard
      refl refl refl refl

create_event-opens_example :
    let input : CreateEventInput = record {
      name = "Play";
      venue = "Stage";
      total_seats = 3;
      base_price = 100;
      starts_at = 1;
      ends_at = 2;
    } in
    let (r, w) = create_event maps 8 (λ n. n + 10) input world in
    ((e : Event) × (r ≡ ok e))
    × (available_in 8 w.db ≡ 3)
    × (maps.get w.redis (seat_inventory 8) ≡ some (number 3))
    × IsConsistent w.db
unfolding find_where
create_event-opens_example =
    create_event-opens maps 8 (λ n. n + 10)
      (record {
        name = "Play";
        venue = "Stage";
        total_seats = 3;
        base_price = 100;
        starts_at = 1;
        ends_at = 2;
      })
      world (λ m n h. omega (arith, h)) (λ n. ground arith) refl refl tables-IsConsistent

-- A seat of event 8, in the place of the free seat of event 7.
abbrev away : Seat
away = record free_one { id = 3; event_id = 8 }

abbrev both : Db
both = record tables { seats = away ∷ free_one ∷ held_one ∷ [] }

both-IsConsistent : IsConsistent both
unfolding find_where count_where
both-IsConsistent = record {
  seat_once = λ k. ground arith;
  booking_once = λ k. ground arith;
  held = λ k. ground arith;
  sold = λ k. ground arith;
  audited = λ k. ground arith;
}

abbrev wrong : CreateBookingRequest
wrong = record { event_id = 7; seat_id = 3 }

abbrev two_events : World Maps
two_events = record world { db = both }

away_booked :
    (create_booking maps config env polls 6 wrong 1 two_events).0
    ≡ ok (booked_response env 6 wrong (client 6 1) 5000 600 away)
unfolding create_booking create_claimed pass_gate book announce claim_idempotency_key
    atomic_decrement on_redis on_db in_transaction catch get_event_cached cache_hit get_event_by_id
    with_live_inventory available_in price_of calculate_price price_by surged nearest scaled
    half_even times math_round ratio_at_least create_booking_in_transaction insert_booking
    select_seat_nowait find_where count_where set_nx with_transaction
away_booked = refl

elsewhere : away.event_id ≢ wrong.event_id
elsewhere h = ground arith

create_booking-drifts_example :
    Drifted maps config env 6 wrong 1 away elsewhere
      (create_booking maps config env polls 6 wrong 1 two_events).1
unfolding find_where available_in count_where
create_booking-drifts_example =
    create_booking-drifts maps config env 6 wrong 1 away elsewhere polls two_events _ 101
      both-IsConsistent refl refl (1, refl, refl) (1, refl, refl) refl away_booked refl

read_name-text_of_example :
    read_name (text_of (idempotency (codes "u6") (codes "k:1")))
    ≡ some (idempotency (codes "u6") (codes "k:1"))
read_name-text_of_example =
    read_name-text_of (idempotency (codes "u6") (codes "k:1")) (refl, (refl, tt))

calls_served_example :
    served (λ body. none) (wire (ApiCall.create 7 1 3))
    ≡ some
        (Service.routed (Request.book_seat (some (record { event_id = 7; seat_id = 1 })) (some 3)))
calls_served_example = calls_served (λ body. none) (ApiCall.create 7 1 3)
