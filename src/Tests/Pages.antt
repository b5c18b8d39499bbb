-- ===== src/Tests/Pages.antt =====
-- The theorems about the pages, at small inputs.
use ticketvault.Prelude.{inr, arith, ℕ, ◌≡◌, ◌⊎◌, refl, ◌==◌, none, some, true, false, [], ◌∷◌, ok}
use ticketvault.Types.{SeatStatus, Role, BookingResponse, client}
use ticketvault.Table.{find_where, count_where, select, update_where}
use ticketvault.Redis.{seat_inventory, number}
use ticketvault.Redis.Sample.{maps}
use ticketvault.World.{waitlist_offered}
use ticketvault.Accounts.{AuthPayload, Crypto}
use ticketvault.Booking.Creation.{booked_response}
use ticketvault.Service.Waiting.{answered_once}
use ticketvault.Service.{create_booking, create_claimed, pass_gate, book, announce}
use ticketvault.Scripts.{claim_idempotency_key, atomic_decrement, set_nx}
use ticketvault.World.{on_redis, on_db, in_transaction, catch}
use ticketvault.Events.{
  get_event_cached, cache_hit, get_event_by_id, with_live_inventory, available_in, price_of,
}
use ticketvault.Pricing.Doubles.{nearest, scaled, half_even, times, math_round}
use ticketvault.Pricing.{calculate_price, price_by, surged, ratio_at_least}
use ticketvault.Db.{insert_booking, select_seat_nowait, with_transaction}
use ticketvault.Booking.{create_booking_in_transaction}
use ticketvault.Sockets.{
  Socket, Server, connect, admit, subscribe, init_server, recipients, is_user_online, of_event,
  of_user, is_in,
}
use ticketvault.Sockets.Privacy.{Reach, Step, offers_private, sockets_of_user}
use ticketvault.Frontend.Messages.{PageState}
use ticketvault.Frontend.Live.{page_of, page_follows_booking, ShowsOffer, page_follows_offer}
use ticketvault.Offers.{offer_to_waiter}
use ticketvault.Service.Offered.{IsReleased}
use ticketvault.Frontend.Session.{
  SessionEvent, Answer, session_after, IsWhole, session_after-IsWhole,
}
use ticketvault.Frontend.Pages.{Panel}
use ticketvault.Frontend.Pages.Booked.{ShowsBooking, countdown_of_booking}
use ticketvault.Tests.Samples.{world, config, env, request, freed, polls, free_one}
use ticketvault.Frontend.{BookingStore}

abbrev empty_store : BookingStore
empty_store = record {
  selected_seat_id = none;
  seat_statuses = λ k. none;
  inventory_remaining = none;
  current_price = none;
  active_booking_id = none;
  reservation_expires_at = none;
}

-- The answer to the request of user 6.
abbrev response : BookingResponse
response = booked_response env 6 request (client 6 1) 5000 600 free_one

is_answered : (create_booking maps config env polls 6 request 1 world).0 ≡ ok response
unfolding create_booking create_claimed pass_gate book announce claim_idempotency_key
    atomic_decrement on_redis on_db in_transaction catch get_event_cached cache_hit get_event_by_id
    with_live_inventory available_in price_of calculate_price price_by surged nearest scaled
    half_even times math_round ratio_at_least create_booking_in_transaction insert_booking
    select_seat_nowait find_where count_where set_nx with_transaction
is_answered = refl

-- An hour later the request comes again.
answered_once_example :
    let after = (create_booking maps config env polls 6 request 1 world).1 in
    let w = record after { redis = maps.pass 3600000 after.redis } in
    create_booking maps config env polls 6 request 1 w ≡ (ok response, w)
answered_once_example =
    answered_once maps config env env polls polls 6 request request 1 3600000 response world refl
      (inr (1, refl)) is_answered (omega arith) (omega arith)

abbrev six : AuthPayload
six = record { user_id = 6; email = 6; role = Role.user }

abbrev watcher : Socket
watcher = record { id = 1; user = six; rooms = of_event 7 ∷ of_user 6 ∷ [] }

abbrev empty_page : PageState
empty_page = record { store = empty_store; notices = [] }

page_follows_booking_example :
    let after = (create_booking maps config env polls 6 request 1 world).1 in
    let shown = (page_of 700 watcher empty_page after.sent).store in
    (shown.seat_statuses 1 ≡ some SeatStatus.reserved)
    × ((n : ℕ) × (shown.inventory_remaining ≡ some n)
        × (maps.get after.redis (seat_inventory 7) ≡ some (number n)))
unfolding is_in
page_follows_booking_example =
    page_follows_booking maps config env 6 request 1 700 watcher empty_page polls world response 101
      refl refl is_answered refl

page_follows_offer_example :
    let after = (offer_to_waiter maps config env 6 freed world).1 in
    IsReleased maps config env 6 freed world after
    ⊎ ShowsOffer maps config env 6 freed 700 watcher empty_page after.db
        (page_of 700 watcher empty_page after.sent).store
unfolding is_in
page_follows_offer_example =
    page_follows_offer maps config env 6 freed 700 watcher empty_page world refl

abbrev panel : Panel
panel = record {
  attempt = none;
  queued = false;
  has_error = false;
  checkout = none;
  store = empty_store;
}

countdown_of_booking_example :
    let after = (create_booking maps config env polls 6 request 1 world).1 in
    ShowsBooking maps config env 6 request 1 2 response after.db 101 panel
countdown_of_booking_example =
    countdown_of_booking maps config env 6 request 1 polls world 2 101 response panel refl
      is_answered refl

abbrev crypto : Crypto
crypto = record {
  hash_token = λ t. t;
  compare = λ p h. p == h;
  hash_password = λ p. p;
  verify = λ t. some (record { user_id = t; email = t; role = Role.user });
}

abbrev two_online : Server
two_online = subscribe 1 7 (connect crypto 2 (some 5) (connect crypto 1 (some 6) init_server))

two_online-Reach : Reach crypto two_online
two_online-Reach =
    Reach.go_on
      (Reach.go_on (Reach.go_on (Reach.go_on Reach.idle Step.starts) (Step.connects 1 (some 6)))
        (Step.connects 2 (some 5)))
      (Step.subscribes 1 7)

offers_private_example :
    (recipients (waitlist_offered 6 101 7 1 "Floor" 900) two_online ≡ sockets_of_user 6 two_online)
    × (is_user_online 6 two_online ≡ true)
unfolding subscribe connect admit init_server select update_where
offers_private_example = offers_private two_online-Reach 6 101 7 1 "Floor" 900

session_after-IsWhole_example : IsWhole (
    session_after (
      SessionEvent.hears (Answer.failed 401)
      ∷ SessionEvent.submits (
          Answer.received (record {
            access_token = 1;
            refresh_token = 2;
            user = record { id = 6; email = 6; name = "Ann"; role = Role.user };
          }))
      ∷ []))
session_after-IsWhole_example = session_after-IsWhole (
    SessionEvent.hears (Answer.failed 401)
    ∷ SessionEvent.submits (
        Answer.received (record {
          access_token = 1;
          refresh_token = 2;
          user = record { id = 6; email = 6; name = "Ann"; role = Role.user };
        }))
    ∷ [])
