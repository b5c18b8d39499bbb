-- ===== src/Http.antt =====
-- The routes of backend/src/routes (events.ts, bookings.ts, payments.ts, admin.ts) as
-- backend/src/server.ts mounts them, behind the guards of backend/src/middleware/auth.ts, and the
-- error handler of backend/src/middleware/requestLogger.ts. A reply that a route gives itself with a
-- status above 399 is an http_error too.
pub mod Guards
pub mod Site
use Prim.Native.String.{String}
use ticketvault.Prelude.{
  ℕ, Bool, true, false, not, List, Option, none, some, ok, err, Error, Constraint, http_error,
  lock_not_available, unique_violation, other_error, bookings_pkey, bookings_idempotency_key_key,
  uniq_active_booking_per_seat, Action, ◌>>=◌, ◌>>◌, pure, throw_if, or_throw, gets,
}
use ticketvault.Types.{
  Event, BookingAuditLog, CreateBookingRequest, BookingResponse, ResponseStatus,
}
use ticketvault.Redis.{Redis}
use ticketvault.World.{World, on_db}
use ticketvault.Events.{get_event_by_id}
use ticketvault.Events.Creation.{CreateEventInput, create_event}
use ticketvault.Listing.{
  ListedEvent, ListedSeat, UserBooking, get_events, get_seats_for_event, get_user_bookings,
}
use ticketvault.Accounts.{AuthPayload, Crypto, authenticate, require_admin}
use ticketvault.Booking.{Env}
use ticketvault.Payment.{initiate_payment}
use ticketvault.Service.{Polls, create_booking, cancel_booking}
use ticketvault.Offers.{Config}
use ticketvault.PaymentService.{simulate_payment}
use ticketvault.Admin.{Dashboard, QueueStatus, dashboard, audit_trail, queue_status}

-- Why a request is refused, as the texts tell it.
pub data Refusal : Type 0 where
  of_status : ℕ → Refusal
  resource_locked seat_already_booked duplicate_request internal_error : Refusal

pub data Body : Type 0 where
  events_shown : List ListedEvent → Body
  event_shown : Event → Body
  seats_shown : List ListedSeat → Body
  booking_made : BookingResponse → Body
  bookings_shown : List UserBooking → Body
  payment_started : ℕ → ℕ → Body
  done : Body
  dashboard_shown : Dashboard → Body
  logs_shown : List BookingAuditLog → Body
  queue_shown : QueueStatus → Body
  refused : Refusal → Body

pub record Response : Type 0 where
  pub status : ℕ
  pub body : Body

abbrev pub reply : ℕ → Body → Response
reply status body = record { status = status; body = body }

abbrev pub is_active_index : Constraint → Bool
is_active_index uniq_active_booking_per_seat = true
is_active_index _ = false

-- `errorHandler`
unfoldable pub error_handler : Error → Response
error_handler (http_error n) = reply n (refused (of_status n))
error_handler lock_not_available = reply 423 (refused resource_locked)
error_handler (unique_violation c) =
    reply 409 (
      refused (elim (is_active_index c) [ true ↦ seat_already_booked | false ↦ duplicate_request ]))
error_handler other_error = reply 500 (refused internal_error)

-- A request to these routes, with what the check of its body gives: `none` if it does not pass. Http/Site
-- has the rest of the requests.
pub data Request : Type 0 where
  list_events : Request
  show_event list_seats : ℕ → Request
  open_event : Option CreateEventInput → Request
  book_seat : Option CreateBookingRequest → (idempotency_key : Option ℕ) → Request
  list_bookings : Request
  cancel initiate : ℕ → Request
  simulate : ℕ → Option Bool → Request
  show_dashboard : Request
  show_audit show_queue : ℕ → Request

-- What the rate limiters say of a request: that it may go on.
pub record Limits : Type 0 where
  pub overall : Bool
  pub booking : Bool

-- What a request meets: clocks and draws, the identifiers for new seats, the order of texts in the
-- database, and who is on a page.
pub record Surroundings : Type 0 where
  pub env : Env
  pub polls : Polls
  pub online : ℕ → Bool
  pub event_id : ℕ
  pub uuids : ℕ → ℕ
  pub before : String → String → Bool

abbrev pub booked_status : ResponseStatus → ℕ
booked_status ResponseStatus.queued = 202
booked_status ResponseStatus.pending = 201

module _ (R : Redis) (cfg : Config) (crypto : Crypto) (at : Surroundings) (limits : Limits) where
  open R use {Store}

  -- The handlers of admin.ts, once `authenticate` and `requireAdmin` have let the request through.
  unfoldable pub serve_admin : Option ℕ → Action (World Store) Body → Action (World Store) Response
  serve_admin header show = do
    payload ← authenticate crypto header
    require_admin payload
    body ← show
    pure (reply 200 body)

  unfoldable pub post_event : Option ℕ → Option CreateEventInput → Action (World Store) Response
  post_event header body = do
    payload ← authenticate crypto header
    require_admin payload
    input ← or_throw body (http_error 400)
    event ← create_event R at.event_id at.uuids input
    pure (reply 201 (event_shown event))

  unfoldable pub post_booking :
      Option ℕ → Option CreateBookingRequest → Option ℕ → Action (World Store) Response
  post_booking header body key = do
    payload ← authenticate crypto header
    throw_if (not limits.booking) (http_error 429)
    request ← or_throw body (http_error 400)
    k ← or_throw key (http_error 400)
    response ← create_booking R cfg at.env at.polls payload.user_id request k
    pure (reply (booked_status response.status) (booking_made response))

  unfoldable pub get_bookings : Option ℕ → Action (World Store) Response
  get_bookings header = do
    payload ← authenticate crypto header
    bookings ← gets (λ w. get_user_bookings payload.user_id w.db)
    pure (reply 200 (bookings_shown bookings))

  unfoldable pub delete_booking : Option ℕ → ℕ → Action (World Store) Response
  delete_booking header booking_id = do
    payload ← authenticate crypto header
    cancel_booking R cfg at.env at.online booking_id payload.user_id
    pure (reply 200 done)

  unfoldable pub post_initiate : Option ℕ → ℕ → Action (World Store) Response
  post_initiate header booking_id = do
    payload ← authenticate crypto header
    started ← on_db (initiate_payment at.env.uuid booking_id payload.user_id)
    pure (reply 200 (payment_started started.0 started.1))

  unfoldable pub post_simulate : Option ℕ → ℕ → Option Bool → Action (World Store) Response
  post_simulate header booking_id body = do
    payload ← authenticate crypto header
    success ← or_throw body (http_error 400)
    simulate_payment R cfg at.env at.online at.env.uuid booking_id payload.user_id success
    pure (reply 200 done)

  unfoldable pub get_event : ℕ → Action (World Store) Response
  get_event event_id = do
    found ← gets (get_event_by_id R event_id)
    event ← or_throw found (http_error 404)
    pure (reply 200 (event_shown event))

  unfoldable pub route : Option ℕ → Request → Action (World Store) Response
  route header list_events = do
    events ← gets (λ w. get_events w.db)
    pure (reply 200 (events_shown events))
  route header (show_event event_id) = get_event event_id
  route header (list_seats event_id) = do
    seats ← gets (λ w. get_seats_for_event at.before event_id w.db)
    pure (reply 200 (seats_shown seats))
  route header (open_event body) = post_event header body
  route header (book_seat body key) = post_booking header body key
  route header list_bookings = get_bookings header
  route header (cancel booking_id) = delete_booking header booking_id
  route header (initiate booking_id) = post_initiate header booking_id
  route header (simulate booking_id body) = post_simulate header booking_id body
  route header show_dashboard = serve_admin header (gets (λ w. dashboard_shown (dashboard w.db)))
  route header (show_audit booking_id) =
      serve_admin header (gets (λ w. logs_shown (audit_trail booking_id w.db)))
  route header (show_queue event_id) =
      serve_admin header (gets (λ w. queue_shown (queue_status R event_id w)))

  -- The whole way of a request: the rate limiter for all, its route, and the error handler.
  unfoldable pub handle : Option ℕ → Request → World Store → Response × World Store
  handle header request w =
      let (r, w') = (do throw_if (not limits.overall) (http_error 429); route header request) w in
      elim r [ ok answer ↦ (answer, w') | err e ↦ (error_handler e, w') ]
