-- ===== src/Http/Guards.antt =====
-- The guards of the routes.
use ticketvault.Prelude.{
  ℕ, ◌≡◌, refl, Bool, true, false, Option, none, some, arith, http_error, err, ok,
}
use ticketvault.Types.{Role}
use ticketvault.Redis.{Redis}
use ticketvault.World.{World}
use ticketvault.Accounts.{AuthPayload, Crypto, authenticate, require_admin}
use ticketvault.Offers.{Config}
use ticketvault.Http.{
  Request, Refusal, Body, Response, reply, Limits, Surroundings, error_handler, route, handle,
  serve_admin, post_event, post_booking, get_bookings, delete_booking, post_initiate, post_simulate,
}

-- Who a request comes from: the contents of a token that is there and in order.
abbrev pub identified : Crypto → Option ℕ → Option AuthPayload
identified crypto none = none
identified crypto (some token) = crypto.verify token

abbrev pub is_public : Request → Bool
is_public Request.list_events = true
is_public (Request.show_event k) = true
is_public (Request.list_seats k) = true
is_public _ = false

abbrev pub is_for_admins : Request → Bool
is_for_admins (Request.open_event body) = true
is_for_admins Request.show_dashboard = true
is_for_admins (Request.show_audit k) = true
is_for_admins (Request.show_queue k) = true
is_for_admins _ = false

abbrev pub refusal : ℕ → Response
refusal status = reply status (Body.refused (Refusal.of_status status))

module _ (crypto : Crypto) {S : Type 0} (w : S) where
  pub authenticate-none :
      (header : Option ℕ)
      → identified crypto header ≡ none
      → authenticate crypto header w ≡ (err (http_error 401), w)
  unfolding authenticate
  authenticate-none none unknown = refl
  authenticate-none (some token) unknown = rw unknown refl

  authenticate-some :
      (header : Option ℕ)
      → {payload : AuthPayload} → identified crypto header ≡ some payload
      → authenticate crypto header w ≡ (ok payload, w)
  unfolding authenticate
  authenticate-some none known = ground arith
  authenticate-some (some token) known = rw known refl

  require_admin-user :
      (payload : AuthPayload)
      → payload.role ≡ Role.user
      → require_admin payload w ≡ (err (http_error 403), w)
  unfolding require_admin
  require_admin-user payload role = rw role refl

module _ (R : Redis) (cfg : Config) (crypto : Crypto) (at : Surroundings) (limits : Limits)
    (header : Option ℕ) (w : World R.Store) where
  handle-http_error :
      (request : Request) {status : ℕ}
      → limits.overall ≡ true
      → route R cfg crypto at limits header request w ≡ (err (http_error status), w)
      → handle R cfg crypto at limits header request w ≡ (refusal status, w)
  unfolding handle error_handler
  handle-http_error request admitted routed = ground arith

  stopped_before :
      (request : Request)
      → is_public request ≡ false
      → authenticate crypto header w ≡ (err (http_error 401), w)
      → route R cfg crypto at limits header request w ≡ (err (http_error 401), w)
  unfolding route serve_admin post_event post_booking get_bookings delete_booking post_initiate
      post_simulate
  stopped_before (Request.open_event body) _ out = ground arith
  stopped_before (Request.book_seat body key) _ out = ground arith
  stopped_before Request.list_bookings _ out = ground arith
  stopped_before (Request.cancel k) _ out = ground arith
  stopped_before (Request.initiate k) _ out = ground arith
  stopped_before (Request.simulate k b) _ out = ground arith
  stopped_before Request.show_dashboard _ out = ground arith
  stopped_before (Request.show_audit k) _ out = ground arith
  stopped_before (Request.show_queue k) _ out = ground arith
  stopped_before Request.list_events guarded _ = ground arith
  stopped_before (Request.show_event k) guarded _ = ground arith
  stopped_before (Request.list_seats k) guarded _ = ground arith

  stopped_inside :
      (request : Request) {payload : AuthPayload}
      → is_for_admins request ≡ true
      → authenticate crypto header w ≡ (ok payload, w)
      → require_admin payload w ≡ (err (http_error 403), w)
      → route R cfg crypto at limits header request w ≡ (err (http_error 403), w)
  unfolding route serve_admin post_event
  stopped_inside (Request.open_event body) _ entered out = ground arith
  stopped_inside Request.show_dashboard _ entered out = ground arith
  stopped_inside (Request.show_audit k) _ entered out = ground arith
  stopped_inside (Request.show_queue k) _ entered out = ground arith
  stopped_inside Request.list_events guarded _ _ = ground arith
  stopped_inside (Request.show_event k) guarded _ _ = ground arith
  stopped_inside (Request.list_seats k) guarded _ _ = ground arith
  stopped_inside (Request.book_seat body key) guarded _ _ = ground arith
  stopped_inside Request.list_bookings guarded _ _ = ground arith
  stopped_inside (Request.cancel k) guarded _ _ = ground arith
  stopped_inside (Request.initiate k) guarded _ _ = ground arith
  stopped_inside (Request.simulate k b) guarded _ _ = ground arith

  -- If the limit for all lets it through and there is no token in order, every request to the routes of
  -- events, bookings, payments and for administrators, but those to list the events, to show one and to
  -- list its seats, is refused with 401 and changes nothing.
  pub guarded_refused :
      (request : Request)
      → limits.overall ≡ true
      → is_public request ≡ false
      → identified crypto header ≡ none
      → handle R cfg crypto at limits header request w ≡ (refusal 401, w)
  guarded_refused request admitted private unknown =
      handle-http_error request admitted
        (stopped_before request private (authenticate-none crypto w header unknown))

  -- If the limit for all lets it through and its token is in order but for a user who is no admin,
  -- a request for a new event, the dashboard, an audit trail or a queue is refused with 403 and
  -- changes nothing.
  pub users_refused :
      (request : Request) {payload : AuthPayload}
      → limits.overall ≡ true
      → is_for_admins request ≡ true
      → identified crypto header ≡ some payload
      → payload.role ≡ Role.user
      → handle R cfg crypto at limits header request w ≡ (refusal 403, w)
  users_refused request admitted guarded known role = handle-http_error request admitted (
      stopped_inside request guarded (authenticate-some crypto w header known)
        (require_admin-user crypto w _ role))
