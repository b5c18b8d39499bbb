-- ===== src/Wire.antt =====
-- What goes over the wire: the calls of frontend/src/services/api.ts, and the routes of
-- backend/src/routes under the paths at which backend/src/server.ts mounts them. Identifiers are
-- numbers; a parameter of a path that is none leads to an error of the database, and counts as no route.
-- The routers choose a route here, and what the route does is in Http and Auth: the routes of auth.ts get
-- the body as it was sent, and the check of the body of a new event is a parameter.
pub mod Served
use Prim.Native.String.{String}
use text.Mathlib.Text.{◌==◌ as str_eq}
use ticketvault.Prelude.{
  ℕ, Bool, true, false, List, [], ◌∷◌, ◌++◌, Option, none, some, if◌then◌else◌,
}
use ticketvault.Types.{CreateBookingRequest}
use ticketvault.Events.Creation.{CreateEventInput}
use ticketvault.Http.{Request}

pub data Method : Type 0 where
  get post delete : Method

-- A part of a path between slashes.
pub data Segment : Type 0 where
  word : String → Segment
  ident : ℕ → Segment

pub data Json : Type 0 where
  ident_value : ℕ → Json
  flag_value : Bool → Json
  text_value : String → Json

abbrev pub JsonObject : Type 0
JsonObject = List (String × Json)

pub record WireRequest : Type 0 where
  pub method : Method
  pub path : List Segment
  pub body : JsonObject
  pub idempotency_key : Option ℕ

-- The functions of `authApi`, `eventsApi`, `bookingsApi`, `paymentsApi` and `adminApi`.
pub data ApiCall : Type 0 where
  login : (email password : String) → ApiCall
  register : (email password name : String) → ApiCall
  refresh : (refresh_token : String) → ApiCall
  logout : ApiCall
  list_events : ApiCall
  get_event_by_id get_seats : ℕ → ApiCall
  create : (event_id seat_id key : ℕ) → ApiCall
  list_bookings : ApiCall
  cancel initiate : ℕ → ApiCall
  simulate : ℕ → Bool → ApiCall
  dashboard : ApiCall
  audit queue : ℕ → ApiCall

abbrev pub plain : Method → List Segment → WireRequest
plain method path = record {
  method = method;
  path = word "api" ∷ path;
  body = [];
  idempotency_key = none;
}

unfoldable pub wire : ApiCall → WireRequest
wire (login email password) = record (plain post (word "auth" ∷ word "login" ∷ [])) {
  body = ("email", text_value email) ∷ ("password", text_value password) ∷ [];
}
wire (register email password name) = record (plain post (word "auth" ∷ word "register" ∷ [])) {
  body =
      ("email", text_value email)
      ∷ ("password", text_value password)
      ∷ ("name", text_value name)
      ∷ [];
}
wire (refresh refresh_token) = record (plain post (word "auth" ∷ word "refresh" ∷ [])) {
  body = ("refreshToken", text_value refresh_token) ∷ [];
}
wire logout = plain post (word "auth" ∷ word "logout" ∷ [])
wire list_events = plain get (word "events" ∷ [])
wire (get_event_by_id k) = plain get (word "events" ∷ ident k ∷ [])
wire (get_seats k) = plain get (word "events" ∷ ident k ∷ word "seats" ∷ [])
wire (create event_id seat_id key) = record (plain post (word "bookings" ∷ [])) {
  body = ("event_id", ident_value event_id) ∷ ("seat_id", ident_value seat_id) ∷ [];
  idempotency_key = some key;
}
wire list_bookings = plain get (word "bookings" ∷ [])
wire (cancel k) = plain delete (word "bookings" ∷ ident k ∷ [])
wire (initiate k) = plain post (word "payments" ∷ word "initiate" ∷ ident k ∷ [])
wire (simulate k success) = record (plain post (word "payments" ∷ word "simulate" ∷ ident k ∷ [])) {
  body = ("success", flag_value success) ∷ [];
}
wire dashboard = plain get (word "admin" ∷ word "dashboard" ∷ [])
wire (audit k) = plain get (word "admin" ∷ word "audit" ∷ ident k ∷ [])
wire (queue k) = plain get (word "admin" ∷ word "queue" ∷ ident k ∷ [])

-- The checks of bodies: a field is looked up, and has the wanted type.
unfoldable pub field_of : String → JsonObject → Option Json
field_of name [] = none
field_of name ((n, v) ∷ rest) = if str_eq n name then some v else field_of name rest

abbrev pub as_ident : Option Json → Option ℕ
as_ident (some (ident_value k)) = some k
as_ident _ = none

abbrev pub as_flag : Option Json → Option Bool
as_flag (some (flag_value b)) = some b
as_flag _ = none

abbrev pub booking_of : Option ℕ → Option ℕ → Option CreateBookingRequest
booking_of (some e) (some s) = some (record { event_id = e; seat_id = s })
booking_of _ _ = none

-- `CreateBookingSchema` and `SimulateSchema`
unfoldable pub check_booking : JsonObject → Option CreateBookingRequest
unfolding field_of
check_booking body =
    booking_of (as_ident (field_of "event_id" body)) (as_ident (field_of "seat_id" body))

unfoldable pub check_simulate : JsonObject → Option Bool
unfolding field_of
check_simulate body = as_flag (field_of "success" body)

-- What a request is served by: one of the routes of auth.ts, with the body, or a request of the other
-- routers.
pub data Service : Type 0 where
  login_route register_route refresh_route : JsonObject → Service
  logout_route : Service
  routed : Request → Service

unfoldable pub auth_router : Method → List Segment → JsonObject → Option Service
auth_router post (word w ∷ []) body =
    if str_eq w "register"
    then some (register_route body)
    else if str_eq w "login"
    then some (login_route body)
    else if str_eq w "refresh"
    then some (refresh_route body)
    else if str_eq w "logout"
    then some logout_route
    else none
auth_router _ _ body = none

unfoldable pub bookings_router : Method → List Segment → JsonObject → Option ℕ → Option Service
unfolding check_booking
bookings_router post [] body key = some (routed (Request.book_seat (check_booking body) key))
bookings_router get [] body key = some (routed Request.list_bookings)
bookings_router delete (ident k ∷ []) body key = some (routed (Request.cancel k))
bookings_router _ _ body key = none

unfoldable pub payments_router : Method → List Segment → JsonObject → Option Service
unfolding check_simulate
payments_router post (word w ∷ ident k ∷ []) body =
    if str_eq w "initiate"
    then some (routed (Request.initiate k))
    else if str_eq w "simulate"
    then some (routed (Request.simulate k (check_simulate body)))
    else none
payments_router _ _ body = none

unfoldable pub admin_router : Method → List Segment → Option Service
admin_router get (word w ∷ []) =
    if str_eq w "dashboard" then some (routed Request.show_dashboard) else none
admin_router get (word w ∷ ident k ∷ []) =
    if str_eq w "audit"
    then some (routed (Request.show_audit k))
    else if str_eq w "queue"
    then some (routed (Request.show_queue k))
    else none
admin_router _ _ = none

module _ (check_event : JsonObject → Option CreateEventInput) where
  unfoldable pub events_router : Method → List Segment → JsonObject → Option Service
  events_router get [] body = some (routed Request.list_events)
  events_router get (ident k ∷ []) body = some (routed (Request.show_event k))
  events_router get (ident k ∷ word w ∷ []) body =
      if str_eq w "seats" then some (routed (Request.list_seats k)) else none
  events_router post [] body = some (routed (Request.open_event (check_event body)))
  events_router _ _ body = none

  -- The routers under /api, as server.ts mounts them.
  unfoldable pub mounted : String → Method → List Segment → JsonObject → Option ℕ → Option Service
  unfolding auth_router events_router bookings_router payments_router admin_router
  mounted name method path body key =
      if str_eq name "auth"
      then auth_router method path body
      else if str_eq name "events"
      then events_router method path body
      else if str_eq name "bookings"
      then bookings_router method path body key
      else if str_eq name "payments"
      then payments_router method path body
      else if str_eq name "admin"
      then admin_router method path
      else none

  unfoldable pub at_path : List Segment → Method → JsonObject → Option ℕ → Option Service
  unfolding mounted
  at_path (word api ∷ word name ∷ path) method body key =
      if str_eq api "api" then mounted name method path body key else none
  at_path _ method body key = none

  unfoldable pub served : WireRequest → Option Service
  unfolding at_path
  served r = at_path r.path r.method r.body r.idempotency_key
