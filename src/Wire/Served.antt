-- ===== src/Wire/Served.antt =====
-- Each call of the frontend is served by the route that it is meant for.
use ticketvault.Prelude.{◌≡◌, refl, [], ◌∷◌, Option, some}
use ticketvault.Events.Creation.{CreateEventInput}
use ticketvault.Http.{Request}
use ticketvault.Wire.{
  JsonObject, text_value, ApiCall, login, register, refresh, logout, list_events, get_event_by_id,
  get_seats, create, list_bookings, cancel, initiate, simulate, dashboard, audit, queue, wire,
  Service, login_route, register_route, refresh_route, logout_route, routed, served,
}

-- What a call asks the server for.
abbrev pub meant : ApiCall → Service
meant (login email password) =
    login_route (("email", text_value email) ∷ ("password", text_value password) ∷ [])
meant (register email password name) = register_route (
    ("email", text_value email)
    ∷ ("password", text_value password)
    ∷ ("name", text_value name)
    ∷ [])
meant (refresh refresh_token) = refresh_route (("refreshToken", text_value refresh_token) ∷ [])
meant logout = logout_route
meant list_events = routed Request.list_events
meant (get_event_by_id k) = routed (Request.show_event k)
meant (get_seats k) = routed (Request.list_seats k)
meant (create event_id seat_id key) =
    routed (Request.book_seat (some (record { event_id = event_id; seat_id = seat_id })) (some key))
meant list_bookings = routed Request.list_bookings
meant (cancel k) = routed (Request.cancel k)
meant (initiate k) = routed (Request.initiate k)
meant (simulate k success) = routed (Request.simulate k (some success))
meant dashboard = routed Request.show_dashboard
meant (audit k) = routed (Request.show_audit k)
meant (queue k) = routed (Request.show_queue k)

-- Every call of the frontend reaches the route that it is meant for, by its method and path, with the
-- parameters of the call: the body of a booking or of a payment passes the check of the route and is read
-- as it was given, and the body of a route of auth.ts is the one that was sent.
pub calls_served :
    (check_event : JsonObject → Option CreateEventInput) (c : ApiCall)
    → served check_event (wire c) ≡ some (meant c)
unfolding served wire
calls_served check_event (login email password) = refl
calls_served check_event (register email password name) = refl
calls_served check_event (refresh refresh_token) = refl
calls_served check_event logout = refl
calls_served check_event list_events = refl
calls_served check_event (get_event_by_id k) = refl
calls_served check_event (get_seats k) = refl
calls_served check_event (create e s key) = refl
calls_served check_event list_bookings = refl
calls_served check_event (cancel k) = refl
calls_served check_event (initiate k) = refl
calls_served check_event (simulate k success) = refl
calls_served check_event dashboard = refl
calls_served check_event (audit k) = refl
calls_served check_event (queue k) = refl
