-- ===== src/Frontend/Live.antt =====
-- A page that watches an event: the messages that its socket gets, and what it shows after a booking.
use ticketvault.Prelude.{
  ℕ, ◌≡◌, ◌⊎◌, inl, inr, ap, sym, ◌∙◌, sym, refl, true, List, ◌∷◌, none, some, ok, arith,
}
use ticketvault.Types.{SeatStatus, Booking, BookingStatus, CreateBookingRequest, BookingResponse}
use ticketvault.Table.{select}
use ticketvault.Redis.{Redis, seat_inventory, idempotency, number}
use ticketvault.World.{World, Message, inventory_updated, seat_updated}
use ticketvault.Booking.{Env, FreedSeat}
use ticketvault.Db.{Db, booking_at, booking_key}
use ticketvault.Table.Keyed.{find-key}
use ticketvault.Offers.{offer_to_waiter}
use ticketvault.Service.Offered.{IsReleased, offer_messages, offer_to_waiter_lem}
use ticketvault.Service.{Polls, create_booking}
use ticketvault.Offers.{Config}
use ticketvault.Service.Answered.{create_booking-IsAnnounced}
use ticketvault.Sockets.{Socket, of_event, of_user, is_in, is_reached, rooms_of}
use ticketvault.Frontend.{BookingStore, set_active_booking, update_seat_status, update_inventory}
use ticketvault.Frontend.Messages.{PageState, receive, receive_all}

-- The page of a socket, once it has got all messages that have reached it.
unfoldable pub page_of : ℕ → Socket → PageState → List Message → PageState
page_of now socket start sent =
    receive_all now (select (λ m. is_reached (rooms_of m) socket) sent) start

module _ (R : Redis) (cfg : Config) (env : Env) (user_id : ℕ) (request : CreateBookingRequest)
    (key : ℕ) (now : ℕ) (socket : Socket) (start : PageState) where
  open R use {Store, get}

  watches_announced :
      (before : List Message)
      → is_in (of_event request.event_id) socket.rooms ≡ true
      → (remaining price seat_number : ℕ) (section : Prim.Native.String.String)
      → page_of now socket start (
          inventory_updated request.event_id remaining price
          ∷ seat_updated request.event_id request.seat_id SeatStatus.reserved seat_number section
          ∷ before)
        ≡ receive now (inventory_updated request.event_id remaining price) (
            receive now
              (seat_updated request.event_id request.seat_id SeatStatus.reserved seat_number
                section)
              (page_of now socket start before))
  unfolding page_of receive_all is_reached rooms_of select
  watches_announced before watches remaining price seat_number section = rw watches refl

  -- A page that is subscribed to the event of a request and gets its messages shows, once a request
  -- under a free key is answered with a booking, the seat as reserved and the number that the counter
  -- of the event then has.
  pub page_follows_booking :
      (polls : Polls) (w : World Store) (b : BookingResponse) (k : ℕ)
      → is_in (of_event request.event_id) socket.rooms ≡ true
      → get w.redis (idempotency user_id key) ≡ none
      → (create_booking R cfg env polls user_id request key w).0 ≡ ok b
      → b.booking_id ≡ some k
      → let after = (create_booking R cfg env polls user_id request key w).1 in
        let store = (page_of now socket start after.sent).store in
        (store.seat_statuses request.seat_id ≡ some SeatStatus.reserved)
        × ((n : ℕ) × (store.inventory_remaining ≡ some n)
            × (get after.redis (seat_inventory request.event_id) ≡ some (number n)))
  unfolding receive update_seat_status update_inventory
  page_follows_booking polls w b k watches free answers names =
      let (n, price, seat_number, section, counted, told) =
        create_booking-IsAnnounced R cfg env user_id request key polls w b k free answers names in
      rw (told, watches_announced w.sent watches n price seat_number section)
        (ground arith, (n, refl, counted))

module _ (R : Redis) (cfg : Config) (env : Env) (user_id : ℕ) (seat : FreedSeat) (now : ℕ)
    (socket : Socket) (start : PageState) where
  open R use {Store}

  -- The page shows a booking of the tables as the user's own, with the time at which it ends.
  abbrev pub ShowsOffer : Db → BookingStore → Type 0
  ShowsOffer db shown =
      (b : Booking) × (booking_at env.uuid db ≡ some b)
      × (b.user_id ≡ user_id)
      × (b.seat_id ≡ seat.seat_id)
      × (b.status ≡ BookingStatus.pending)
      × (shown.active_booking_id ≡ some b.id)
      × (shown.reservation_expires_at ≡ some b.expires_at)

  offer_shown :
      (expires_at : ℕ) (before : List Message)
      → is_in (of_user user_id) socket.rooms ≡ true
      → let shown =
          (page_of now socket start
            (offer_messages R cfg env user_id seat expires_at before)).store in
        (shown.active_booking_id ≡ some env.uuid) × (shown.reservation_expires_at ≡ some expires_at)
  unfolding page_of receive_all receive is_reached rooms_of select set_active_booking
  offer_shown expires_at before own = rw own (refl, refl)

  -- An offer of a freed seat to a user either leaves the tables as they were and raises the counter of
  -- its event, or holds it: then every page of the user that gets its messages shows the booking that
  -- the tables hold for the user, pending, and the time at which it ends.
  pub page_follows_offer :
      (w : World Store)
      → is_in (of_user user_id) socket.rooms ≡ true
      → let after = (offer_to_waiter R cfg env user_id seat w).1 in
        IsReleased R cfg env user_id seat w after
        ⊎ ShowsOffer after.db (page_of now socket start after.sent).store
  page_follows_offer w own = elim (offer_to_waiter_lem R cfg env user_id seat w) [
    | inl released ↦ inl released
    | inr (b, found, owner, place, pending, sent) ↦
        let (active, ends) = offer_shown b.expires_at w.sent own in
        let named = sym (find-key booking_key env.uuid _ found) in
        inr (b, found, owner, place, pending, rw sent (active ∙ ap some named), rw sent ends)
  ]
