-- ===== src/Frontend/Messages.antt =====
-- What a page makes of the messages of the server: frontend/src/hooks/useWebSocket.ts.
use Prim.Native.String.{String}
use ticketvault.Prelude.{
  ℕ, ◌+◌, ◌-◌, ◌/◌, Bool, List, [], ◌∷◌, Option, some, ltb, if◌then◌else◌, is_some, ◌&&◌,
}
use ticketvault.World.{Message, seat_updated, inventory_updated, waitlist_offered, seat_available}
use ticketvault.Frontend.{BookingStore, update_seat_status, update_inventory, set_active_booking}

-- The toasts that stand on the page.
pub data Notice : Type 0 where
  seat_offered : (section : String) → (seat_number minutes booking_id : ℕ) → Notice
  seat_on_sale : (section : String) → (seat_number : ℕ) → Notice

pub record PageState : Type 0 where
  pub store : BookingStore
  pub notices : List Notice

-- `Math.round((expiresAt - Date.now()) / 60_000)`, at least 1; a time that is over gives 1 too.
unfoldable pub minutes_to_pay : (expires_at now : ℕ) → ℕ
minutes_to_pay expires_at now =
    let minutes = ((expires_at - now) + 30000) / 60000 in if ltb 1 minutes then minutes else 1

-- The handlers of the four messages.
unfoldable pub receive : ℕ → Message → PageState → PageState
receive now (seat_updated event_id seat_id status number section) p = record p {
  store = update_seat_status seat_id status p.store;
}
receive now (inventory_updated event_id remaining price) p = record p {
  store = update_inventory remaining price p.store;
}
receive now (waitlist_offered user_id booking_id event_id number section expires_at) p = record {
  store = set_active_booking (some booking_id) expires_at p.store;
  notices = seat_offered section number (minutes_to_pay expires_at now) booking_id ∷ p.notices;
}
receive now (seat_available user_ids event_id seat_id number section) p = record p {
  notices = seat_on_sale section number ∷ p.notices;
}

-- What comes over a connection, the newest message first.
unfoldable pub receive_all : ℕ → List Message → PageState → PageState
receive_all now [] p = p
receive_all now (m ∷ ms) p = receive now m (receive_all now ms p)

-- A socket is opened for the page of an event, once the visitor has a token.
unfoldable pub opens_socket : Option ℕ → Option ℕ → Bool
opens_socket event_id token = is_some event_id && is_some token
