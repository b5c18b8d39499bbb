-- ===== src/Sockets.antt =====
-- The connections of backend/src/services/websocket/wsService.ts: who joins which room, and whom a
-- message reaches. socket.io delivers a message to each socket that is in one of its rooms.
pub mod Privacy
use ticketvault.Prelude.{
  ℕ, ◌≡◌, refl, ap, Bool, true, false, not, List, [], ◌∷◌, map, Option, none, some, ◌==◌, ◌&&◌,
  ◌||◌, ltb, length, if◌then◌else◌, arith, Bool-cases, inl, inr,
}
use ticketvault.Table.{select, update_where}
use ticketvault.Accounts.{AuthPayload, Crypto}
use ticketvault.World.{Message, seat_updated, inventory_updated, waitlist_offered, seat_available}

-- The rooms `user:<id>` and `event:<id>`.
pub data Room : Type 0 where
  of_user of_event : ℕ → Room

abbrev pub same_room : Room → Room → Bool
same_room (of_user j) (of_user k) = j == k
same_room (of_event j) (of_event k) = j == k
same_room _ _ = false

pub record Socket : Type 0 where
  pub id : ℕ
  pub user : AuthPayload
  pub rooms : List Room

-- `io`, with the sockets that are connected to any instance.
abbrev pub Server : Type 0
Server = Option (List Socket)

unfoldable pub is_in : Room → List Room → Bool
is_in r [] = false
is_in r (q ∷ qs) = same_room r q || is_in r qs

unfoldable pub init_server : Server
init_server = some []

unfoldable pub close_server : Server → Server
close_server io = none

abbrev pub on_sockets : (List Socket → List Socket) → Server → Server
on_sockets f none = none
on_sockets f (some sockets) = some (f sockets)

-- The handshake: a socket whose token is missing or not in order is refused, any other joins the
-- room of its user.
unfoldable pub admit : (id : ℕ) → Option AuthPayload → Server → Server
admit id none io = io
admit id (some user) io =
    on_sockets (λ ss. record { id = id; user = user; rooms = of_user user.user_id ∷ [] } ∷ ss) io

unfoldable pub connect : Crypto → (id : ℕ) → Option ℕ → Server → Server
connect crypto id none io = io
connect crypto id (some token) io = admit id (crypto.verify token) io

abbrev pub join : Room → Socket → Socket
join r s = record s { rooms = r ∷ s.rooms }

abbrev pub leave : Room → Socket → Socket
leave r s = record s { rooms = select (λ q. not (same_room r q)) s.rooms }

unfoldable pub subscribe : (id event_id : ℕ) → Server → Server
subscribe id event_id io = on_sockets (update_where (λ s. s.id == id) (join (of_event event_id))) io

unfoldable pub unsubscribe : (id event_id : ℕ) → Server → Server
unsubscribe id event_id io =
    on_sockets (update_where (λ s. s.id == id) (leave (of_event event_id))) io

unfoldable pub disconnect : (id : ℕ) → Server → Server
disconnect id io = on_sockets (select (λ s. not (s.id == id))) io

-- The rooms that `broadcastSeatUpdate`, `broadcastInventoryUpdate`, `notifyWaitlistOffer` and
-- `notifySeatAvailable` send to.
unfoldable pub rooms_of : Message → List Room
rooms_of (seat_updated event_id seat_id status number section) = of_event event_id ∷ []
rooms_of (inventory_updated event_id remaining price) = of_event event_id ∷ []
rooms_of (waitlist_offered user_id booking_id event_id number section expires_at) =
    of_user user_id ∷ []
rooms_of (seat_available user_ids event_id seat_id number section) = map of_user user_ids

unfoldable pub is_reached : List Room → Socket → Bool
is_reached [] s = false
is_reached (r ∷ rs) s = is_in r s.rooms || is_reached rs s

-- The sockets that get a message.
unfoldable pub recipients : Message → Server → List Socket
recipients m none = []
recipients m (some sockets) = select (is_reached (rooms_of m)) sockets

unfoldable pub fetch_sockets : Room → Server → List Socket
fetch_sockets r none = []
fetch_sockets r (some sockets) = select (λ s. is_in r s.rooms) sockets

unfoldable pub is_user_online : ℕ → Server → Bool
is_user_online user_id io = ltb 0 (length (fetch_sockets (of_user user_id) io))
