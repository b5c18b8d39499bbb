-- ===== src/Sockets/Privacy.antt =====
-- Whom the messages to single users reach.
use ticketvault.Prelude.{
  ℕ, ◌≡◌, refl, ap, Bool, not, List, [], ◌∷◌, Option, none, some, ◌==◌, ◌||◌, arith, Bool-cases,
  inl, inr, ltb, length,
}
use ticketvault.Prelude.{◌∙◌}
use ticketvault.Table.{select, update_where}
use ticketvault.Accounts.{AuthPayload, Crypto}
use ticketvault.World.{waitlist_offered}
use ticketvault.Sockets.{
  Room, of_user, of_event, same_room, Socket, Server, is_in, init_server, close_server, admit,
  connect, join, leave, subscribe, unsubscribe, disconnect, rooms_of, is_reached, recipients,
  fetch_sockets, is_user_online,
}

-- What happens to the server.
pub data Step (crypto : Crypto) : Server → Server → Type 0 where
  starts : {io : Server} → Step crypto io init_server
  closes : {io : Server} → Step crypto io (close_server io)
  connects : {io : Server} (id : ℕ) (token : Option ℕ) → Step crypto io (connect crypto id token io)
  subscribes : {io : Server} (id event_id : ℕ) → Step crypto io (subscribe id event_id io)
  unsubscribes : {io : Server} (id event_id : ℕ) → Step crypto io (unsubscribe id event_id io)
  disconnects : {io : Server} (id : ℕ) → Step crypto io (disconnect id io)

pub data Reach (crypto : Crypto) : Server → Type 0 where
  idle : Reach crypto none
  go_on : {io next : Server} → Reach crypto io → Step crypto io next → Reach crypto next

-- A socket is in the room of its own user and of no other.
abbrev IsPersonal : Socket → Type 0
IsPersonal s = (k : ℕ) → is_in (of_user k) s.rooms ≡ (k == s.user.user_id)

abbrev AllPersonal : List Socket → Type 0
AllPersonal [] = Unit
AllPersonal (s ∷ ss) = IsPersonal s × AllPersonal ss

abbrev IsPrivate : Server → Type 0
IsPrivate none = Unit
IsPrivate (some sockets) = AllPersonal sockets

is_in-leave :
    (k event_id : ℕ) (rooms : List Room)
    → is_in (of_user k) (select (λ q. not (same_room (of_event event_id) q)) rooms)
      ≡ is_in (of_user k) rooms
unfolding is_in select
is_in-leave k e [] = refl
is_in-leave k e (of_user j ∷ rooms) = ap (λ (b : Bool). (k == j) || b) (is_in-leave k e rooms)
is_in-leave k e (of_event j ∷ rooms) = ground (arith, is_in-leave k e rooms)

join-IsPersonal :
    (event_id : ℕ) (s : Socket) → IsPersonal s → IsPersonal (join (of_event event_id) s)
unfolding is_in
join-IsPersonal e s h k = h k

leave-IsPersonal :
    (event_id : ℕ) (s : Socket) → IsPersonal s → IsPersonal (leave (of_event event_id) s)
leave-IsPersonal e s h k = is_in-leave k e s.rooms ∙ h k

update-AllPersonal :
    (p : Socket → Bool) (f : Socket → Socket)
    → ((s : Socket) → IsPersonal s → IsPersonal (f s))
    → (ss : List Socket) → AllPersonal ss
    → AllPersonal (update_where p f ss)
unfolding update_where
update-AllPersonal p f keeps [] h = tt
update-AllPersonal p f keeps (s ∷ ss) (own, h) = elim (Bool-cases (p s)) [
  | inl hit ↦ rw hit (keeps s own, update-AllPersonal p f keeps ss h)
  | inr miss ↦ rw miss (own, update-AllPersonal p f keeps ss h)
]

select-AllPersonal :
    (p : Socket → Bool) (ss : List Socket) → AllPersonal ss → AllPersonal (select p ss)
unfolding select
select-AllPersonal p [] h = tt
select-AllPersonal p (s ∷ ss) (own, h) = elim (Bool-cases (p s)) [
  | inl hit ↦ rw hit (own, select-AllPersonal p ss h)
  | inr miss ↦ rw miss (select-AllPersonal p ss h)
]

admit-IsPrivate :
    (id : ℕ) (user : Option AuthPayload) (io : Server) → IsPrivate io → IsPrivate (admit id user io)
unfolding admit is_in
admit-IsPrivate id none io h = h
admit-IsPrivate id (some user) none h = h
admit-IsPrivate id (some user) (some ss) h = (λ k. ground arith, h)

Step-IsPrivate :
    {crypto : Crypto} {io next : Server} → Step crypto io next → IsPrivate io → IsPrivate next
unfolding init_server close_server connect subscribe unsubscribe disconnect
Step-IsPrivate starts h = tt
Step-IsPrivate closes h = tt
Step-IsPrivate {io = io} (connects id none) h = h
Step-IsPrivate {crypto} {io = io} (connects id (some token)) h =
    admit-IsPrivate id (crypto.verify token) io h
Step-IsPrivate {io = none} (subscribes id e) h = tt
Step-IsPrivate {io = some ss} (subscribes id e) h =
    update-AllPersonal _ (join (of_event e)) (join-IsPersonal e) ss h
Step-IsPrivate {io = none} (unsubscribes id e) h = tt
Step-IsPrivate {io = some ss} (unsubscribes id e) h =
    update-AllPersonal _ (leave (of_event e)) (leave-IsPersonal e) ss h
Step-IsPrivate {io = none} (disconnects id) h = tt
Step-IsPrivate {io = some ss} (disconnects id) h = select-AllPersonal _ ss h

Reach-IsPrivate : {crypto : Crypto} {io : Server} → Reach crypto io → IsPrivate io
Reach-IsPrivate idle = tt
Reach-IsPrivate (go_on before step) = Step-IsPrivate step (Reach-IsPrivate before)

-- The sockets of a user.
abbrev pub sockets_of_user : ℕ → Server → List Socket
sockets_of_user user_id none = []
sockets_of_user user_id (some sockets) = select (λ s. user_id == s.user.user_id) sockets

select-same :
    (p q : Socket → Bool) (ss : List Socket)
    → AllPersonal ss
    → ((s : Socket) → IsPersonal s → p s ≡ q s)
    → select p ss ≡ select q ss
unfolding select
select-same p q [] h same = refl
select-same p q (s ∷ ss) (own, h) same = rw (same s own, select-same p q ss h same) refl

-- After any sequence of starts, connections, subscriptions and their ends, an offer of a seat reaches
-- exactly the sockets whose token is one of the user who is offered it, and the user counts as online
-- exactly if there is such a socket.
pub offers_private :
    {crypto : Crypto} {io : Server}
    → Reach crypto io
    → (user_id booking_id event_id number : ℕ) (section : Prim.Native.String.String)
      (expires_at : ℕ)
    → (recipients (waitlist_offered user_id booking_id event_id number section expires_at) io
        ≡ sockets_of_user user_id io)
      × (is_user_online user_id io ≡ ltb 0 (length (sockets_of_user user_id io)))
unfolding recipients is_user_online fetch_sockets rooms_of is_reached
offers_private {io = none} before u b e n sec x = (refl, refl)
offers_private {io = some ss} before u b e n sec x =
    let personal = Reach-IsPrivate before in
    (
      select-same _ _ ss personal (λ s own. ground (arith, own u)),
      ap (λ (l : List Socket). ltb 0 (length l)) (select-same _ _ ss personal (λ s own. own u)),
    )
