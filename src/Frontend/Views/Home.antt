-- ===== src/Frontend/Views/Home.antt =====
-- What frontend/src/pages/HomePage.tsx shows; the description of an event is not among its columns here.
use ticketvault.Prelude.{
  ℕ, ◌≡◌, refl, ap, ◌∙◌, Bool, true, false, not, List, [], ◌∷◌, ◌++◌, map, length, Bool-cases, inl,
  inr, ◌&&◌, ltb, if◌then◌else◌,
}
use mathlib.Core.List.{append-nil}
use ticketvault.Listing.{ListedEvent}
use ticketvault.Frontend.Pages.{is_surge}
use ticketvault.Frontend.Session.{Location, event_path}
use ticketvault.Frontend.Dashboard.{Cell, as_text, value, is_sold_out, sold_percent}
use ticketvault.Frontend.Views.{
  Label, text, number, moment, skeleton, shows, link, button, field, View, when, each,
}
use ticketvault.Frontend.Views.Badges.{surge_badge}

-- An event as the answer of the server brings it: the count of free seats is a text, and there is no
-- current price.
pub record HomeEvent : Type 0 where
  pub listed : ListedEvent
  pub available_seats : Cell

abbrev pub received : ListedEvent → HomeEvent
received l = record { listed = l; available_seats = as_text l.available_seats }

pub record HomePage : Type 0 where
  pub events : List HomeEvent
  pub loading : Bool

unfoldable pub is_low_event : HomeEvent → Bool
is_low_event e =
    ltb 70 (sold_percent e.listed.row.total_seats e.available_seats)
    && not (is_sold_out e.available_seats)

abbrev pub has_none : List HomeEvent → Bool
has_none [] = true
has_none (e ∷ es) = false

-- The page has no buttons.
abbrev pub NoAct : Type 0
NoAct = Unit {0}

-- `EventCard`
unfoldable pub event_card : HomeEvent → View NoAct
event_card e =
    let row = e.listed.row in
    (if is_sold_out e.available_seats
      then shows (text "Sold Out") ∷ []
      else if is_low_event e
      then shows (number (value e.available_seats)) ∷ shows (text "left") ∷ []
      else shows (number (value e.available_seats)) ∷ shows (text "seats") ∷ [])
    ++ shows (text row.name)
      ∷ shows (text row.venue)
      ∷ shows (moment row.starts_at)
      ∷ shows (number row.total_seats)
      ∷ shows (text "total seats")
      ∷ surge_badge row.base_price row.base_price
    ++ link (event_path row.id)
        (text (if is_sold_out e.available_seats then "Join Waitlist" else "Select Seats") ∷ [])
      ∷ []

abbrev pub hero : View NoAct
hero =
    shows (text "Concurrency-safe booking")
    ∷ shows (text "Find Your Next Live Experience")
    ∷ shows (text "Atomic seat reservations. Zero double-bookings.")
    ∷ shows (text "Real-time seat maps powered by WebSocket.")
    ∷ shows (text "155ms")
    ∷ shows (text "p99 booking latency")
    ∷ shows (text "0")
    ∷ shows (text "double-bookings")
    ∷ shows (text "500")
    ∷ shows (text "concurrent users tested")
    ∷ shows (text "550/s")
    ∷ shows (text "sustained throughput")
    ∷ shows (text "Idempotent retries")
    ∷ shows (text "10-min seat hold")
    ∷ shows (text "Surge pricing live")
    ∷ shows (text "Waitlist queue")
    ∷ []

unfoldable pub home_page : HomePage → View NoAct
home_page p =
    hero
    ++ shows (text "Upcoming Events")
      ∷ (if p.loading
          then shows (text "—") ∷ []
          else shows (number (length p.events)) ∷ shows (text "available") ∷ [])
    ++ (if p.loading
        then shows skeleton ∷ shows skeleton ∷ shows skeleton ∷ []
        else each event_card p.events)
    ++ when (not p.loading && has_none p.events) (
        shows (text "No events yet")
        ∷ shows (text "Check back soon or log in as admin to create one.")
        ∷ [])

-- What the links of a page say, with where they lead.
unfoldable pub link_labels : {Act : Type 0} → View Act → List (Location × List Label)
link_labels [] = []
link_labels (link to ls ∷ es) = (to, ls) ∷ link_labels es
link_labels (e ∷ es) = link_labels es

link_labels-append :
    {Act : Type 0} (v w : View Act) → link_labels (v ++ w) ≡ link_labels v ++ link_labels w
unfolding link_labels
link_labels-append [] w = refl
link_labels-append (shows l ∷ v) w = link_labels-append v w
link_labels-append (link to ls ∷ v) w =
    ap (λ (rest : List (Location × List Label)). (to, ls) ∷ rest) (link_labels-append v w)
link_labels-append (button act b ls ∷ v) w = link_labels-append v w
link_labels-append (field n x q ∷ v) w = link_labels-append v w

badge_links : (b p : ℕ) → link_labels {Act = NoAct} (surge_badge b p) ≡ []
unfolding surge_badge link_labels
badge_links b p = elim (Bool-cases (is_surge b p)) [
  | inl surge ↦ rw surge refl
  | inr plain ↦ rw plain refl
]

abbrev pub select_seats : ListedEvent → Location × List Label
select_seats l = (event_path l.row.id, text "Select Seats" ∷ [])

card_links :
    (l : ListedEvent) → link_labels {Act = NoAct} (event_card (received l)) ≡ select_seats l ∷ []
unfolding event_card link_labels is_sold_out
card_links l = elim (Bool-cases (is_low_event (received l))) [
  | inl low ↦
      rw
        (
          low,
          link_labels-append {Act = NoAct} (surge_badge l.row.base_price l.row.base_price),
          badge_links l.row.base_price l.row.base_price,
        )
        refl
  | inr high ↦
      rw
        (
          high,
          link_labels-append {Act = NoAct} (surge_badge l.row.base_price l.row.base_price),
          badge_links l.row.base_price l.row.base_price,
        )
        refl
]

cards_links :
    (ls : List ListedEvent)
    → link_labels {Act = NoAct} (each event_card (map received ls)) ≡ map select_seats ls
unfolding each link_labels
cards_links [] = refl
cards_links (l ∷ ls) =
    link_labels-append (event_card (received l)) (each event_card (map received ls))
    ∙ (ap
          (λ (first : List (Location × List Label)).
            first ++ link_labels {Act = NoAct} (each event_card (map received ls)))
          (card_links l)
        ∙ ap (λ (rest : List (Location × List Label)). select_seats l ∷ rest) (cards_links ls))

-- Whatever events the server lists, and however few of their seats are free, the home page offers to
-- select seats of each of them, in their order, and never to join a waiting list.
pub home_offers_seats :
    (ls : List ListedEvent)
    → link_labels {Act = NoAct} (home_page (record { events = map received ls; loading = false }))
      ≡ map select_seats ls
unfolding home_page link_labels each
home_offers_seats [] = refl
home_offers_seats (l ∷ ls) =
    link_labels-append {Act = NoAct} (each event_card (map received (l ∷ ls))) []
    ∙ (append-nil _ ∙ cards_links (l ∷ ls))
