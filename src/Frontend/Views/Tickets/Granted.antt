-- ===== src/Frontend/Views/Tickets/Granted.antt =====
-- The server grants every cancellation that the page of a user's bookings offers.
use ticketvault.Prelude.{
  ℕ, ◌≡◌, refl, ap, ◌∙◌, sym, inl, inr, true, List, [], ◌∷◌, map, some, ok, arith, ◌==◌, Bool-cases,
}
use mathlib.Core.Path.{subst}
use ticketvault.Types.{Booking, is_active}
use ticketvault.Table.{select}
use ticketvault.Table.Keyed.{find-update}
use ticketvault.Table.Found.{All, All-weaken, All-select, All-found, find-both}
use ticketvault.Db.{Db, booking_key, seat_key, booking_at, free_seat, with_transaction}
use ticketvault.Db.Invariant.{IsConsistent}
use ticketvault.Booking.{FreedSeat, cancel_transaction}
use ticketvault.Booking.Endings.{active_seat, freed_seat}
use ticketvault.Listing.{UserBooking, get_user_bookings, HasBoth, get_user_bookings_lem}
use ticketvault.Frontend.Pages.{active_bookings}
use ticketvault.Frontend.Views.{enabled_acts}
use ticketvault.Frontend.Views.Tickets.{
  TicketAct, cancel, bookings_page, loaded_page, offers, page_acts,
}

-- The transaction of the cancellation goes through.
abbrev pub Granted : ℕ → Db → TicketAct → Type 0
Granted user_id db (cancel k) =
    (freed : FreedSeat) × ((with_transaction (cancel_transaction k user_id) db).0 ≡ ok freed)

cancel-Granted :
    (user_id : ℕ) (db : Db) (b : Booking)
    → IsConsistent db
    → booking_at b.id db ≡ some b
    → (b.user_id == user_id) ≡ true
    → is_active b.status ≡ true
    → Granted user_id db (cancel b.id)
unfolding with_transaction cancel_transaction
cancel-Granted user_id db b c found own active =
    let both = find-both booking_key (λ x. x.user_id == user_id) b.id db.bookings b found own in
    let (s, seat) = active_seat db b.id b c found active in
    (
      freed_seat b s,
      ground (arith, find-update seat_key b.seat_id b.seat_id free_seat db.seats (λ x. refl)),
    )

offers-booking :
    (bs : List UserBooking)
    → offers (active_bookings bs)
      ≡ map
          (λ (b : Booking). cancel b.id)
          (select (λ (b : Booking). is_active b.status) (map (λ (r : UserBooking). r.booking) bs))
unfolding active_bookings select
offers-booking [] = refl
offers-booking (b ∷ bs) = elim (Bool-cases (is_active b.booking.status)) [
  | inl active ↦
      rw active (ap (λ (rest : List TicketAct). cancel b.booking.id ∷ rest) (offers-booking bs))
  | inr past ↦ rw past (offers-booking bs)
]

All-map :
    {A B : Type 0} (P : B → Type 0) (f : A → B) (xs : List A)
    → All (λ x. P (f x)) xs
    → All P (map f xs)
All-map P f [] all = tt
All-map P f (x ∷ xs) (p, all) = (p, All-map P f xs all)

-- The bookings of a user that may still be cancelled.
abbrev pub cancellable : ℕ → Db → List Booking
cancellable user_id db =
    select (λ b. is_active b.status) (select (λ b. b.user_id == user_id) db.bookings)

-- If every booking names a seat and an event that are there, the page of a user's bookings offers, once
-- it has loaded and while nothing is being cancelled, to cancel each of the user's bookings that is
-- pending or confirmed, and nothing else; and in consistent tables the transaction of each of these
-- cancellations goes through.
pub page_grants :
    (user_id : ℕ) (db : Db)
    → HasBoth db db.bookings
    → IsConsistent db
    → let page = loaded_page (get_user_bookings user_id db) in
      (enabled_acts (bookings_page page)
        ≡ map (λ (b : Booking). cancel b.id) (cancellable user_id db))
      × All (Granted user_id db) (enabled_acts (bookings_page page))
page_grants user_id db both c =
    let shown =
      page_acts (get_user_bookings user_id db)
      ∙ (offers-booking (get_user_bookings user_id db)
          ∙ ap
              (λ (bs : List Booking).
                map (λ (b : Booking). cancel b.id)
                  (select (λ (b : Booking). is_active b.status) bs))
              (get_user_bookings_lem user_id db both)) in
    let granted =
      All-map (Granted user_id db) (λ (b : Booking). cancel b.id) (cancellable user_id db)
        (All-weaken _ _ (cancellable user_id db)
          (λ b ((found, own), active). cancel-Granted user_id db b c found own active)
          (All-select _ (λ b. is_active b.status) _
            (All-select _ (λ b. b.user_id == user_id) db.bookings
              (All-found booking_key db.bookings c.booking_once)))) in
    (shown, subst (λ (acts : List TicketAct). All (Granted user_id db) acts) (sym shown) granted)
