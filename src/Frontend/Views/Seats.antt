-- ===== src/Frontend/Views/Seats.antt =====
-- What frontend/src/components/booking/SeatMap.tsx shows: a button for each seat.
use Prim.Native.String.{String}
use mathlib.Core.List.{append-nil, map-append}
use ticketvault.Prelude.{
  ℕ, ◌≡◌, refl, ap, ◌∙◌, sym, inl, inr, Bool, not, List, [], ◌∷◌, ◌++◌, map, Option, ◌&&◌,
  Bool-cases,
}
use ticketvault.Types.{SeatStatus}
use ticketvault.Table.{select, count_where}
use ticketvault.Listing.{ListedSeat, count-select}
use ticketvault.Frontend.SeatMap.{
  RowGroup, SectionGroup, grouped, shown_rows, buttons, buttons_of_rows, stats, live_status,
  seat_button, is_status,
}
use ticketvault.Frontend.SeatMap.Shown.{AllInOrder, seats_shown_once}
use ticketvault.Frontend.Views.{
  text, number, letter, shows, button, View, each, enabled_acts, enabled_acts-append,
}

-- `onSeatSelect(seat)`
pub data SeatAct : Type 0 where
  choose : ListedSeat → SeatAct

abbrev pub status_name : SeatStatus → String
status_name SeatStatus.available = "available"
status_name SeatStatus.reserved = "reserved"
status_name SeatStatus.booked = "booked"

module _ (locale : ℕ → ℕ → Bool) (selected : Option ℕ) (statuses : ℕ → Option SeatStatus) where
  -- The button of a seat, with its `aria-label`.
  unfoldable pub seat_view : ListedSeat → View SeatAct
  seat_view s =
      button (choose s) (not (seat_button selected statuses s).disabled) (
        text "Seat"
        ∷ number s.seat_number
        ∷ text "row"
        ∷ letter s.row_label
        ∷ text s.section
        ∷ text (status_name (live_status statuses s))
        ∷ [])
      ∷ []

  unfoldable pub row_view : RowGroup → View SeatAct
  row_view r = shows (letter r.label) ∷ each seat_view r.seats

  unfoldable pub section_view : SectionGroup → View SeatAct
  section_view g = shows (text g.name) ∷ each row_view (shown_rows locale g)

  abbrev pub totals : List ListedSeat → View SeatAct
  totals seats =
      let t = stats statuses seats in
      shows (text "Available")
      ∷ shows (number t.available)
      ∷ shows (text "Reserved")
      ∷ shows (number t.reserved)
      ∷ shows (text "Booked")
      ∷ shows (number t.booked)
      ∷ shows (text "◀ Stage ▶")
      ∷ []

  abbrev pub legend : View SeatAct
  legend =
      shows (text "Available")
      ∷ shows (text "Selected")
      ∷ shows (text "Reserved (10 min hold)")
      ∷ shows (text "Booked")
      ∷ []

  unfoldable pub seat_map : List ListedSeat → View SeatAct
  seat_map seats = totals seats ++ (each section_view (grouped seats) ++ legend)

  abbrev pub is_free : ListedSeat → Bool
  is_free s = is_status (live_status statuses s) SeatStatus.available

  abbrev choices : List ListedSeat → List SeatAct
  choices seats = map choose (select is_free seats)

  select-append :
      (xs ys : List ListedSeat) → select is_free (xs ++ ys) ≡ select is_free xs ++ select is_free ys
  unfolding select
  select-append [] ys = refl
  select-append (x ∷ xs) ys = elim (Bool-cases (is_free x)) [
    | inl free ↦ rw free (ap (λ (r : List ListedSeat). x ∷ r) (select-append xs ys))
    | inr taken ↦ rw taken (select-append xs ys)
  ]

  choices-append : (xs ys : List ListedSeat) → choices (xs ++ ys) ≡ choices xs ++ choices ys
  choices-append xs ys =
      ap (λ (r : List ListedSeat). map choose r) (select-append xs ys)
      ∙ map-append choose (select is_free xs) (select is_free ys)

  seats_acts : (ss : List ListedSeat) → enabled_acts (each seat_view ss) ≡ choices ss
  unfolding each seat_view enabled_acts select seat_button
  seats_acts [] = refl
  seats_acts (s ∷ ss) = elim (Bool-cases (is_free s)) [
    | inl free ↦ rw free (ap (λ (r : List SeatAct). choose s ∷ r) (seats_acts ss))
    | inr taken ↦ rw taken (seats_acts ss)
  ]

  rows_acts : (rs : List RowGroup) → enabled_acts (each row_view rs) ≡ choices (buttons_of_rows rs)
  unfolding each row_view enabled_acts buttons_of_rows select
  rows_acts [] = refl
  rows_acts (r ∷ rs) =
      enabled_acts-append (each seat_view r.seats) (each row_view rs)
      ∙ (ap (λ (a : List SeatAct). a ++ enabled_acts (each row_view rs)) (seats_acts r.seats)
          ∙ (ap (λ (a : List SeatAct). choices r.seats ++ a) (rows_acts rs)
              ∙ sym (choices-append r.seats (buttons_of_rows rs))))

  sections_acts :
      (gs : List SectionGroup) → enabled_acts (each section_view gs) ≡ choices (buttons locale gs)
  unfolding each section_view enabled_acts buttons select
  sections_acts [] = refl
  sections_acts (g ∷ gs) =
      enabled_acts-append (each row_view (shown_rows locale g)) (each section_view gs)
      ∙ (ap (λ (a : List SeatAct). a ++ enabled_acts (each section_view gs))
            (rows_acts (shown_rows locale g))
          ∙ (ap (λ (a : List SeatAct). choices (buttons_of_rows (shown_rows locale g)) ++ a)
                (sections_acts gs)
              ∙ sym (choices-append (buttons_of_rows (shown_rows locale g)) (buttons locale gs))))

  -- The map offers to choose the seats that are free by the live statuses, in the order of its buttons.
  pub map_acts :
      (seats : List ListedSeat)
      → enabled_acts (seat_map seats) ≡ map choose (select is_free (buttons locale (grouped seats)))
  unfolding seat_map enabled_acts
  map_acts seats =
      enabled_acts-append (each section_view (grouped seats)) legend
      ∙ (append-nil _ ∙ sections_acts (grouped seats))

  -- The map offers to choose each seat that is free by the live statuses, as often as it is listed, and no
  -- other seat; and the seats of a row stand by their numbers.
  pub map_offers_free :
      (seats : List ListedSeat)
      → let shown = select is_free (buttons locale (grouped seats)) in
        (enabled_acts (seat_map seats) ≡ map choose shown)
        × ((p : ListedSeat → Bool)
            → count_where p shown ≡ count_where (λ s. is_free s && p s) seats)
        × AllInOrder (grouped seats)
  map_offers_free seats =
      let (once, ordered) = seats_shown_once locale seats in
      (
        map_acts seats,
        λ p. count-select p is_free (buttons locale (grouped seats)) ∙ once (λ s. is_free s && p s),
        ordered,
      )
