-- ===== src/Frontend/SeatMap/Shown.antt =====
-- What the map of the seats shows of them.
use ticketvault.Prelude.{
  ℕ, ◌+◌, ◌≡◌, ◌∙◌, refl, ap, inl, inr, Bool, List, [], ◌∷◌, ◌++◌, map, length, Option, ◌==◌,
  indicator, arith, Bool-cases,
}
use text.Mathlib.Text.{◌==◌ as str_eq}
use ticketvault.Types.{SeatStatus}
use ticketvault.Table.{count_where}
use ticketvault.Table.Counts.{count-append}
use ticketvault.Table.Sorting.{order_by, IsInOrder, order_by-IsInOrder, count-order_by, insert_row}
use ticketvault.Listing.{ListedSeat}
use ticketvault.Frontend.SeatMap.{
  RowGroup, SectionGroup, add_to_rows, add_to_sections, group_seats, by_number, sort_row, sort_rows,
  grouped, shown_rows, buttons_of_rows, buttons, SeatStats, count_status, count_seats, stats,
  live_status, is_status,
}

module _ (p : ListedSeat → Bool) where
  in_rows : List RowGroup → ℕ
  in_rows rs = count_where p (buttons_of_rows rs)

  in_rows-cons :
      (r : RowGroup) (rs : List RowGroup) → in_rows (r ∷ rs) ≡ count_where p r.seats + in_rows rs
  unfolding in_rows buttons_of_rows
  in_rows-cons r rs = count-append p r.seats (buttons_of_rows rs)

  count-one : (s : ListedSeat) → count_where p (s ∷ []) ≡ indicator (p s)
  unfolding count_where
  count-one s = omega arith

  in_rows-add :
      (s : ListedSeat) (rs : List RowGroup)
      → in_rows (add_to_rows s rs) ≡ indicator (p s) + in_rows rs
  unfolding add_to_rows
  in_rows-add s [] = in_rows-cons _ [] ∙ ap (λ (n : ℕ). n + in_rows []) (count-one s)
  in_rows-add s (r ∷ rs) = elim (Bool-cases (r.label == s.row_label)) [
    | inl here ↦
        let grown = in_rows-cons (record r { seats = r.seats ++ s ∷ [] }) rs in
        let before = in_rows-cons r rs in
        let more = count-append p r.seats (s ∷ []) in
        let one = count-one s in rw here (omega (arith, grown, before, more, one))
    | inr on ↦
        let grown = in_rows-cons r (add_to_rows s rs) in
        let before = in_rows-cons r rs in rw on (omega (arith, grown, before, in_rows-add s rs))
  ]

  in_rows-insert :
      (le : RowGroup → RowGroup → Bool) (r : RowGroup) (rs : List RowGroup)
      → in_rows (insert_row le r rs) ≡ count_where p r.seats + in_rows rs
  unfolding insert_row
  in_rows-insert le r [] = in_rows-cons r []
  in_rows-insert le r (q ∷ rs) = elim (Bool-cases (le r q)) [
    | inl here ↦ rw here (in_rows-cons r (q ∷ rs))
    | inr later ↦
        let grown = in_rows-cons q (insert_row le r rs) in
        let before = in_rows-cons q rs in
        rw later (omega (arith, grown, before, in_rows-insert le r rs))
  ]

  in_rows-order_by :
      (le : RowGroup → RowGroup → Bool) (rs : List RowGroup) → in_rows (order_by le rs) ≡ in_rows rs
  unfolding order_by
  in_rows-order_by le [] = refl
  in_rows-order_by le (r ∷ rs) =
      omega (arith, in_rows-insert le r (order_by le rs), in_rows-order_by le rs, in_rows-cons r rs)

  in_rows-sorted : (rs : List RowGroup) → in_rows (map sort_row rs) ≡ in_rows rs
  in_rows-sorted [] = refl
  in_rows-sorted (r ∷ rs) = omega (
    arith,
    in_rows-cons (sort_row r) (map sort_row rs),
    in_rows-cons r rs,
    in_rows-sorted rs,
    count-order_by by_number p r.seats,
  )

  in_sections : List SectionGroup → ℕ
  in_sections [] = 0
  in_sections (g ∷ gs) = in_rows g.rows + in_sections gs

  in_sections-add :
      (s : ListedSeat) (gs : List SectionGroup)
      → in_sections (add_to_sections s gs) ≡ indicator (p s) + in_sections gs
  unfolding add_to_sections in_sections
  in_sections-add s [] = omega (arith, in_rows-add s [], no_rows)
    where
      no_rows : in_rows [] ≡ 0
      no_rows = unfold in_rows buttons_of_rows count_where in refl
  in_sections-add s (g ∷ gs) = elim (Bool-cases (str_eq g.name s.section)) [
    | inl here ↦ rw here (omega (arith, in_rows-add s g.rows))
    | inr on ↦ rw on (omega (arith, in_sections-add s gs))
  ]

  in_sections-group :
      (seats : List ListedSeat) (gs : List SectionGroup)
      → in_sections (group_seats seats gs) ≡ count_where p seats + in_sections gs
  unfolding group_seats count_where
  in_sections-group [] gs = omega arith
  in_sections-group (s ∷ seats) gs =
      omega (arith, in_sections-group seats (add_to_sections s gs), in_sections-add s gs)

  count-buttons :
      (locale : ℕ → ℕ → Bool) (gs : List SectionGroup)
      → count_where p (buttons locale (map sort_rows gs)) ≡ in_sections gs
  unfolding buttons in_sections shown_rows
  count-buttons locale [] = unfold count_where in refl
  count-buttons locale (g ∷ gs) =
      let shown = shown_rows locale (sort_rows g) in
      let split = count-append p (buttons_of_rows shown) (buttons locale (map sort_rows gs)) in
      let moved : in_rows shown ≡ in_rows (map sort_row g.rows) =
        in_rows-order_by _ (map sort_row g.rows) in
      let same : count_where p (buttons_of_rows shown) ≡ in_rows shown = unfold in_rows in refl in
      omega (arith, split, same, moved, in_rows-sorted g.rows, count-buttons locale gs)

abbrev RowsInOrder : List RowGroup → Type 0
RowsInOrder [] = Unit
RowsInOrder (r ∷ rs) = IsInOrder by_number r.seats × RowsInOrder rs

abbrev pub AllInOrder : List SectionGroup → Type 0
AllInOrder [] = Unit
AllInOrder (g ∷ gs) = RowsInOrder g.rows × AllInOrder gs

sort_row-RowsInOrder : (rs : List RowGroup) → RowsInOrder (map sort_row rs)
sort_row-RowsInOrder [] = tt
sort_row-RowsInOrder (r ∷ rs) =
    (order_by-IsInOrder by_number (λ x y h. ground arith) r.seats, sort_row-RowsInOrder rs)

sort_rows-AllInOrder : (gs : List SectionGroup) → AllInOrder (map sort_rows gs)
sort_rows-AllInOrder [] = tt
sort_rows-AllInOrder (g ∷ gs) = (sort_row-RowsInOrder g.rows, sort_rows-AllInOrder gs)

-- The map has a button for each seat, as often as the seat is listed, and for no other, and the seats
-- of a row stand by their numbers.
pub seats_shown_once :
    (locale : ℕ → ℕ → Bool) (seats : List ListedSeat)
    → ((p : ListedSeat → Bool)
        → count_where p (buttons locale (grouped seats)) ≡ count_where p seats)
      × AllInOrder (grouped seats)
unfolding grouped
seats_shown_once locale seats = (
  λ p.
      unfold in_sections in
      omega (arith, count-buttons p locale (group_seats seats []), in_sections-group p seats []),
  sort_rows-AllInOrder (group_seats seats []),
)

count_status_lem :
    (status : SeatStatus) (t : SeatStats)
    → let after = count_status status t in
      (after.available ≡ t.available + indicator (is_status status SeatStatus.available))
      × (after.reserved ≡ t.reserved + indicator (is_status status SeatStatus.reserved))
      × (after.booked ≡ t.booked + indicator (is_status status SeatStatus.booked))
      × (after.available + after.reserved + after.booked ≡ t.available + t.reserved + t.booked + 1)
count_status_lem SeatStatus.available t = (refl, omega arith, omega arith, omega arith)
count_status_lem SeatStatus.reserved t = (omega arith, refl, omega arith, omega arith)
count_status_lem SeatStatus.booked t = (omega arith, omega arith, refl, omega arith)

module _ (statuses : ℕ → Option SeatStatus) where
  abbrev shows : SeatStatus → ListedSeat → Bool
  shows status s = is_status (live_status statuses s) status

  -- What the count adds to the numbers so far.
  count_seats_lem :
      (seats : List ListedSeat) (t : SeatStats)
      → let after = count_seats statuses seats t in
        (after.available ≡ t.available + count_where (shows SeatStatus.available) seats)
        × (after.reserved ≡ t.reserved + count_where (shows SeatStatus.reserved) seats)
        × (after.booked ≡ t.booked + count_where (shows SeatStatus.booked) seats)
        × (after.available + after.reserved + after.booked
            ≡ t.available + t.reserved + t.booked + length seats)
  unfolding count_seats count_where
  count_seats_lem [] t = (omega arith, omega arith, omega arith, omega arith)
  count_seats_lem (s ∷ seats) t =
      let (a, r, b, all) = count_seats_lem seats (count_status (live_status statuses s) t) in
      let (a', r', b', all') = count_status_lem (live_status statuses s) t in
      (omega (arith, a, a'), omega (arith, r, r'), omega (arith, b, b'), omega (arith, all, all'))

-- The three numbers above the map count the seats by the status that is last known of each.
pub stats_lem :
    (statuses : ℕ → Option SeatStatus) (seats : List ListedSeat)
    → let shown = stats statuses seats in
      let live =
        λ (status : SeatStatus) (s : ListedSeat). is_status (live_status statuses s) status in
      (shown.available ≡ count_where (live SeatStatus.available) seats)
      × (shown.reserved ≡ count_where (live SeatStatus.reserved) seats)
      × (shown.booked ≡ count_where (live SeatStatus.booked) seats)
      × (shown.available + shown.reserved + shown.booked ≡ length seats)
unfolding stats
stats_lem statuses seats =
    let none_yet : SeatStats = record { available = 0; reserved = 0; booked = 0 } in
    let (a, r, b, all) = count_seats_lem statuses seats none_yet in
    (omega (arith, a), omega (arith, r), omega (arith, b), omega (arith, all))
