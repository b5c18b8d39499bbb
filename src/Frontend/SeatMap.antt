-- ===== src/Frontend/SeatMap.antt =====
-- The map of the seats of an event: frontend/src/components/booking/SeatMap.tsx. The order of two row
-- labels is `localeCompare`, a parameter.
pub mod Shown
use Prim.Native.String.{String}
use text.Mathlib.Text.{◌==◌ as str_eq}
use ticketvault.Prelude.{
  ℕ, ◌+◌, ◌≡◌, ◌∙◌, refl, ap, inl, inr, Bool, true, false, not, List, [], ◌∷◌, ◌++◌, map, length,
  Option, none, some, ◌==◌, ◌&&◌, leb, if◌then◌else◌, indicator, arith, Bool-cases,
}
use ticketvault.Types.{SeatStatus}
use ticketvault.Table.{count_where}
use ticketvault.Table.Sorting.{order_by, IsInOrder, order_by-IsInOrder, count-order_by}
use ticketvault.Listing.{ListedSeat}

-- The groups are JavaScript's maps, which keep the order in which keys first come.
pub record RowGroup : Type 0 where
  pub label : ℕ
  pub seats : List ListedSeat

pub record SectionGroup : Type 0 where
  pub name : String
  pub rows : List RowGroup

unfoldable pub add_to_rows : ListedSeat → List RowGroup → List RowGroup
add_to_rows s [] = record { label = s.row_label; seats = s ∷ [] } ∷ []
add_to_rows s (r ∷ rs) =
    if r.label == s.row_label
    then record r { seats = r.seats ++ s ∷ [] } ∷ rs
    else r ∷ add_to_rows s rs

unfoldable pub add_to_sections : ListedSeat → List SectionGroup → List SectionGroup
add_to_sections s [] = record { name = s.section; rows = add_to_rows s [] } ∷ []
add_to_sections s (g ∷ gs) =
    if str_eq g.name s.section
    then record g { rows = add_to_rows s g.rows } ∷ gs
    else g ∷ add_to_sections s gs

unfoldable pub group_seats : List ListedSeat → List SectionGroup → List SectionGroup
group_seats [] gs = gs
group_seats (s ∷ ss) gs = group_seats ss (add_to_sections s gs)

abbrev pub by_number : ListedSeat → ListedSeat → Bool
by_number s t = leb s.seat_number t.seat_number

abbrev pub sort_row : RowGroup → RowGroup
sort_row r = record r { seats = order_by by_number r.seats }

abbrev pub sort_rows : SectionGroup → SectionGroup
sort_rows g = record g { rows = map sort_row g.rows }

-- `grouped`
unfoldable pub grouped : List ListedSeat → List SectionGroup
grouped seats = map sort_rows (group_seats seats [])

-- `seatStatuses[seat.id] ?? seat.status`
unfoldable pub live_status : (ℕ → Option SeatStatus) → ListedSeat → SeatStatus
live_status statuses s = elim (statuses s.id) [ none ↦ s.status | some status ↦ status ]

pub record SeatStats : Type 0 where
  pub available : ℕ
  pub reserved : ℕ
  pub booked : ℕ

abbrev pub count_status : SeatStatus → SeatStats → SeatStats
count_status SeatStatus.available t = record t { available = t.available + 1 }
count_status SeatStatus.reserved t = record t { reserved = t.reserved + 1 }
count_status SeatStatus.booked t = record t { booked = t.booked + 1 }

unfoldable pub count_seats : (ℕ → Option SeatStatus) → List ListedSeat → SeatStats → SeatStats
count_seats statuses [] t = t
count_seats statuses (s ∷ ss) t = count_seats statuses ss (count_status (live_status statuses s) t)

-- `stats`
unfoldable pub stats : (ℕ → Option SeatStatus) → List ListedSeat → SeatStats
stats statuses seats =
    count_seats statuses seats (record { available = 0; reserved = 0; booked = 0 })

-- How a seat's button is shown, and whether it can be clicked.
pub record SeatButton : Type 0 where
  pub available : Bool
  pub selected : Bool
  pub reserved : Bool
  pub booked : Bool
  pub disabled : Bool

abbrev pub is_status : SeatStatus → SeatStatus → Bool
is_status SeatStatus.available SeatStatus.available = true
is_status SeatStatus.reserved SeatStatus.reserved = true
is_status SeatStatus.booked SeatStatus.booked = true
is_status _ _ = false

abbrev pub is_selected : Option ℕ → ℕ → Bool
is_selected none k = false
is_selected (some id) k = id == k

unfoldable pub seat_button : Option ℕ → (ℕ → Option SeatStatus) → ListedSeat → SeatButton
seat_button selected_seat_id statuses s =
    let live = live_status statuses s in
    let selected = is_selected selected_seat_id s.id in
    record {
      available = is_status live SeatStatus.available && not selected;
      selected = selected;
      reserved = is_status live SeatStatus.reserved;
      booked = is_status live SeatStatus.booked;
      disabled = not (is_status live SeatStatus.available);
    }

unfoldable pub buttons_of_rows : List RowGroup → List ListedSeat
buttons_of_rows [] = []
buttons_of_rows (r ∷ rs) = r.seats ++ buttons_of_rows rs

module _ (locale : ℕ → ℕ → Bool) where
  -- The rows of a section as they are shown, and the seats of all buttons in their order.
  unfoldable pub shown_rows : SectionGroup → List RowGroup
  shown_rows g = order_by (λ r s. locale r.label s.label) g.rows

  unfoldable pub buttons : List SectionGroup → List ListedSeat
  buttons [] = []
  buttons (g ∷ gs) = buttons_of_rows (shown_rows g) ++ buttons gs
