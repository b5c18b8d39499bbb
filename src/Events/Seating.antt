-- ===== src/Events/Seating.antt =====
-- The seats of a new event: the loop of `createEvent` in
-- backend/src/services/event/eventService.ts, section by section and row by row.
use Prim.Native.String.{String}
use Prim.Native.Nat.{min}
use ticketvault.Prelude.{
  ℕ, zero, suc, ◌+◌, ◌-◌, ◌/◌, ◌≤◌, ◌≡◌, refl, ap, ◌∙◌, true, false, List, [], ◌∷◌, ◌++◌, map, ◌&&◌,
  ltb, leb, arith, Bool-cases, inl, inr,
}

-- What a seat is called.
pub record Place : Type 0 where
  pub seat_number : ℕ
  pub section : String
  pub row_label : ℕ

abbrev pub seats_per_row : ℕ
seats_per_row = 20

-- The inner loop: `count` seats of one row, from a number on.
unfoldable pub row_of : String → ℕ → ℕ → ℕ → List Place
row_of section label from zero = []
row_of section label from (suc count) =
    record { seat_number = from; section = section; row_label = label }
    ∷ row_of section label (suc from) count

-- `seatsInThisRow`
unfoldable pub in_this_row : ℕ → ℕ → ℕ → ℕ → ℕ
in_this_row total per_section created seat_num =
    min (min seats_per_row (per_section - created)) (total + 1 - seat_num)

-- The `while` loop of a section, with fuel: the seats, and the next number. A round creates a seat
-- at least, so the seats of a section are fuel enough.
unfoldable pub rows_of :
    ℕ → String → (total per_section created row_index seat_num : ℕ) → List Place × ℕ
rows_of zero section total per_section created row_index seat_num = ([], seat_num)
rows_of (suc fuel) section total per_section created row_index seat_num =
    elim (ltb created per_section && leb seat_num total) [
      | false ↦ ([], seat_num)
      | true ↦
          let n = in_this_row total per_section created seat_num in
          let (later, next) =
            rows_of fuel section total per_section (created + n) (suc row_index) (seat_num + n) in
          (row_of section (65 + row_index) seat_num n ++ later, next)
    ]

unfoldable pub sections_of : List String → (total per_section seat_num : ℕ) → List Place
sections_of [] total per_section seat_num = []
sections_of (section ∷ sections) total per_section seat_num =
    let (places, next) = rows_of per_section section total per_section 0 0 seat_num in
    places ++ sections_of sections total per_section next

-- `Math.ceil(total / 3)` seats for each of the three sections.
unfoldable pub seating : ℕ → List Place
seating total = sections_of ("Floor" ∷ "Lower" ∷ "Upper" ∷ []) total ((total + 2) / 3) 1

abbrev pub numbers : List Place → List ℕ
numbers ps = map (λ (p : Place). p.seat_number) ps

-- `count` numbers in a row.
abbrev pub numbered : ℕ → ℕ → List ℕ
numbered from zero = []
numbered from (suc count) = from ∷ numbered (suc from) count

numbers-append : (ps qs : List Place) → numbers (ps ++ qs) ≡ numbers ps ++ numbers qs
numbers-append [] qs = refl
numbers-append (p ∷ ps) qs = ap (λ (ns : List ℕ). p.seat_number ∷ ns) (numbers-append ps qs)

numbers-row :
    (section : String) (label from count : ℕ)
    → numbers (row_of section label from count) ≡ numbered from count
unfolding row_of
numbers-row section label from zero = refl
numbers-row section label from (suc n) =
    ap (λ (ns : List ℕ). from ∷ ns) (numbers-row section label (suc from) n)

numbered-append : (from m n : ℕ) → numbered from m ++ numbered (from + m) n ≡ numbered from (m + n)
numbered-append from zero n = ground arith
numbered-append from (suc m) n =
    let shift : from + suc m ≡ suc from + m = omega arith in
    let more : suc (m + n) ≡ suc m + n = omega arith in
    ap (λ (k : ℕ). from ∷ (numbered (suc from) m ++ numbered k n)) shift
    ∙ ap (λ (ns : List ℕ). from ∷ ns) (numbered-append (suc from) m n)
    ∙ ap (λ (k : ℕ). numbered from k) more

-- A section takes the next numbers: as many as it has room for, or as there are.
rows_numbered :
    (fuel : ℕ) (section : String) (total per_section created row_index seat_num : ℕ)
    → per_section ≤ created + fuel
    → let (places, next) = rows_of fuel section total per_section created row_index seat_num in
      let n = min (per_section - created) (total + 1 - seat_num) in
      (numbers places ≡ numbered seat_num n) × (next ≡ seat_num + n)
unfolding rows_of
rows_numbered zero section total per_section created row_index seat_num enough =
    (ground arith, ground arith)
rows_numbered (suc fuel) section total per_section created row_index seat_num enough =
    elim (Bool-cases (ltb created per_section && leb seat_num total)) [
      | inr off ↦
          rw (off, rows_of)
            (ap (λ (k : ℕ). numbered seat_num k) {x = 0} (ground arith), ground arith)
      | inl on ↦
          let n = in_this_row total per_section created seat_num in
          let some_room : 1 ≤ n = unfold in_this_row in ground arith in
          let rest = min (per_section - (created + n)) (total + 1 - (seat_num + n)) in
          let all : n + rest ≡ min (per_section - created) (total + 1 - seat_num) =
            unfold in_this_row in ground arith in
          let (placed, next) =
            rows_numbered fuel section total per_section (created + n) (suc row_index)
              (seat_num + n) (omega arith) in
          let later =
            rows_of fuel section total per_section (created + n) (suc row_index) (seat_num + n) in
          rw (on, rows_of)
            (
              numbers-append (row_of section (65 + row_index) seat_num n) later.0
                  ∙ ap (λ (ns : List ℕ). ns ++ numbers later.0)
                      (numbers-row section (65 + row_index) seat_num n)
                  ∙ ap (λ (ns : List ℕ). numbered seat_num n ++ ns) placed
                  ∙ numbered-append seat_num n rest
                  ∙ ap (λ (k : ℕ). numbered seat_num k) all,
              next ∙ omega arith,
            )
    ]

-- How many seats the sections have room for.
abbrev room : List String → ℕ → ℕ
room [] per_section = 0
room (section ∷ sections) per_section = per_section + room sections per_section

sections_numbered :
    (sections : List String) (total per_section seat_num : ℕ)
    → numbers (sections_of sections total per_section seat_num)
      ≡ numbered seat_num (min (room sections per_section) (total + 1 - seat_num))
unfolding sections_of
sections_numbered [] total per_section seat_num =
    ap (λ (k : ℕ). numbered seat_num k) {x = 0} (omega arith)
sections_numbered (section ∷ sections) total per_section seat_num =
    let (placed, next) =
      rows_numbered per_section section total per_section 0 0 seat_num (omega arith) in
    let n = min (per_section - 0) (total + 1 - seat_num) in
    let rest = min (room sections per_section) (total + 1 - (seat_num + n)) in
    let all : n + rest ≡ min (per_section + room sections per_section) (total + 1 - seat_num) =
      omega arith in
    numbers-append (rows_of per_section section total per_section 0 0 seat_num).0 _
    ∙ ap
        (λ (ns : List ℕ).
          ns
          ++ numbers (
              sections_of sections total per_section
                (rows_of per_section section total per_section 0 0 seat_num).1))
        placed
    ∙ ap (λ (ns : List ℕ). numbered seat_num n ++ ns)
        (sections_numbered sections total per_section _)
    ∙ ap
        (λ (k : ℕ).
          numbered seat_num n ++ numbered k (min (room sections per_section) (total + 1 - k)))
        next
    ∙ numbered-append seat_num n rest
    ∙ ap (λ (k : ℕ). numbered seat_num k) all

-- The seats of a new event carry the numbers from 1 to its total, each once, in this order.
pub seating-numbers : (total : ℕ) → numbers (seating total) ≡ numbered 1 total
unfolding seating
seating-numbers total =
    sections_numbered ("Floor" ∷ "Lower" ∷ "Upper" ∷ []) total ((total + 2) / 3) 1
    ∙ ap (λ (k : ℕ). numbered 1 k) (omega arith)
