-- ===== src/Admin/Joins.antt =====
-- What the two joins of the dashboard do to its counts.
use native.Mathlib.Nat.{add-mul, suc-mul}
use ticketvault.Prelude.{
  ℕ, suc, ◌+◌, ◌*◌, ◌≡◌, refl, ap, ◌∙◌, Bool, false, List, [], ◌∷◌, ◌++◌, Option, none, some, map,
  ◌==◌, arith, length, indicator,
}
use ticketvault.Types.{
  SeatStatus, BookingStatus, Seat, Booking, EventRow, is_available, is_confirmed,
}
use ticketvault.Table.{select, count_where}
use ticketvault.Table.Counts.{count-append}
use ticketvault.Db.{Db}
use ticketvault.Admin.{
  sum_where, or_null, pairs, joined_rows, seat_is, booking_is, paid, event_stats, is_booked,
  is_reserved,
}

module _ {ℓ} {A : Type ℓ} where
  pub sum-append :
      (p : A → Bool) (f : A → ℕ) (xs ys : List A)
      → sum_where p f (xs ++ ys) ≡ sum_where p f xs + sum_where p f ys
  unfolding sum_where
  sum-append p f [] ys = omega arith
  sum-append p f (x ∷ xs) ys = omega (arith, sum-append p f xs ys)

  -- A list of matches, or one row of NULLs.
  abbrev pub row_count : List A → ℕ
  row_count [] = 1
  row_count (x ∷ xs) = suc (length xs)

  abbrev pub lifted : (A → Bool) → Option A → Bool
  lifted p none = false
  lifted p (some x) = p x

  count-map-some :
      (p : A → Bool) (xs : List A) → count_where (lifted p) (map some xs) ≡ count_where p xs
  unfolding count_where
  count-map-some p [] = refl
  count-map-some p (x ∷ xs) = omega (arith, count-map-some p xs)

  pub count-or_null :
      (p : A → Bool) (xs : List A) → count_where (lifted p) (or_null xs) ≡ count_where p xs
  unfolding count_where or_null
  count-or_null p [] = refl
  count-or_null p (x ∷ xs) = omega (arith, count-map-some p xs)

  length-map-some : (xs : List A) → length (map some xs) ≡ length xs
  length-map-some [] = refl
  length-map-some (x ∷ xs) = omega (arith, length-map-some xs)

  pub length-or_null : (xs : List A) → length (or_null xs) ≡ row_count xs
  unfolding or_null
  length-or_null [] = refl
  length-or_null (x ∷ xs) = omega (arith, length-map-some xs)

module _ {ℓ κ} {A : Type ℓ} {B : Type κ} where
  count_row :
      (p : A → Bool) (q : A × B → Bool) (x : A) (ys : List B)
      → ((y : B) → q (x, y) ≡ p x)
      → count_where q (map (λ y. (x, y)) ys) ≡ indicator (p x) * length ys
  unfolding count_where
  count_row p q x [] same = omega arith
  count_row p q x (y ∷ ys) same = rw same (grind (arith, count_row p q x ys same))

  -- A test of the left side counts once for each row of the right side.
  count-pairs :
      (p : A → Bool) (q : A × B → Bool) (xs : List A) (ys : List B)
      → ((x : A) (y : B) → q (x, y) ≡ p x)
      → count_where q (pairs xs ys) ≡ count_where p xs * length ys
  unfolding count_where pairs
  count-pairs p q [] ys same = omega arith
  count-pairs p q (x ∷ xs) ys same =
      count-append q (map (λ y. (x, y)) ys) (pairs xs ys)
      ∙ omega (
        arith,
        count_row p q x ys (same x),
        count-pairs p q xs ys same,
        add-mul (indicator (p x)) (count_where p xs) (length ys),
      )

  sum_row :
      (p : B → Bool) (f : B → ℕ) (q : A × B → Bool) (g : A × B → ℕ) (x : A) (ys : List B)
      → ((y : B) → q (x, y) ≡ p y)
      → ((y : B) → g (x, y) ≡ f y)
      → sum_where q g (map (λ y. (x, y)) ys) ≡ sum_where p f ys
  unfolding sum_where
  sum_row p f q g x [] same equal = refl
  sum_row p f q g x (y ∷ ys) same equal =
      rw (same, equal) (omega (arith, sum_row p f q g x ys same equal))

  -- A sum over the right side is taken once for each row of the left side.
  sum-pairs :
      (p : B → Bool) (f : B → ℕ) (q : A × B → Bool) (g : A × B → ℕ) (xs : List A) (ys : List B)
      → ((x : A) (y : B) → q (x, y) ≡ p y)
      → ((x : A) (y : B) → g (x, y) ≡ f y)
      → sum_where q g (pairs xs ys) ≡ length xs * sum_where p f ys
  unfolding sum_where pairs
  sum-pairs p f q g [] ys same equal = omega arith
  sum-pairs p f q g (x ∷ xs) ys same equal =
      sum-append q g (map (λ y. (x, y)) ys) (pairs xs ys)
      ∙ omega (
        arith,
        sum_row p f q g x ys (same x) (equal x),
        sum-pairs p f q g xs ys same equal,
        suc-mul (length xs) (sum_where p f ys),
      )

abbrev booked_by : (BookingStatus → Bool) → Option Booking → Bool
booked_by p none = false
booked_by p (some b) = p b.status

abbrev paid_by : Option Booking → ℕ
paid_by none = 0
paid_by (some b) = b.amount_paid

sum-map-some :
    (p : BookingStatus → Bool) (bs : List Booking)
    → sum_where (booked_by p) paid_by (map some bs)
      ≡ sum_where (λ b. p b.status) (λ b. b.amount_paid) bs
unfolding sum_where
sum-map-some p [] = refl
sum-map-some p (b ∷ bs) = omega (arith, sum-map-some p bs)

sum-or_null :
    (p : BookingStatus → Bool) (bs : List Booking)
    → sum_where (booked_by p) paid_by (or_null bs)
      ≡ sum_where (λ b. p b.status) (λ b. b.amount_paid) bs
unfolding sum_where or_null
sum-or_null p [] = refl
sum-or_null p (b ∷ bs) = omega (arith, sum-map-some p bs)

booking_is_lem :
    (p : BookingStatus → Bool) (x : Option Seat) (y : Option Booking)
    → booking_is p (x, y) ≡ booked_by p y
booking_is_lem p x none = refl
booking_is_lem p x (some b) = refl

paid_lem : (x : Option Seat) (y : Option Booking) → paid (x, y) ≡ paid_by y
paid_lem x none = refl
paid_lem x (some b) = refl

seat_is_lem :
    (p : SeatStatus → Bool) (x : Option Seat) (y : Option Booking)
    → seat_is p (x, y) ≡ lifted (λ (s : Seat). p s.status) x
seat_is_lem p none y = refl
seat_is_lem p (some s) y = refl

seats_joined :
    (p : SeatStatus → Bool) (seats : List Seat) (bookings : List Booking)
    → count_where (seat_is p) (pairs (or_null seats) (or_null bookings))
      ≡ count_where (λ s. p s.status) seats * row_count bookings
seats_joined p seats bookings =
    count-pairs (lifted (λ (s : Seat). p s.status)) (seat_is p) (or_null seats) (or_null bookings)
      (seat_is_lem p)
    ∙ ap (λ (n : ℕ). n * length (or_null bookings)) (count-or_null (λ (s : Seat). p s.status) seats)
    ∙ ap (λ (n : ℕ). count_where (λ (s : Seat). p s.status) seats * n) (length-or_null bookings)

revenue_joined :
    (seats : List Seat) (bookings : List Booking)
    → sum_where (booking_is is_confirmed) paid (pairs (or_null seats) (or_null bookings))
      ≡ row_count seats * sum_where (λ b. is_confirmed b.status) (λ b. b.amount_paid) bookings
revenue_joined seats bookings =
    sum-pairs (booked_by is_confirmed) paid_by (booking_is is_confirmed) paid (or_null seats)
      (or_null bookings) (booking_is_lem is_confirmed) paid_lem
    ∙ ap (λ (n : ℕ). n * sum_where (booked_by is_confirmed) paid_by (or_null bookings))
        (length-or_null seats)
    ∙ ap (λ (n : ℕ). row_count seats * n) (sum-or_null is_confirmed bookings)

-- The dashboard multiplies: for an event it shows the number of its booked, reserved and free seats,
-- each times the number of the bookings of the event, and the revenue of its confirmed bookings
-- times the number of its seats, where a number of 0 counts as 1.
pub event_stats-multiplied :
    (db : Db) (e : EventRow)
    → let seats = select (λ s. s.event_id == e.id) db.seats in
      let bookings = select (λ b. b.event_id == e.id) db.bookings in
      let shown = event_stats db e in
      (shown.booked_count ≡ count_where (λ s. is_booked s.status) seats * row_count bookings)
      × (shown.reserved_count ≡ count_where (λ s. is_reserved s.status) seats * row_count bookings)
      × (shown.available_count
          ≡ count_where (λ s. is_available s.status) seats * row_count bookings)
      × (shown.confirmed_revenue
          ≡ row_count seats * sum_where (λ b. is_confirmed b.status) (λ b. b.amount_paid) bookings)
unfolding event_stats joined_rows
event_stats-multiplied db e =
    let seats = select (λ (s : Seat). s.event_id == e.id) db.seats in
    let bookings = select (λ (b : Booking). b.event_id == e.id) db.bookings in
    (
      seats_joined is_booked seats bookings,
      seats_joined is_reserved seats bookings,
      seats_joined is_available seats bookings,
      revenue_joined seats bookings,
    )
