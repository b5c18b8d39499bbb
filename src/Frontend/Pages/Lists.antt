-- ===== src/Frontend/Pages/Lists.antt =====
-- The two lists of a user's bookings: frontend/src/pages/BookingsPage.tsx.
use ticketvault.Prelude.{◌+◌, ◌≡◌, refl, Bool, not, List, [], ◌∷◌, arith, inl, inr, Bool-cases}
use ticketvault.Types.{is_active}
use ticketvault.Table.{select, count_where}
use ticketvault.Listing.{UserBooking}
use ticketvault.Frontend.Pages.{active_bookings, past_bookings, can_cancel}

module _ {A : Type 0} (q p : A → Bool) where
  count-parts :
      (xs : List A)
      → count_where p (select q xs) + count_where p (select (λ x. not (q x)) xs) ≡ count_where p xs
  unfolding count_where select
  count-parts [] = omega arith
  count-parts (x ∷ xs) = elim (Bool-cases (q x)) [
    | inl this ↦ rw this (ground (arith, count-parts xs))
    | inr other ↦ rw other (ground (arith, count-parts xs))
  ]

module _ {A : Type 0} (q : A → Bool) where
  -- Every row that is selected passes the test.
  count-all : (xs : List A) → count_where (λ x. not (q x)) (select q xs) ≡ 0
  unfolding count_where select
  count-all [] = refl
  count-all (x ∷ xs) = elim (Bool-cases (q x)) [
    | inl this ↦ rw this (ground (arith, count-all xs))
    | inr other ↦ rw other (count-all xs)
  ]

-- The two lists of a user's bookings show each booking once between them, and the first holds only
-- bookings that can be cancelled.
pub bookings_shown_once :
    (bookings : List UserBooking)
    → ((p : UserBooking → Bool)
        → count_where p (active_bookings bookings) + count_where p (past_bookings bookings)
          ≡ count_where p bookings)
      × (count_where (λ b. not (can_cancel b)) (active_bookings bookings) ≡ 0)
unfolding active_bookings past_bookings can_cancel
bookings_shown_once bookings = (
  λ p. count-parts (λ (b : UserBooking). is_active b.booking.status) p bookings,
  count-all (λ (b : UserBooking). is_active b.booking.status) bookings,
)
