-- ===== src/Table/Sorting.antt =====
-- `ORDER BY`: the rows in an order that a test gives. Rows that the order does not tell apart keep
-- the order of the table; the database may return them in any.
use ticketvault.Prelude.{
  ◌+◌, ◌≡◌, refl, inl, inr, Bool, true, false, List, [], ◌∷◌, arith, indicator, if◌then◌else◌,
  Bool-cases,
}
use ticketvault.Table.{count_where}

module _ {ℓ} {A : Type ℓ} (le : A → A → Bool) where
  unfoldable pub insert_row : A → List A → List A
  insert_row x [] = x ∷ []
  insert_row x (y ∷ ys) = if le x y then x ∷ y ∷ ys else y ∷ insert_row x ys

  unfoldable pub order_by : List A → List A
  order_by [] = []
  order_by (x ∷ xs) = insert_row x (order_by xs)

  -- Each row and the next are in order.
  abbrev pub IsInOrder : List A → Type 0
  IsInOrder [] = Unit
  IsInOrder (x ∷ []) = Unit
  IsInOrder (x ∷ y ∷ ys) = (le x y ≡ true) × IsInOrder (y ∷ ys)

  pub count-insert_row :
      (p : A → Bool) (x : A) (xs : List A)
      → count_where p (insert_row x xs) ≡ indicator (p x) + count_where p xs
  unfolding insert_row count_where
  count-insert_row p x [] = refl
  count-insert_row p x (y ∷ ys) = ground (arith, count-insert_row p x ys)

  -- No row is lost, and none is doubled.
  pub count-order_by : (p : A → Bool) (xs : List A) → count_where p (order_by xs) ≡ count_where p xs
  unfolding order_by count_where
  count-order_by p [] = refl
  count-order_by p (x ∷ xs) =
      ground (arith, count-insert_row p x (order_by xs), count-order_by p xs)

  module _ (total : (x y : A) → le x y ≡ false → le y x ≡ true) where
    insert_row-IsInOrder_behind :
        (x y : A) (ys : List A)
        → le y x ≡ true
        → IsInOrder (y ∷ ys)
        → IsInOrder (y ∷ insert_row x ys)
    unfolding insert_row
    insert_row-IsInOrder_behind x y [] first h = (first, tt)
    insert_row-IsInOrder_behind x y (z ∷ zs) first h = elim (Bool-cases (le x z)) [
      | inl here ↦ rw here (first, (here, h.1))
      | inr later ↦ rw later (h.0, insert_row-IsInOrder_behind x z zs (total x z later) h.1)
    ]

    insert_row-IsInOrder : (x : A) (xs : List A) → IsInOrder xs → IsInOrder (insert_row x xs)
    unfolding insert_row
    insert_row-IsInOrder x [] h = tt
    insert_row-IsInOrder x (y ∷ ys) h = elim (Bool-cases (le x y)) [
      | inl here ↦ rw here (here, h)
      | inr later ↦ rw later (insert_row-IsInOrder_behind x y ys (total x y later) h)
    ]

    -- If any two rows are in order one way or the other, the result is in order.
    pub order_by-IsInOrder : (xs : List A) → IsInOrder (order_by xs)
    unfolding order_by
    order_by-IsInOrder [] = tt
    order_by-IsInOrder (x ∷ xs) = insert_row-IsInOrder x (order_by xs) (order_by-IsInOrder xs)
