-- ===== src/Table/Counts.antt =====
-- Counts of a table that is put together of two.
use ticketvault.Prelude.{◌+◌, ◌≡◌, Bool, List, [], ◌∷◌, ◌++◌, arith}
use ticketvault.Table.{count_where}

module _ {ℓ} {A : Type ℓ} where
  pub count-append :
      (p : A → Bool) (xs ys : List A)
      → count_where p (xs ++ ys) ≡ count_where p xs + count_where p ys
  unfolding count_where
  count-append p [] ys = omega arith
  count-append p (x ∷ xs) ys = omega (arith, count-append p xs ys)
