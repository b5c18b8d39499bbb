-- ===== src/Table/Found.antt =====
-- Rows of a table with unique keys are found by their keys.
use ticketvault.Prelude.{
  ℕ, ◌≡◌, ◌≤◌, inl, inr, Bool, true, List, [], ◌∷◌, some, arith, ◌==◌, ◌&&◌, Bool-cases,
}
use ticketvault.Table.{select, find_where, count_where}
use ticketvault.Table.Keyed.{at_key, find-count_pos}

-- A predicate of all rows of a list.
abbrev pub All {ℓ κ} : {A : Type ℓ} → (A → Type κ) → List A → Type κ
All P [] = Unit
All P (x ∷ xs) = P x × All P xs

pub All-weaken {ℓ κ μ} :
    {A : Type ℓ} (P : A → Type κ) (Q : A → Type μ) (xs : List A)
    → ((x : A) → P x → Q x)
    → All P xs
    → All Q xs
All-weaken P Q [] h all = tt
All-weaken P Q (x ∷ xs) h (p, all) = (h x p, All-weaken P Q xs h all)

-- The rows that a test selects also pass it.
pub All-select :
    {A : Type 0} (P : A → Type 0) (q : A → Bool) (xs : List A)
    → All P xs
    → All (λ x. P x × (q x ≡ true)) (select q xs)
unfolding select
All-select P q [] all = tt
All-select P q (x ∷ xs) (p, all) = elim (Bool-cases (q x)) [
  | inl this ↦ rw this ((p, this), All-select P q xs all)
  | inr other ↦ rw other (All-select P q xs all)
]

module _ {A : Type 0} (key : A → ℕ) where
  pub All-found :
      (xs : List A)
      → ((k : ℕ) → count_where (at_key key k) xs ≤ 1)
      → All (λ x. find_where (at_key key (key x)) xs ≡ some x) xs
  unfolding find_where count_where
  All-found [] once = tt
  All-found (x ∷ xs) once = (
    ground arith,
    All-weaken (λ y. find_where (at_key key (key y)) xs ≡ some y)
        (λ y. find_where (at_key key (key y)) (x ∷ xs) ≡ some y) xs
        (λ y found. ground (arith, once (key y), find-count_pos (at_key key (key y)) xs))
        (All-found xs (λ k. ground (arith, once k))),
  )

  -- A row that passes a test is found by its key and the test.
  pub find-both :
      (p : A → Bool) (k : ℕ) (xs : List A) (x : A)
      → find_where (at_key key k) xs ≡ some x
      → p x ≡ true
      → find_where (λ y. key y == k && p y) xs ≡ some x
  unfolding find_where
  find-both p k [] x found passes = cc
  find-both p k (y ∷ ys) x found passes = ground (arith, find-both p k ys x)
