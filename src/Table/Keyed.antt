-- ===== src/Table/Keyed.antt =====
-- Tables with a primary key: what an UPDATE of the row with one key does to a look-up and to a
-- count.
use ticketvault.Prelude.{
  ℕ, ◌+◌, ◌≤◌, ◌≡◌, refl, ◌≢◌, Bool, true, ◌&&◌, List, [], ◌∷◌, none, some, arith, indicator, ◌==◌,
  if◌then◌else◌,
}
use mathlib.Core.Option
use ticketvault.Table.{find_where, update_where, count_where}

module _ {ℓ} {A : Type ℓ} (key : A → ℕ) where
  abbrev pub at_key : ℕ → A → Bool
  at_key k x = key x == k

  pub find-update :
      (k j : ℕ) (f : A → A) (xs : List A)
      → ((x : A) → key (f x) ≡ key x)
      → find_where (at_key j) (update_where (at_key k) f xs)
        ≡ (if k == j then Option.map f (find_where (at_key j) xs) else find_where (at_key j) xs)
  unfolding find_where update_where
  find-update k j f [] keeps = ground arith
  find-update k j f (x ∷ xs) keeps = ground (arith, keeps x, find-update k j f xs keeps)

  -- A look-up that succeeds finds a row with the key.
  pub find-key : (k : ℕ) (xs : List A) {x : A} → find_where (at_key k) xs ≡ some x → key x ≡ k
  unfolding find_where
  find-key k [] h = cc
  find-key k (y ∷ xs) {x} h = ground (arith, find-key k xs {x = x})

  pub find-count_zero :
      (k : ℕ) (xs : List A) → count_where (at_key k) xs ≡ 0 → find_where (at_key k) xs ≡ none
  unfolding find_where count_where
  find-count_zero k [] h = refl
  find-count_zero k (y ∷ xs) h = ground (arith, find-count_zero k xs)

  pub count-find_none :
      (k : ℕ) (xs : List A) → find_where (at_key k) xs ≡ none → count_where (at_key k) xs ≡ 0
  unfolding find_where count_where
  count-find_none k [] h = refl
  count-find_none k (y ∷ xs) h = ground (arith, count-find_none k xs)

  pub update_absent :
      (k : ℕ) (f : A → A) (xs : List A)
      → count_where (at_key k) xs ≡ 0
      → update_where (at_key k) f xs ≡ xs
  unfolding update_where count_where
  update_absent k f [] h = refl
  update_absent k f (y ∷ xs) h = ground (arith, update_absent k f xs)

  -- An update that keeps the keys keeps how often a key stands in the table.
  pub count_key-update :
      (k j : ℕ) (f : A → A) (xs : List A)
      → ((x : A) → key (f x) ≡ key x)
      → count_where (at_key j) (update_where (at_key k) f xs) ≡ count_where (at_key j) xs
  unfolding count_where update_where
  count_key-update k j f [] keeps = refl
  count_key-update k j f (x ∷ xs) keeps = ground (arith, keeps x, count_key-update k j f xs keeps)

  -- The update of the one row with a key moves any count by what that row counts.
  pub count-update :
      (p : A → Bool) (k : ℕ) (f : A → A) (xs : List A) (x : A)
      → find_where (at_key k) xs ≡ some x
      → count_where (at_key k) xs ≤ 1
      → count_where p (update_where (at_key k) f xs) + indicator (p x)
        ≡ count_where p xs + indicator (p (f x))
  unfolding find_where count_where update_where
  count-update p k f [] x found once = cc
  count-update p k f (y ∷ xs) x found once =
      ground (arith, count-update p k f xs x, update_absent k f xs)

  -- A row that is found is counted.
  pub indicator-le-count :
      (p : A → Bool) (k : ℕ) (xs : List A) (x : A)
      → find_where (at_key k) xs ≡ some x
      → indicator (p x) ≤ count_where p xs
  unfolding find_where count_where
  indicator-le-count p k [] x found = cc
  indicator-le-count p k (y ∷ xs) x found = ground (arith, indicator-le-count p k xs x)

  -- `WHERE key = k AND p` finds the row with the key, if its one row meets the rest.
  pub find-and :
      (p : A → Bool) (k : ℕ) (xs : List A) (x : A)
      → find_where (λ y. key y == k && p y) xs ≡ some x
      → count_where (at_key k) xs ≤ 1
      → (find_where (at_key k) xs ≡ some x) × (p x ≡ true)
  unfolding find_where count_where
  find-and p k [] x found once = cc
  find-and p k (y ∷ xs) x found once = ground (arith, find-and p k xs x, find_and_absent p k xs)
    where
      find_and_absent :
          (q : A → Bool) (j : ℕ) (ys : List A)
          → count_where (at_key j) ys ≡ 0
          → find_where (λ y. key y == j && q y) ys ≡ none
      find_and_absent q j [] h = refl
      find_and_absent q j (z ∷ ys) h = ground (arith, find_and_absent q j ys)

module _ {A : Type 0} (key : A → ℕ) where
  pub update-and :
      (p : A → Bool) (k : ℕ) (f : A → A) (xs : List A) (x : A)
      → find_where (λ y. key y == k && p y) xs ≡ some x
      → count_where (at_key key k) xs ≤ 1
      → update_where (λ y. key y == k && p y) f xs ≡ update_where (at_key key k) f xs
  unfolding find_where count_where update_where
  update-and p k f [] x found once = refl
  update-and p k f (y ∷ xs) x found once = ground (
    arith,
    update-and p k f xs x,
    update_absent key k f xs,
    update_and_absent k xs,
    found_counted k xs,
  )
    where
      update_and_absent :
          (j : ℕ) (ys : List A)
          → count_where (at_key key j) ys ≡ 0
          → update_where (λ z. key z == j && p z) f ys ≡ ys
      update_and_absent j [] h = refl
      update_and_absent j (z ∷ ys) h = ground (arith, update_and_absent j ys)

      found_counted :
          (j : ℕ) (ys : List A)
          → find_where (λ z. key z == j && p z) ys ≡ some x
          → 1 ≤ count_where (at_key key j) ys
      found_counted j [] h = cc
      found_counted j (z ∷ ys) h = ground (arith, found_counted j ys)

-- An UPDATE that finds no row changes nothing.
pub update_none {ℓ} :
    {A : Type ℓ} (p : A → Bool) (f : A → A) (xs : List A)
    → find_where p xs ≡ none
    → update_where p f xs ≡ xs
unfolding find_where update_where
update_none p f [] h = refl
update_none p f (x ∷ xs) h = ground (arith, update_none p f xs)

-- Where nothing is counted nothing is found, and the other way round.
pub find-count_pos {ℓ} :
    {A : Type ℓ} (p : A → Bool) (xs : List A) → find_where p xs ≢ none → 1 ≤ count_where p xs
unfolding find_where count_where
find-count_pos p [] h = absurd (h refl)
find-count_pos p (x ∷ xs) h = ground (arith, find-count_pos p xs)

-- An UPDATE that does not change what a count looks at leaves the count alone.
pub count-update_same {ℓ} :
    {A : Type ℓ} (q p : A → Bool) (f : A → A) (xs : List A)
    → ((x : A) → p (f x) ≡ p x)
    → count_where p (update_where q f xs) ≡ count_where p xs
unfolding count_where update_where
count-update_same q p f [] same = refl
count-update_same q p f (x ∷ xs) same = ground (arith, same x, count-update_same q p f xs same)
