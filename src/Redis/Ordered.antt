-- ===== src/Redis/Ordered.antt =====
-- Sorted sets in their order: putting members back where they stood.
use ticketvault.Prelude.{◌≡◌, refl, true, false, List, [], ◌∷◌, ◌++◌, arith, ◌==◌}
use mathlib.Core.List.{append_assoc}
use ticketvault.Redis.{Waiter, precedes, is_waiting, insert_waiter, add_waiter}

abbrev pub Before : Waiter → Waiter → Type 0
Before v w = (precedes v w ≡ true) × ((w.user_id == v.user_id) ≡ false)

abbrev pub BeforeAll : Waiter → List Waiter → Type 0
BeforeAll v [] = Unit
BeforeAll v (w ∷ ws) = Before v w × BeforeAll v ws

-- Each member stands before all that follow it, and no two are of one user.
abbrev pub Ordered : List Waiter → Type 0
Ordered [] = Unit
Ordered (w ∷ ws) = BeforeAll w ws × Ordered ws

abbrev AllBefore : List Waiter → Waiter → Type 0
AllBefore [] v = Unit
AllBefore (w ∷ ws) v = Before w v × AllBefore ws v

BeforeAll-at :
    (w v : Waiter) (pre rest : List Waiter) → BeforeAll w (pre ++ (v ∷ rest)) → Before w v
BeforeAll-at w v [] rest h = h.0
BeforeAll-at w v (x ∷ pre) rest h = BeforeAll-at w v pre rest h.1

Ordered-before :
    (v : Waiter) (pre rest : List Waiter) → Ordered (pre ++ (v ∷ rest)) → AllBefore pre v
Ordered-before v [] rest h = tt
Ordered-before v (w ∷ pre) rest h = (BeforeAll-at w v pre rest h.0, Ordered-before v pre rest h.1)

Ordered-after :
    (v : Waiter) (pre rest : List Waiter) → Ordered (pre ++ (v ∷ rest)) → BeforeAll v rest
Ordered-after v [] rest h = h.0
Ordered-after v (w ∷ pre) rest h = Ordered-after v pre rest h.1

BeforeAll-right : (v : Waiter) (xs ys : List Waiter) → BeforeAll v (xs ++ ys) → BeforeAll v ys
BeforeAll-right v [] ys h = h
BeforeAll-right v (x ∷ xs) ys h = BeforeAll-right v xs ys h.1

waiting_between :
    (v : Waiter) (pre rest : List Waiter)
    → AllBefore pre v
    → BeforeAll v rest
    → is_waiting v.user_id (pre ++ rest) ≡ false
waiting_between v [] [] b a = refl
waiting_between v [] (w ∷ rest) b a = ground (arith, waiting_between v [] rest)
waiting_between v (p ∷ pre) rest b a = ground (arith, waiting_between v pre rest b.1 a)

insert_between :
    (v : Waiter) (pre rest : List Waiter)
    → AllBefore pre v
    → BeforeAll v rest
    → insert_waiter v (pre ++ rest) ≡ pre ++ (v ∷ rest)
unfolding insert_waiter
insert_between v [] [] b a = refl
insert_between v [] (w ∷ rest) b a = ground arith
insert_between v (p ∷ pre) rest b a = ground (arith, insert_between v pre rest b.1 a)

-- A member that is added between those before it and those after it stands there.
pub add_between :
    (v : Waiter) (pre mid rest : List Waiter)
    → Ordered (pre ++ v ∷ (mid ++ rest))
    → add_waiter v (pre ++ rest) ≡ (pre ++ v ∷ []) ++ rest
unfolding add_waiter
add_between v pre mid rest h =
    let b = Ordered-before v pre (mid ++ rest) h in
    let a = BeforeAll-right v mid rest (Ordered-after v pre (mid ++ rest) h) in
    ground (
      arith,
      waiting_between v pre rest b a,
      insert_between v pre rest b a,
      append_assoc pre (v ∷ []) rest,
    )

pub Ordered-append_assoc :
    (v : Waiter) (pre rest : List Waiter)
    → Ordered (pre ++ (v ∷ rest))
    → Ordered ((pre ++ v ∷ []) ++ rest)
Ordered-append_assoc v pre rest o = rw (append_assoc pre (v ∷ []) rest) o
