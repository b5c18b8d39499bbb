-- ===== src/Frontend/Checkout.antt =====
-- The checkout of a booking: frontend/src/pages/CheckoutPage.tsx.
use ticketvault.Prelude.{
  ℕ, ◌≡◌, refl, Bool, true, false, not, Option, none, some, ◌&&◌, if◌then◌else◌, arith, Bool-cases,
  inl, inr, is_some, ap, ◌∙◌,
}
use ticketvault.Frontend.{BookingStore, calculate, clear_active_booking}

pub data PaymentState : Type 0 where
  idle processing success failed : PaymentState

-- `in_flight` is the argument of the call of `submit` that waits for the server, and `at_home` says
-- that the page has led to the home page.
pub record Checkout : Type 0 where
  pub payment_state : PaymentState
  pub amount : Option ℕ
  pub payment_id : Option ℕ
  pub loading : Bool
  pub in_flight : Option Bool
  pub at_home : Bool
  pub store : BookingStore

unfoldable pub opened : BookingStore → Checkout
opened store = record {
  payment_state = idle;
  amount = none;
  payment_id = none;
  loading = true;
  in_flight = none;
  at_home = false;
  store = store;
}

-- The answer to `initiate`, the payment and its amount, or its failure.
unfoldable pub on_initiated : Option (ℕ × ℕ) → Checkout → Checkout
on_initiated none c = record c { payment_state = failed; loading = false }
on_initiated (some (payment_id, amount)) c = record c {
  payment_id = some payment_id;
  amount = some amount;
  loading = false;
}

unfoldable pub handle_expiry : Checkout → Checkout
handle_expiry c = record c { store = clear_active_booking c.store; at_home = true }

-- The countdown, which runs on the reservation of the store.
unfoldable pub has_expired : ℕ → Checkout → Bool
has_expired now c = (calculate c.store.reservation_expires_at now).expired

unfoldable pub watch_expiry : ℕ → Checkout → Checkout
watch_expiry now c = if has_expired now c then handle_expiry c else c

-- The two parts of `submit`, before and after the server answers.
unfoldable pub submit : Bool → Checkout → Checkout
submit pays c = record c { payment_state = processing; in_flight = some pays }

abbrev pub settled_state : Bool → Bool → PaymentState
settled_state true true = success
settled_state _ _ = failed

unfoldable pub on_simulated : (pays answered : Bool) → Checkout → Checkout
on_simulated pays answered c = record c {
  payment_state = settled_state pays answered;
  in_flight = none;
  store = if pays && answered then clear_active_booking c.store else c.store;
}

-- `setTimeout(() => navigate('/'), 2000)`
unfoldable pub go_home : Checkout → Checkout
go_home c = record c { at_home = true }

abbrev pub is_open : PaymentState → Bool
is_open idle = true
is_open failed = true
is_open _ = false

-- The buttons are there while nothing loads and the payment has not succeeded, and are enabled unless
-- it is being processed or the reservation has expired.
unfoldable pub can_submit : ℕ → Checkout → Bool
can_submit now c = not c.loading && is_open c.payment_state && not (has_expired now c)

pub data Step : Checkout → Checkout → Type 0 where
  initiates :
      {c : Checkout} → c.loading ≡ true → (answer : Option (ℕ × ℕ)) → Step c (on_initiated answer c)
  watches : {c : Checkout} (now : ℕ) → Step c (watch_expiry now c)
  submits :
      {c : Checkout} (now : ℕ) (pays : Bool) → can_submit now c ≡ true → Step c (submit pays c)
  answers :
      {c : Checkout} (pays answered : Bool)
      → c.in_flight ≡ some pays
      → Step c (on_simulated pays answered c)
  leaves : {c : Checkout} → c.payment_state ≡ failed → Step c (go_home c)

pub data Reach (store : BookingStore) : Checkout → Type 0 where
  opens : Reach store (opened store)
  go_on : {c next : Checkout} → Reach store c → Step c next → Reach store next

abbrev pub is_processing : PaymentState → Bool
is_processing processing = true
is_processing _ = false

abbrev pub IsCleared : PaymentState → BookingStore → Type 0
IsCleared success store = (store.active_booking_id ≡ none) × (store.reservation_expires_at ≡ none)
IsCleared _ store = Unit

-- A payment is in flight exactly while the page processes one, nothing is while the page loads, and
-- after a success no reservation is kept.
abbrev pub IsOrderly : Checkout → Type 0
IsOrderly c =
    (is_some c.in_flight ≡ is_processing c.payment_state)
    × (c.loading ≡ true → c.payment_state ≡ idle)
    × IsCleared c.payment_state c.store

clear-IsCleared :
    (state : PaymentState) (store : BookingStore) → IsCleared state (clear_active_booking store)
unfolding clear_active_booking
clear-IsCleared success store = (refl, refl)
clear-IsCleared idle store = tt
clear-IsCleared processing store = tt
clear-IsCleared failed store = tt

-- While a payment is in flight the page does not load.
flies_loaded :
    (c : Checkout) (pays : Bool)
    → c.in_flight ≡ some pays
    → is_some c.in_flight ≡ is_processing c.payment_state
    → (c.loading ≡ true → c.payment_state ≡ idle)
    → c.loading ≡ false
flies_loaded c pays sent flies waits = elim (Bool-cases c.loading) [
  | inr loaded ↦ loaded
  | inl loads ↦
      let settled : is_some c.in_flight ≡ false = flies ∙ ap is_processing (waits loads) in
      let sends : is_some c.in_flight ≡ true = ap is_some sent in ground arith
]

Step-IsOrderly : {c next : Checkout} → Step c next → IsOrderly c → IsOrderly next
unfolding on_initiated watch_expiry handle_expiry submit on_simulated go_home can_submit
Step-IsOrderly {c} (initiates loads none) (flies, waits, kept) =
    (flies ∙ ap is_processing (waits loads), λ h. ground arith, tt)
Step-IsOrderly {c} (initiates loads (some (p, a))) (flies, waits, kept) =
    (flies, λ h. ground arith, kept)
Step-IsOrderly {c} (watches now) (flies, waits, kept) = elim (Bool-cases (has_expired now c)) [
  | inl over ↦ rw over (flies, waits, clear-IsCleared c.payment_state c.store)
  | inr runs ↦ rw runs (flies, waits, kept)
]
Step-IsOrderly {c} (submits now pays enabled) (flies, waits, kept) = (refl, λ h. ground arith, tt)
Step-IsOrderly {c} (answers true true sent) (flies, waits, kept) =
    let loaded = flies_loaded c _ sent flies waits in
    (refl, λ h. ground arith, clear-IsCleared success c.store)
Step-IsOrderly {c} (answers true false sent) (flies, waits, kept) =
    let loaded = flies_loaded c _ sent flies waits in (refl, λ h. ground arith, tt)
Step-IsOrderly {c} (answers false answered sent) (flies, waits, kept) =
    let loaded = flies_loaded c _ sent flies waits in (refl, λ h. ground arith, tt)
Step-IsOrderly {c} (leaves over) (flies, waits, kept) = (flies, waits, kept)

-- In every course of the checkout a payment is in flight exactly while the page shows that it is being
-- processed, none is while the page loads, and after a success no reservation is kept.
pub Reach-IsOrderly : {store : BookingStore} {c : Checkout} → Reach store c → IsOrderly c
unfolding opened
Reach-IsOrderly opens = (refl, λ h. refl, tt)
Reach-IsOrderly (go_on before step) = Step-IsOrderly step (Reach-IsOrderly before)

is_open_lem : (state : PaymentState) → is_open state ≡ true → is_processing state ≡ false
is_open_lem idle h = refl
is_open_lem failed h = refl
is_open_lem processing h = ground arith
is_open_lem success h = refl

none_flies :
    {sent : Option Bool} {processed : Bool}
    → processed ≡ false
    → is_some sent ≡ processed
    → sent ≡ none
none_flies {sent = none} still same = refl
none_flies {sent = some pays} still same = ground arith

-- In every course of the checkout the buttons are enabled only while no payment is in flight, so that
-- no second payment is submitted before the first is answered.
pub can_submit-in_flight :
    {store : BookingStore} {c : Checkout} (now : ℕ)
    → Reach store c
    → can_submit now c ≡ true
    → c.in_flight ≡ none
unfolding can_submit
can_submit-in_flight {c = c} now before enabled =
    let (flies, waits, kept) = Reach-IsOrderly before in
    none_flies (is_open_lem c.payment_state (ground arith)) flies
