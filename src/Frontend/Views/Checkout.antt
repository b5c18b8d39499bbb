-- ===== src/Frontend/Views/Checkout.antt =====
-- What frontend/src/pages/CheckoutPage.tsx shows.
use ticketvault.Prelude.{
  ℕ, ◌≡◌, refl, ◌∙◌, sym, Bool, true, false, not, List, [], ◌∷◌, ◌++◌, Option, none, some, is_some,
  arith, ◌==◌, ◌&&◌, ◌||◌, Bool-cases, inl, inr, if◌then◌else◌,
}
use ticketvault.Frontend.{BookingStore, calculate}
use ticketvault.Frontend.Checkout.{
  PaymentState, success, failed, Checkout, has_expired, can_submit, is_processing, Reach,
  Reach-IsOrderly,
}
use ticketvault.Frontend.Views.{
  Label, text, money, short_id, spinner, shows, button, View, when, enabled_acts, quiet-append,
}
use ticketvault.Frontend.Views.Badges.{countdown_timer}

pub data CheckoutAct : Type 0 where
  view_tickets : CheckoutAct
  pay : (succeeds : Bool) → CheckoutAct

abbrev pub is_failed : PaymentState → Bool
is_failed failed = true
is_failed _ = false

abbrev pub is_success : PaymentState → Bool
is_success success = true
is_success _ = false

abbrev pub summary_row : Option ℕ → (ℕ → View CheckoutAct) → View CheckoutAct
summary_row none f = []
summary_row (some n) f = f n

-- `amount ? … : ''`, where 0 counts as no amount
abbrev pub amount_label : Option ℕ → List Label
amount_label none = []
amount_label (some n) = if n == 0 then [] else money n ∷ []

unfoldable pub summary : (booking_id : ℕ) → Checkout → View CheckoutAct
summary booking_id c =
    (shows (text "Booking ID") ∷ shows (short_id booking_id) ∷ [])
    ++ summary_row c.payment_id (λ p. shows (text "Payment ID") ∷ shows (short_id p) ∷ [])
    ++ summary_row c.amount (λ a. shows (text "Total due") ∷ shows (money a) ∷ [])

unfoldable pub pay_buttons : ℕ → Checkout → View CheckoutAct
pay_buttons now c =
    let enabled = not (is_processing c.payment_state || has_expired now c) in
    button (pay true) enabled (
      if is_processing c.payment_state
      then spinner ∷ text "Processing…" ∷ []
      else text "Simulate successful payment" ∷ amount_label c.amount)
    ∷ button (pay false) enabled (text "Simulate failure" ∷ [])
    ∷ []

abbrev pub failed_alert : View CheckoutAct
failed_alert = shows (text "Payment failed — your seat has been released.") ∷ []

-- What the page shows once the payment has been initiated.
unfoldable pub payment_body : ℕ → (booking_id : ℕ) → Checkout → View CheckoutAct
payment_body now booking_id c =
    summary booking_id c
    ++ (shows (text "Demo mode.")
        ∷ shows (
            text
              "Card collection via Stripe/Razorpay is out of scope for the public demo. Use the buttons below to simulate either outcome — both paths exercise the real reserve → confirm / release server flow.")
        ∷ (when (is_failed c.payment_state) failed_alert ++ pay_buttons now c))

-- The page before a payment has succeeded.
unfoldable pub payment_form : ℕ → (booking_id : ℕ) → Checkout → View CheckoutAct
payment_form now booking_id c =
    shows (text "Complete Payment")
      ∷ when (is_some c.store.reservation_expires_at && not (has_expired now c))
          (countdown_timer (calculate c.store.reservation_expires_at now))
    ++ (if c.loading then shows spinner ∷ [] else payment_body now booking_id c)

unfoldable pub checkout_page : ℕ → (booking_id : ℕ) → Checkout → View CheckoutAct
checkout_page now booking_id c =
    if is_success c.payment_state
    then shows (text "Booking Confirmed!")
      ∷ shows (text "Your ticket is secured. A confirmation will be sent to your email.")
      ∷ button view_tickets true (text "View My Tickets" ∷ [])
      ∷ []
    else payment_form now booking_id c

timer_acts :
    (b : Bool) (now : ℕ) (c : Checkout)
    → enabled_acts {Act = CheckoutAct}
        (when b (countdown_timer (calculate c.store.reservation_expires_at now)))
      ≡ []
unfolding countdown_timer enabled_acts
timer_acts false now c = refl
timer_acts true now c = elim (Bool-cases (calculate c.store.reservation_expires_at now).expired) [
  | inl over ↦ rw over refl
  | inr runs ↦ rw runs refl
]

summary_acts : (k : ℕ) (c : Checkout) → enabled_acts (summary k c) ≡ []
unfolding summary enabled_acts
summary_acts k c = ground arith

buttons_acts :
    (now : ℕ) (c : Checkout)
    → enabled_acts (pay_buttons now c) ≡ (
        if is_processing c.payment_state || has_expired now c
        then []
        else pay true ∷ pay false ∷ [])
unfolding pay_buttons enabled_acts
buttons_acts now c = elim (Bool-cases (is_processing c.payment_state || has_expired now c)) [
  | inl shut ↦ rw shut refl
  | inr able ↦ rw able refl
]

failed_acts : (b : Bool) → enabled_acts {Act = CheckoutAct} (when b failed_alert) ≡ []
unfolding enabled_acts
failed_acts true = refl
failed_acts false = refl

body_acts :
    (now k : ℕ) (c : Checkout)
    → enabled_acts (payment_body now k c) ≡ enabled_acts (pay_buttons now c)
unfolding payment_body enabled_acts
body_acts now k c =
    quiet-append (summary k c) _ (summary_acts k c)
    ∙ quiet-append (when (is_failed c.payment_state) failed_alert) (pay_buttons now c)
        (failed_acts (is_failed c.payment_state))

loading_acts :
    (loading : Bool) (now k : ℕ) (c : Checkout)
    → enabled_acts (if loading then shows spinner ∷ [] else payment_body now k c)
      ≡ (if loading then [] else enabled_acts (pay_buttons now c))
unfolding enabled_acts
loading_acts true now k c = refl
loading_acts false now k c = body_acts now k c

form_acts :
    (now k : ℕ) (c : Checkout)
    → enabled_acts (payment_form now k c)
      ≡ (if c.loading then [] else enabled_acts (pay_buttons now c))
unfolding payment_form enabled_acts
form_acts now k c =
    quiet-append
      (when (is_some c.store.reservation_expires_at && not (has_expired now c))
        (countdown_timer (calculate c.store.reservation_expires_at now)))
      _ (timer_acts (is_some c.store.reservation_expires_at && not (has_expired now c)) now c)
    ∙ loading_acts c.loading now k c

-- In every course of the checkout the page has no button to choose while a payment is in flight, so that
-- no second payment is submitted before the first is answered; and while one can be submitted, it
-- offers to submit it and to let it fail.
pub page_waits :
    {store : BookingStore} {c : Checkout} (now k : ℕ)
    → Reach store c
    → (is_some c.in_flight ≡ true → enabled_acts (checkout_page now k c) ≡ [])
      × (can_submit now c ≡ true → enabled_acts (checkout_page now k c) ≡ pay true ∷ pay false ∷ [])
unfolding checkout_page can_submit
page_waits {c = c} now k before =
    let (flies, waits, kept) = Reach-IsOrderly before in
    (
      λ sent.
          let busy : is_processing c.payment_state ≡ true = sym flies ∙ sent in
          let still : is_success c.payment_state ≡ false = ground arith in
          rw still (form_acts now k c ∙ ground (arith, buttons_acts now c)),
      λ able.
          let still : is_success c.payment_state ≡ false = ground arith in
          let idle_now : is_processing c.payment_state ≡ false = ground arith in
          rw still (form_acts now k c ∙ ground (arith, buttons_acts now c)),
    )
