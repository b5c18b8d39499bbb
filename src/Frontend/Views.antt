-- ===== src/Frontend/Views.antt =====
-- What the pages of frontend/src show, as lists of elements in the order of the document. Tags that only
-- group, classes, styles, icons, animations and tooltips are left out.
use Prim.Native.String.{String}
use ticketvault.Prelude.{
  ℕ, ◌+◌, ◌≡◌, refl, ap, Bool, true, false, List, [], ◌∷◌, ◌++◌, Option, none, some, ◌==◌, ◌||◌,
  ◌∙◌, if◌then◌else◌, arith, Bool-cases, inl, inr,
}
use ticketvault.Frontend.Session.{
  Location, home_path, login_path, register_path, bookings_path, admin_path, event_path,
  checkout_path,
}
pub mod Badges
pub mod Navbar
pub mod Tickets
pub mod Seats
pub mod Panel
pub mod Event
pub mod Checkout
pub mod Home
pub mod Forms
pub mod Console

-- A piece of text: a text, its initials or its first word. Numbers stand for what is printed of them:
-- an amount with two decimals or with none, a quotient with one, a time, the letter of a row, two digits, the start of an identifier, a share of 100.
pub data Label : Type 0 where
  text initials first_word : String → Label
  number money whole_money moment letter two_digits short_id email : ℕ → Label
  quotient : (whole part : ℕ) → Label
  percentage : Option ℕ → Label
  spinner skeleton : Label

-- `Act` is what the buttons of a page do. A button is enabled or disabled.
pub data Element (Act : Type 0) : Type 0 where
  shows : Label → Element Act
  link : Location → List Label → Element Act
  button : Act → Bool → List Label → Element Act
  field : (name value placeholder : String) → Element Act

abbrev pub View : Type 0 → Type 0
View Act = List (Element Act)

-- `{test && view}`
abbrev pub when : {Act : Type 0} → Bool → View Act → View Act
when true v = v
when false v = []

-- `{xs.map(f)}`
unfoldable pub each : {A Act : Type 0} → (A → View Act) → List A → View Act
each f [] = []
each f (x ∷ xs) = f x ++ each f xs

-- A component within a page that does more.
unfoldable pub embed : {A B : Type 0} → (A → B) → View A → View B
embed f [] = []
embed f (shows l ∷ es) = shows l ∷ embed f es
embed f (link to ls ∷ es) = link to ls ∷ embed f es
embed f (button act b ls ∷ es) = button (f act) b ls ∷ embed f es
embed f (field n x p ∷ es) = field n x p ∷ embed f es

-- The acts that can be chosen, and the places that links lead to, in their order.
unfoldable pub enabled_acts : {Act : Type 0} → View Act → List Act
enabled_acts [] = []
enabled_acts (button act true ls ∷ es) = act ∷ enabled_acts es
enabled_acts (e ∷ es) = enabled_acts es

unfoldable pub links : {Act : Type 0} → View Act → List Location
links [] = []
links (link to ls ∷ es) = to ∷ links es
links (e ∷ es) = links es

module _ {Act : Type 0} where
  pub enabled_acts-append :
      (v w : View Act) → enabled_acts (v ++ w) ≡ enabled_acts v ++ enabled_acts w
  unfolding enabled_acts
  enabled_acts-append [] w = refl
  enabled_acts-append (shows l ∷ v) w = enabled_acts-append v w
  enabled_acts-append (link to ls ∷ v) w = enabled_acts-append v w
  enabled_acts-append (button act true ls ∷ v) w =
      ap (λ (rest : List Act). act ∷ rest) (enabled_acts-append v w)
  enabled_acts-append (button act false ls ∷ v) w = enabled_acts-append v w
  enabled_acts-append (field n x p ∷ v) w = enabled_acts-append v w

  pub links-append : (v w : View Act) → links (v ++ w) ≡ links v ++ links w
  unfolding links
  links-append [] w = refl
  links-append (shows l ∷ v) w = links-append v w
  links-append (link to ls ∷ v) w = ap (λ (ps : List Location). to ∷ ps) (links-append v w)
  links-append (button act b ls ∷ v) w = links-append v w
  links-append (field n x p ∷ v) w = links-append v w

  -- A part of a page with nothing to choose.
  pub quiet-append : (v w : View Act) → enabled_acts v ≡ [] → enabled_acts (v ++ w) ≡ enabled_acts w
  quiet-append v w quiet =
      enabled_acts-append v w ∙ ap (λ (first : List Act). first ++ enabled_acts w) quiet
