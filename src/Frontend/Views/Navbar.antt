-- ===== src/Frontend/Views/Navbar.antt =====
-- frontend/src/components/layout/Navbar.tsx: the bar above every page.
use Prim.Native.String.{String}
use ticketvault.Prelude.{
  ℕ, ◌≡◌, refl, Bool, true, false, List, [], ◌∷◌, ◌++◌, Option, none, some, is_some, arith,
  if◌then◌else◌, ◌==◌,
}
use ticketvault.Types.{Role}
use ticketvault.Frontend.Session.{
  SessionUser, AuthState, Location, home_path, login_path, register_path, bookings_path, admin_path,
  event_path, checkout_path, app_route, auth_route, protected_route, admin_route, admin_page,
  SessionEvent, session_after, session_after-IsWhole,
}
use ticketvault.Frontend.Views.{
  Label, text, initials, first_word, email, shows, link, button, View, when, links,
}

-- What the buttons of the bar do.
pub data BarAct : Type 0 where
  toggle_menu sign_out : BarAct

unfoldable pub user_is_admin : Option SessionUser → Bool
user_is_admin none = false
user_is_admin (some u) = elim u.role [ Role.admin ↦ true | Role.user ↦ false ]

-- `initials` and the first name, on the button of the menu.
abbrev pub chip : Option SessionUser → List Label
chip none = text "?" ∷ []
chip (some u) = initials u.name ∷ first_word u.name ∷ []

abbrev pub who : Option SessionUser → View BarAct
who none = []
who (some u) = shows (text u.name) ∷ shows (email u.email) ∷ []

-- The menu of the user, once it is open.
unfoldable pub user_menu : Option SessionUser → View BarAct
unfolding user_is_admin
user_menu user =
    who user
    ++ link bookings_path (text "My Tickets" ∷ [])
      ∷ when (user_is_admin user) (link admin_path (text "Admin Dashboard" ∷ []) ∷ [])
    ++ button sign_out true (text "Sign out" ∷ []) ∷ []

unfoldable pub navbar : AuthState → (menu_open : Bool) → View BarAct
unfolding user_menu user_is_admin
navbar s menu_open =
    (link home_path (text "TicketVault" ∷ []) ∷ link home_path (text "Events" ∷ []) ∷ [])
    ++ when s.is_authenticated (link bookings_path (text "My Tickets" ∷ []) ∷ [])
    ++ when (user_is_admin s.user) (link admin_path (text "Admin" ∷ []) ∷ [])
    ++ (if s.is_authenticated
        then button toggle_menu true (chip s.user) ∷ when menu_open (user_menu s.user)
        else link login_path (text "Sign in" ∷ [])
          ∷ link register_path (text "Get started" ∷ [])
          ∷ [])

-- The pages whose paths have no parameter.
abbrev pub is_plain : Location → Bool
is_plain (event_path k) = false
is_plain (checkout_path k) = false
is_plain p = true

abbrev pub same_page : Location → Location → Bool
same_page home_path home_path = true
same_page login_path login_path = true
same_page register_path register_path = true
same_page bookings_path bookings_path = true
same_page admin_path admin_path = true
same_page (event_path j) (event_path k) = j == k
same_page (checkout_path j) (checkout_path k) = j == k
same_page _ _ = false

abbrev pub leads_to : Location → List Location → Bool
leads_to p [] = false
leads_to p (q ∷ qs) = if same_page p q then true else leads_to p qs

abbrev session_of : Option ℕ → Option ℕ → Option SessionUser → Bool → AuthState
session_of t r user entered = record {
  token = t;
  refresh_token = r;
  user = user;
  is_authenticated = entered;
}

visitor_links :
    (t r : Option ℕ) (menu_open : Bool) (p : Location)
    → is_plain p ≡ true
    → leads_to p (links (navbar (session_of t r none false) menu_open))
      ≡ same_page (app_route (session_of t r none false) p) p
unfolding navbar links app_route auth_route protected_route admin_route user_is_admin
visitor_links t r menu_open home_path h = refl
visitor_links t r menu_open login_path h = refl
visitor_links t r menu_open register_path h = refl
visitor_links t r menu_open bookings_path h = refl
visitor_links t r menu_open admin_path h = refl
visitor_links t r menu_open (event_path k) h = cc
visitor_links t r menu_open (checkout_path k) h = cc

user_links :
    (t r : Option ℕ) (id mail : ℕ) (name : String) (role : Role) (menu_open : Bool) (p : Location)
    → is_plain p ≡ true
    → let s =
        session_of t r (some (record { id = id; email = mail; name = name; role = role })) true in
      leads_to p (links (navbar s menu_open)) ≡ same_page (app_route s p) p
unfolding navbar links app_route auth_route protected_route admin_route admin_page user_is_admin
    user_menu
user_links t r id mail name role menu_open home_path h = ground arith
user_links t r id mail name role menu_open login_path h = ground arith
user_links t r id mail name role menu_open register_path h = ground arith
user_links t r id mail name role menu_open bookings_path h = ground arith
user_links t r id mail name role menu_open admin_path h = ground arith
user_links t r id mail name role menu_open (event_path k) h = cc
user_links t r id mail name role menu_open (checkout_path k) h = cc

links_of_whole :
    (t r : Option ℕ) (user : Option SessionUser) (entered menu_open : Bool) (p : Location)
    → entered ≡ is_some user
    → is_plain p ≡ true
    → leads_to p (links (navbar (session_of t r user entered) menu_open))
      ≡ same_page (app_route (session_of t r user entered) p) p
links_of_whole t r none entered menu_open p same h = rw same (visitor_links t r menu_open p h)
links_of_whole t r (some u) entered menu_open p same h =
    rw same (user_links t r u.id u.email u.name u.role menu_open p h)

-- After any sequence of logins, registrations, answers and logouts the bar links to exactly those pages
-- without a parameter in their paths that the guards show to the session, whether its menu is open or
-- not.
pub bar_links_open_pages :
    (es : List SessionEvent) (menu_open : Bool) (p : Location)
    → is_plain p ≡ true
    → leads_to p (links (navbar (session_after es) menu_open))
      ≡ same_page (app_route (session_after es) p) p
bar_links_open_pages es menu_open p h =
    let s = session_after es in
    links_of_whole s.token s.refresh_token s.user s.is_authenticated menu_open p
      (session_after-IsWhole es).1 h
