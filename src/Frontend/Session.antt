-- ===== src/Frontend/Session.antt =====
-- The session that the browser keeps: frontend/src/store/authStore.ts, the interceptors of
-- frontend/src/services/api.ts, the forms of LoginPage.tsx and RegisterPage.tsx, the logout of
-- Navbar.tsx, and the guards of App.tsx and AdminPage.tsx (frontend/src/pages, components/layout).
use Prim.Native.String.{String}
use ticketvault.Prelude.{
  ℕ, ◌≡◌, refl, Bool, true, false, List, [], ◌∷◌, Option, none, some, is_some, ◌==◌, if◌then◌else◌,
  arith, Bool-cases, inl, inr, ◌⊎◌,
}
use ticketvault.Types.{Role}

-- `User` of authStore.ts
pub record SessionUser : Type 0 where
  pub id : ℕ
  pub email : ℕ
  pub name : String
  pub role : Role

pub record AuthState : Type 0 where
  pub token : Option ℕ
  pub refresh_token : Option ℕ
  pub user : Option SessionUser
  pub is_authenticated : Bool

-- The `login` of the store.
unfoldable pub log_in : ℕ → SessionUser → Option ℕ → AuthState → AuthState
log_in access_token user refresh_token s = record {
  token = some access_token;
  refresh_token = refresh_token;
  user = some user;
  is_authenticated = true;
}

-- The initial state of the store, and what its `logout` sets.
abbrev pub signed_out : AuthState
signed_out = record { token = none; refresh_token = none; user = none; is_authenticated = false }

unfoldable pub log_out : AuthState → AuthState
log_out s = signed_out

-- The Authorization header that the first interceptor sets.
unfoldable pub request_header : AuthState → Option ℕ
request_header s = s.token

-- What a session is given by the server: an access token, a refresh token and the user.
pub record SessionData : Type 0 where
  pub access_token : ℕ
  pub refresh_token : ℕ
  pub user : SessionUser

-- How a request ends, for the second interceptor.
pub data Answer (A : Type 0) : Type 0 where
  received : A → Answer A
  failed : ℕ → Answer A
  no_response : Answer A

unfoldable pub intercept : {A : Type 0} → Answer A → AuthState → AuthState
intercept (failed status) s = if status == 401 then log_out s else s
intercept _ s = s

-- The paths of App.tsx.
pub data Location : Type 0 where
  home_path login_path register_path bookings_path admin_path : Location
  event_path checkout_path : ℕ → Location

-- `handleSubmit` of the two forms, with the page that it leads to, if to any.
unfoldable pub handle_submit : Answer SessionData → AuthState → AuthState × Option Location
handle_submit (received d) s = (log_in d.access_token d.user none s, some home_path)
handle_submit answer s = (intercept answer s, none)

-- `handleLogout`
unfoldable pub handle_logout : AuthState → AuthState × Option Location
handle_logout s = (log_out s, some login_path)

-- Where a page lies: `ProtectedRoute`, `AuthRoute` and the test of `AdminPage` send on to another
-- path, or show the page.
unfoldable pub protected_route : AuthState → Location → Location
protected_route s p = if s.is_authenticated then p else login_path

unfoldable pub auth_route : AuthState → Location → Location
auth_route s p = if s.is_authenticated then home_path else p

unfoldable pub admin_page : Option SessionUser → Location
admin_page none = home_path
admin_page (some user) = elim user.role [ Role.admin ↦ admin_path | Role.user ↦ home_path ]

unfoldable pub admin_route : AuthState → Location
admin_route s = if s.is_authenticated then admin_page s.user else login_path

-- The routes of `App`.
unfoldable pub app_route : AuthState → Location → Location
app_route s login_path = auth_route s login_path
app_route s register_path = auth_route s register_path
app_route s bookings_path = protected_route s bookings_path
app_route s (checkout_path booking_id) = protected_route s (checkout_path booking_id)
app_route s admin_path = admin_route s
app_route s p = p

-- What happens to a session.
pub data SessionEvent : Type 0 where
  submits : Answer SessionData → SessionEvent
  hears : Answer Unit → SessionEvent
  signs_out : SessionEvent

abbrev pub next_session : SessionEvent → AuthState → AuthState
next_session (submits answer) s = (handle_submit answer s).0
next_session (hears answer) s = intercept answer s
next_session signs_out s = (handle_logout s).0

abbrev pub session_after : List SessionEvent → AuthState
session_after [] = signed_out
session_after (e ∷ es) = next_session e (session_after es)

abbrev pub IsWhole : AuthState → Type 0
IsWhole s =
    (s.is_authenticated ≡ is_some s.token)
    × (s.is_authenticated ≡ is_some s.user)
    × (s.refresh_token ≡ none)

intercept-IsWhole :
    {A : Type 0} (answer : Answer A) (s : AuthState) → IsWhole s → IsWhole (intercept answer s)
unfolding intercept log_out
intercept-IsWhole (received a) s h = h
intercept-IsWhole no_response s h = h
intercept-IsWhole (failed status) s h = elim (Bool-cases (status == 401)) [
  | inl out ↦ rw out (refl, refl, refl)
  | inr stays ↦ rw stays h
]

next_session-IsWhole : (e : SessionEvent) (s : AuthState) → IsWhole s → IsWhole (next_session e s)
unfolding handle_submit handle_logout log_in log_out
next_session-IsWhole (submits (received d)) s h = (refl, refl, refl)
next_session-IsWhole (submits (failed status)) s h = intercept-IsWhole (failed status) s h
next_session-IsWhole (submits no_response) s h = intercept-IsWhole no_response s h
next_session-IsWhole (hears answer) s h = intercept-IsWhole answer s h
next_session-IsWhole signs_out s h = (refl, refl, refl)

-- After any sequence of logins, registrations, answers and logouts a session counts as authenticated
-- exactly if it has a token and exactly if it has a user, and it holds no refresh token.
pub session_after-IsWhole : (es : List SessionEvent) → IsWhole (session_after es)
session_after-IsWhole [] = (refl, refl, refl)
session_after-IsWhole (e ∷ es) =
    next_session-IsWhole e (session_after es) (session_after-IsWhole es)

admin_page-shown :
    (user : Option SessionUser) → (admin_page user ≡ admin_path) ⊎ (admin_page user ≡ home_path)
unfolding admin_page
admin_page-shown none = inr refl
admin_page-shown (some user) = go user.role refl
  where
    go :
        (role : Role)
        → user.role ≡ role
        → (admin_page (some user) ≡ admin_path) ⊎ (admin_page (some user) ≡ home_path)
    go Role.admin h = inl (rw h refl)
    go Role.user h = inr (rw h refl)

-- The guards of the pages redirect at most once: where they send a visitor, they let the visitor in.
pub redirects_once : (s : AuthState) (p : Location) → app_route s (app_route s p) ≡ app_route s p
unfolding app_route auth_route protected_route admin_route
redirects_once s home_path = refl
redirects_once s (event_path k) = refl
redirects_once s login_path = ground arith
redirects_once s register_path = ground arith
redirects_once s bookings_path = ground arith
redirects_once s (checkout_path k) = ground arith
redirects_once s admin_path = elim (Bool-cases s.is_authenticated) [
  | inr out ↦ rw out refl
  | inl entered ↦ elim (admin_page-shown s.user) [
    | inl shown ↦ ground arith
    | inr back ↦ ground arith
  ]
]
