-- ===== src/Frontend/Views/Forms.antt =====
-- The forms of frontend/src/pages/LoginPage.tsx and RegisterPage.tsx, and what the two pages show.
use Prim.Native.String.{String}
use ticketvault.Prelude.{Bool, true, false, not, [], ◌∷◌, if◌then◌else◌}
use ticketvault.Types.{Role}
use ticketvault.Frontend.Session.{
  AuthState, Location, login_path, register_path, Answer, SessionData, handle_submit,
}
use mathlib.Core.Option.{Option}
use ticketvault.Frontend.Views.{text, spinner, shows, link, button, field, View}

pub record LoginForm : Type 0 where
  pub email : String
  pub password : String
  pub loading : Bool

-- What a user does on the page, besides following its link.
pub data LoginAct : Type 0 where
  sign_in : LoginAct
  fill_demo_of : Role → LoginAct

unfoldable pub fill_demo : Role → LoginForm → LoginForm
fill_demo Role.admin f = record f { email = "admin@ticketvault.com"; password = "admin123" }
fill_demo Role.user f = record f { email = "user@ticketvault.com"; password = "user123" }

unfoldable pub type_email : String → LoginForm → LoginForm
type_email v f = record f { email = v }

unfoldable pub type_password : String → LoginForm → LoginForm
type_password v f = record f { password = v }

-- `handleSubmit` before the answer, and with it: the session follows the answer, and the form is open
-- again.
unfoldable pub start_login : LoginForm → LoginForm
start_login f = record f { loading = true }

unfoldable pub end_login :
    Answer SessionData → LoginForm × AuthState → LoginForm × AuthState × Option Location
end_login answer (f, s) =
    let (session, place) = handle_submit answer s in (record f { loading = false }, session, place)

unfoldable pub login_page : LoginForm → View LoginAct
login_page f =
    shows (text "TicketVault")
    ∷ shows (
        text
          "Concurrency-safe ticket booking with atomic seat reservations and verified zero double-bookings under load.")
    ∷ shows (text "155ms")
    ∷ shows (text "p99 latency")
    ∷ shows (text "0")
    ∷ shows (text "double-bookings")
    ∷ shows (text "10 min")
    ∷ shows (text "seat hold window")
    ∷ shows (text "500")
    ∷ shows (text "concurrent users tested")
    ∷ shows (text "Welcome back")
    ∷ shows (text "Sign in to manage your tickets")
    ∷ field "Email address" f.email "you@example.com"
    ∷ field "Password" f.password "••••••••"
    ∷ button sign_in (not f.loading)
        (if f.loading then spinner ∷ text "Signing in…" ∷ [] else text "Sign in" ∷ [])
    ∷ shows (text "Don't have an account?")
    ∷ link register_path (text "Create one" ∷ [])
    ∷ shows (text "Quick fill — demo credentials")
    ∷ button (fill_demo_of Role.user) true (text "User account" ∷ [])
    ∷ button (fill_demo_of Role.admin) true (text "Admin account" ∷ [])
    ∷ []

pub record RegisterForm : Type 0 where
  pub name : String
  pub email : String
  pub password : String
  pub loading : Bool

pub data FormField : Type 0 where
  name_field email_field password_field : FormField

-- `set`
unfoldable pub set_field : FormField → String → RegisterForm → RegisterForm
set_field name_field v f = record f { name = v }
set_field email_field v f = record f { email = v }
set_field password_field v f = record f { password = v }

unfoldable pub start_register : RegisterForm → RegisterForm
start_register f = record f { loading = true }

unfoldable pub end_register :
    Answer SessionData → RegisterForm × AuthState → RegisterForm × AuthState × Option Location
end_register answer (f, s) =
    let (session, place) = handle_submit answer s in (record f { loading = false }, session, place)

pub data RegisterAct : Type 0 where
  create_account : RegisterAct

unfoldable pub register_page : RegisterForm → View RegisterAct
register_page f =
    shows (text "TicketVault")
    ∷ shows (
        text
          "Create an account to start booking seats for live events with real-time availability.")
    ∷ shows (text "Create account")
    ∷ shows (text "Join to start booking live events")
    ∷ field "Full name" f.name "Jane Smith"
    ∷ field "Email address" f.email "you@example.com"
    ∷ field "Password" f.password "8+ characters"
    ∷ button create_account (not f.loading)
        (if f.loading then spinner ∷ text "Creating account…" ∷ [] else text "Create account" ∷ [])
    ∷ shows (text "Already have an account?")
    ∷ link login_path (text "Sign in" ∷ [])
    ∷ []
