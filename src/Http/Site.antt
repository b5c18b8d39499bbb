-- ===== src/Http/Site.antt =====
-- Every request that backend/src/server.ts serves: the check of its health, the routes of
-- backend/src/routes/auth.ts, which work on the accounts, and those of Http, which work on the rest.
use Prim.Native.String.{String}
use ticketvault.Prelude.{ℕ, ◌≡◌, Bool, true, false, Option, none, arith, Result, ok, err, Action}
use ticketvault.Redis.{Redis}
use ticketvault.World.{World}
use ticketvault.Offers.{Config}
use ticketvault.Accounts.{AccountDb, AuthPayload, Crypto, Draws, register, login, refresh, logout}
use ticketvault.Http.{Request, Response, Body, Limits, Surroundings, error_handler, handle}
use ticketvault.Http.Guards.{identified, is_public, refusal, guarded_refused, authenticate-none}

-- A body that does not pass the check of its route is `none`, and so is a refresh token that is missing.
pub data SiteRequest : Type 0 where
  health : SiteRequest
  post_register : Option (ℕ × ℕ × String) → SiteRequest
  post_login : Option (ℕ × ℕ) → SiteRequest
  post_refresh : Option ℕ → SiteRequest
  post_logout : SiteRequest
  routed : Request → SiteRequest

pub data SiteBody : Type 0 where
  healthy : SiteBody
  session : AuthPayload → (refresh_token : ℕ) → SiteBody
  logged_out : SiteBody
  shown : Body → SiteBody

pub record SiteResponse : Type 0 where
  pub status : ℕ
  pub body : SiteBody

pub record Site (Store : Type 0) : Type 0 where
  pub accounts : AccountDb
  pub world : World Store

abbrev pub shown_response : Response → SiteResponse
shown_response r = record { status = r.status; body = shown r.body }

abbrev pub site_refusal : ℕ → SiteResponse
site_refusal status = shown_response (refusal status)

-- What a route of auth.ts answers.
abbrev pub answer_with : ℕ → Result (AuthPayload × ℕ) → SiteResponse
answer_with status (ok (payload, token)) = record { status = status; body = session payload token }
answer_with status (err e) = shown_response (error_handler e)

abbrev pub log_out_answer : Result (Unit {0}) → SiteResponse
log_out_answer (ok x) = record { status = 200; body = logged_out }
log_out_answer (err e) = shown_response (error_handler e)

-- The requests that need no token.
abbrev pub is_open : SiteRequest → Bool
is_open post_logout = false
is_open (routed request) = is_public request
is_open _ = true

module _ (R : Redis) (cfg : Config) (crypto : Crypto) (at : Surroundings) (limits : Limits)
    (draws : Draws) (header : Option ℕ) where
  open R use {Store}

  -- The rate limiter for all stands before every route; `handle` has it for its own.
  abbrev pub limited : Site Store → SiteResponse × Site Store → SiteResponse × Site Store
  limited s served = elim limits.overall [ true ↦ served | false ↦ (site_refusal 429, s) ]

  unfoldable pub serve_account :
      {A : Type 0}
      → (Result A → SiteResponse)
      → Action AccountDb A
      → Site Store
      → SiteResponse × Site Store
  serve_account respond call s =
      let (r, accounts) = call s.accounts in limited s (respond r, record s { accounts = accounts })

  unfoldable pub serve : SiteRequest → Site Store → SiteResponse × Site Store
  unfolding serve_account
  serve health s = limited s (record { status = 200; body = healthy }, s)
  serve (post_register body) s = serve_account (answer_with 201) (register crypto draws body) s
  serve (post_login body) s = serve_account (answer_with 200) (login crypto draws body) s
  serve (post_refresh body) s = serve_account (answer_with 200) (refresh crypto draws body) s
  serve post_logout s = serve_account log_out_answer (logout crypto header) s
  serve (routed request) s =
      let (response, w) = handle R cfg crypto at limits header request s.world in
      (shown_response response, record s { world = w })

  logout_refused :
      (s : Site Store)
      → limits.overall ≡ true
      → identified crypto header ≡ none
      → serve post_logout s ≡ (site_refusal 401, s)
  unfolding serve logout error_handler
  logout_refused s admitted unknown =
      ground (arith, authenticate-none crypto s.accounts header unknown)

  -- If the limit for all lets it through and there is no token in order, every request but those to see
  -- that the server is up, to register, to log in, to get a new token for a refresh token, to list the
  -- events, to show one and to list its seats is refused with 401, and changes nothing, neither of the
  -- accounts nor of the rest.
  pub strangers_refused :
      (request : SiteRequest) (s : Site Store)
      → limits.overall ≡ true
      → is_open request ≡ false
      → identified crypto header ≡ none
      → serve request s ≡ (site_refusal 401, s)
  unfolding serve
  strangers_refused post_logout s admitted private unknown = logout_refused s admitted unknown
  strangers_refused (routed request) s admitted private unknown = ground (
    arith,
    guarded_refused R cfg crypto at limits header s.world request admitted private unknown,
  )
  strangers_refused health s admitted private unknown = absurd (ground arith)
  strangers_refused (post_register body) s admitted private unknown = absurd (ground arith)
  strangers_refused (post_login body) s admitted private unknown = absurd (ground arith)
  strangers_refused (post_refresh body) s admitted private unknown = absurd (ground arith)
