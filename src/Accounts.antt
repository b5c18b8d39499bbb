-- ===== src/Accounts.antt =====
-- Accounts and sessions: backend/src/routes/auth.ts, middleware/auth.ts and
-- middleware/security/refreshTokens.ts. The hashes, the tokens' signatures and the checks of request
-- bodies are those of libraries, and are parameters. A reply with a status above 399 is an http_error.
pub mod Tokens
pub mod Lockout
pub mod Entry
use Prim.Native.String.{String}
use ticketvault.Prelude.{
  ℕ, ◌+◌, ◌*◌, Bool, false, not, List, ◌∷◌, Option, none, some, ◌==◌, ◌&&◌, ◌||◌, ltb, leb,
  if◌then◌else◌, is_some, ok, err, Error, http_error, other_error, unique_violation, users_pkey,
  users_email_key, refresh_tokens_token_hash_key, Action, ◌>>=◌, ◌>>◌, pure, throw, throw_if,
  or_throw, gets, modify,
}
use ticketvault.Types.{Role}
use ticketvault.Table.{select, find_where, update_where}
use ticketvault.World.{catch}

pub record User : Type 0 where
  pub id : ℕ
  pub email : ℕ
  pub password_hash : ℕ
  pub name : String
  pub role : Role
  pub failed_logins : ℕ
  pub locked_until : Option ℕ

pub record RefreshToken : Type 0 where
  pub user_id : ℕ
  pub token_hash : ℕ
  pub expires_at : ℕ

pub record AccountDb : Type 0 where
  pub users : List User
  pub refresh_tokens : List RefreshToken

pub record AuthPayload : Type 0 where
  pub user_id : ℕ
  pub email : ℕ
  pub role : Role

-- The clock, and what the call draws: the bytes of a token and a UUID.
pub record Draws : Type 0 where
  pub now : ℕ
  pub token : ℕ
  pub uuid : ℕ

-- The libraries: SHA-256, bcrypt's comparison and hash, and the check of an access token.
pub record Crypto : Type 0 where
  pub hash_token : ℕ → ℕ
  pub compare : ℕ → ℕ → Bool
  pub hash_password : ℕ → ℕ
  pub verify : ℕ → Option AuthPayload

abbrev pub refresh_token_ttl_ms : ℕ
refresh_token_ttl_ms = 30 * 24 * 3600 * 1000

abbrev pub max_failed_logins : ℕ
max_failed_logins = 5

abbrev pub lockout_ms : ℕ
lockout_ms = 15 * 60000

-- `DELETE FROM refresh_tokens WHERE p RETURNING *`: the first row that it deletes.
unfoldable pub delete_tokens : (RefreshToken → Bool) → Action AccountDb (Option RefreshToken)
delete_tokens p db = (
  ok (find_where p db.refresh_tokens),
  record db { refresh_tokens = select (λ t. not (p t)) db.refresh_tokens },
)

unfoldable pub insert_token : RefreshToken → Action AccountDb (Unit {0})
insert_token t db =
    if is_some (find_where (λ u. u.token_hash == t.token_hash) db.refresh_tokens)
    then (err (unique_violation refresh_tokens_token_hash_key), db)
    else (ok tt, record db { refresh_tokens = t ∷ db.refresh_tokens })

unfoldable pub insert_user : User → Action AccountDb (Unit {0})
insert_user u db =
    if is_some (find_where (λ v. v.id == u.id) db.users)
    then (err (unique_violation users_pkey), db)
    else if is_some (find_where (λ v. v.email == u.email) db.users)
    then (err (unique_violation users_email_key), db)
    else (ok tt, record db { users = u ∷ db.users })

abbrev pub user_by_id : ℕ → AccountDb → Option User
user_by_id k db = find_where (λ u. u.id == k) db.users

abbrev pub user_by_email : ℕ → AccountDb → Option User
user_by_email e db = find_where (λ u. u.email == e) db.users

-- `UPDATE users SET ... WHERE id = $1`
unfoldable pub update_user : ℕ → (User → User) → AccountDb → AccountDb
update_user k f db = record db { users = update_where (λ u. u.id == k) f db.users }

module _ (crypto : Crypto) where
  open crypto use {hash_token, compare, hash_password, verify}

  unfoldable pub issue_refresh_token : Draws → ℕ → Action AccountDb ℕ
  issue_refresh_token draws user_id = do
    insert_token (record {
      user_id = user_id;
      token_hash = hash_token draws.token;
      expires_at = draws.now + refresh_token_ttl_ms;
    })
    pure draws.token

  -- The rows that a token claims at a time.
  abbrev pub is_claimed : ℕ → ℕ → RefreshToken → Bool
  is_claimed now raw t = t.token_hash == hash_token raw && ltb now t.expires_at

  -- `rotateRefreshToken`: the new token and its user.
  unfoldable pub rotate_refresh_token : Draws → ℕ → Action AccountDb (ℕ × ℕ)
  rotate_refresh_token draws raw = do
    row ← delete_tokens (is_claimed draws.now raw)
    claimed ← or_throw row other_error
    token ← issue_refresh_token draws claimed.user_id
    pure (token, claimed.user_id)

  unfoldable pub revoke_all_tokens : ℕ → AccountDb → AccountDb
  revoke_all_tokens user_id db = record db {
    refresh_tokens = select (λ t. not (t.user_id == user_id)) db.refresh_tokens;
  }

  -- `authenticate`, on the token of a Bearer header if there is one.
  unfoldable pub authenticate : {S : Type 0} → Option ℕ → Action S AuthPayload
  authenticate header = do
    token ← or_throw header (http_error 401)
    or_throw (verify token) (http_error 401)

  -- What a session is given: the contents of its access token and its refresh token.
  abbrev pub signed : ℕ → ℕ → Role → AuthPayload
  signed user_id email role = record { user_id = user_id; email = email; role = role }

  -- `POST /register`, on the email, the password and the name that the body holds if it is valid.
  unfoldable pub register : Draws → Option (ℕ × ℕ × String) → Action AccountDb (AuthPayload × ℕ)
  register draws body = do
    fields ← or_throw body (http_error 400)
    let (email, password, name) = fields
    catch
        (do
          insert_user (record {
            id = draws.uuid;
            email = email;
            password_hash = hash_password password;
            name = name;
            role = Role.user;
            failed_logins = 0;
            locked_until = none;
          })
          token ← issue_refresh_token draws draws.uuid
          pure (signed draws.uuid email Role.user, token))
        (λ e. elim e [ unique_violation c ↦ throw (http_error 409) | other ↦ throw other ])

  -- One more failed login; the fifth in a row, and each one after it, locks the account.
  unfoldable pub count_failure : ℕ → User → User
  count_failure now u = record u {
    failed_logins = u.failed_logins + 1;
    locked_until =
        if leb max_failed_logins (u.failed_logins + 1)
        then some (now + lockout_ms)
        else u.locked_until;
  }

  unfoldable pub clear_failures : User → User
  clear_failures u = record u { failed_logins = 0; locked_until = none }

  -- `user.locked_until && new Date(user.locked_until) > new Date()`
  abbrev pub is_locked : ℕ → Option ℕ → Bool
  is_locked now none = false
  is_locked now (some until) = ltb now until

  -- `POST /login`. The two replies to a wrong password differ in their texts alone.
  unfoldable pub login : Draws → Option (ℕ × ℕ) → Action AccountDb (AuthPayload × ℕ)
  login draws body = do
    fields ← or_throw body (http_error 400)
    let (email, password) = fields
    row ← gets (user_by_email email)
    user ← or_throw row (http_error 401)
    throw_if (is_locked draws.now user.locked_until) (http_error 423)
    if compare password user.password_hash
        then (do
          modify (update_user user.id clear_failures)
          token ← issue_refresh_token draws user.id
          pure (signed user.id email user.role, token))
        else (do modify (update_user user.id (count_failure draws.now)); throw (http_error 401))

  -- `POST /refresh`
  unfoldable pub refresh : Draws → Option ℕ → Action AccountDb (AuthPayload × ℕ)
  refresh draws body = do
    raw ← or_throw body (http_error 400)
    catch
        (do
          rotated ← rotate_refresh_token draws raw
          row ← gets (user_by_id rotated.1)
          user ← or_throw row (http_error 401)
          pure (signed rotated.1 user.email user.role, rotated.0))
        (λ e. throw (http_error 401))

  -- `POST /logout`
  unfoldable pub logout : Option ℕ → Action AccountDb (Unit {0})
  logout header = do payload ← authenticate header; modify (revoke_all_tokens payload.user_id)

-- `requireAdmin`
unfoldable pub require_admin : {S : Type 0} → AuthPayload → Action S (Unit {0})
require_admin payload = elim payload.role [
  | Role.admin ↦ pure tt
  | Role.user ↦ throw (http_error 403)
]
