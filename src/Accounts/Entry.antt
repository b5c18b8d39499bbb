-- ===== src/Accounts/Entry.antt =====
-- Whom `POST /login` of backend/src/routes/auth.ts lets in.
use ticketvault.Prelude.{
  ℕ, ◌≡◌, ◌∙◌, sym, ap, refl, true, false, none, some, arith, ok, ◌==◌, ◌∷◌, ◌+◌,
}
use Prim.Native.String.{String}
use ticketvault.Types.{Role}
use ticketvault.Table.{find_where}
use ticketvault.World.{catch}
use ticketvault.Accounts.{
  AccountDb, RefreshToken, refresh_token_ttl_ms, User, Draws, Crypto, AuthPayload, user_by_email,
  update_user, clear_failures, is_locked, login, register, insert_user, insert_token,
  issue_refresh_token, signed,
}

module _ (crypto : Crypto) where
  open crypto use {compare, hash_token, hash_password}

  -- The token that a call draws is not in the table.
  abbrev pub IsFresh : Draws → AccountDb → Type 0
  IsFresh draws db =
      find_where (λ t. t.token_hash == hash_token draws.token) db.refresh_tokens ≡ none

  inserted :
      (t : RefreshToken) (db : AccountDb)
      → find_where (λ u. u.token_hash == t.token_hash) db.refresh_tokens ≡ none
      → insert_token t db ≡ (ok tt, record db { refresh_tokens = t ∷ db.refresh_tokens })
  unfolding insert_token
  inserted t db fresh = rw fresh refl

  issued :
      (draws : Draws) (user_id : ℕ) (db : AccountDb)
      → IsFresh draws db
      → (issue_refresh_token crypto draws user_id db).0 ≡ ok draws.token
  unfolding issue_refresh_token
  issued draws user_id db fresh = ground (
    arith,
    inserted
        (record {
          user_id = user_id;
          token_hash = hash_token draws.token;
          expires_at = draws.now + refresh_token_ttl_ms;
        })
        db fresh,
  )

  pub right_password :
      (draws : Draws) (email password : ℕ) (user : User) (db : AccountDb)
      → user_by_email email db ≡ some user
      → is_locked crypto draws.now user.locked_until ≡ false
      → compare password user.password_hash ≡ true
      → IsFresh draws db
      → (login crypto draws (some (email, password)) db).0
        ≡ ok (signed crypto user.id email user.role, draws.token)
  unfolding login update_user
  right_password draws email password user db found open_now right fresh =
      let cleared = update_user user.id (clear_failures crypto) db in
      rw (found, open_now, right) (ground (arith, issued draws user.id cleared fresh))

  -- Registration answers with success only if it has added the account.
  registered :
      (draws : Draws) (email password : ℕ) (name : String) (x : AuthPayload × ℕ) (db : AccountDb)
      → (register crypto draws (some (email, password, name)) db).0 ≡ ok x
      → (x.0 ≡ signed crypto draws.uuid email Role.user)
        × (user_by_email email (register crypto draws (some (email, password, name)) db).1
            ≡ some (record {
              id = draws.uuid;
              email = email;
              password_hash = hash_password password;
              name = name;
              role = Role.user;
              failed_logins = 0;
              locked_until = none;
            }))
  unfolding register insert_user issue_refresh_token insert_token catch find_where
  registered draws email password name x db done = (ground arith, ground arith)

  -- Whoever has been registered is let in by the email and the password of the registration, as the same
  -- user, if the comparison of passwords accepts the hash of the password and the new refresh token has a
  -- hash of its own.
  pub register-login :
      (draws later : Draws) (email password : ℕ) (name : String) (x : AuthPayload × ℕ)
      (db : AccountDb)
      → compare password (hash_password password) ≡ true
      → (register crypto draws (some (email, password, name)) db).0 ≡ ok x
      → let db' = (register crypto draws (some (email, password, name)) db).1 in
        IsFresh later db'
        → (login crypto later (some (email, password)) db').0 ≡ ok (x.0, later.token)
  register-login draws later email password name x db accepts done fresh =
      let (same_user, found) = registered draws email password name x db done in
      right_password later email password _ _ found refl accepts fresh
      ∙ ap (λ (u : AuthPayload). ok (u, later.token)) (sym same_user)
