-- ===== src/Tests/Sessions.antt =====
-- The theorems about accounts, at an account with four failed logins and one refresh token.
use ticketvault.Prelude.{
  ℕ, false, if◌then◌else◌, ◌+◌, ◌==◌, ◌≡◌, ◌≢◌, refl, [], ◌∷◌, none, some, arith, ok, err,
  http_error, other_error,
}
use ticketvault.Types.{Role}
use ticketvault.Table.{find_where}
use ticketvault.Accounts.{
  AccountDb, RefreshToken, Draws, Crypto, login, rotate_refresh_token, revoke_all_tokens, register,
  insert_user, insert_token, issue_refresh_token, signed, User,
}
use ticketvault.Accounts.Entry.{register-login}
use ticketvault.Seed.Accounts.{seed_accounts, insert_user_or_skip, demo_logs_in}
use ticketvault.Frontend.Views.Forms.{LoginForm, fill_demo}
use ticketvault.World.{catch}
use Prim.Native.String.{String}
use text.Mathlib.Text.{◌==◌ as str_eq}
use ticketvault.Accounts.Tokens.{rotate_once, revoked_user_out}
use ticketvault.Accounts.Lockout.{fifth_failure_locks}

abbrev crypto : Crypto
crypto = record {
  hash_token = λ t. t + 1000;
  compare = λ p h. p + 1 == h;
  hash_password = λ p. p + 1;
  verify = λ t. none;
}

abbrev ann : User
ann = record {
  id = 1;
  email = 50;
  password_hash = 8;
  name = "Ann";
  role = Role.user;
  failed_logins = 4;
  locked_until = none;
}

abbrev session : RefreshToken
session = record { user_id = 1; token_hash = 1003; expires_at = 900 }

abbrev bob_session : RefreshToken
bob_session = record { user_id = 2; token_hash = 1004; expires_at = 900 }

abbrev accounts : AccountDb
accounts = record { users = ann ∷ []; refresh_tokens = session ∷ bob_session ∷ [] }

abbrev later : Draws
later = record { now = 200; token = 6; uuid = 10 }

abbrev draws : Draws
draws = record { now = 100; token = 5; uuid = 9 }

rotate_once_example :
    let db = (rotate_refresh_token crypto draws 3 accounts).1 in
    (rotate_refresh_token crypto draws 3 db).0 ≡ err other_error
rotate_once_example = rotate_once crypto draws draws 3 accounts (omega arith) (omega arith)

revoked_user_out_example :
    (rotate_refresh_token crypto draws 3 (revoke_all_tokens crypto 1 accounts)).0 ≢ ok (5, 1)
revoked_user_out_example = revoked_user_out crypto draws 3 1 5 accounts

fifth_failure_locks_example :
    let (r, db) = login crypto draws (some (50, 6)) accounts in
    (r ≡ err (http_error 401)) × (login crypto draws (some (50, 7)) db ≡ (err (http_error 423), db))
unfolding find_where
fifth_failure_locks_example =
    fifth_failure_locks crypto draws draws 50 6 7 ann accounts refl refl (omega arith) refl
      (omega arith)

register-login_example :
    let db = (register crypto draws (some (60, 8, "Cleo")) accounts).1 in
    (login crypto later (some (60, 8)) db).0 ≡ ok (signed crypto 9 60 Role.user, 6)
unfolding register insert_user issue_refresh_token insert_token catch find_where
register-login_example =
    register-login crypto draws later 60 8 "Cleo" (signed crypto 9 60 Role.user, 5) accounts refl
      refl refl

abbrev letters : String → ℕ
letters t =
    if str_eq t "admin@ticketvault.com" then 1 else if str_eq t "user@ticketvault.com" then 2 else 3

abbrev no_accounts : AccountDb
no_accounts = record { users = []; refresh_tokens = [] }

abbrev blank : LoginForm
blank = record { email = ""; password = ""; loading = false }

demo_logs_in_example :
    (login crypto draws (some (1, 3)) (seed_accounts crypto letters 10 11 no_accounts).1).0
    ≡ ok (signed crypto 10 1 Role.admin, 5)
unfolding seed_accounts insert_user_or_skip insert_user find_where fill_demo
demo_logs_in_example =
    demo_logs_in crypto letters 10 11 draws Role.admin blank no_accounts (omega arith)
      (λ p. ground arith) refl refl refl refl
