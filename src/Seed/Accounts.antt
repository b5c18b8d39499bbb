-- ===== src/Seed/Accounts.antt =====
-- The two accounts that backend/src/db/seed.ts adds for demonstrations, and the buttons of
-- frontend/src/pages/LoginPage.tsx that fill in their credentials. A text is stored as a number, by a
-- code that is a parameter; bcrypt's number of rounds is left out.
use Prim.Native.String.{String}
use ticketvault.Prelude.{
  ℕ, ◌≡◌, ◌≢◌, refl, true, none, some, arith, ok, err, ◌∷◌, is_some, if◌then◌else◌, Action, ◌>>◌,
}
use ticketvault.Types.{Role}
use ticketvault.Table.{find_where}
use ticketvault.Accounts.{AccountDb, User, Draws, Crypto, user_by_email, insert_user, login, signed}
use ticketvault.Accounts.Entry.{IsFresh, right_password}
use ticketvault.Frontend.Views.Forms.{LoginForm, fill_demo}

-- `INSERT ... ON CONFLICT (email) DO NOTHING`, on one row.
unfoldable pub insert_user_or_skip : User → Action AccountDb (Unit {0})
insert_user_or_skip u db =
    if is_some (user_by_email u.email db) then (ok tt, db) else insert_user u db

module _ (crypto : Crypto) (code : String → ℕ) where
  open crypto use {compare, hash_password}

  abbrev pub seeded_user : (id : ℕ) (email password name : String) → Role → User
  seeded_user id email password name role = record {
    id = id;
    email = code email;
    password_hash = hash_password (code password);
    name = name;
    role = role;
    failed_logins = 0;
    locked_until = none;
  }

  abbrev pub seeded_admin : ℕ → User
  seeded_admin id = seeded_user id "admin@ticketvault.com" "admin123" "Admin User" Role.admin

  abbrev pub seeded_client : ℕ → User
  seeded_client id = seeded_user id "user@ticketvault.com" "user123" "Test User" Role.user

  -- The statement adds both rows, or none if it fails.
  unfoldable pub seed_accounts : (admin_id user_id : ℕ) → Action AccountDb (Unit {0})
  unfolding insert_user_or_skip
  seed_accounts admin_id user_id db =
      let insert : Action AccountDb (Unit {0}) =
        insert_user_or_skip (seeded_admin admin_id)
        >> insert_user_or_skip (seeded_client user_id) in
      let (r, db') = insert db in elim r [ ok x ↦ (ok x, db') | err e ↦ (err e, db) ]

  inserted :
      (u : User) (db : AccountDb)
      → user_by_email u.email db ≡ none
      → (insert_user_or_skip u db).0 ≡ ok tt
      → insert_user_or_skip u db ≡ (ok tt, record db { users = u ∷ db.users })
  unfolding insert_user_or_skip insert_user
  inserted u db new done = ground arith

  both_added :
      (admin_id user_id : ℕ) (db : AccountDb)
      → (seeded_admin admin_id).email ≢ (seeded_client user_id).email
      → user_by_email (seeded_admin admin_id).email db ≡ none
      → user_by_email (seeded_client user_id).email db ≡ none
      → (seed_accounts admin_id user_id db).0 ≡ ok tt
      → (seed_accounts admin_id user_id db).1
        ≡ record db { users = seeded_client user_id ∷ seeded_admin admin_id ∷ db.users }
  unfolding seed_accounts find_where
  both_added admin_id user_id db differ first second done =
      let admin = seeded_admin admin_id in
      let client = seeded_client user_id in
      let one = record db { users = admin ∷ db.users } in
      ground (arith, inserted admin db first, inserted client one)

  -- Where neither email had an account before the seed ran, the credentials that a button of the login
  -- page fills in are those of the account of its role, and the server lets them in, if the comparison of
  -- passwords accepts the hash of a password, and the new refresh token has a hash of its own.
  pub demo_logs_in :
      (admin_id user_id : ℕ) (draws : Draws) (role : Role) (form : LoginForm) (db : AccountDb)
      → (seeded_admin admin_id).email ≢ (seeded_client user_id).email
      → ((p : ℕ) → compare p (hash_password p) ≡ true)
      → user_by_email (seeded_admin admin_id).email db ≡ none
      → user_by_email (seeded_client user_id).email db ≡ none
      → (seed_accounts admin_id user_id db).0 ≡ ok tt
      → IsFresh crypto draws db
      → let f = fill_demo role form in
        let id : ℕ = elim role [ Role.admin ↦ admin_id | Role.user ↦ user_id ] in
        (login crypto draws
          (some (code f.email, code f.password))
          (seed_accounts admin_id user_id db).1).0
        ≡ ok (signed crypto id (code f.email) role, draws.token)
  unfolding fill_demo find_where
  demo_logs_in admin_id user_id draws Role.admin form db differ accepts first second done fresh =
      rw (both_added admin_id user_id db differ first second done) (
        right_password crypto draws _ _ (seeded_admin admin_id) _ (ground arith) refl (accepts _)
          fresh)
  demo_logs_in admin_id user_id draws Role.user form db differ accepts first second done fresh =
      rw (both_added admin_id user_id db differ first second done) (
        right_password crypto draws _ _ (seeded_client user_id) _ (ground arith) refl (accepts _)
          fresh)
