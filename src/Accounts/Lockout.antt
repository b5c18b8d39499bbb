-- ===== src/Accounts/Lockout.antt =====
-- The lock on an account after failed logins.
use ticketvault.Prelude.{
  ℕ, ◌+◌, ◌≤◌, ◌<◌, ◌≡◌, refl, Bool, true, false, List, [], ◌∷◌, some, arith, ◌==◌, err, http_error,
}
use ticketvault.Table.{find_where, update_where}
use ticketvault.Accounts.{
  AccountDb, User, Draws, Crypto, user_by_email, update_user, count_failure, is_locked, login,
  lockout_ms,
}

-- The row that a query finds is found again, as the update has left it.
find-update_kept {ℓ} :
    {A : Type ℓ} (p q : A → Bool) (f : A → A) (xs : List A) (x : A)
    → ((y : A) → q (f y) ≡ q y)
    → find_where q xs ≡ some x
    → p x ≡ true
    → find_where q (update_where p f xs) ≡ some (f x)
unfolding find_where update_where
find-update_kept p q f [] x keeps found hit = cc
find-update_kept p q f (y ∷ ys) x keeps found hit =
    ground (arith, keeps y, find-update_kept p q f ys x keeps)

module _ (crypto : Crypto) where
  open crypto use {compare}

  -- A wrong password for an account that is not locked counts, and nothing else happens.
  wrong_password :
      (draws : Draws) (email wrong : ℕ) (user : User) (db : AccountDb)
      → user_by_email email db ≡ some user
      → is_locked crypto draws.now user.locked_until ≡ false
      → compare wrong user.password_hash ≡ false
      → login crypto draws (some (email, wrong)) db
        ≡ (err (http_error 401), update_user user.id (count_failure crypto draws.now) db)
  unfolding login
  wrong_password draws email wrong user db found open_now wrong_one =
      rw (found, open_now, wrong_one) refl

  locked_now :
      (draws : Draws) (email password : ℕ) (user : User) (db : AccountDb)
      → user_by_email email db ≡ some user
      → is_locked crypto draws.now user.locked_until ≡ true
      → login crypto draws (some (email, password)) db ≡ (err (http_error 423), db)
  unfolding login
  locked_now draws email password user db found locked = rw (found, locked) refl

  -- After four failures in a row a further wrong password locks an account that is open: for 15 minutes every
  -- login with its email, the right password included, is refused with 423 and changes nothing.
  pub fifth_failure_locks :
      (draws later : Draws) (email wrong right : ℕ) (user : User) (db : AccountDb)
      → user_by_email email db ≡ some user
      → is_locked crypto draws.now user.locked_until ≡ false
      → 4 ≤ user.failed_logins
      → compare wrong user.password_hash ≡ false
      → later.now < draws.now + lockout_ms
      → let (r, db') = login crypto draws (some (email, wrong)) db in
        (r ≡ err (http_error 401))
        × (login crypto later (some (email, right)) db' ≡ (err (http_error 423), db'))
  unfolding update_user count_failure
  fifth_failure_locks draws later email wrong right user db found open_now four wrong_one soon =
      let counted = count_failure crypto draws.now user in
      let again : user_by_email email (update_user user.id (count_failure crypto draws.now) db)
          ≡ some counted =
        find-update_kept (λ u. u.id == user.id) (λ u. u.email == email)
          (count_failure crypto draws.now) db.users user (λ y. refl) found (ground arith) in
      rw (wrong_password draws email wrong user db found open_now wrong_one)
        (refl, locked_now later email right counted _ again (ground arith))
