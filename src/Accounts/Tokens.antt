-- ===== src/Accounts/Tokens.antt =====
-- Refresh tokens: one use each, none after a logout.
use ticketvault.Prelude.{
  ℕ, ◌+◌, ◌≤◌, ◌≡◌, ◌≢◌, refl, inl, inr, Bool, false, not, List, [], ◌∷◌, none, some, arith, ◌==◌,
  ok, err, other_error, Option-cases, Bool-cases, is_some, ◌⊎◌, ap, ◌∙◌, Result-cases,
  unique_violation, refresh_tokens_token_hash_key,
}
use ticketvault.Table.{select, find_where}
use ticketvault.Accounts.{
  AccountDb, RefreshToken, Draws, Crypto, delete_tokens, insert_token, is_claimed,
  issue_refresh_token, rotate_refresh_token, refresh_token_ttl_ms, revoke_all_tokens,
}

-- No row that `q` names is left where the rows that `p` names are gone, if `q` names no others.
find-select-none {ℓ} :
    {A : Type ℓ} (p q : A → Bool) (xs : List A)
    → ((x : A) → p x ≡ false → q x ≡ false)
    → find_where q (select (λ x. not (p x)) xs) ≡ none
unfolding find_where select
find-select-none p q [] only = refl
find-select-none p q (x ∷ xs) only = elim (Bool-cases (p x)) [
  | inl here ↦ ground (arith, find-select-none p q xs only)
  | inr away ↦ ground (arith, find-select-none p q xs only, only x away)
]

find-selected {ℓ} :
    {A : Type ℓ} (p q : A → Bool) (xs : List A) (x : A)
    → find_where q (select (λ y. not (p y)) xs) ≡ some x
    → p x ≡ false
unfolding find_where select
find-selected p q [] x h = cc
find-selected p q (y ∷ ys) x h = elim (Bool-cases (p y)) [
  | inl gone ↦ ground (arith, find-selected p q ys x)
  | inr stays ↦ ground (arith, find-selected p q ys x)
]

module _ (crypto : Crypto) where
  open crypto use {hash_token}

  unclaimed_later :
      (now later raw : ℕ) (t : RefreshToken)
      → now ≤ later
      → is_claimed crypto now raw t ≡ false
      → is_claimed crypto later raw t ≡ false
  unclaimed_later now later raw t order h = ground arith

  -- The rows that a rotation leaves, but for the new one.
  abbrev left : ℕ → ℕ → AccountDb → List RefreshToken
  left now raw db = select (λ t. not (is_claimed crypto now raw t)) db.refresh_tokens

  abbrev new_row : Draws → ℕ → RefreshToken
  new_row draws user_id = record {
    user_id = user_id;
    token_hash = hash_token draws.token;
    expires_at = draws.now + refresh_token_ttl_ms;
  }

  issue_cases :
      (draws : Draws) (user_id : ℕ) (db : AccountDb)
      → let after = (issue_refresh_token crypto draws user_id db).1 in
        (after ≡ db)
        ⊎ (after ≡ record db { refresh_tokens = new_row draws user_id ∷ db.refresh_tokens })
  unfolding issue_refresh_token
  issue_cases draws user_id db =
      elim (Bool-cases
        (is_some (find_where (λ u. u.token_hash == hash_token draws.token) db.refresh_tokens))) [
          | inl taken ↦
              let inserted : insert_token (new_row draws user_id) db
                  ≡ (err (unique_violation refresh_tokens_token_hash_key), db) =
                unfold insert_token in rw taken refl in
              inl (ground arith)
          | inr free ↦
              let inserted : insert_token (new_row draws user_id) db ≡ (
                ok tt,
                record db { refresh_tokens = new_row draws user_id ∷ db.refresh_tokens },
              ) =
                unfold insert_token in rw free refl in
              inr (ground arith)
        ]

  rotate_found :
      (draws : Draws) (raw : ℕ) (r : RefreshToken) (db : AccountDb)
      → find_where (is_claimed crypto draws.now raw) db.refresh_tokens ≡ some r
      → (rotate_refresh_token crypto draws raw db).1
        ≡ (issue_refresh_token crypto draws r.user_id
            (record db { refresh_tokens = left draws.now raw db })).1
  unfolding rotate_refresh_token
  rotate_found draws raw r db found =
      let kept = record db { refresh_tokens = left draws.now raw db } in
      let deleted : delete_tokens (is_claimed crypto draws.now raw) db ≡ (ok (some r), kept) =
        unfold delete_tokens in rw found refl in
      elim (Result-cases (issue_refresh_token crypto draws r.user_id kept).0) [
        | inl (e, failed) ↦ ground arith
        | inr (t, done) ↦ ground arith
      ]

  rotate_cases :
      (draws : Draws) (raw : ℕ) (db : AccountDb)
      → let rows = (rotate_refresh_token crypto draws raw db).1.refresh_tokens in
        (rows ≡ left draws.now raw db)
        ⊎ ((t : RefreshToken) × (t.token_hash ≡ hash_token draws.token)
            × (rows ≡ t ∷ left draws.now raw db))
  rotate_cases draws raw db =
      elim (Option-cases (find_where (is_claimed crypto draws.now raw) db.refresh_tokens)) [
        | inl unknown ↦ inl (unfold rotate_refresh_token delete_tokens in rw unknown refl)
        | inr (r, found) ↦
            let kept = record db { refresh_tokens = left draws.now raw db } in
            elim (issue_cases draws r.user_id kept) [
              | inl same ↦ inl (
                  ap (λ (d : AccountDb). d.refresh_tokens)
                    (rotate_found draws raw r db found ∙ same))
              | inr more ↦ inr (
                new_row draws r.user_id,
                refl,
                ap (λ (d : AccountDb). d.refresh_tokens) (rotate_found draws raw r db found ∙ more),
              )
            ]
      ]

  -- What a rotation leaves has no row for the token that was shown.
  rotate-none :
      (draws later : Draws) (raw : ℕ) (db : AccountDb)
      → draws.now ≤ later.now
      → hash_token draws.token ≢ hash_token raw
      → find_where
          (is_claimed crypto later.now raw)
          (rotate_refresh_token crypto draws raw db).1.refresh_tokens
        ≡ none
  unfolding find_where
  rotate-none draws later raw db order fresh =
      let gone =
        find-select-none (is_claimed crypto draws.now raw) (is_claimed crypto later.now raw)
          db.refresh_tokens (λ t. unclaimed_later draws.now later.now raw t order) in
      elim (rotate_cases draws raw db) [
        | inl same ↦ rw same gone
        | inr (t, hashed, more) ↦ rw more (ground (arith, gone))
      ]

  -- A refresh token that has been shown, whatever became of it, is refused from then on, unless the
  -- new token has the same hash.
  pub rotate_once :
      (draws later : Draws) (raw : ℕ) (db : AccountDb)
      → draws.now ≤ later.now
      → hash_token draws.token ≢ hash_token raw
      → let db' = (rotate_refresh_token crypto draws raw db).1 in
        (rotate_refresh_token crypto later raw db').0 ≡ err other_error
  rotate_once draws later raw db order fresh =
      let gone = rotate-none draws later raw db order fresh in
      let db' = (rotate_refresh_token crypto draws raw db).1 in
      unfold rotate_refresh_token delete_tokens in ground (arith, gone)

  another_owner :
      (draws : Draws) (raw user_id token owner : ℕ) (db : AccountDb)
      → (rotate_refresh_token crypto draws raw (revoke_all_tokens crypto user_id db)).0
        ≡ ok (token, owner)
      → owner ≢ user_id
  unfolding rotate_refresh_token
  another_owner draws raw user_id token owner db h =
      let rows = (revoke_all_tokens crypto user_id db).refresh_tokens in
      let kept = record db {
        refresh_tokens = select (λ t. not (is_claimed crypto draws.now raw t)) rows;
      } in
      elim (Option-cases (find_where (is_claimed crypto draws.now raw) rows)) [
        | inl unknown ↦
            let deleted : delete_tokens (is_claimed crypto draws.now raw)
                  (revoke_all_tokens crypto user_id db)
                ≡ (ok none, kept) =
              unfold delete_tokens revoke_all_tokens in rw unknown refl in
            ground arith
        | inr (r, found) ↦
            let deleted : delete_tokens (is_claimed crypto draws.now raw)
                  (revoke_all_tokens crypto user_id db)
                ≡ (ok (some r), kept) =
              unfold delete_tokens revoke_all_tokens in rw found refl in
            let other : (r.user_id == user_id) ≡ false =
              unfold revoke_all_tokens in
              find-selected (λ t. t.user_id == user_id) (is_claimed crypto draws.now raw)
                db.refresh_tokens r found in
            elim (Result-cases (issue_refresh_token crypto draws r.user_id kept).0) [
              | inl (e, failed) ↦ ground arith
              | inr (t, done) ↦ ground arith
            ]
      ]

  -- Once the tokens of a user are revoked, no token that is shown starts a session of that user.
  pub revoked_user_out :
      (draws : Draws) (raw user_id token : ℕ) (db : AccountDb)
      → (rotate_refresh_token crypto draws raw (revoke_all_tokens crypto user_id db)).0
        ≢ ok (token, user_id)
  revoked_user_out draws raw user_id token db h =
      another_owner draws raw user_id token user_id db h refl
