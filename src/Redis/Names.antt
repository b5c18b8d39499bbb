-- ===== src/Redis/Names.antt =====
-- The texts of the Redis keys: `KEYS` of backend/src/redis/client.ts, with `scopedKey` of
-- backend/src/services/booking/bookingService.ts. A text is the list of its code points. Reading a
-- text back shows that keys of different purposes or ids never meet.
use Prim.Native.Char.{code}
use Prim.Native.String.{String}
use ticketvault.Prelude.{
  ℕ, ◌≡◌, refl, ap, Bool, true, false, List, [], ◌∷◌, ◌++◌, Option, none, some, ◌==◌, ◌&&◌,
  if◌then◌else◌,
}

abbrev pub Text : Type 0
Text = List ℕ

abbrev pub codes : String → Text
codes String.[] = []
codes (String.◌∷◌ c s) = code c ∷ codes s

-- `:`
abbrev pub colon : ℕ
colon = 58

-- The purposes of keys. An idempotency key is of a user and the key that the client sent.
pub data Name : Type 0 where
  seat_inventory waiting_queue seat_offers reservation rate_limit seat_lock worker_lock :
      Text → Name
  inventory_mismatch : Text → Name
  idempotency : Text → Text → Name

abbrev pub with_prefix : String → Text → Text
with_prefix purpose id = codes "tv:" ++ (codes purpose ++ colon ∷ id)

-- `${userId}:${idempotencyKey}`
unfoldable pub scoped_key : Text → Text → Text
scoped_key user_id key = user_id ++ colon ∷ key

-- `KEYS`
unfoldable pub text_of : Name → Text
unfolding scoped_key
text_of (seat_inventory id) = with_prefix "seat_inventory" id
text_of (waiting_queue id) = with_prefix "waitlist" id
text_of (seat_offers id) = with_prefix "seat_offers" id
text_of (reservation id) = with_prefix "reservation" id
text_of (idempotency user_id key) = with_prefix "idempotency" (scoped_key user_id key)
text_of (rate_limit limiter) = with_prefix "rate_limit" (limiter ++ colon ∷ [])
text_of (seat_lock id) = with_prefix "seat_lock" id
text_of (worker_lock worker) = with_prefix "worker_lock" worker
text_of (inventory_mismatch id) = with_prefix "inventory_mismatch" id

-- What stands before the first colon, and what stands behind it.
unfoldable pub split_colon : Text → Text × Text
split_colon [] = ([], [])
split_colon (c ∷ s) =
    let (before, behind) = split_colon s in if c == colon then ([], s) else (c ∷ before, behind)

abbrev pub same_text : Text → Text → Bool
same_text [] [] = true
same_text (c ∷ s) (d ∷ t) = c == d && same_text s t
same_text _ _ = false

abbrev pub without_last : Text → Text
without_last [] = []
without_last (c ∷ []) = []
without_last (c ∷ d ∷ s) = c ∷ without_last (d ∷ s)

abbrev pub HasNoColon : Text → Type 0
HasNoColon [] = Unit
HasNoColon (c ∷ s) = ((c == colon) ≡ false) × HasNoColon s

abbrev pub of_purpose : Text → Text → Option Name
of_purpose purpose id =
    if same_text purpose (codes "seat_inventory")
    then some (seat_inventory id)
    else if same_text purpose (codes "waitlist")
    then some (waiting_queue id)
    else if same_text purpose (codes "seat_offers")
    then some (seat_offers id)
    else if same_text purpose (codes "reservation")
    then some (reservation id)
    else if same_text purpose (codes "idempotency")
    then (let (user_id, key) = split_colon id in some (idempotency user_id key))
    else if same_text purpose (codes "rate_limit")
    then some (rate_limit (without_last id))
    else if same_text purpose (codes "seat_lock")
    then some (seat_lock id)
    else if same_text purpose (codes "worker_lock")
    then some (worker_lock id)
    else if same_text purpose (codes "inventory_mismatch")
    then some (inventory_mismatch id)
    else none

-- Reads a key back.
unfoldable pub read_name : Text → Option Name
unfolding split_colon
read_name t =
    let (prefix, rest) = split_colon t in
    let (purpose, id) = split_colon rest in
    if same_text prefix (codes "tv") then of_purpose purpose id else none

-- The id of a user is a UUID, in which there is no colon.
abbrev pub IsNamed : Name → Type 0
IsNamed (idempotency user_id key) = HasNoColon user_id
IsNamed _ = Unit

split-scoped :
    (user_id key : Text)
    → HasNoColon user_id
    → split_colon (user_id ++ colon ∷ key) ≡ (user_id, key)
unfolding split_colon
split-scoped [] key h = refl
split-scoped (c ∷ s) key h = rw (h.0, split-scoped s key h.1) refl

without_last-append : (s : Text) (c : ℕ) → without_last (s ++ c ∷ []) ≡ s
without_last-append [] c = refl
without_last-append (d ∷ []) c = refl
without_last-append (d ∷ e ∷ s) c = ap (λ (t : Text). d ∷ t) (without_last-append (e ∷ s) c)

-- Every key can be read back from its text, whatever its id, if the id of the user in an
-- idempotency key has no colon: no two keys of the program share a text.
pub read_name-text_of : (k : Name) → IsNamed k → read_name (text_of k) ≡ some k
unfolding read_name text_of
read_name-text_of (seat_inventory id) h = refl
read_name-text_of (waiting_queue id) h = refl
read_name-text_of (seat_offers id) h = refl
read_name-text_of (reservation id) h = refl
read_name-text_of (idempotency user_id key) h =
    ap (λ (p : Text × Text). some (idempotency p.0 p.1)) (split-scoped user_id key h)
read_name-text_of (rate_limit limiter) h =
    ap (λ (t : Text). some (rate_limit t)) (without_last-append limiter colon)
read_name-text_of (seat_lock id) h = refl
read_name-text_of (worker_lock worker) h = refl
read_name-text_of (inventory_mismatch id) h = refl
