-- ===== src/CheckIn/Service.antt =====
-- The operations of `CheckInChallengeService` (apps/api/src/checkin/check-in-challenge.service.ts).
-- The random nonce and the readings of the clock come as arguments.
use po_vdeposit.Common.{
  ℕ, ◌+◌, Bool, true, not, ◌||◌, Option, none, some, List, [], ◌∷◌, ◌++◌, Text, ◌===◌, ◌==◌,
  not_after, ok, err, Action, pure, throw_if, or_throw, gets, modify, ◌>>=◌, ◌>>◌, if◌then◌else◌,
  any, leb, is_some,
}
use po_vdeposit.CheckIn.Store
use po_vdeposit.CheckIn.Store.{Payload, Error, Coding, Challenge, Store}

-- `this.used`, or the database behind `this.prisma`.
pub data Backend (D : Type 0) : Type 0 where
  memory : List Text → Backend D
  prisma : D → Backend D

abbrev pub either_backend :
    {D A : Type 0} → Action (List Text) Error A → Action D Error A → Action (Backend D) Error A
either_backend m n (memory u) = let (r, u') = m u in (r, memory u')
either_backend m n (prisma d) = let (r, d') = n d in (r, prisma d')

abbrev pub two_minutes : ℕ
two_minutes = 120000

-- `token.split(".")`: the first part and the others.
abbrev pub cons_first : ℕ → Text × List Text → Text × List Text
cons_first c (p, ps) = (c ∷ p, ps)

unfoldable pub split : Text → Text × List Text
split [] = ([], [])
split (c ∷ s) = let (p, ps) = split s in if c == b'.' then ([], p ∷ ps) else (c ∷ p, ps)

-- `const [encoded, signature, extra] = token.split(".")`, past the test that the first two are
-- not empty and the third is missing or empty.
abbrev pub no_extra : List Text → Bool
no_extra [] = true
no_extra (extra ∷ more) = extra === []

abbrev pub parts_of : Text × List Text → Option (Text × Text)
parts_of (encoded, []) = none
parts_of (encoded, signature ∷ rest) =
    if encoded === [] || signature === [] || not (no_extra rest)
    then none
    else some (encoded, signature)

-- What `issue` returns.
pub record Issued : Type 0 where
  pub token : Text
  pub payload : Payload

abbrev pub payload_of : ℕ → Text → Text → Text → Payload
payload_of now nonce booking_id renter = record {
  version = 1;
  booking_id = booking_id;
  renter = renter;
  nonce = nonce;
  expires_at = some (now + two_minutes);
}

module _ (coding : Coding) where
  abbrev pub token_of : Payload → Text
  token_of p = coding.encode p ++ b'.' ∷ coding.sign (coding.encode p)

  -- `validSignature` compares the expected text with the supplied one in constant time.
  abbrev pub valid_signature : Text → Text → Bool
  valid_signature encoded signature = coding.sign encoded === signature

  -- The part of `consume` that reads the token: its signed payload.
  unfoldable pub read_token : Text → Option Payload
  read_token token = elim (parts_of (split token)) [
    | none ↦ none
    | some (encoded, signature) ↦
        if valid_signature encoded signature then coding.decode encoded else none
  ]

module _ (coding : Coding) {D : Type 0} (store : Store D) where
  -- The database branch of `issue`.
  abbrev pub issue_row : ℕ → Text → Text → Text → Action D Error (Unit {0})
  issue_row now nonce booking_id renter = do
    throw_if (not (← gets (store.has_booking booking_id renter))) Store.booking_not_found
    (λ d. elim (store.create_challenge booking_id (coding.hash_nonce nonce) (now + two_minutes) d) [
      | none ↦ (err Store.query_rejected, d)
      | some d' ↦ (ok tt, d')
    ])

  unfoldable pub issue : ℕ → Text → Text → Text → Action (Backend D) Error Issued
  issue now nonce booking_id renter = do
    either_backend (pure tt) (issue_row now nonce booking_id renter)
    let p = payload_of now nonce booking_id renter
    pure (record { token = token_of coding p; payload = p })

  -- The callback of the transaction in `consume`. The expiry is read from the row once
  -- more, and the clock is read again for the mark.
  unfoldable pub spend : ℕ → ℕ → Text → Payload → Action D Error (Unit {0})
  spend now tick booking_id payload = do
    challenge ←
        or_throw (← gets λ d. store.find_challenge d (coding.hash_nonce payload.nonce))
          Store.mismatch
    throw_if (not (challenge.booking_id === booking_id)) Store.mismatch
    throw_if (is_some challenge.consumed_at) Store.already_used
    throw_if (leb challenge.expires_at now) Store.expired
    count ← (λ d. let (n, d') = store.consume_many challenge.id tick d in (ok n, d'))
    throw_if (not (count == 1)) Store.already_used

  -- The branch over `this.used`.
  abbrev pub spend_memory : Text → Action (List Text) Error (Unit {0})
  spend_memory token = do
    throw_if (any (λ t. t === token) (← gets λ u. u)) Store.already_used
    modify λ u. token ∷ u

  -- `now` is read for the payload's expiry, `later` and `tick` in the transaction.
  unfoldable pub consume : ℕ → ℕ → ℕ → Text → Text → Text → Action (Backend D) Error Payload
  consume now later tick token booking_id renter = do
    payload ← or_throw (read_token coding token) Store.invalid_token
    throw_if
        (not (payload.version == 1)
          || not (payload.booking_id === booking_id)
          || not (payload.renter === renter))
        Store.mismatch
    throw_if (not_after payload.expires_at (some now)) Store.expired
    either_backend (spend_memory token) (store.transaction (spend later tick booking_id payload))
    pure payload
