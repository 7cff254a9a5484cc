-- ===== src/CheckIn/Store.antt =====
-- The payload of a check-in code, the runtime's coding functions, and the table
-- `CheckInChallenge` of apps/api/prisma/schema.prisma behind the queries of
-- apps/api/src/checkin/check-in-challenge.service.ts.
use Prim.Native.String.{String}
use po_vdeposit.Common.{
  ℕ, ◌≡◌, ◌≢◌, Bool, true, ◌&&◌, Option, none, some, [], Text, Time, ◌===◌, ◌==◌, codes, ok, err,
  Action, if◌then◌else◌, all, not, is_some,
}
use mathlib.Core.Option

pub record Payload : Type 0 where
  pub version : ℕ
  pub booking_id : Text
  pub renter : Text
  pub nonce : Text
  pub expires_at : Time

pub data Error : Type 0 where
  invalid_token mismatch expired already_used booking_not_found query_rejected : Error

abbrev words : Error → String
words invalid_token = "Invalid check-in token"
words mismatch = "Check-in challenge mismatch"
words expired = "Check-in challenge expired"
words already_used = "Check-in challenge already used"
words booking_not_found = "Booking not found for renter"
words query_rejected = "Database query rejected"

-- `error.message`.
unfoldable pub message : Error → Text
message e = codes (words e)

abbrev pub no_dot : Text → Bool
no_dot s = all (λ c. not (c == b'.')) s

-- JSON in base64url, the keyed hash under the service's secret, and the hash of a nonce. What is
-- decoded is what was encoded, and neither code has a dot or is empty.
pub record Coding : Type 0 where
  pub encode : Payload → Text
  pub decode : Text → Option Payload
  pub sign : Text → Text
  pub hash_nonce : Text → Text
  pub decode-encode : (p : Payload) → decode (encode p) ≡ some p
  pub encode-no_dot : (p : Payload) → no_dot (encode p) ≡ true
  pub encode-nonempty : (p : Payload) → encode p ≢ []
  pub sign-no_dot : (s : Text) → no_dot (sign s) ≡ true
  pub sign-nonempty : (s : Text) → sign s ≢ []

-- A row of `CheckInChallenge`.
pub record Challenge : Type 0 where
  pub id : Text
  pub booking_id : Text
  pub nonce_hash : Text
  pub expires_at : ℕ
  pub consumed_at : Option ℕ

abbrev pub consumed_by : Text → ℕ → Challenge → Challenge
consumed_by id now c =
    if c.id === id && not (is_some c.consumed_at) then record c { consumed_at = some now } else c

abbrev pub atomic : {D A : Type 0} → Action D Error A → Action D Error A
atomic m d = let (r, d') = m d in elim r [ ok a ↦ (ok a, d') | err e ↦ (err e, d) ]

-- The queries. `nonceHash` is unique, ids are unique, and `updateMany` with `consumedAt: null`
-- counts the row of the id if it has not been consumed.
pub record Store (D : Type 0) : Type 0 where
  pub has_booking : Text → Text → D → Bool
  pub create_challenge : (booking_id nonce_hash : Text) (expires_at : ℕ) → D → Option D
  pub find_challenge : D → Text → Option Challenge
  pub consume_many : Text → ℕ → D → ℕ × D
  pub transaction : Action D Error (Unit {0}) → Action D Error (Unit {0})
  pub create-find :
      (booking nonce_hash : Text) (expires_at : ℕ) (d d' : D)
      → create_challenge booking nonce_hash expires_at d ≡ some d'
      → (find_challenge d nonce_hash ≡ none)
        × ((id : Text) × (find_challenge d' nonce_hash
              ≡ some (record {
                id = id;
                booking_id = booking;
                nonce_hash = nonce_hash;
                expires_at = expires_at;
                consumed_at = none;
              })))
  pub create-others :
      (booking nonce_hash other : Text) (expires_at : ℕ) (d d' : D)
      → create_challenge booking nonce_hash expires_at d ≡ some d'
      → other ≢ nonce_hash
      → find_challenge d' other ≡ find_challenge d other
  pub consume-count :
      (nonce_hash : Text) (now : ℕ) (d : D) (c : Challenge)
      → find_challenge d nonce_hash ≡ some c
      → (consume_many c.id now d).0 ≡ (if is_some c.consumed_at then 0 else 1)
  pub consume-find :
      (id nonce_hash : Text) (now : ℕ) (d : D)
      → find_challenge (consume_many id now d).1 nonce_hash
        ≡ Option.map (consumed_by id now) (find_challenge d nonce_hash)
  pub transaction-atomic : (m : Action D Error (Unit {0})) (d : D) → transaction m d ≡ atomic m d
