-- ===== src/Controller.antt =====
-- `BookingController` (apps/api/src/booking/booking.controller.ts): the endpoints over the workflow,
-- the verifier and the check-in codes. A body is what JSON gives for its fields; the datetime check
-- of zod, the text behind a date and `createHash("sha256")` in hexadecimal are parameters. A
-- booking that an endpoint ends with is what it gives to `serialize`.
pub mod Found
pub mod Laws
pub mod Effects
use po_vdeposit.Common.{
  ℕ, ◌+◌, Bool, true, false, not, ◌&&◌, ◌||◌, Option, none, some, List, [], ◌∷◌, map, Text, codes,
  ◌===◌, Time, length, all, leb, is_hash, is_digit, mentions, ok, err, Result, Action, pure, throw,
  throw_if, gets, ◌>>=◌, ◌>>◌, if◌then◌else◌,
}
use po_vdeposit.Common.Numerals.{value_from, decimal}
use po_vdeposit.Common.Int.{ℤ, pos, negsuc}
use po_vdeposit.Booking.Types
use po_vdeposit.Booking.Types.{Booking, CreateBooking, Verification}
use po_vdeposit.Booking.Store
use po_vdeposit.Booking.Backend
use po_vdeposit.Booking.Workflow
use po_vdeposit.Verifier
use po_vdeposit.Verifier.{Rpc, Verified, verify_funding, verify_refund, verify_settlement}
use po_vdeposit.CheckIn.Store as Codes
use po_vdeposit.CheckIn.Service

-- How an endpoint fails: 400, 403 and 404 with a message, and 500.
pub data Failure : Type 0 where
  bad_request forbidden not_found : Text → Failure
  internal : Failure

-- The services' states.
pub record Api (D C : Type 0) : Type 0 where
  pub bookings : Backend.Backend D
  pub challenges : Service.Backend C

pub record CreateBody : Type 0 where
  pub listing_id : Text
  pub renter : Text
  pub host : Text
  pub deposit_amount : Text
  pub visit_time : Text
  pub evidence_hash : Text

-- An answer with a booking: the amount as a text, and the network.
pub record Answer : Type 0 where
  pub booking : Booking
  pub deposit_amount : Text
  pub network : Text

-- `depositAmount.toString()`.
abbrev pub amount_text : ℤ → Text
amount_text (pos n) = decimal n
amount_text (negsuc n) = b'-' ∷ decimal (n + 1)

abbrev pub serialize : (network : Text) → Booking → Answer
serialize network booking = record {
  booking = booking;
  deposit_amount = amount_text booking.input.deposit_amount;
  network = network;
}

-- `z.string().min(1).max(100)`, and `/^[1-9]\d{0,19}$/`.
abbrev pub sized : ℕ → Text → Bool
sized most s = leb 1 (length s) && leb (length s) most

abbrev pub is_amount : Text → Bool
is_amount [] = false
is_amount (c ∷ s) = leb b'1' c && leb c b'9' && leb (length s) 19 && all is_digit s

abbrev on_bookings :
    {D C A : Type 0} → Action (Backend.Backend D) Types.Error A → Action (Api D C) Types.Error A
on_bookings m s = let (r, b) = m s.bookings in (r, record s { bookings = b })

-- A plain `Error` is answered with 500.
abbrev pub or_internal : {S E A : Type 0} → Action S E A → Action S Failure A
or_internal m s = let (r, s') = m s in elim r [ ok a ↦ (ok a, s') | err e ↦ (err internal, s') ]

abbrev verified : {S : Type 0} → Result Verifier.Error Verified → Action S Failure Verification
verified (ok v) = pure (record { ledger = v.ledger; confirmed_at = v.confirmed_at })
verified (err e) = throw internal

module _ (sha256 : Text → Text) (is_datetime : Text → Bool) (date_of : Text → Time) (rpc : Rpc)
    (contract_id : Text) (network : Text) {D C : Type 0} (store : Store.Store D)
    (coding : Codes.Coding) (challenges : Codes.Store C) where
  -- `requireBooking`: a message that mentions "not found" is answered with 404.
  unfoldable pub require_booking : Text → Action (Api D C) Failure Booking
  require_booking id s =
      let (r, b) = Backend.get store id s.bookings in
      let s' = record s { bookings = b } in
      elim r [
        | ok booking ↦ (ok booking, s')
        | err e ↦ (
          if mentions (codes "not found") (Types.message e)
              then err (not_found (Types.message e))
              else err internal,
          s',
        )
      ]

  -- `createInput`.
  abbrev pub is_create_body : CreateBody → Bool
  is_create_body body =
      sized 100 body.listing_id
      && sized 100 body.renter
      && sized 100 body.host
      && is_amount body.deposit_amount
      && is_datetime body.visit_time
      && is_hash body.evidence_hash

  abbrev pub input_of : CreateBody → CreateBooking
  input_of body = record {
    listing_id = body.listing_id;
    renter = body.renter;
    host = body.host;
    deposit_amount = pos (value_from 0 body.deposit_amount);
    visit_time = date_of body.visit_time;
    evidence_hash = body.evidence_hash;
  }

  unfoldable pub create :
      (now later : ℕ) (id : Text) → CreateBody → Action (Api D C) Failure Booking
  create now later id body s =
      if not (is_create_body body)
      then (err (bad_request (codes "Invalid booking request")), s)
      else let (r, b) = Workflow.create store now later network id (input_of body) s.bookings in
        let s' = record s { bookings = b } in
        elim r [ ok booking ↦ (ok booking, s') | err e ↦ (err (bad_request (Types.message e)), s') ]

  unfoldable pub activity : Api D C → List Booking
  activity s = Workflow.activity store s.bookings

  unfoldable pub fund : (now : ℕ) (id transaction_hash : Text) → Action (Api D C) Failure Booking
  fund now id transaction_hash = do
    throw_if (not (is_hash transaction_hash)) internal
    booking ← require_booking id
    verification ←
        verified (verify_funding rpc contract_id transaction_hash booking.on_chain_booking_id)
    or_internal (on_bookings (Workflow.fund store now id transaction_hash (some verification)))

  unfoldable pub cancel :
      (now : ℕ) (id actor transaction_hash : Text) → Action (Api D C) Failure Booking
  cancel now id actor transaction_hash = do
    throw_if (not (sized 100 actor && is_hash transaction_hash)) internal
    booking ← require_booking id
    verification ←
        verified (verify_refund rpc contract_id transaction_hash booking.on_chain_booking_id)
    or_internal
        (on_bookings (Workflow.refund store now id actor transaction_hash (some verification)))

  -- The answer has the token and the date at which it expires.
  unfoldable pub check_in_challenge :
      (now : ℕ) (nonce id actor : Text) → Action (Api D C) Failure (Text × Time)
  check_in_challenge now nonce id actor = do
    throw_if (not (sized 100 actor)) internal
    booking ← require_booking id
    throw_if (not (booking.input.host === actor))
        (forbidden (codes "Only the host can issue a check-in challenge"))
    issued ← or_internal (λ s.
        let (r, c) =
          Service.issue coding challenges now nonce id booking.input.renter s.challenges in
        (r, record s { challenges = c }))
    pure (issued.token, issued.payload.expires_at)

  abbrev pub use_code :
      (now later tick : ℕ) (id actor token : Text) → Action (Api D C) Failure Codes.Payload
  use_code now later tick id actor token s =
      let (r, c) = Service.consume coding challenges now later tick token id actor s.challenges in
      let s' = record s { challenges = c } in
      elim r [ ok p ↦ (ok p, s') | err e ↦ (err (bad_request (Codes.message e)), s') ]

  -- The code is consumed before the workflow is asked.
  unfoldable pub check_in :
      (now later tick last : ℕ) (id actor token : Text) → Action (Api D C) Failure Booking
  check_in now later tick last id actor token = do
    throw_if (not (sized 100 actor && sized 2048 token)) internal
    payload ← use_code now later tick id actor token
    or_internal (on_bookings (Workflow.check_in store last id actor (sha256 payload.nonce)))

  unfoldable pub confirm :
      (now : ℕ) (id actor transaction_hash : Text) → Action (Api D C) Failure Booking
  confirm now id actor transaction_hash = do
    throw_if (not (sized 100 actor && is_hash transaction_hash)) internal
    booking ← require_booking id
    verified (verify_settlement rpc contract_id transaction_hash booking.on_chain_booking_id)
    or_internal (on_bookings (Workflow.confirm store now id actor transaction_hash))
