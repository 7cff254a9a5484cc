-- ===== src/Web/Form/Steps.antt =====
-- The mutation of apps/web/components/booking-form.tsx: from the fields to the booking that is
-- created in the API, created and funded in the contract, and reported to the API.
use po_vdeposit.Common.{
  ℕ, ◌/◌, ◌%◌, ◌+◌, Bool, true, false, not, ◌&&◌, ◌||◌, Option, none, some, List, [], ◌∷◌, ◌++◌,
  find, length, leb, ltb, Text, split_on, Time, codes, ◌===◌, if◌then◌else◌, Result, ok, err, pure,
  throw_if, or_throw, lift, ◌>>=◌, ◌>>◌,
}
use mathlib.Core.Option
use po_vdeposit.Common.Numerals.{decimal}
use po_vdeposit.Booking.Types.{Booking}
use po_vdeposit.Web.Invoke.{create_booking, fund_booking}
use po_vdeposit.Web.Requests
use po_vdeposit.Config.{text_or}
use po_vdeposit.Web.Requests.{
  Thrown, Json, Reply, unreachable, answered, Call, Calls, Partners, Encoder, NewBooking, Created,
  ask, stellar_config, invoke_escrow,
}
use po_vdeposit.Web.Form.{Slot, Property, Fields, is_address}
use po_vdeposit.Web.Form.Deposit.{stroops, is_deposit}

-- `selection.split(":")`: the first part and the others.
abbrev pub parts : Text → Text × List Text
parts s = split_on b':' s

abbrev pub find_slot : Property → List Text → Option (Property × Slot)
find_slot p [] = none
find_slot p (slot_id ∷ rest) = Option.map (λ s. (p, s)) (find (λ s. s.id === slot_id) p.slots)

-- The property and the slot of a selection; `properties.data` is `none` while it loads.
unfoldable pub chosen : Option (List Property) → Text → Option (Property × Slot)
unfolding split_on
chosen none selection = none
chosen (some properties) selection =
    let (property_id, others) = parts selection in
    elim (find (λ p. p.id === property_id) properties) [ none ↦ none | some p ↦ find_slot p others ]

-- The schema.
unfoldable pub is_valid : Fields → Bool
unfolding is_address
is_valid f =
    leb 1 (length f.selection)
    && is_address f.renter
    && is_deposit f.deposit_xlm
    && f.rules_accepted

abbrev pub hex_letter : ℕ → ℕ
hex_letter n = if ltb n 10 then 48 + n else 87 + n

-- `byte.toString(16).padStart(2, "0")`, one byte after the other.
unfoldable pub hex_bytes : List ℕ → Text
hex_bytes [] = []
hex_bytes (n ∷ bytes) = hex_letter (n / 16) ∷ hex_letter (n % 16) ∷ hex_bytes bytes

-- `!response.ok || !body.id || !body.onChainBookingId`: the two ids, or the error.
unfoldable pub created_of : Reply Created → Result Thrown (Text × Text)
created_of (unreachable m) = err (some m)
created_of (answered is_ok status (err e)) = err (some e)
created_of (answered is_ok status (ok j)) =
    let id = text_or j.value.id [] in
    let chain_id = text_or j.value.on_chain_booking_id [] in
    if not is_ok || (id === []) || (chain_id === [])
    then err (some (text_or j.value.error (codes "Booking request failed.")))
    else ok (id, chain_id)

-- The answer to the report of the funding.
unfoldable pub funded_of : Reply (Unit {0}) → Result Thrown (Unit {0})
funded_of (unreachable m) = err (some m)
funded_of (answered true status body) = ok tt
funded_of (answered false status (err e)) = err (some e)
funded_of (answered false status (ok j)) =
    err (some (text_or j.message (codes "On-chain funding could not be verified.")))

-- What the form shows at the end.
pub record Booked : Type 0 where
  pub id : Text
  pub create_hash : Text
  pub fund_hash : Text

module _ {V : Type 0} (partners : Partners V) (encoder : Encoder V) (blank : Booking)
    (digest : Text → List ℕ) (date_of : Text → Time) where
  -- `bookingArguments`.
  unfoldable pub booking_arguments : (chain_id : Text) → NewBooking → Result Thrown (List V)
  booking_arguments chain_id new = elim (encoder.u64 chain_id) [
    | err e ↦ err e
    | ok which ↦ elim (encoder.address new.renter) [
      | err e ↦ err e
      | ok renter ↦ elim (encoder.address new.host) [
        | err e ↦ err e
        | ok host ↦ elim (encoder.i128 new.deposit_amount) [
          | err e ↦ err e
          | ok amount ↦
              elim (encoder.seconds (Option.map (λ t. t / 1000) (date_of new.visit_time))) [
                | err e ↦ err e
                | ok time ↦ ok (which ∷ renter ∷ host ∷ amount ∷ time ∷ [])
              ]
        ]
      ]
    ]
  ]

  -- The request that is sent to the API.
  unfoldable pub new_booking : Property → Slot → Fields → NewBooking
  unfolding hex_bytes
  new_booking p slot f = record {
    listing_id = p.slug;
    renter = f.renter;
    host = p.host_address;
    deposit_amount = decimal (stroops f.deposit_xlm);
    visit_time = slot.starts_at;
    evidence_hash = hex_bytes (digest (p.id ++ codes ":" ++ slot.id ++ codes ":" ++ f.renter));
  }

  -- What follows once the API has the booking.
  unfoldable pub pay : NewBooking → Text × Text → Calls V Booked
  unfolding booking_arguments
  pay new (id, chain_id) = do
    contract_id ← stellar_config partners blank
    arguments ← lift (booking_arguments chain_id new)
    create_hash ← invoke_escrow partners blank contract_id create_booking arguments new.renter
    renter ← lift (encoder.address new.renter)
    which ← lift (encoder.u64 chain_id)
    fund_hash ←
        invoke_escrow partners blank contract_id fund_booking (renter ∷ which ∷ []) new.renter
    (λ calls.
        let (r, calls') = ask (Requests.post_fund id fund_hash) partners.funded calls in
        (funded_of r, calls'))
    pure (record { id = id; create_hash = create_hash; fund_hash = fund_hash })

  -- `mutationFn`; `wallet` is the address in the browser's storage.
  unfoldable pub book : Option (List Property) → Option Text → Fields → Calls V Booked
  unfolding pay
  book properties wallet f = do
    place ←
        or_throw (chosen properties f.selection)
          (some (codes "Selected viewing time is no longer available."))
    throw_if (text_or wallet [] === [])
        (some (codes "Connect Freighter before creating a booking."))
    throw_if (not (text_or wallet [] === f.renter))
        (some (codes "Renter address must match the connected Freighter account."))
    ids ← (λ calls.
        let (r, calls') =
          ask (Requests.post_booking (new_booking place.0 place.1 f)) partners.created calls in
        (created_of r, calls'))
    pay (new_booking place.0 place.1 f) ids

  -- `handleSubmit`: the mutation runs only on fields that the schema accepts.
  unfoldable pub submit :
      Option (List Property)
      → Option Text
      → Fields
      → List (Call V)
      → Option (Result Thrown Booked) × List (Call V)
  unfolding book is_valid
  submit properties wallet f calls =
      if is_valid f
      then (let (r, calls') = book properties wallet f calls in (some r, calls'))
      else (none, calls)
