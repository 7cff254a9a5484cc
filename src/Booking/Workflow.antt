-- ===== src/Booking/Workflow.antt =====
-- The operations of `BookingWorkflowService` (apps/api/src/booking/booking-workflow.service.ts).
-- Time, the random id and the network come as arguments.
use po_vdeposit.Common.{
  ℕ, not, ◌||◌, Option, none, some, List, [], ◌∷◌, map, reverse, take_last, Text, Text-discrete,
  ◌===◌, ◌==◌, is_hash, not_after, ok, err, Action, pure, throw, throw_if, or_throw, gets, modify,
  ◌>>=◌, ◌>>◌,
}
use po_vdeposit.Common.Int.{pos, leb_ℤ, ltb_ℤ}
use po_vdeposit.Common.Dict.{insert, values}
use po_vdeposit.Booking.Types
use po_vdeposit.Booking.Types.{
  pending_funding, funded, checked_in, completed, refunded, is_pending, is_funded, is_checked_in,
  CreateBooking, Booking, Verification, Error,
}
use po_vdeposit.Booking.Store.{Store, TransactionKind}
use po_vdeposit.Booking.Backend.{
  Bookings, Backend, memory, prisma, either_backend, on_chain_id, from_database, fresh, assert_hash,
  update, update_rows, or_rejected, get_row, get,
}

-- The bound of `create`, in stroops.
abbrev pub max_amount : ℕ
max_amount = 100000000000

abbrev pub first : List Text → Option Text
first [] = none
first (x ∷ xs) = some x

module _ {D : Type 0} (store : Store D) where
  -- The callback of the transaction in `create`.
  unfoldable pub insert_row : Text → Text → CreateBooking → ℕ → Action D Error Booking
  unfolding from_database on_chain_id
  insert_row network id input visit_time = do
    property ←
        or_throw (← gets λ d. store.find_property input.listing_id input.host visit_time d)
          Types.slot_not_found
    slot ← or_throw (first property.slots) Types.slot_not_found
    renter ← (λ d. let (w, d') = store.upsert_wallet input.renter network d in (ok w, d'))
    (λ d.
        elim (store.create_booking
          (record {
            id = id;
            on_chain_booking_id = on_chain_id id;
            property_id = property.id;
            slot_id = slot;
            renter_id = renter;
            host_id = property.host_id;
            deposit_amount = input.deposit_amount;
            visit_time = visit_time;
            evidence_hash = input.evidence_hash;
            history_actor = input.renter;
          })
          d) [
            | none ↦ (err Types.query_rejected, d)
            | some (stored, d') ↦ (ok (from_database stored), d')
          ])

  -- The database branch of `create`; Prisma rejects a query by an invalid date.
  unfoldable pub create_row : Text → Text → CreateBooking → Action D Error Booking
  unfolding insert_row
  create_row network id input = elim input.visit_time [
    | none ↦ throw Types.query_rejected
    | some visit_time ↦ store.transaction Booking (insert_row network id input visit_time)
  ]

  -- The `Map` branch of `create`.
  unfoldable pub create_memory : Booking → Action Bookings Error Booking
  create_memory booking = do modify λ m. insert Text-discrete booking.id booking m; pure booking

  -- `now` and `later` are the two readings of the clock.
  unfoldable pub create : ℕ → ℕ → Text → Text → CreateBooking → Action (Backend D) Error Booking
  unfolding create_memory
  create now later network id input = do
    throw_if (input.renter === input.host) Types.same_parties
    throw_if (leb_ℤ input.deposit_amount (pos 0) || ltb_ℤ (pos max_amount) input.deposit_amount)
        Types.amount_out_of_bounds
    throw_if (not_after input.visit_time (some now)) Types.visit_not_in_future
    throw_if (not (is_hash input.evidence_hash)) Types.invalid_evidence_hash
    either_backend (create_memory (fresh later id input)) (create_row network id input)

  unfoldable pub activity : Backend D → List Booking
  unfolding from_database
  activity (memory m) = reverse (take_last 50 (values m))
  activity (prisma d) = map from_database (store.recent d)

  -- The callback of the transaction in `fund`.
  unfoldable pub fund_body : Text → Booking → Text → Verification → Action D Error (Unit {0})
  fund_body id booking hash v = do
    count ←
        update_rows store (record { id = id; status = pending_funding; renter = none; host = none })
          (record { status = funded; check_in_proof_hash = none })
    throw_if (not (count == 1)) Types.not_awaiting_funding
    or_rejected store (
        store.create_payment (record {
          booking_id = id;
          hash = hash;
          kind = TransactionKind.fund;
          amount = booking.input.deposit_amount;
          ledger = v.ledger;
          confirmed_at = v.confirmed_at;
        }))
    or_rejected store (
        store.create_history (record {
          booking_id = id;
          before = some pending_funding;
          after = funded;
          actor = booking.input.renter;
          tx_hash = some hash;
        }))

  -- The database branch of `fund`, after its guards; `booking` is the row as it was read before.
  unfoldable pub fund_row : Text → Booking → Text → Option Verification → Action D Error Booking
  fund_row id booking hash none = throw Types.funding_metadata_required
  fund_row id booking hash (some v) = do
    store.transaction (Unit {0}) (fund_body id booking hash v)
    get_row store id

  unfoldable pub fund : ℕ → Text → Text → Option Verification → Action (Backend D) Error Booking
  unfolding get assert_hash update
  fund now id hash verification = do
    booking ← get store id
    throw_if (not (is_pending booking.state)) Types.not_awaiting_funding
    assert_hash hash
    either_backend
        (update now id λ b. record b { state = funded; funding_transaction_hash = some hash })
        (fund_row id booking hash verification)

  -- The database branch of `checkIn`. Its two queries stand in no transaction.
  unfoldable pub check_in_row : Text → Text → Text → Action D Error Booking
  unfolding get_row
  check_in_row id actor proof = do
    count ←
        update_rows store (record { id = id; status = funded; renter = some actor; host = none })
          (record { status = checked_in; check_in_proof_hash = some proof })
    throw_if (not (count == 1)) Types.cannot_be_checked_in
    or_rejected store (
        store.create_history (record {
          booking_id = id;
          before = some funded;
          after = checked_in;
          actor = actor;
          tx_hash = none;
        }))
    get_row store id

  unfoldable pub check_in : ℕ → Text → Text → Text → Action (Backend D) Error Booking
  unfolding get assert_hash update
  check_in now id actor proof = do
    booking ← get store id
    throw_if (not (is_funded booking.state)) Types.must_be_funded
    throw_if (not (booking.input.renter === actor)) Types.only_renter_checks_in
    assert_hash proof
    either_backend
        (update now id λ b. record b { state = checked_in; check_in_proof_hash = some proof })
        (check_in_row id actor proof)

  -- The callback of the transaction in `refund`.
  unfoldable pub refund_body :
      Text → Text → Booking → Text → Verification → Action D Error (Unit {0})
  refund_body id actor booking hash v = do
    count ←
        update_rows store (record { id = id; status = funded; renter = some actor; host = none })
          (record { status = refunded; check_in_proof_hash = none })
    throw_if (not (count == 1)) Types.cannot_be_refunded
    or_rejected store (
        store.create_payment (record {
          booking_id = id;
          hash = hash;
          kind = TransactionKind.refund;
          amount = booking.input.deposit_amount;
          ledger = v.ledger;
          confirmed_at = v.confirmed_at;
        }))
    or_rejected store (
        store.create_history (record {
          booking_id = id;
          before = some funded;
          after = refunded;
          actor = actor;
          tx_hash = some hash;
        }))

  -- The database branch of `refund`.
  unfoldable pub refund_row :
      Text → Text → Booking → Text → Option Verification → Action D Error Booking
  refund_row id actor booking hash none = throw Types.refund_metadata_required
  refund_row id actor booking hash (some v) = do
    store.transaction (Unit {0}) (refund_body id actor booking hash v)
    get_row store id

  unfoldable pub refund :
      ℕ → Text → Text → Text → Option Verification → Action (Backend D) Error Booking
  unfolding get assert_hash update
  refund now id actor hash verification = do
    booking ← get store id
    throw_if (not (is_funded booking.state)) Types.must_be_funded
    throw_if (not (booking.input.renter === actor)) Types.only_renter_cancels
    assert_hash hash
    either_backend
        (update now id λ b. record b { state = refunded; settlement_transaction_hash = some hash })
        (refund_row id actor booking hash verification)

  -- The database branch of `confirm`. It records the hash in the history, and no payment.
  unfoldable pub confirm_row : Text → Text → Text → Action D Error Booking
  unfolding get_row
  confirm_row id actor hash = do
    count ←
        update_rows store
          (record { id = id; status = checked_in; renter = none; host = some actor })
          (record { status = completed; check_in_proof_hash = none })
    throw_if (not (count == 1)) Types.cannot_be_confirmed
    or_rejected store (
        store.create_history (record {
          booking_id = id;
          before = some checked_in;
          after = completed;
          actor = actor;
          tx_hash = some hash;
        }))
    get_row store id

  unfoldable pub confirm : ℕ → Text → Text → Text → Action (Backend D) Error Booking
  unfolding get assert_hash update
  confirm now id actor hash = do
    booking ← get store id
    throw_if (not (is_checked_in booking.state)) Types.must_check_in_first
    throw_if (not (booking.input.host === actor)) Types.only_host_confirms
    assert_hash hash
    either_backend
        (update now id λ b. record b { state = completed; settlement_transaction_hash = some hash })
        (confirm_row id actor hash)
