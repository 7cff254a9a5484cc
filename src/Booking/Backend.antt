-- ===== src/Booking/Backend.antt =====
-- The state of `BookingWorkflowService` (apps/api/src/booking/booking-workflow.service.ts) and the
-- helpers of its operations. The bookings stand in a `Map` or, where the service has a Prisma
-- client, in the database.
use po_vdeposit.Common.{
  ℕ, Bool, true, false, not, Option, none, some, [], ◌∷◌, find, take, Text, Text-discrete, ◌==◌,
  is_hash, ok, err, Action, pure, throw_if, or_throw, gets, modify, ◌>>=◌, ◌>>◌, if◌then◌else◌,
}
use po_vdeposit.Common.Numerals.{hex_value, decimal}
use po_vdeposit.Common.Dict.{Dict, lookup, insert}
use mathlib.Core.Option
use po_vdeposit.Booking.Types
use po_vdeposit.Booking.Types.{
  BookingState, pending_funding, funded, checked_in, completed, refunded, is_pending, is_funded,
  is_checked_in, CreateBooking, Booking, Verification, Error,
}
use po_vdeposit.Booking.Store.{Store, Stored, Where, Change, Transaction, TransactionKind}

abbrev pub Bookings : Type 0
Bookings = Dict Text Booking

-- `this.bookings`, or the database behind `this.prisma`.
pub data Backend (D : Type 0) : Type 0 where
  memory : Bookings → Backend D
  prisma : D → Backend D

-- The two branches of `if (this.prisma)`.
abbrev pub either_backend :
    {D A : Type 0} → Action Bookings Error A → Action D Error A → Action (Backend D) Error A
either_backend m n (memory b) = let (r, b') = m b in (r, memory b')
either_backend m n (prisma d) = let (r, d') = n d in (r, prisma d')

-- The first 16 hexadecimal digits of the UUID, as an unsigned number, in decimal.
abbrev pub is_dash : ℕ → Bool
is_dash c = c == b'-'

abbrev pub without_dashes : Text → Text
without_dashes [] = []
without_dashes (c ∷ s) = if is_dash c then without_dashes s else c ∷ without_dashes s

unfoldable pub on_chain_id : Text → Text
on_chain_id id = decimal (hex_value (take 16 (without_dashes id)))

abbrev pub is_fund : TransactionKind → Bool
is_fund TransactionKind.fund = true
is_fund _ = false

abbrev pub hash_of : Option Transaction → Option Text
hash_of = Option.map λ t. t.hash

-- `fromDatabase`.
unfoldable pub from_database : Stored → Booking
from_database stored = record {
  input = record {
    listing_id = stored.property_slug;
    renter = stored.renter_address;
    host = stored.host_address;
    deposit_amount = stored.deposit_amount;
    visit_time = some stored.visit_time;
    evidence_hash = stored.evidence_hash;
  };
  id = stored.id;
  on_chain_booking_id = stored.on_chain_booking_id;
  state = stored.status;
  funding_transaction_hash = hash_of (find (λ t. is_fund t.kind) stored.transactions);
  check_in_proof_hash = stored.check_in_proof_hash;
  settlement_transaction_hash = hash_of (find (λ t. not (is_fund t.kind)) stored.transactions);
  created_at = stored.created_at;
  updated_at = stored.updated_at;
}

-- The booking that `create` builds before it is stored.
abbrev pub fresh : ℕ → Text → CreateBooking → Booking
fresh now id input = record {
  input = input;
  id = id;
  on_chain_booking_id = on_chain_id id;
  state = pending_funding;
  funding_transaction_hash = none;
  check_in_proof_hash = none;
  settlement_transaction_hash = none;
  created_at = now;
  updated_at = now;
}

unfoldable pub assert_hash : {S : Type 0} → Text → Action S Error (Unit {0})
assert_hash value = throw_if (not (is_hash value)) Types.invalid_hash

-- The `Map` branch of `get`.
unfoldable pub get_memory : Text → Action Bookings Error Booking
get_memory id = do or_throw (← gets λ m. lookup Text-discrete id m) Types.booking_not_found

-- `update`: the object that the `Map` holds is changed in place.
unfoldable pub update : ℕ → Text → (Booking → Booking) → Action Bookings Error Booking
unfolding get_memory
update now id changes = do
  booking ← get_memory id
  let booking' = record (changes booking) { updated_at = now }
  modify λ m. insert Text-discrete id booking' m
  pure booking'

module _ {D : Type 0} (store : Store D) where
  -- The queries, as actions that reject where Prisma does.
  abbrev pub update_rows : Where → Change → Action D Error ℕ
  update_rows w c d = let (n, d') = store.update_many w c d in (ok n, d')

  abbrev pub or_rejected : (D → Option D) → Action D Error (Unit {0})
  or_rejected query d = elim (query d) [
    | none ↦ (err Types.query_rejected, d)
    | some d' ↦ (ok tt, d')
  ]

  -- The database branch of `get`.
  unfoldable pub get_row : Text → Action D Error Booking
  unfolding from_database
  get_row id = do
    stored ← or_throw (← gets λ d. store.find_booking d id) Types.booking_not_found
    pure (from_database stored)

  unfoldable pub get : Text → Action (Backend D) Error Booking
  unfolding get_memory get_row
  get id = either_backend (get_memory id) (get_row id)
