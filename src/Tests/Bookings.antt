-- ===== src/Tests/Bookings.antt =====
-- One booking of apps/api/src/booking/booking-workflow.service.ts on its way through the database.
use po_vdeposit.Common.{
  ℕ, ◌^◌, ◌+◌, ◌≡◌, ◌<◌, refl, true, false, Option, none, some, [], ◌∷◌, Text, codes, ok, err,
  Result, arith, inl, inr, all, ◌||◌, is_hex, if◌then◌else◌, ◌===◌,
}
use po_vdeposit.Common.Int.{pos}
use po_vdeposit.Common.Numerals.{decimal}
use po_vdeposit.Booking.Types
use po_vdeposit.Booking.Types.{BookingState, Booking, CreateBooking, Verification, Error}
use po_vdeposit.Booking.Store.{Store, Stored, Transaction, TransactionKind}
use po_vdeposit.Booking.Backend.{
  Backend, memory, prisma, Bookings, from_database, fresh, on_chain_id, is_dash,
}
use po_vdeposit.Booking.Backend
use po_vdeposit.Booking.Workflow
use po_vdeposit.Booking.Workflow.{create, fund_row, check_in_row, refund_row, confirm_row}
use po_vdeposit.Booking.Commits.{
  IsRecorded, Commit, Commits, here, next, Commits-IsRecorded, Commits-final,
}
use po_vdeposit.Booking.Commits
use po_vdeposit.Booking.Requests.{Request, serve, view, Advances}
use po_vdeposit.Booking.Requests
use po_vdeposit.Booking.Service.{serve-Advances}
use po_vdeposit.Booking.Create.{IsAcceptable, IsCreated, create-ok, on_chain_id-u64}
use po_vdeposit.Booking.Evidence.{confirm_row-no_hash, check_in_row-partial}
use po_vdeposit.Tests.Tables.{Rows, tables, find_in}

abbrev hash : Text
hash = codes "0123456789abcdef0123456789abcdef0123456789abcdef0123456789ABCDEF"

abbrev b1 : Text
b1 = codes "b1"

abbrev alice : Text
alice = codes "GALICE"

abbrev bob : Text
bob = codes "GBOB"

abbrev paid_by : TransactionKind → Transaction
paid_by kind = record { hash = hash; kind = kind }

abbrev row : BookingState → Stored
row state = record {
  id = b1;
  on_chain_booking_id = codes "7";
  property_slug = codes "loft";
  renter_address = alice;
  host_address = bob;
  deposit_amount = pos 300000;
  visit_time = 1000;
  evidence_hash = hash;
  check_in_proof_hash = none;
  status = state;
  version = 0;
  created_at = 0;
  updated_at = 0;
  transactions = [];
}

abbrev paid_row : BookingState → Stored
paid_row state = record (row state) { transactions = paid_by TransactionKind.fund ∷ [] }

abbrev only : Stored → Rows
only r id = if id === b1 then some r else none

abbrev verified : Option Verification
verified = some (record { ledger = 9; confirmed_at = 5000 })

abbrev nothing : Booking
nothing = from_database (row Types.cancelled)

-- The booking of a result.
abbrev got : Result Error Booking → Booking
got (ok b) = b
got (err e) = nothing

abbrev db : Store Rows
db = tables true

abbrev funding : Result Error Booking × Rows
funding = fund_row db b1 nothing hash verified (only (row Types.pending_funding))

funding-ok : funding ≡ (ok (got funding.0), funding.1)
unfolding fund_row Workflow.fund_body Workflow.refund_body refund_row check_in_row confirm_row
    Workflow.fund Workflow.confirm create Workflow.create_row Workflow.insert_row Backend.get
    Backend.assert_hash Backend.get_memory Backend.update Types.BookingState-discrete
    po_vdeposit.Common.Text-discrete po_vdeposit.Common.ℕ_discrete from_database Backend.get_row
funding-ok = refl

pending_IsRecorded : IsRecorded (find_in (only (row Types.pending_funding)) b1)
unfolding fund_row Workflow.fund_body Workflow.refund_body refund_row check_in_row confirm_row
    Workflow.fund Workflow.confirm create Workflow.create_row Workflow.insert_row Backend.get
    Backend.assert_hash Backend.get_memory Backend.update Types.BookingState-discrete
    po_vdeposit.Common.Text-discrete po_vdeposit.Common.ℕ_discrete from_database Backend.get_row
pending_IsRecorded = refl

paid_IsRecorded : IsRecorded (find_in (only (paid_row Types.funded)) b1)
unfolding fund_row Workflow.fund_body Workflow.refund_body refund_row check_in_row confirm_row
    Workflow.fund Workflow.confirm create Workflow.create_row Workflow.insert_row Backend.get
    Backend.assert_hash Backend.get_memory Backend.update Types.BookingState-discrete
    po_vdeposit.Common.Text-discrete po_vdeposit.Common.ℕ_discrete from_database Backend.get_row
paid_IsRecorded = (hash, refl)

checked_IsRecorded : IsRecorded (find_in (only (paid_row Types.checked_in)) b1)
unfolding fund_row Workflow.fund_body Workflow.refund_body refund_row check_in_row confirm_row
    Workflow.fund Workflow.confirm create Workflow.create_row Workflow.insert_row Backend.get
    Backend.assert_hash Backend.get_memory Backend.update Types.BookingState-discrete
    po_vdeposit.Common.Text-discrete po_vdeposit.Common.ℕ_discrete from_database Backend.get_row
checked_IsRecorded = (hash, refl)

abbrev refunding : Result Error Booking × Rows
refunding = refund_row db b1 alice nothing hash verified (only (paid_row Types.funded))

refunding-ok : refunding ≡ (ok (got refunding.0), refunding.1)
unfolding fund_row Workflow.fund_body Workflow.refund_body refund_row check_in_row confirm_row
    Workflow.fund Workflow.confirm create Workflow.create_row Workflow.insert_row Backend.get
    Backend.assert_hash Backend.get_memory Backend.update Types.BookingState-discrete
    po_vdeposit.Common.Text-discrete po_vdeposit.Common.ℕ_discrete from_database Backend.get_row
refunding-ok = refl

abbrev checking : Result Error Booking × Rows
checking = check_in_row db b1 alice hash (only (paid_row Types.funded))

checking-ok : checking ≡ (ok (got checking.0), checking.1)
unfolding fund_row Workflow.fund_body Workflow.refund_body refund_row check_in_row confirm_row
    Workflow.fund Workflow.confirm create Workflow.create_row Workflow.insert_row Backend.get
    Backend.assert_hash Backend.get_memory Backend.update Types.BookingState-discrete
    po_vdeposit.Common.Text-discrete po_vdeposit.Common.ℕ_discrete from_database Backend.get_row
checking-ok = refl

abbrev confirming : Result Error Booking × Rows
confirming = confirm_row db b1 bob hash (only (paid_row Types.checked_in))

confirming-ok : confirming ≡ (ok (got confirming.0), confirming.1)
unfolding fund_row Workflow.fund_body Workflow.refund_body refund_row check_in_row confirm_row
    Workflow.fund Workflow.confirm create Workflow.create_row Workflow.insert_row Backend.get
    Backend.assert_hash Backend.get_memory Backend.update Types.BookingState-discrete
    po_vdeposit.Common.Text-discrete po_vdeposit.Common.ℕ_discrete from_database Backend.get_row
confirming-ok = refl

confirm_row-no_hash_example :
    ((got confirming.0).state ≡ Types.completed)
    × ((got confirming.0).settlement_transaction_hash ≡ none)
confirm_row-no_hash_example =
    confirm_row-no_hash db b1 bob hash (only (paid_row Types.checked_in)) confirming.1
      (got confirming.0) (checked_IsRecorded) confirming-ok

Commits-IsRecorded_example : IsRecorded (find_in confirming.1 b1)
Commits-IsRecorded_example =
    Commits-IsRecorded db (only (paid_row Types.checked_in)) confirming.1 b1 (checked_IsRecorded)
      (next here (Commits.confirmed b1 bob hash refl))

settled_found : find_in (only (paid_row Types.completed)) b1 ≡ some (paid_row Types.completed)
unfolding fund_row Workflow.fund_body Workflow.refund_body refund_row check_in_row confirm_row
    Workflow.fund Workflow.confirm create Workflow.create_row Workflow.insert_row Backend.get
    Backend.assert_hash Backend.get_memory Backend.update Types.BookingState-discrete
    po_vdeposit.Common.Text-discrete po_vdeposit.Common.ℕ_discrete from_database Backend.get_row
settled_found = refl

Commits-final_example :
    find_in (confirm_row db b1 bob hash (only (paid_row Types.completed))).1 b1
    ≡ some (paid_row Types.completed)
Commits-final_example =
    Commits-final db (only (paid_row Types.completed))
      (confirm_row db b1 bob hash (only (paid_row Types.completed))).1 b1 (paid_row Types.completed)
      settled_found (inl refl) (next here (Commits.confirmed b1 bob hash refl))

abbrev funded_found : Rows
funded_found = only (paid_row Types.funded)

found_funded : find_in funded_found b1 ≡ some (paid_row Types.funded)
unfolding fund_row Workflow.fund_body Workflow.refund_body refund_row check_in_row confirm_row
    Workflow.fund Workflow.confirm create Workflow.create_row Workflow.insert_row Backend.get
    Backend.assert_hash Backend.get_memory Backend.update Types.BookingState-discrete
    po_vdeposit.Common.Text-discrete po_vdeposit.Common.ℕ_discrete from_database Backend.get_row
found_funded = refl

check_in_row-partial_example :
    let (result, d') = check_in_row (tables false) b1 alice hash funded_found in
    (result ≡ err Types.query_rejected)
    × ((r' : Stored) × (find_in d' b1 ≡ some r') × (r'.status ≡ Types.checked_in))
check_in_row-partial_example =
    check_in_row-partial (tables false) b1 alice hash funded_found (paid_row Types.funded)
      found_funded refl refl (λ d. refl)

abbrev asked : Request
asked = Requests.check_in b1 alice hash

abbrev answer : Result Error Booking × Backend Rows
answer = serve db 50 asked (prisma funded_found)

answer-ok : answer ≡ (ok (got answer.0), answer.1)
unfolding fund_row Workflow.fund_body Workflow.refund_body refund_row check_in_row confirm_row
    Workflow.fund Workflow.check_in Workflow.confirm create Workflow.create_row Workflow.insert_row
    Backend.get Backend.assert_hash Backend.get_memory Backend.update Types.BookingState-discrete
    po_vdeposit.Common.Text-discrete po_vdeposit.Common.ℕ_discrete from_database Backend.get_row
answer-ok = refl

serve-Advances_example :
    (old : Booking) × Advances db asked (prisma funded_found) answer.1 (got answer.0) old
serve-Advances_example =
    serve-Advances db 50 asked (prisma funded_found) answer.1 (got answer.0) answer-ok

abbrev wish : CreateBooking
wish = record {
  listing_id = codes "loft";
  renter = alice;
  host = bob;
  deposit_amount = pos 300000;
  visit_time = some 1000;
  evidence_hash = hash;
}

abbrev created : Result Error Booking × Backend Rows
created = create db 50 51 (codes "PUBLIC") (codes "00000000-0000-4000") wish (prisma (λ id. none))

created-done : created ≡ (ok (got created.0), created.1)
unfolding fund_row Workflow.fund_body Workflow.refund_body refund_row check_in_row confirm_row
    Workflow.fund Workflow.confirm create Workflow.create_row Workflow.insert_row Backend.get
    Backend.assert_hash Backend.get_memory Backend.update Types.BookingState-discrete
    po_vdeposit.Common.Text-discrete po_vdeposit.Common.ℕ_discrete from_database Backend.get_row
created-done = refl

create-ok_example :
    IsAcceptable 50 wish
    × IsCreated (codes "00000000-0000-4000") wish (got created.0)
    × (view db created.1 (codes "00000000-0000-4000") ≡ some (got created.0))
create-ok_example =
    create-ok db 50 51 (codes "PUBLIC") (codes "00000000-0000-4000") wish (prisma (λ id. none))
      created.1 (got created.0) created-done

on_chain_id-u64_example :
    (n : ℕ) × (on_chain_id (codes "12ab34cd-0000-4000-8000-000000000000") ≡ decimal n)
    × (n < 2 ^ 64)
on_chain_id-u64_example = on_chain_id-u64 (codes "12ab34cd-0000-4000-8000-000000000000") refl
