-- ===== src/Tests/Frontdoor.antt =====
-- The endpoints and the browser's buttons at work, on the instances of the other
-- modules here.
use po_vdeposit.Common.{
  ℕ, ◌+◌, ◌≡◌, ◌⊎◌, refl, Bool, true, false, ◌&&◌, Option, none, some, [], ◌∷◌, Text, Text-discrete,
  codes, ok, err, Result, if◌then◌else◌, ◌===◌, any, Time,
}
use po_vdeposit.Common.Int.{pos}
use po_vdeposit.Booking.Types
use po_vdeposit.Booking.Types.{Booking, Verification}
use po_vdeposit.Booking.Store.{Stored}
use po_vdeposit.Booking.Backend
use po_vdeposit.Booking.Backend.{from_database}
use po_vdeposit.Booking.Workflow
use po_vdeposit.Booking.Requests
use po_vdeposit.Booking.Requests.{Advances}
use po_vdeposit.Verifier
use po_vdeposit.Verifier.{Rpc, Event, Kind}
use po_vdeposit.CheckIn.Store as Codes
use po_vdeposit.CheckIn.Service
use po_vdeposit.CheckIn.Service.{payload_of, token_of}
use po_vdeposit.CheckIn.Laws.{IsChecked}
use po_vdeposit.CheckIn.SingleUse.{IsConsumed}
use po_vdeposit.Controller
use po_vdeposit.Controller.{Api, Failure, fund, cancel, check_in, confirm}
use po_vdeposit.Controller.Found.{IsProven}
use po_vdeposit.Controller.Laws.{fund-ok, cancel-ok, check_in-ok, confirm-ok}
use po_vdeposit.Web.{check_in as web_check_in}
use po_vdeposit.Common.Dict.{insert}
use po_vdeposit.Tests.Tables.{Rows, tables}
use po_vdeposit.Tests.Codes.{Entries, coding, store}

abbrev hash : Text
hash = codes "0123456789abcdef0123456789abcdef0123456789abcdef0123456789ABCDEF"

abbrev b1 : Text
b1 = codes "b1"

abbrev row : Types.BookingState → Stored
row state = record {
  id = b1;
  on_chain_booking_id = codes "7";
  property_slug = codes "loft";
  renter_address = codes "GALICE";
  host_address = codes "GBOB";
  deposit_amount = pos 300000;
  visit_time = 1000;
  evidence_hash = hash;
  check_in_proof_hash = none;
  status = state;
  version = 0;
  created_at = 0;
  updated_at = 0;
  transactions = [];
}

abbrev only : Stored → Rows
only r id = if id === b1 then some r else none

abbrev rpc_of : Kind → Rpc
rpc_of kind = record {
  get_transaction = λ h. record { status = Verifier.success; ledger = 40; created_at = 1700000000 };
  get_events = λ a b contract.
      record {
        in_successful_contract_call = true;
        tx_hash = hash;
        topics = Verifier.text (Verifier.event_name kind) ∷ Verifier.number 7 ∷ [];
      }
      ∷ [];
}

abbrev code : Codes.Payload
code = payload_of 1000 (codes "n0nce") b1 (codes "GALICE")

abbrev api : Stored → Api Rows Entries
api r = record { bookings = Backend.prisma (only r); challenges = Service.memory [] }

abbrev sha : Text → Text
sha t = hash

abbrev dated : Text → Bool
dated t = true

abbrev no_date : Text → Time
no_date t = none

abbrev got : Result Failure Booking → Booking
got (ok b) = b
got (err e) = from_database (row Types.cancelled)

abbrev funding : Result Failure Booking × Api Rows Entries
funding =
    fund sha dated no_date (rpc_of Verifier.booking_funded) (codes "CC") (codes "PUBLIC")
      (tables true) coding store 50 b1 hash (api (row Types.pending_funding))

abbrev cancelling : Result Failure Booking × Api Rows Entries
cancelling =
    cancel sha dated no_date (rpc_of Verifier.deposit_refunded) (codes "CC") (codes "PUBLIC")
      (tables true) coding store 50 b1 (codes "GALICE") hash (api (row Types.funded))

abbrev confirming : Result Failure Booking × Api Rows Entries
confirming =
    confirm sha dated no_date (rpc_of Verifier.visit_confirmed) (codes "CC") (codes "PUBLIC")
      (tables true) coding store 50 b1 (codes "GBOB") hash (api (row Types.checked_in))

abbrev checking : Result Failure Booking × Api Rows Entries
checking =
    check_in sha dated no_date (rpc_of Verifier.visit_confirmed) (codes "CC") (codes "PUBLIC")
      (tables true) coding store 50 51 51 52 b1 (codes "GALICE") (token_of coding code)
      (api (row Types.funded))

funding-done : funding ≡ (ok (got funding.0), funding.1)
unfolding fund cancel confirm check_in Controller.require_booking Verifier.verify_event
    Verifier.verify_funding Verifier.verify_refund Verifier.verify_settlement
    po_vdeposit.Common.Numerals.decimal Workflow.fund Workflow.refund Workflow.confirm
    Workflow.check_in Workflow.fund_row Workflow.fund_body Workflow.refund_body Workflow.refund_row
    Workflow.check_in_row Workflow.confirm_row Backend.get Backend.get_row Backend.assert_hash
    Service.consume Service.read_token Service.split Types.BookingState-discrete
    po_vdeposit.Common.Text-discrete po_vdeposit.Common.ℕ_discrete from_database
funding-done = refl

cancelling-done : cancelling ≡ (ok (got cancelling.0), cancelling.1)
unfolding fund cancel confirm check_in Controller.require_booking Verifier.verify_event
    Verifier.verify_funding Verifier.verify_refund Verifier.verify_settlement
    po_vdeposit.Common.Numerals.decimal Workflow.fund Workflow.refund Workflow.confirm
    Workflow.check_in Workflow.fund_row Workflow.fund_body Workflow.refund_body Workflow.refund_row
    Workflow.check_in_row Workflow.confirm_row Backend.get Backend.get_row Backend.assert_hash
    Service.consume Service.read_token Service.split Types.BookingState-discrete
    po_vdeposit.Common.Text-discrete po_vdeposit.Common.ℕ_discrete from_database
cancelling-done = refl

confirming-done : confirming ≡ (ok (got confirming.0), confirming.1)
unfolding fund cancel confirm check_in Controller.require_booking Verifier.verify_event
    Verifier.verify_funding Verifier.verify_refund Verifier.verify_settlement
    po_vdeposit.Common.Numerals.decimal Workflow.fund Workflow.refund Workflow.confirm
    Workflow.check_in Workflow.fund_row Workflow.fund_body Workflow.refund_body Workflow.refund_row
    Workflow.check_in_row Workflow.confirm_row Backend.get Backend.get_row Backend.assert_hash
    Service.consume Service.read_token Service.split Types.BookingState-discrete
    po_vdeposit.Common.Text-discrete po_vdeposit.Common.ℕ_discrete from_database
confirming-done = refl

checking-done : checking ≡ (ok (got checking.0), checking.1)
unfolding fund cancel confirm check_in Controller.require_booking Verifier.verify_event
    Verifier.verify_funding Verifier.verify_refund Verifier.verify_settlement
    po_vdeposit.Common.Numerals.decimal Workflow.fund Workflow.refund Workflow.confirm
    Workflow.check_in Workflow.fund_row Workflow.fund_body Workflow.refund_body Workflow.refund_row
    Workflow.check_in_row Workflow.confirm_row Backend.get Backend.get_row Backend.assert_hash
    Service.consume Service.read_token Service.split Types.BookingState-discrete
    po_vdeposit.Common.Text-discrete po_vdeposit.Common.ℕ_discrete from_database
checking-done = refl

fund-ok_example :
    (old : Booking) × (v : Verification) × Advances
      (tables true)
      (Requests.fund b1 hash (some v))
      (api (row Types.pending_funding)).bookings
      funding.1.bookings
      (got funding.0)
      old
    × IsProven (rpc_of Verifier.booking_funded) (codes "CC") hash Verifier.booking_funded old
fund-ok_example =
    fund-ok sha dated no_date (rpc_of Verifier.booking_funded) (codes "CC") (codes "PUBLIC")
      (tables true) coding store 50 b1 hash (api (row Types.pending_funding)) funding.1
      (got funding.0) funding-done

cancel-ok_example :
    (old : Booking) × (v : Verification) × Advances
      (tables true)
      (Requests.refund b1 (codes "GALICE") hash (some v))
      (api (row Types.funded)).bookings
      cancelling.1.bookings
      (got cancelling.0)
      old
    × IsProven (rpc_of Verifier.deposit_refunded) (codes "CC") hash Verifier.deposit_refunded old
cancel-ok_example =
    cancel-ok sha dated no_date (rpc_of Verifier.deposit_refunded) (codes "CC") (codes "PUBLIC")
      (tables true) coding store 50 b1 (codes "GALICE") hash (api (row Types.funded)) cancelling.1
      (got cancelling.0) cancelling-done

confirm-ok_example :
    (old : Booking) × (v : Verification) × Advances
      (tables true)
      (Requests.confirm b1 (codes "GBOB") hash)
      (api (row Types.checked_in)).bookings
      confirming.1.bookings
      (got confirming.0)
      old
    × IsProven (rpc_of Verifier.visit_confirmed) (codes "CC") hash Verifier.visit_confirmed old
confirm-ok_example =
    confirm-ok sha dated no_date (rpc_of Verifier.visit_confirmed) (codes "CC") (codes "PUBLIC")
      (tables true) coding store 50 b1 (codes "GBOB") hash (api (row Types.checked_in)) confirming.1
      (got confirming.0) confirming-done

check_in-ok_example :
    (p : Codes.Payload) × (old : Booking) × IsChecked coding store 50
      (token_of coding code)
      b1
      (codes "GALICE")
      p
    × IsConsumed coding store 51 51
        (token_of coding code)
        b1
        p
        (api (row Types.funded)).challenges
        checking.1.challenges
    × Advances
        (tables true)
        (Requests.check_in b1 (codes "GALICE") (sha p.nonce))
        (api (row Types.funded)).bookings
        checking.1.bookings
        (got checking.0)
        old
check_in-ok_example =
    check_in-ok sha dated no_date (rpc_of Verifier.visit_confirmed) (codes "CC") (codes "PUBLIC")
      (tables true) coding store 50 51 51 52 b1 (codes "GALICE") (token_of coding code)
      (api (row Types.funded)) checking.1 (got checking.0) checking-done

abbrev offered_booking : Booking
offered_booking = from_database (row Types.funded)

abbrev bookings : Backend.Bookings
bookings = insert Text-discrete offered_booking.id offered_booking []
