-- ===== src/Booking/Types.antt =====
-- The types and errors of apps/api/src/booking/booking-workflow.service.ts.
use Prim.Native.String.{String}
use po_vdeposit.Common.{ℕ, Bool, true, false, Option, Text, Time, codes}
use po_vdeposit.Common.Int.{ℤ}

pub data BookingState : Type 0 where
  pending_funding funded checked_in completed cancelled renter_no_show : BookingState
  host_no_show disputed refunded released split expired : BookingState

unfoldable pub BookingState-discrete : Discrete BookingState
BookingState-discrete = hlevel

abbrev pub is_pending : BookingState → Bool
is_pending pending_funding = true
is_pending _ = false

abbrev pub is_funded : BookingState → Bool
is_funded funded = true
is_funded _ = false

abbrev pub is_checked_in : BookingState → Bool
is_checked_in checked_in = true
is_checked_in _ = false

pub record CreateBooking : Type 0 where
  pub listing_id : Text
  pub renter : Text
  pub host : Text
  pub deposit_amount : ℤ
  pub visit_time : Time
  pub evidence_hash : Text

-- `CreateBooking & { … }`.
pub record Booking : Type 0 where
  pub input : CreateBooking
  pub id : Text
  pub on_chain_booking_id : Text
  pub state : BookingState
  pub funding_transaction_hash : Option Text
  pub check_in_proof_hash : Option Text
  pub settlement_transaction_hash : Option Text
  pub created_at : ℕ
  pub updated_at : ℕ

-- What the verifier found of a transaction: `{ ledger, confirmedAt }`.
pub record Verification : Type 0 where
  pub ledger : ℕ
  pub confirmed_at : ℕ

-- The errors that the service throws, a constructor for each message, and a rejected query.
pub data Error : Type 0 where
  same_parties amount_out_of_bounds visit_not_in_future invalid_evidence_hash : Error
  slot_not_found booking_not_found not_awaiting_funding funding_metadata_required : Error
  must_be_funded only_renter_checks_in cannot_be_checked_in only_renter_cancels : Error
  refund_metadata_required cannot_be_refunded must_check_in_first only_host_confirms : Error
  cannot_be_confirmed invalid_hash query_rejected : Error

abbrev words : Error → String
words same_parties = "Renter and host must differ"
words amount_out_of_bounds = "Deposit amount out of bounds"
words visit_not_in_future = "Visit time must be in the future"
words invalid_evidence_hash = "Invalid evidence hash"
words slot_not_found = "Approved property or available viewing slot not found"
words booking_not_found = "Booking not found"
words not_awaiting_funding = "Booking is not awaiting funding"
words funding_metadata_required = "Verified funding metadata is required"
words must_be_funded = "Booking must be funded"
words only_renter_checks_in = "Only renter can check in"
words cannot_be_checked_in = "Booking cannot be checked in"
words only_renter_cancels = "Only renter can cancel"
words refund_metadata_required = "Verified refund metadata is required"
words cannot_be_refunded = "Booking cannot be refunded"
words must_check_in_first = "Renter must check in first"
words only_host_confirms = "Only host can confirm"
words cannot_be_confirmed = "Booking cannot be confirmed"
words invalid_hash = "Invalid transaction or evidence hash"
words query_rejected = "Database query rejected"

-- `error.message`.
unfoldable pub message : Error → Text
message e = codes (words e)
