-- ===== src/Booking/Requests.antt =====
-- `BookingWorkflowService` (apps/api/src/booking/booking-workflow.service.ts) against its state
-- machine, with its bookings in the `Map` or in the database alike.
pub mod Memory
pub mod Database
use po_vdeposit.Common.{
  ℕ, ◌≡◌, ◌≢◌, refl, ◌⊎◌, inl, inr, Bool, true, Option, none, some, Text, Text-discrete, ok, err,
  arith, Action, Option-cases, Bool-cases, is_hash, ◌===◌,
}
use po_vdeposit.Common.Dict.{lookup, insert, lookup-insert_self, lookup-insert_ne}
use mathlib.Core.Option
use po_vdeposit.Booking.Types
use po_vdeposit.Booking.Types.{
  BookingState, pending_funding, funded, checked_in, completed, refunded, Booking, Verification,
  Error,
}
use po_vdeposit.Booking.Store.{Store, Stored}
use po_vdeposit.Booking.Backend.{
  Backend, memory, prisma, Bookings, from_database, get_memory, update, get_row,
}
use po_vdeposit.Booking.Backend
use po_vdeposit.Booking.Workflow
use po_vdeposit.Booking.Workflow.{fund_row, check_in_row, refund_row, confirm_row}
use po_vdeposit.Booking.Results.{
  Became, fund_row-ok, refund_row-ok, check_in_row-ok, confirm_row-ok,
}

-- The four operations that move a booking, with their arguments.
pub data Request : Type 0 where
  fund : (id hash : Text) (v : Option Verification) → Request
  check_in : (id actor proof : Text) → Request
  refund : (id actor hash : Text) (v : Option Verification) → Request
  confirm : (id actor hash : Text) → Request

abbrev pub target : Request → Text
target (fund id hash v) = id
target (check_in id actor proof) = id
target (refund id actor hash v) = id
target (confirm id actor hash) = id

-- The edge of the state machine that a request asks for, the party whose request the service takes,
-- and its hash. A funding names nobody.
abbrev pub source_state : Request → BookingState
source_state (fund id hash v) = pending_funding
source_state (check_in id actor proof) = funded
source_state (refund id actor hash v) = funded
source_state (confirm id actor hash) = checked_in

abbrev pub target_state : Request → BookingState
target_state (fund id hash v) = funded
target_state (check_in id actor proof) = checked_in
target_state (refund id actor hash v) = refunded
target_state (confirm id actor hash) = completed

abbrev pub MayAsk : Request → Booking → Type 0
MayAsk (fund id hash v) b = Unit
MayAsk (check_in id actor proof) b = b.input.renter ≡ actor
MayAsk (refund id actor hash v) b = b.input.renter ≡ actor
MayAsk (confirm id actor hash) b = b.input.host ≡ actor

abbrev pub evidence : Request → Text
evidence (fund id hash v) = hash
evidence (check_in id actor proof) = proof
evidence (refund id actor hash v) = hash
evidence (confirm id actor hash) = hash

-- What the booking shows of the request's hash.
abbrev pub Records : Request → Booking → Type 0
Records (check_in id actor proof) b = b.check_in_proof_hash ≡ some proof
Records _ b = Unit

module _ {D : Type 0} (store : Store D) where
  abbrev pub serve : ℕ → Request → Action (Backend D) Error Booking
  serve now (fund id hash v) = Workflow.fund store now id hash v
  serve now (check_in id actor proof) = Workflow.check_in store now id actor proof
  serve now (refund id actor hash v) = Workflow.refund store now id actor hash v
  serve now (confirm id actor hash) = Workflow.confirm store now id actor hash

  -- The booking that `get` shows.
  abbrev pub view : Backend D → Text → Option Booking
  view (memory m) id = lookup Text-discrete id m
  view (prisma d) id = Option.map from_database (store.find_booking d id)

  pub record Advances (q : Request) (s s' : Backend D) (b old : Booking) : Type 0 where
    pub before : view s (target q) ≡ some old
    pub allowed : old.state ≡ source_state q
    pub actor : MayAsk q old
    pub hashed : is_hash (evidence q) ≡ true
    pub reached : b.state ≡ target_state q
    pub recorded : Records q b
    pub same_deal : b.input ≡ old.input
    pub same_id : (b.id ≡ old.id) × (b.on_chain_booking_id ≡ old.on_chain_booking_id)
    pub after : view s' (target q) ≡ some b
    pub others : (other : Text) → other ≢ target q → view s' other ≡ view s other
