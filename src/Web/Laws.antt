-- ===== src/Web/Laws.antt =====
-- The buttons of apps/web/lib/booking.ts against what the API does with their requests
-- (apps/api/src/booking/booking-workflow.service.ts, apps/api/src/booking/booking.controller.ts).
use po_vdeposit.Common.{ℕ, ◌≡◌, Bool, true, false, Option, some, [], Text, Time, ok, any}
use po_vdeposit.Booking.Types
use po_vdeposit.Booking.Types.{Booking, Verification}
use po_vdeposit.Booking.Store
use po_vdeposit.Booking.Backend
use po_vdeposit.Booking.Backend.{Bookings}
use po_vdeposit.Booking.Workflow
use po_vdeposit.Booking.Requests
use po_vdeposit.Verifier.{Rpc}
use po_vdeposit.CheckIn.Store as Codes
use po_vdeposit.CheckIn.Service
use po_vdeposit.Controller.{Api, check_in_challenge}
use po_vdeposit.Web.{BookingAction, issue_challenge, check_in, confirm, cancel, available_actions}

abbrev pub same_action : BookingAction → BookingAction → Bool
same_action issue_challenge issue_challenge = true
same_action check_in check_in = true
same_action confirm confirm = true
same_action cancel cancel = true
same_action _ _ = false

abbrev pub is_offered : BookingAction → Booking → Text → Bool
is_offered action b wallet = any (same_action action) (available_actions b (some wallet))

-- The code is offered only of a funded booking, where the API does not look at the state.
abbrev pub IsDue : BookingAction → Booking → Type 0
IsDue issue_challenge b = b.state ≡ Types.funded
IsDue _ b = Unit

module _ (sha256 : Text → Text) (is_datetime : Text → Bool) (date_of : Text → Time) (rpc : Rpc)
    (contract_id : Text) (network : Text) {D C : Type 0} (store : Store.Store D)
    (coding : Codes.Coding) (challenges : Codes.Store C) where
  -- The API, without a database, does what the request of an action asks. For a check-in, a
  -- cancellation and a confirmation that is the service, which is asked once the code or the
  -- transaction has been verified; `hash` is the nonce's or the transaction's.
  abbrev pub Accepts :
      (now : ℕ) (nonce hash : Text)
      → Option Verification
      → BookingAction
      → Text
      → Booking
      → Bookings
      → Type 0
  Accepts now nonce hash v issue_challenge wallet b m =
      (code : Text × Time) × (after : Api D C) × (check_in_challenge sha256 is_datetime date_of rpc
          contract_id network store coding challenges now nonce b.id wallet
          (record { bookings = Backend.memory m; challenges = Service.memory [] })
        ≡ (ok code, after))
  Accepts now nonce hash v check_in wallet b m =
      (b' : Booking) × (after : Backend.Backend D) × (Workflow.check_in store now b.id wallet hash
          (Backend.memory m)
        ≡ (ok b', after))
  Accepts now nonce hash v cancel wallet b m =
      (b' : Booking) × (after : Backend.Backend D) × (Workflow.refund store now b.id wallet hash v
          (Backend.memory m)
        ≡ (ok b', after))
  Accepts now nonce hash v confirm wallet b m =
      (b' : Booking) × (after : Backend.Backend D) × (Workflow.confirm store now b.id wallet hash
          (Backend.memory m)
        ≡ (ok b', after))
