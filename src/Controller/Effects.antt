-- ===== src/Controller/Effects.antt =====
-- What each endpoint of apps/api/src/booking/booking.controller.ts leaves of the bookings, whatever
-- it answers.
pub mod Endpoints
use po_vdeposit.Common.{
  ℕ, ◌+◌, ◌≡◌, sym, ◌∙◌, ap, subst, ◌⊎◌, inl, inr, refl, Bool, ◌&&◌, some, Text, Time, ok, err,
  Result, Action, arith, Bool-cases, Result-cases, some_inj, bind-eq, ◌>>=◌, is_hash,
}
use po_vdeposit.Booking.Types
use po_vdeposit.Booking.Types.{Booking, CreateBooking, Verification}
use po_vdeposit.Booking.Store
use po_vdeposit.Booking.Backend
use po_vdeposit.Booking.Workflow
use po_vdeposit.Booking.Requests
use po_vdeposit.Booking.Requests.{Request, serve, view, target}
use po_vdeposit.Verifier
use po_vdeposit.Verifier.{
  Rpc, Event, Kind, Verified, verify_event, verify_funding, verify_refund, verify_settlement,
}
use po_vdeposit.CheckIn.Store as Codes
use po_vdeposit.CheckIn.Service
use po_vdeposit.Controller
use po_vdeposit.Controller.{
  Api, Failure, on_bookings, or_internal, verified, require_booking, sized, create, fund, cancel,
  check_in_challenge, check_in, confirm, CreateBody, input_of, is_create_body, use_code,
}
use po_vdeposit.Controller.Found.{IsProven, get-cases, require_booking-ok, proven}

-- The event that a request stands on, where it stands on one.
abbrev pub IsBacked : Rpc → Text → Request → Booking → Type 0
IsBacked rpc contract_id (Requests.fund id hash v) old =
    IsProven rpc contract_id hash Verifier.booking_funded old
IsBacked rpc contract_id (Requests.refund id actor hash v) old =
    IsProven rpc contract_id hash Verifier.deposit_refunded old
IsBacked rpc contract_id (Requests.confirm id actor hash) old =
    IsProven rpc contract_id hash Verifier.visit_confirmed old
IsBacked rpc contract_id (Requests.check_in id actor proof) old = Unit

module _ (sha256 : Text → Text) (is_datetime : Text → Bool) (date_of : Text → Time) (rpc : Rpc)
    (contract_id : Text) (network : Text) {D C : Type 0} (store : Store.Store D)
    (coding : Codes.Coding) (challenges : Codes.Store C) where
  -- The bookings after an endpoint: as before, after a creation, or after a request to the service
  -- that is backed by an event where it has to be.
  pub data Effect (s s' : Backend.Backend D) : Type 0 where
    quiet : s' ≡ s → Effect s s'
    created :
        (now later : ℕ) (id : Text) (input : CreateBooking)
        → s' ≡ (Workflow.create store now later network id input s).1
        → Effect s s'
    served :
        (now : ℕ) (q : Request)
        → s' ≡ (serve store now q s).1
        → ((old : Booking) → view store s (target q) ≡ some old → IsBacked rpc contract_id q old)
        → Effect s s'

  pub require_booking-bookings :
      (id : Text) (s : Api D C)
      → (require_booking sha256 is_datetime date_of rpc contract_id network store coding challenges
          id s).1
        ≡ s
  unfolding require_booking
  require_booking-bookings id s =
      elim (get-cases sha256 is_datetime date_of rpc contract_id network store coding challenges id
        s.bookings) [ inl (e, failed) ↦ ground arith | inr (b, done, there) ↦ ground arith ]

  on_bookings-bookings :
      (m : Action (Backend.Backend D) Types.Error Booking) (s : Api D C)
      → (or_internal (on_bookings m) s).1.bookings ≡ (m s.bookings).1
  on_bookings-bookings m s = ground arith

  -- The three endpoints that stand on an event of the contract.
  pub find_and_verify-Effect :
      (now : ℕ) (id hash : Text) (kind : Kind) (q : Verification → Request) (s : Api D C)
      → ((v : Verification) → target (q v) ≡ id)
      → ((v : Verification) (old : Booking)
          → IsProven rpc contract_id hash kind old
          → IsBacked rpc contract_id (q v) old)
      → Effect s.bookings
          ((do
            booking ←
                require_booking sha256 is_datetime date_of rpc contract_id network store coding
                  challenges id
            verification ←
                verified (verify_event rpc contract_id hash booking.on_chain_booking_id kind)
            or_internal (on_bookings (serve store now (q verification))))
            s).1.bookings
  find_and_verify-Effect now id hash kind q s named backs =
      go
        (require_booking sha256 is_datetime date_of rpc contract_id network store coding challenges
          id s)
        refl
    where
      go :
          (out : Result Failure Booking × Api D C)
          → require_booking sha256 is_datetime date_of rpc contract_id network store coding
              challenges id s
            ≡ out
          → Effect s.bookings
              ((do
                booking ←
                    require_booking sha256 is_datetime date_of rpc contract_id network store coding
                      challenges id
                verification ←
                    verified (verify_event rpc contract_id hash booking.on_chain_booking_id kind)
                or_internal (on_bookings (serve store now (q verification))))
                s).1.bookings
      go (err x, s1) done =
          let same : s1 ≡ s = ap (λ o. o.1) (sym done) ∙ require_booking-bookings id s in
          quiet (ground arith)
      go (ok old, s1) done =
          let (same, there) =
            require_booking-ok sha256 is_datetime date_of rpc contract_id network store coding
              challenges id s s1 old done in
          elim (Result-cases (verify_event rpc contract_id hash old.on_chain_booking_id kind)) [
            | inl (x, refused) ↦ quiet (ground arith)
            | inr (w, accepted) ↦
                let v : Verification = record {
                  ledger = w.ledger;
                  confirmed_at = w.confirmed_at;
                } in
                served now (q v) (ground arith) (λ found seen. backs v found (
                  subst (λ b. IsProven rpc contract_id hash kind b)
                    (some_inj (sym there ∙ (rw (named v) at seen)))
                    (proven sha256 is_datetime date_of rpc contract_id network store coding
                      challenges hash kind old w accepted)))
          ]
