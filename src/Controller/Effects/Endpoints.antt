-- ===== src/Controller/Effects/Endpoints.antt =====
-- The endpoints of apps/api/src/booking/booking.controller.ts by what they leave of the bookings.
use po_vdeposit.Common.{
  ℕ, inl, inr, refl, Bool, ◌&&◌, some, Text, Time, arith, Bool-cases, Result-cases, is_hash,
}
use po_vdeposit.Booking.Store
use po_vdeposit.Booking.Requests
use po_vdeposit.Booking.Requests.{Request, serve, view, target}
use po_vdeposit.Verifier
use po_vdeposit.Verifier.{
  Rpc, Event, Kind, Verified, verify_event, verify_funding, verify_refund, verify_settlement,
}
use po_vdeposit.CheckIn.Store as Codes
use po_vdeposit.CheckIn.Service
use po_vdeposit.Controller.{
  Api, sized, create, fund, cancel, check_in_challenge, check_in, confirm, CreateBody, input_of,
  is_create_body,
}
use po_vdeposit.Controller.Effects.{
  Effect, quiet, created, served, require_booking-bookings, find_and_verify-Effect,
}

module _ (sha256 : Text → Text) (is_datetime : Text → Bool) (date_of : Text → Time) (rpc : Rpc)
    (contract_id : Text) (network : Text) {D C : Type 0} (store : Store.Store D)
    (coding : Codes.Coding) (challenges : Codes.Store C) where
  pub create-Effect :
      (now later : ℕ) (id : Text) (body : CreateBody) (s : Api D C)
      → Effect sha256 is_datetime date_of rpc contract_id network store coding challenges s.bookings
          (create sha256 is_datetime date_of rpc contract_id network store coding challenges now
            later id body s).1.bookings
  unfolding create
  create-Effect now later id body s =
      elim (Bool-cases (
        is_create_body sha256 is_datetime date_of rpc contract_id network store coding challenges
          body)) [
            | inr bad ↦ quiet (ground arith)
            | inl good ↦
                created now later id
                  (input_of sha256 is_datetime date_of rpc contract_id network store coding
                    challenges body)
                  (ground arith)
          ]

  pub fund-Effect :
      (now : ℕ) (id hash : Text) (s : Api D C)
      → Effect sha256 is_datetime date_of rpc contract_id network store coding challenges s.bookings
          (fund sha256 is_datetime date_of rpc contract_id network store coding challenges now id
            hash s).1.bookings
  unfolding fund verify_funding
  fund-Effect now id hash s = elim (Bool-cases (is_hash hash)) [
    | inr bad ↦ quiet (ground arith)
    | inl good ↦ rw good (
        find_and_verify-Effect sha256 is_datetime date_of rpc contract_id network store coding
          challenges now id hash Verifier.booking_funded (λ v. Requests.fund id hash (some v)) s
          (λ v. refl) (λ v old proof. proof))
  ]

  pub cancel-Effect :
      (now : ℕ) (id actor hash : Text) (s : Api D C)
      → Effect sha256 is_datetime date_of rpc contract_id network store coding challenges s.bookings
          (cancel sha256 is_datetime date_of rpc contract_id network store coding challenges now id
            actor hash s).1.bookings
  unfolding cancel verify_refund
  cancel-Effect now id actor hash s = elim (Bool-cases (sized 100 actor && is_hash hash)) [
    | inr bad ↦ quiet (ground arith)
    | inl good ↦ rw good (
        find_and_verify-Effect sha256 is_datetime date_of rpc contract_id network store coding
          challenges now id hash Verifier.deposit_refunded
          (λ v. Requests.refund id actor hash (some v)) s (λ v. refl) (λ v old proof. proof))
  ]

  pub confirm-Effect :
      (now : ℕ) (id actor hash : Text) (s : Api D C)
      → Effect sha256 is_datetime date_of rpc contract_id network store coding challenges s.bookings
          (confirm sha256 is_datetime date_of rpc contract_id network store coding challenges now id
            actor hash s).1.bookings
  unfolding confirm verify_settlement
  confirm-Effect now id actor hash s = elim (Bool-cases (sized 100 actor && is_hash hash)) [
    | inr bad ↦ quiet (ground arith)
    | inl good ↦ rw good (
        find_and_verify-Effect sha256 is_datetime date_of rpc contract_id network store coding
          challenges now id hash Verifier.visit_confirmed (λ v. Requests.confirm id actor hash) s
          (λ v. refl) (λ v old proof. proof))
  ]

  pub check_in-Effect :
      (now later tick last : ℕ) (id actor token : Text) (s : Api D C)
      → Effect sha256 is_datetime date_of rpc contract_id network store coding challenges s.bookings
          (check_in sha256 is_datetime date_of rpc contract_id network store coding challenges now
            later tick last id actor token s).1.bookings
  unfolding check_in
  check_in-Effect now later tick last id actor token s =
      elim (Bool-cases (sized 100 actor && sized 2048 token)) [
        | inr bad ↦ quiet (ground arith)
        | inl good ↦
            elim (Result-cases
              (Service.consume coding challenges now later tick token id actor s.challenges).0) [
                | inl (e, refused) ↦ quiet (ground arith)
                | inr (p, fine) ↦
                    served last (Requests.check_in id actor (sha256 p.nonce)) (ground arith)
                      (λ old there. tt)
              ]
      ]

  pub check_in_challenge-Effect :
      (now : ℕ) (nonce id actor : Text) (s : Api D C)
      → Effect sha256 is_datetime date_of rpc contract_id network store coding challenges s.bookings
          (check_in_challenge sha256 is_datetime date_of rpc contract_id network store coding
            challenges now nonce id actor s).1.bookings
  unfolding check_in_challenge
  check_in_challenge-Effect now nonce id actor s =
      let same =
        require_booking-bookings sha256 is_datetime date_of rpc contract_id network store coding
          challenges id s in
      quiet (ground (arith, same))
