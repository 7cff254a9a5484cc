-- ===== src/Controller/Laws.antt =====
-- What a successful answer of apps/api/src/booking/booking.controller.ts stands for.
use po_vdeposit.Common.{
  ℕ, ◌≡◌, inl, inr, refl, sym, subst, Bool, ◌&&◌, some, Text, Time, ok, err, Result, arith,
  Bool-cases, is_hash,
}
use po_vdeposit.Booking.Types.{Booking, Verification}
use po_vdeposit.Booking.Store
use po_vdeposit.Booking.Requests
use po_vdeposit.Booking.Requests.{Request, Advances, serve, view, target}
use po_vdeposit.Booking.Service.{serve-Advances}
use po_vdeposit.Verifier
use po_vdeposit.Verifier.{
  Rpc, Event, Kind, Verified, verify_event, verify_funding, verify_refund, verify_settlement,
}
use po_vdeposit.CheckIn.Store as Codes
use po_vdeposit.CheckIn.Service
use po_vdeposit.CheckIn.Laws.{IsChecked, consume-IsChecked}
use po_vdeposit.Controller.{Api, on_bookings, or_internal, fund, cancel, check_in, confirm, sized}
use po_vdeposit.Controller.Found.{
  IsProven, find_and_verify-ok, advanced, on_bookings-ok, on_bookings-challenges,
}
use po_vdeposit.CheckIn.SingleUse.{IsConsumed, consume-IsConsumed}

module _ (sha256 : Text → Text) (is_datetime : Text → Bool) (date_of : Text → Time) (rpc : Rpc)
    (contract_id : Text) (network : Text) {D C : Type 0} (store : Store.Store D)
    (coding : Codes.Coding) (challenges : Codes.Store C) where
  -- A funding that is answered with success is one that the service made, of the booking as it was
  -- found; and in the named transaction the contract published the funding of this very booking.
  pub fund-ok :
      (now : ℕ) (id hash : Text) (s s' : Api D C) (b : Booking)
      → fund sha256 is_datetime date_of rpc contract_id network store coding challenges now id hash
          s
        ≡ (ok b, s')
      → (old : Booking) × (v : Verification) × Advances store
          (Requests.fund id hash (some v))
          s.bookings
          s'.bookings
          b
          old
        × IsProven rpc contract_id hash Verifier.booking_funded old
  unfolding fund verify_funding
  fund-ok now id hash s s' b e = elim (Bool-cases (is_hash hash)) [
    | inr bad ↦ ground arith
    | inl good ↦
        let (old, v, there, proof, done) =
          find_and_verify-ok sha256 is_datetime date_of rpc contract_id network store coding
            challenges id hash Verifier.booking_funded
            (λ booking v.
              or_internal (on_bookings (serve store now (Requests.fund id hash (some v)))))
            s s' b (rw good at e) in
        (
          old,
          v,
          advanced sha256 is_datetime date_of rpc contract_id network store coding challenges now
              (Requests.fund id hash (some v)) s s' b old there done,
          proof,
        )
  ]

  -- A cancellation that is answered with success is a refund that the service made, asked for by the
  -- renter of the booking as it was found; and in the named transaction the contract published the
  -- refund of this very booking.
  pub cancel-ok :
      (now : ℕ) (id actor hash : Text) (s s' : Api D C) (b : Booking)
      → cancel sha256 is_datetime date_of rpc contract_id network store coding challenges now id
          actor hash s
        ≡ (ok b, s')
      → (old : Booking) × (v : Verification) × Advances store
          (Requests.refund id actor hash (some v))
          s.bookings
          s'.bookings
          b
          old
        × IsProven rpc contract_id hash Verifier.deposit_refunded old
  unfolding cancel verify_refund
  cancel-ok now id actor hash s s' b e = elim (Bool-cases (sized 100 actor && is_hash hash)) [
    | inr bad ↦ ground arith
    | inl good ↦
        let (old, v, there, proof, done) =
          find_and_verify-ok sha256 is_datetime date_of rpc contract_id network store coding
            challenges id hash Verifier.deposit_refunded
            (λ booking v.
              or_internal (on_bookings (serve store now (Requests.refund id actor hash (some v)))))
            s s' b (rw good at e) in
        (
          old,
          v,
          advanced sha256 is_datetime date_of rpc contract_id network store coding challenges now
              (Requests.refund id actor hash (some v)) s s' b old there done,
          proof,
        )
  ]

  -- A confirmation that is answered with success is one that the service made, asked for by the host
  -- of the booking as it was found; and in the named transaction the contract published that the
  -- visit of this very booking was confirmed.
  pub confirm-ok :
      (now : ℕ) (id actor hash : Text) (s s' : Api D C) (b : Booking)
      → confirm sha256 is_datetime date_of rpc contract_id network store coding challenges now id
          actor hash s
        ≡ (ok b, s')
      → (old : Booking) × (v : Verification) × Advances store
          (Requests.confirm id actor hash)
          s.bookings
          s'.bookings
          b
          old
        × IsProven rpc contract_id hash Verifier.visit_confirmed old
  unfolding confirm verify_settlement
  confirm-ok now id actor hash s s' b e = elim (Bool-cases (sized 100 actor && is_hash hash)) [
    | inr bad ↦ ground arith
    | inl good ↦
        let (old, v, there, proof, done) =
          find_and_verify-ok sha256 is_datetime date_of rpc contract_id network store coding
            challenges id hash Verifier.visit_confirmed
            (λ booking v.
              or_internal (on_bookings (serve store now (Requests.confirm id actor hash))))
            s s' b (rw good at e) in
        (
          old,
          v,
          advanced sha256 is_datetime date_of rpc contract_id network store coding challenges now
              (Requests.confirm id actor hash) s s' b old there done,
          proof,
        )
  ]

  -- A check-in that is answered with success was asked for with a signed code for this booking and
  -- this actor that had not expired, and the code is used up: without a database its token is now one
  -- of the used tokens and was not before, and over the database the challenge of its nonce, for this
  -- booking and not expired, was open and is marked as consumed. The actor is the renter of the
  -- booking, which was funded, is checked in, and shows the hash of the code's nonce as its proof.
  pub check_in-ok :
      (now later tick last : ℕ) (id actor token : Text) (s s' : Api D C) (b : Booking)
      → check_in sha256 is_datetime date_of rpc contract_id network store coding challenges now
          later tick last id actor token s
        ≡ (ok b, s')
      → (p : Codes.Payload) × (old : Booking) × IsChecked coding challenges now token id actor p
        × IsConsumed coding challenges later tick token id p s.challenges s'.challenges
        × Advances store (Requests.check_in id actor (sha256 p.nonce)) s.bookings s'.bookings b old
  unfolding check_in
  check_in-ok now later tick last id actor token s s' b e =
      go (Service.consume coding challenges now later tick token id actor s.challenges) refl
    where
      go :
          (out : Result Codes.Error Codes.Payload × Service.Backend C)
          → Service.consume coding challenges now later tick token id actor s.challenges ≡ out
          → (p : Codes.Payload) × (old : Booking) × IsChecked coding challenges now token id actor p
            × IsConsumed coding challenges later tick token id p s.challenges s'.challenges
            × Advances store
                (Requests.check_in id actor (sha256 p.nonce))
                s.bookings
                s'.bookings
                b
                old
      go (err x, c) done = ground arith
      go (ok p, c) done =
          let s1 = record s { challenges = c } in
          let q = Requests.check_in id actor (sha256 p.nonce) in
          let rest : or_internal (on_bookings (serve store last q)) s1 ≡ (ok b, s') =
            elim (Bool-cases (sized 100 actor && sized 2048 token)) [
              | inr bad ↦ ground arith
              | inl good ↦ ground arith
            ] in
          let kept =
            on_bookings-challenges sha256 is_datetime date_of rpc contract_id network store coding
              challenges (serve store last q) s1 s' b rest in
          let (old, proof) = serve-Advances store last q s.bookings s'.bookings b (
            on_bookings-ok sha256 is_datetime date_of rpc contract_id network store coding
              challenges (serve store last q) s1 s' b rest) in
          (
            p,
            old,
            consume-IsChecked coding challenges now later tick token id actor s.challenges c p done,
            subst (IsConsumed coding challenges later tick token id p s.challenges) (sym kept) (
                consume-IsConsumed coding challenges now later tick token id actor s.challenges c p
                  done),
            proof,
          )
