-- ===== src/System/Agreement.antt =====
-- Overlapping requests to the API (apps/api/src/booking/booking.controller.ts) keep its bookings in
-- agreement with the contract (contracts/pov_deposit_escrow/src/lib.rs).
use po_vdeposit.Common.{ℕ, ◌≡◌, none, some, [], Text, Time, Bool}
use po_vdeposit.Booking.Types.{Booking}
use po_vdeposit.Booking.Store
use po_vdeposit.Booking.Requests.{view}
use po_vdeposit.Escrow.Defs.{Token, deployed}
use po_vdeposit.Escrow.Host
use po_vdeposit.Escrow.Log.{Reach-LoggedAt}
use po_vdeposit.CheckIn.Store as Codes
use po_vdeposit.Controller.{Api}
use po_vdeposit.System.Backing.{Corresponds, Backed-Corresponds}
use po_vdeposit.System.Flights
use po_vdeposit.System.Flights.{
  Paid, Flight, IsIn, Traffic, Move, Moves, id_of, hash_of, time_of, kind_of, request_of, written,
  found, verified, first, later, here, next,
}
use po_vdeposit.System.Consistency.{Moves-IsConsistent}

module _ (sha256 : Text → Text) (is_datetime : Text → Bool) (date_of : Text → Time)
    (contract_id : Text) (network : Text) {T D C : Type 0} (tok : Token T) (self : ℕ)
    (store : Store.Store D) (coding : Codes.Coding) (challenges : Codes.Store C) where
  abbrev Runs : Traffic T D C → Traffic T D C → Type 0
  Runs = Moves sha256 is_datetime date_of contract_id network tok self store coding challenges

  Moves-ledger :
      (s s' : Traffic T D C)
      → Runs s s'
      → Host.Reach tok self s.deployment.ledger s'.deployment.ledger
  Moves-ledger s s' here = Host.here
  Moves-ledger s s'' (next {s'} r (Flights.chain ledger step)) =
      Host.next (Moves-ledger s s' r) step
  Moves-ledger s s'' (next {s'} r (Flights.request rpc endpoint honest)) = Moves-ledger s s' r
  Moves-ledger s s'' (next {s'} r (Flights.look rpc p old api done)) = Moves-ledger s s' r
  Moves-ledger s s'' (next {s'} r (Flights.verify rpc p old v there honest done)) =
      Moves-ledger s s' r
  Moves-ledger s s'' (next {s'} r (Flights.write p v there)) = Moves-ledger s s' r

  -- Start with a fresh contract and no bookings in the API, and let invocations of the contract by
  -- anybody and requests to the API come in any order. Between the moment at which a request to
  -- fund, cancel or confirm has found its booking, the one at which its event is verified, and the
  -- one at which the service is asked, other requests and invocations may come; the RPC server may
  -- answer anything in which every event of the contract is one that it has published. Then each
  -- booking of the API awaits funding, or is funded, checked in, completed or refunded, and in the
  -- last four cases the contract holds a booking under the number that the API has for it. That one
  -- is no longer waiting for its deposit if the API says funded or checked in; it is released if
  -- the API says completed, and refunded if the API says refunded.
  pub Moves-Corresponds :
      (t : T) (s : Traffic T D C) (api : Api D C) (id : Text) (b : Booking)
      → ((i : Text) → view store api.bookings i ≡ none)
      → Runs (record { deployment = record { ledger = deployed t; api = api }; flights = [] }) s
      → view store s.deployment.api.bookings id ≡ some b
      → Corresponds b.state b.on_chain_booking_id s.deployment.ledger
  Moves-Corresponds t s api id b none_yet r there =
      let start : Traffic T D C = record {
        deployment = record { ledger = deployed t; api = api };
        flights = [];
      } in
      let h =
        Moves-IsConsistent sha256 is_datetime date_of contract_id network tok self store coding
          challenges start s r
          (record {
            explained = λ i. rw (none_yet i) tt;
            numbered = λ i. rw (none_yet i) tt;
            learnt = λ x i. elim i [ ];
          }) in
      Backed-Corresponds b.state b.on_chain_booking_id s.deployment.ledger
        (λ n. Reach-LoggedAt tok self t s.deployment.ledger n (Moves-ledger start s r))
        (rw there at (h.explained id))
