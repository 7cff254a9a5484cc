-- ===== src/System.antt =====
-- The deployed system: the escrow contract (contracts/pov_deposit_escrow/src/lib.rs) on its chain,
-- and the API (apps/api/src/booking/booking.controller.ts) with its bookings and check-in codes.
-- The RPC server that a request asks may answer anything, as long as each event that it reports for
-- the contract is one that the contract has published.
pub mod Growth
pub mod Evidence
pub mod Backing
pub mod Requests
pub mod Flights
pub mod Consistency
pub mod Agreement
use po_vdeposit.Common.{ℕ, ◌≡◌, true, List, [], ◌∷◌, Text, Time, Bool, codes}
use po_vdeposit.Escrow.Defs
use po_vdeposit.Escrow.Defs.{Ledger, Token}
use po_vdeposit.Escrow.Host
use po_vdeposit.Booking.Store
use po_vdeposit.Verifier.{
  Native, text, number, Rpc, Event, Kind, booking_funded, visit_confirmed, deposit_refunded,
}
use po_vdeposit.Verifier.Laws.{Member}
use po_vdeposit.CheckIn.Store as Codes
use po_vdeposit.Controller
use po_vdeposit.Controller.{Api, CreateBody}

-- The topics of each event: its name, and the field that is marked `#[topic]`.
abbrev pub topics_of : Defs.Event → List Native
topics_of (Defs.booking_created id renter host amount) =
    text (codes "booking_created") ∷ number id ∷ []
topics_of (Defs.booking_funded id amount) = text (codes "booking_funded") ∷ number id ∷ []
topics_of (Defs.deposit_refunded id amount) = text (codes "deposit_refunded") ∷ number id ∷ []
topics_of (Defs.visit_confirmed id amount) = text (codes "visit_confirmed") ∷ number id ∷ []

-- An event that the contract has published.
pub data IsPublished (x : Defs.Event) : List Defs.Event → Type 0 where
  latest : {xs : List Defs.Event} → IsPublished x (x ∷ xs)
  earlier : {y : Defs.Event} {xs : List Defs.Event} → IsPublished x xs → IsPublished x (y ∷ xs)

-- An RPC server that invents no event of the contract. It need not report them all.
pub record IsHonest (rpc : Rpc) (contract_id : Text) (published : List Defs.Event) : Type 0 where
  pub reports :
      (start_ledger end_ledger : ℕ) (e : Event)
      → Member e (rpc.get_events start_ledger end_ledger contract_id)
      → e.in_successful_contract_call ≡ true
      → (x : Defs.Event) × IsPublished x published × (e.topics ≡ topics_of x)

-- The endpoints that can write, with the values that the request, the clock and the generator of
-- ids bring.
pub data Endpoint : Type 0 where
  create : (now later : ℕ) (id : Text) (body : CreateBody) → Endpoint
  fund : (now : ℕ) (id transaction_hash : Text) → Endpoint
  cancel : (now : ℕ) (id actor transaction_hash : Text) → Endpoint
  check_in_challenge : (now : ℕ) (nonce id actor : Text) → Endpoint
  check_in : (now later tick last : ℕ) (id actor token : Text) → Endpoint
  confirm : (now : ℕ) (id actor transaction_hash : Text) → Endpoint

pub record Deployment (T D C : Type 0) : Type 0 where
  pub ledger : Ledger T
  pub api : Api D C

module _ (sha256 : Text → Text) (is_datetime : Text → Bool) (date_of : Text → Time)
    (contract_id : Text) (network : Text) {T D C : Type 0} (tok : Token T) (self : ℕ)
    (store : Store.Store D) (coding : Codes.Coding) (challenges : Codes.Store C) where
  -- The API's state after a request, whatever it answers.
  abbrev pub after : Rpc → Endpoint → Api D C → Api D C
  after rpc (create now later id body) s =
      (Controller.create sha256 is_datetime date_of rpc contract_id network store coding challenges
        now later id body s).1
  after rpc (fund now id hash) s =
      (Controller.fund sha256 is_datetime date_of rpc contract_id network store coding challenges
        now id hash s).1
  after rpc (cancel now id actor hash) s =
      (Controller.cancel sha256 is_datetime date_of rpc contract_id network store coding challenges
        now id actor hash s).1
  after rpc (check_in_challenge now nonce id actor) s =
      (Controller.check_in_challenge sha256 is_datetime date_of rpc contract_id network store coding
        challenges now nonce id actor s).1
  after rpc (check_in now later tick last id actor token) s =
      (Controller.check_in sha256 is_datetime date_of rpc contract_id network store coding
        challenges now later tick last id actor token s).1
  after rpc (confirm now id actor hash) s =
      (Controller.confirm sha256 is_datetime date_of rpc contract_id network store coding challenges
        now id actor hash s).1
