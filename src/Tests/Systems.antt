-- ===== src/Tests/Systems.antt =====
-- The whole system at work: the contract's booking 5 of the escrow runs here, with an API that keeps
-- its bookings in a `Map` (apps/api/src/booking/booking.controller.ts). The booking is funded in the
-- contract while the request that reports it is under way.
use po_vdeposit.Common.{
  ℕ, ◌≡◌, refl, Bool, true, false, ◌&&◌, Option, none, some, [], ◌∷◌, Text, codes, Time, List,
  Result, ok, err,
}
use po_vdeposit.Common.Int.{pos}
use po_vdeposit.Booking.Types
use po_vdeposit.Booking.Types.{Booking, Verification}
use po_vdeposit.Booking.Backend
use po_vdeposit.Booking.Workflow
use po_vdeposit.Booking.Requests.{view}
use po_vdeposit.Escrow.Defs
use po_vdeposit.Escrow.Defs.{Ledger, deployed}
use po_vdeposit.Escrow.Host
use po_vdeposit.Verifier
use po_vdeposit.Verifier.{Rpc}
use po_vdeposit.Verifier.Laws.{Member, head, tail}
use po_vdeposit.CheckIn.Service
use po_vdeposit.Controller
use po_vdeposit.Controller.{Api, CreateBody}
use po_vdeposit.System
use po_vdeposit.System.{IsHonest, IsPublished, topics_of, after}
use po_vdeposit.System.Flights
use po_vdeposit.System.Flights.{Paid, Flight, Traffic, Moves, found, verified, written, here, next}
use po_vdeposit.System.Backing.{Corresponds}
use po_vdeposit.System.Agreement.{Moves-Corresponds}
use po_vdeposit.Tests.Escrow.{Balances, tok, start, s1, s2, s3, at}
use po_vdeposit.Tests.Tables.{Rows, tables}
use po_vdeposit.Tests.Codes.{Entries, coding, store}

abbrev hash : Text
hash = codes "0123456789abcdef0123456789abcdef0123456789abcdef0123456789abcdef"

abbrev sha : Text → Text
sha t = hash

abbrev dated : Text → Bool
dated t = true

abbrev date : Text → Time
date t = some 1000

abbrev rpc : Rpc
rpc = record {
  get_transaction = λ h. record { status = Verifier.success; ledger = 40; created_at = 1700000000 };
  get_events = λ a b contract.
      record {
        in_successful_contract_call = true;
        tx_hash = hash;
        topics = topics_of (Defs.booking_funded 5 (pos 300000));
      }
      ∷ [];
}

rpc-IsHonest : IsHonest rpc (codes "CC") s3.events
unfolding Host.invoke Defs.confirm_visit Defs.fund_booking Defs.create_booking Defs.initialize
    po_vdeposit.Common.ℕ_discrete po_vdeposit.Common.Numerals.value_from
    po_vdeposit.Common.Numerals.hex_value
rpc-IsHonest = record { reports = λ a b e there called. only a b e there }
  where
    only :
        (a b : ℕ) (e : Verifier.Event)
        → Member e (rpc.get_events a b (codes "CC"))
        → (x : Defs.Event) × IsPublished x s3.events × (e.topics ≡ topics_of x)
    only a b e head = (Defs.booking_funded 5 (pos 300000), System.latest, refl)
    only a b e (tail there) = elim there [ ]

abbrev body : CreateBody
body = record {
  listing_id = codes "loft";
  renter = codes "GALICE";
  host = codes "GBOB";
  deposit_amount = codes "300000";
  visit_time = codes "soon";
  evidence_hash = hash;
}

abbrev fresh_api : Api Rows Entries
fresh_api = record { bookings = Backend.memory []; challenges = Service.memory [] }

-- A server that has seen nothing yet.
abbrev silent : Rpc
silent = record rpc { get_events = λ a b contract. [] }

silent-IsHonest : (events : List Defs.Event) → IsHonest silent (codes "CC") events
silent-IsHonest events = record { reports = λ a b e there called. elim there [ ] }

abbrev create5 : System.Endpoint
create5 = System.create 10 11 (codes "5") body

abbrev fund5 : Paid
fund5 = Flights.fund 12 (codes "5") hash

abbrev created_api : Api Rows Entries
created_api =
    after sha dated date (codes "CC") (codes "PUBLIC") tok 7 (tables true) coding store silent
      create5 fresh_api

abbrev funded_api : Verification → Api Rows Entries
funded_api v =
    written sha dated date (codes "CC") (codes "PUBLIC") tok 7 (tables true) coding store fund5 v
      created_api

abbrev traffic : Ledger Balances → Api Rows Entries → List Flight → Traffic Balances Rows Entries
traffic ledger api flights = record {
  deployment = record { ledger = ledger; api = api };
  flights = flights;
}

abbrev Runs : Traffic Balances Rows Entries → Type 0
Runs =
    Moves sha dated date (codes "CC") (codes "PUBLIC") tok 7 (tables true) coding store
      (traffic (deployed start) fresh_api [])

abbrev got : Option Booking → Booking
got (some b) = b
got none = Backend.fresh 0 [] (
    Controller.input_of sha dated date rpc (codes "CC") (codes "PUBLIC") (tables true) coding store
      body)

abbrev pending : Booking
pending = got (view (tables true) created_api.bookings (codes "5"))

abbrev seen : Verification
seen = record { ledger = 40; confirmed_at = 1700000000000 }

abbrev flight1 : List Flight
flight1 = found fund5 pending ∷ []

abbrev final : Traffic Balances Rows Entries
final = traffic s3 (funded_api seen) (verified fund5 seen ∷ flight1)

created-Runs : Runs (traffic s2 created_api [])
created-Runs =
    next
      (next (next here (Flights.chain s1 (Host.call (at 10) (Host.initialize 1 1) refl refl))) (
        Flights.chain s2
          (Host.call (at 10) (Host.create_booking 5 2 3 (pos 300000) 100) refl refl)))
      (Flights.request silent create5 (silent-IsHonest s2.events))

looked :
    Controller.require_booking sha dated date silent
      (codes "CC")
      (codes "PUBLIC")
      (tables true)
      coding
      store
      (codes "5")
      created_api
    ≡ (ok pending, created_api)
unfolding Controller.create Controller.fund Controller.require_booking Verifier.verify_event
    Verifier.verify_funding po_vdeposit.Common.Numerals.decimal Workflow.create Workflow.fund
    Workflow.create_memory Backend.get Backend.get_memory Backend.assert_hash Backend.update
    Backend.on_chain_id Types.BookingState-discrete po_vdeposit.Common.Text-discrete
    po_vdeposit.Common.ℕ_discrete po_vdeposit.Common.Numerals.value_from
    po_vdeposit.Common.Numerals.hex_value
looked = refl

event-verified :
    Verifier.verify_event rpc (codes "CC") hash pending.on_chain_booking_id Verifier.booking_funded
    ≡ ok (record { ledger = 40; confirmed_at = 1700000000000 })
unfolding Controller.create Controller.fund Controller.require_booking Verifier.verify_event
    Verifier.verify_funding po_vdeposit.Common.Numerals.decimal Workflow.create Workflow.fund
    Workflow.create_memory Backend.get Backend.get_memory Backend.assert_hash Backend.update
    Backend.on_chain_id Types.BookingState-discrete po_vdeposit.Common.Text-discrete
    po_vdeposit.Common.ℕ_discrete po_vdeposit.Common.Numerals.value_from
    po_vdeposit.Common.Numerals.hex_value
event-verified = refl

final-Runs : Runs final
final-Runs =
    next
      (next
        (next (next created-Runs (Flights.look silent fund5 pending created_api looked))
          (Flights.chain s3 (Host.call (at 20) (Host.fund_booking 2 5) refl refl)))
        (Flights.verify rpc fund5 pending (record { ledger = 40; confirmed_at = 1700000000000 })
          Flights.first rpc-IsHonest event-verified))
      (Flights.write fund5 seen Flights.first)

abbrev shown : Booking
shown = got (view (tables true) (funded_api seen).bookings (codes "5"))

final-shown : view (tables true) (funded_api seen).bookings (codes "5") ≡ some shown
unfolding Controller.create Controller.fund Controller.require_booking Verifier.verify_event
    Verifier.verify_funding po_vdeposit.Common.Numerals.decimal Workflow.create Workflow.fund
    Workflow.create_memory Backend.get Backend.get_memory Backend.assert_hash Backend.update
    Backend.on_chain_id Types.BookingState-discrete po_vdeposit.Common.Text-discrete
    po_vdeposit.Common.ℕ_discrete po_vdeposit.Common.Numerals.value_from
    po_vdeposit.Common.Numerals.hex_value
final-shown = refl

shown-state : shown.state ≡ Types.funded
unfolding Controller.create Controller.fund Controller.require_booking Verifier.verify_event
    Verifier.verify_funding po_vdeposit.Common.Numerals.decimal Workflow.create Workflow.fund
    Workflow.create_memory Backend.get Backend.get_memory Backend.assert_hash Backend.update
    Backend.on_chain_id Types.BookingState-discrete po_vdeposit.Common.Text-discrete
    po_vdeposit.Common.ℕ_discrete po_vdeposit.Common.Numerals.value_from
    po_vdeposit.Common.Numerals.hex_value
shown-state = refl

Moves-Corresponds_example : Corresponds shown.state shown.on_chain_booking_id s3
Moves-Corresponds_example =
    Moves-Corresponds sha dated date (codes "CC") (codes "PUBLIC") tok 7 (tables true) coding store
      start final fresh_api (codes "5") shown (λ i. refl) final-Runs final-shown
