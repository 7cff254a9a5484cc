-- ===== src/System/Backing.antt =====
-- The event of the contract (contracts/pov_deposit_escrow/src/lib.rs) that each state of a booking in
-- the API (apps/api/src/booking/booking-workflow.service.ts) stands on.
use po_vdeposit.Common.{
  ℕ, ◌≡◌, ◌≢◌, ◌≤◌, sym, subst, Option, none, some, List, Bool, Text, arith, count,
}
use po_vdeposit.Booking.Types
use po_vdeposit.Booking.Types.{Booking, BookingState}
use po_vdeposit.Booking.Requests
use po_vdeposit.Booking.Requests.{Request, view, target, source_state, target_state, serve}
use po_vdeposit.Booking.Moves
use po_vdeposit.Booking.Moves.{Moved}
use po_vdeposit.Escrow.Defs
use po_vdeposit.Escrow.Defs.{Token, deployed, find_booking}
use po_vdeposit.Escrow.Log.{LoggedAt}
use po_vdeposit.Verifier.{Rpc, Kind, booking_funded, visit_confirmed, deposit_refunded}
use po_vdeposit.Controller.Effects.{IsBacked}
use po_vdeposit.System.{IsHonest, after}
use po_vdeposit.System.Growth.{HasEvent, is_kind, IsProven-HasEvent}
use po_vdeposit.System.Evidence.{Stands, HasEvent-Stands}

-- The event that each state of a booking in the API stands on. No other state is ever entered.
abbrev pub Backed : BookingState → Text → List Defs.Event → Type 0
Backed Types.pending_funding id events = Unit
Backed Types.funded id events = HasEvent booking_funded id events
Backed Types.checked_in id events = HasEvent booking_funded id events
Backed Types.completed id events = HasEvent visit_confirmed id events
Backed Types.refunded id events = HasEvent deposit_refunded id events
Backed _ id events = ⊥

abbrev pub Explained : Option Booking → List Defs.Event → Type 0
Explained none events = Unit
Explained (some b) events = Backed b.state b.on_chain_booking_id events

pub request-Backed :
    (rpc : Rpc) (contract_id : Text) (q : Request) (old : Booking) (events : List Defs.Event)
    → IsHonest rpc contract_id events
    → IsBacked rpc contract_id q old
    → Backed (source_state q) old.on_chain_booking_id events
    → Backed (target_state q) old.on_chain_booking_id events
request-Backed rpc contract_id (Requests.fund id hash v) old events honest proof h =
    IsProven-HasEvent rpc contract_id hash booking_funded old events honest proof
request-Backed rpc contract_id (Requests.check_in id actor proof) old events honest t h = h
request-Backed rpc contract_id (Requests.refund id actor hash v) old events honest proof h =
    IsProven-HasEvent rpc contract_id hash deposit_refunded old events honest proof
request-Backed rpc contract_id (Requests.confirm id actor hash) old events honest proof h =
    IsProven-HasEvent rpc contract_id hash visit_confirmed old events honest proof

pub Moved-Explained :
    (q : Request) (id : Text) (before after : Option Booking) (events : List Defs.Event)
    → ((old : Booking)
        → before ≡ some old
        → id ≡ target q
        → Backed (source_state q) old.on_chain_booking_id events
        → Backed (target_state q) old.on_chain_booking_id events)
    → Moved q id before after
    → Explained before events
    → Explained after events
Moved-Explained q id before after events backs (Moves.stay same) h = rw same h
Moved-Explained q id before after events backs
      (Moves.move old b named was now from to may input kept) h =
    rw now (
      subst (λ c. Backed b.state c events) (sym kept)
        (subst (λ x. Backed x old.on_chain_booking_id events) (sym to)
          (backs old was named
            (subst (λ x. Backed x old.on_chain_booking_id events) from (rw was at h)))))

pub HasEvent-grows :
    (kind : Kind) (id : Text) (events events' : List Defs.Event)
    → ((p : Defs.Event → Bool) → count p events ≤ count p events')
    → HasEvent kind id events
    → HasEvent kind id events'
HasEvent-grows kind id events events' grows h = record {
  number = h.number;
  reads = h.reads;
  counted = omega (arith, h.counted, grows (is_kind kind h.number));
}

Backed-grows :
    (st : BookingState) (id : Text) (events events' : List Defs.Event)
    → ((p : Defs.Event → Bool) → count p events ≤ count p events')
    → Backed st id events
    → Backed st id events'
Backed-grows Types.funded id events events' grows h = HasEvent-grows _ id events events' grows h
Backed-grows Types.checked_in id events events' grows h = HasEvent-grows _ id events events' grows h
Backed-grows Types.completed id events events' grows h = HasEvent-grows _ id events events' grows h
Backed-grows Types.refunded id events events' grows h = HasEvent-grows _ id events events' grows h
Backed-grows _ id events events' grows h = h

pub Explained-grows :
    (o : Option Booking) (events events' : List Defs.Event)
    → ((p : Defs.Event → Bool) → count p events ≤ count p events')
    → Explained o events
    → Explained o events'
Explained-grows none events events' grows h = h
Explained-grows (some b) events events' grows h =
    Backed-grows b.state b.on_chain_booking_id events events' grows h

-- The number among those of funding, refund and confirmation events, and what an event of the kind
-- says of the state.
abbrev of_kind : Kind → ℕ → ℕ → ℕ → ℕ
of_kind booking_funded f r c = f
of_kind deposit_refunded f r c = r
of_kind visit_confirmed f r c = c

abbrev pub Shows : Kind → Defs.BookingState → Type 0
Shows booking_funded st = st ≢ Defs.created
Shows deposit_refunded st = st ≡ Defs.refunded
Shows visit_confirmed st = st ≡ Defs.released

-- How a booking in the API stands to the contract.
abbrev pub Corresponds : {T : Type 0} → BookingState → Text → Defs.Ledger T → Type 0
Corresponds Types.pending_funding id ledger = Unit
Corresponds Types.funded id ledger = Stands booking_funded id ledger
Corresponds Types.checked_in id ledger = Stands booking_funded id ledger
Corresponds Types.completed id ledger = Stands visit_confirmed id ledger
Corresponds Types.refunded id ledger = Stands deposit_refunded id ledger
Corresponds _ id ledger = ⊥

pub Backed-Corresponds :
    {T : Type 0} (st : BookingState) (id : Text) (ledger : Defs.Ledger T)
    → ((n : ℕ) → LoggedAt n ledger)
    → Backed st id ledger.events
    → Corresponds st id ledger
Backed-Corresponds Types.funded id ledger logged h = HasEvent-Stands _ id ledger logged h
Backed-Corresponds Types.checked_in id ledger logged h = HasEvent-Stands _ id ledger logged h
Backed-Corresponds Types.completed id ledger logged h = HasEvent-Stands _ id ledger logged h
Backed-Corresponds Types.refunded id ledger logged h = HasEvent-Stands _ id ledger logged h
Backed-Corresponds _ id ledger logged h = h
