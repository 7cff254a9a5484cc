-- ===== src/System/Evidence.antt =====
-- What an event in the log of the escrow contract (contracts/pov_deposit_escrow/src/lib.rs) says of
-- the booking that it names.
use po_vdeposit.Common.{
  ℕ, ◌≡◌, ◌≢◌, ◌≤◌, refl, inl, inr, none, some, List, Text, arith, count, Option-cases,
}
use po_vdeposit.Common.Numerals.{decimal}
use po_vdeposit.Escrow.Defs
use po_vdeposit.Escrow.Defs.{find_booking}
use po_vdeposit.Escrow.Log.{is_funding, is_refund, is_confirmation, Counts, Explains, LoggedAt}
use po_vdeposit.Verifier.{Kind, booking_funded, visit_confirmed, deposit_refunded}
use po_vdeposit.System.Growth.{HasEvent, is_kind}

-- The number among those of funding, refund and confirmation events, and what an event of the kind
-- says of the state.
abbrev of_kind : Kind → ℕ → ℕ → ℕ → ℕ
of_kind booking_funded f r c = f
of_kind deposit_refunded f r c = r
of_kind visit_confirmed f r c = c

abbrev Shows : Kind → Defs.BookingState → Type 0
Shows booking_funded st = st ≢ Defs.created
Shows deposit_refunded st = st ≡ Defs.refunded
Shows visit_confirmed st = st ≡ Defs.released

Counts-Shows :
    (kind : Kind) (st : Defs.BookingState) (f r c : ℕ)
    → Counts st f r c
    → 1 ≤ of_kind kind f r c
    → Shows kind st
Counts-Shows booking_funded Defs.created f r c h k = absurd (omega (arith, h, k))
Counts-Shows booking_funded Defs.funded f r c h k = λ e. cc
Counts-Shows booking_funded Defs.refunded f r c h k = λ e. cc
Counts-Shows booking_funded Defs.released f r c h k = λ e. cc
Counts-Shows visit_confirmed Defs.released f r c h k = refl
Counts-Shows visit_confirmed _ f r c h k = absurd (omega (arith, h, k))
Counts-Shows deposit_refunded Defs.refunded f r c h k = refl
Counts-Shows deposit_refunded _ f r c h k = absurd (omega (arith, h, k))

of_kind-count :
    (kind : Kind) (n : ℕ) (events : List Defs.Event)
    → of_kind kind
        (count (is_funding n) events)
        (count (is_refund n) events)
        (count (is_confirmation n) events)
      ≡ count (is_kind kind n) events
of_kind-count booking_funded n events = refl
of_kind-count visit_confirmed n events = refl
of_kind-count deposit_refunded n events = refl

of_kind-absent : (kind : Kind) (f r c : ℕ) → Explains none f r c → 1 ≤ of_kind kind f r c → ⊥
of_kind-absent booking_funded f r c h k = omega (arith, h, k)
of_kind-absent visit_confirmed f r c h k = omega (arith, h, k)
of_kind-absent deposit_refunded f r c h k = omega (arith, h, k)

-- The contract holds a booking under the number that reads as `id`, in a state that an event of the
-- kind shows.
pub record Stands (kind : Kind) (id : Text) {T : Type 0} (ledger : Defs.Ledger T) : Type 0 where
  pub number : ℕ
  pub booking : Defs.Booking
  pub reads : decimal number ≡ id
  pub found : find_booking number ledger ≡ some booking
  pub shows : Shows kind booking.state

pub HasEvent-Stands :
    {T : Type 0} (kind : Kind) (id : Text) (ledger : Defs.Ledger T)
    → ((n : ℕ) → LoggedAt n ledger)
    → HasEvent kind id ledger.events
    → Stands kind id ledger
HasEvent-Stands kind id ledger logged h =
    let n = h.number in
    let f = count (is_funding n) ledger.events in
    let r = count (is_refund n) ledger.events in
    let x = count (is_confirmation n) ledger.events in
    let log : Explains (find_booking n ledger) f r x = logged n in
    let some_event : 1 ≤ of_kind kind f r x = rw (of_kind-count kind n ledger.events) h.counted in
    elim (Option-cases (find_booking n ledger)) [
      | inl absent ↦ absurd (of_kind-absent kind f r x (rw absent at log) some_event)
      | inr (c, found) ↦ record {
        number = n;
        booking = c;
        reads = h.reads;
        found = found;
        shows = Counts-Shows kind c.state f r x (rw found at log) some_event;
      }
    ]
