-- ===== src/Escrow/Effects.antt =====
-- What one invocation of `VisitDepositEscrow` (contracts/pov_deposit_escrow/src/lib.rs) can do to
-- the ledger, case by case: the seven outcomes, and that there is no other.
pub mod Cases
use po_vdeposit.Common.{
  ℕ, ◌≤◌, ◌<◌, ◌≡◌, ◌≢◌, true, none, some, ◌∷◌, ◌==◌, if◌then◌else◌, arith, ℕ_discrete,
}
use po_vdeposit.Common.Int.{ℤ, pos}
use po_vdeposit.Common.Dict.{insert, lookup-insert}
use po_vdeposit.Escrow.Defs
use po_vdeposit.Escrow.Defs.{
  Address, Booking, Ledger, Token, Env, find_booking, min_deposit, max_deposit,
}

-- The ledger after an entry has been written and an event published.
abbrev pub written : {T : Type 0} → Booking → Defs.Event → Ledger T → Ledger T
written b e s = record s {
  bookings = insert ℕ_discrete b.booking_id b s.bookings;
  events = e ∷ s.events;
}

pub find_booking-written :
    {T : Type 0} (id : ℕ) (b : Booking) (e : Defs.Event) (s : Ledger T)
    → find_booking id (written b e s) ≡ (if id == b.booking_id then some b else find_booking id s)
find_booking-written id b e s =
    ground (arith, lookup-insert ℕ_discrete id b.booking_id b s.bookings)

-- The entry that `create_booking` writes.
abbrev pub new_booking : ℕ → Address → Address → ℤ → ℕ → Booking
new_booking id renter host amount visit_time = record {
  booking_id = id;
  renter = renter;
  host = host;
  deposit_amount = amount;
  visit_time = visit_time;
  state = Defs.created;
}

abbrev pub with_state : Defs.BookingState → Booking → Booking
with_state st b = record b { state = st }

module _ {T : Type 0} (tok : Token T) (env : Env) (s : Ledger T) where
  pub data Effect (s' : Ledger T) : Type 0 where
    kept : s' ≡ s → Effect s'
    initialized : (a : Address) → s.asset ≡ none → s' ≡ record s { asset = some a } → Effect s'
    created :
        (a : Address) (id : ℕ) (renter host : Address) (n visit_time : ℕ)
        → s.asset ≡ some a
        → find_booking id s ≡ none
        → renter ≢ host
        → min_deposit ≤ n
        → n ≤ max_deposit
        → env.timestamp < visit_time
        → env.signed renter ≡ true
        → s'
          ≡ written
              (new_booking id renter host (pos n) visit_time)
              (Defs.booking_created id renter host (pos n))
              s
        → Effect s'
    funded :
        (a : Address) (id : ℕ) (b : Booking) (t : T)
        → s.asset ≡ some a
        → find_booking id s ≡ some b
        → b.state ≡ Defs.created
        → env.signed b.renter ≡ true
        → tok.transfer a b.renter env.self b.deposit_amount s.token ≡ some t
        → s'
          ≡ written
              (with_state Defs.funded b)
              (Defs.booking_funded id b.deposit_amount)
              (record s { token = t })
        → Effect s'
    withdrawn :
        (id : ℕ) (b : Booking)
        → find_booking id s ≡ some b
        → b.state ≡ Defs.created
        → env.timestamp < b.visit_time
        → env.signed b.renter ≡ true
        → s' ≡ written (with_state Defs.refunded b) (Defs.deposit_refunded id b.deposit_amount) s
        → Effect s'
    cancelled :
        (a : Address) (id : ℕ) (b : Booking) (t : T)
        → s.asset ≡ some a
        → find_booking id s ≡ some b
        → b.state ≡ Defs.funded
        → env.timestamp < b.visit_time
        → env.signed b.renter ≡ true
        → tok.transfer a env.self b.renter b.deposit_amount s.token ≡ some t
        → s'
          ≡ written
              (with_state Defs.refunded b)
              (Defs.deposit_refunded id b.deposit_amount)
              (record s { token = t })
        → Effect s'
    confirmed :
        (a : Address) (id : ℕ) (b : Booking) (t : T)
        → s.asset ≡ some a
        → find_booking id s ≡ some b
        → b.state ≡ Defs.funded
        → b.visit_time ≤ env.timestamp
        → env.signed b.host ≡ true
        → tok.transfer a env.self b.renter b.deposit_amount s.token ≡ some t
        → s'
          ≡ written
              (with_state Defs.released b)
              (Defs.visit_confirmed id b.deposit_amount)
              (record s { token = t })
        → Effect s'
