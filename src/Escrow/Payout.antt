-- ===== src/Escrow/Payout.antt =====
-- Where the money goes in `VisitDepositEscrow` (contracts/pov_deposit_escrow/src/lib.rs): every
-- deposit stays its renter's, and at any time one of the two parties can settle.
use po_vdeposit.Common.{ℕ, ◌+◌, ◌≤◌, ◌<◌, ◌≡◌, ◌≢◌, true, some, ok, err, arith}
use po_vdeposit.Common.Int.{pos}
use po_vdeposit.Escrow.Defs
use po_vdeposit.Escrow.Defs.{Booking, Ledger, Token, Env, find_booking}
use po_vdeposit.Escrow.Host.{Request, cancel_booking, confirm_visit, run, invoke}
use po_vdeposit.Escrow.Books.{
  IsEntry, held, owed, lookup-IsEntry, held-insert, held-insert_new, owed-insert, owed-insert_new,
}
use po_vdeposit.Escrow.Effects
use po_vdeposit.Escrow.Effects.{with_state, new_booking, Effect}
use po_vdeposit.Escrow.Effects.Cases.{invoke-Effect}
use po_vdeposit.Escrow.Soundness.{IsSound, transfer_moves}

module _ {T : Type 0} (tok : Token T) where
  -- No call gains or loses on the contract's account, beside what it then owes.
  abbrev pub Exact : ℕ → ℕ → Ledger T → Ledger T → Type 0
  Exact self a s s' =
      tok.balance s'.token a self + held s.bookings ≡ tok.balance s.token a self + held s'.bookings

  -- What a holder has and what the contract owes to that holder are together the same.
  abbrev pub Conserved : ℕ → ℕ → Ledger T → Ledger T → Type 0
  Conserved holder a s s' =
      tok.balance s'.token a holder + owed holder s'.bookings
      ≡ tok.balance s.token a holder + owed holder s.bookings

  abbrev pub Fair : ℕ → ℕ → ℕ → Ledger T → Ledger T → Type 0
  Fair self holder a s s' = Exact self a s s' × Conserved holder a s s'

  Effect-Fair :
      (env : Env) (s s' : Ledger T) (a holder : ℕ)
      → IsSound tok env.self s
      → s.asset ≡ some a
      → holder ≢ env.self
      → Effect tok env s s'
      → Fair env.self holder a s s'
  Effect-Fair env s s' a holder h set ne (Effects.kept e) = ground arith
  Effect-Fair env s s' a holder h set ne (Effects.initialized a' fresh e) = ground arith
  Effect-Fair env s s' a holder h set ne
        (Effects.created a' id renter host n v set' free ne' lo hi later signed e) =
      let new : Booking = new_booking id renter host (pos n) v in
      ground (
        arith,
        held-insert_new id new s.bookings free,
        owed-insert_new holder id new s.bookings free,
      )
  Effect-Fair env s s' a holder h set ne (Effects.funded a' id b t set' found st signed paid e) =
      let entry : IsEntry env.self id b = lookup-IsEntry env.self id b s.bookings h.entries found in
      let same : a' ≡ a = cc in
      let moves =
        transfer_moves tok a' b.renter env.self _ b.deposit_amount s.token t entry.amount paid in
      let b' : Booking = with_state Defs.funded b in
      ground (
        arith,
        moves env.self,
        moves holder,
        held-insert b.booking_id b' b s.bookings,
        owed-insert holder b.booking_id b' b s.bookings,
      )
  Effect-Fair env s s' a holder h set ne (Effects.withdrawn id b found st early signed e) =
      let entry : IsEntry env.self id b = lookup-IsEntry env.self id b s.bookings h.entries found in
      let b' : Booking = with_state Defs.refunded b in
      ground (
        arith,
        held-insert b.booking_id b' b s.bookings,
        owed-insert holder b.booking_id b' b s.bookings,
      )
  Effect-Fair env s s' a holder h set ne
        (Effects.cancelled a' id b t set' found st early signed paid e) =
      let entry : IsEntry env.self id b = lookup-IsEntry env.self id b s.bookings h.entries found in
      let same : a' ≡ a = cc in
      let moves =
        transfer_moves tok a' env.self b.renter _ b.deposit_amount s.token t entry.amount paid in
      let b' : Booking = with_state Defs.refunded b in
      ground (
        arith,
        moves env.self,
        moves holder,
        held-insert b.booking_id b' b s.bookings,
        owed-insert holder b.booking_id b' b s.bookings,
      )
  Effect-Fair env s s' a holder h set ne
        (Effects.confirmed a' id b t set' found st late signed paid e) =
      let entry : IsEntry env.self id b = lookup-IsEntry env.self id b s.bookings h.entries found in
      let same : a' ≡ a = cc in
      let moves =
        transfer_moves tok a' env.self b.renter _ b.deposit_amount s.token t entry.amount paid in
      let b' : Booking = with_state Defs.released b in
      ground (
        arith,
        moves env.self,
        moves holder,
        held-insert b.booking_id b' b s.bookings,
        owed-insert holder b.booking_id b' b s.bookings,
      )

  -- Whatever is called in a sound ledger, by whomever: the contract's balance changes by exactly
  -- what it owes more or less, and for every other holder the balance together with what the
  -- contract owes to that holder stays the same.
  pub invoke-Fair :
      (env : Env) (request : Request) (s : Ledger T) (a holder : ℕ)
      → IsSound tok env.self s
      → s.asset ≡ some a
      → holder ≢ env.self
      → Fair env.self holder a s (invoke tok env request s)
  invoke-Fair env request s a holder h set ne =
      Effect-Fair env s (invoke tok env request s) a holder h set ne
        (invoke-Effect tok env s request)

  -- A funded booking can be settled at any time, in exactly one way. With both parties' signatures
  -- and a token that accepts the payment to the renter: before the visit the renter's
  -- cancellation succeeds and the host's confirmation is refused, and from the visit time on it is
  -- the other way round.
  pub one_way_out :
      (env : Env) (s : Ledger T) (id : ℕ) (b : Booking) (a : ℕ) (t : T)
      → find_booking id s ≡ some b
      → b.state ≡ Defs.funded
      → s.asset ≡ some a
      → env.signed b.renter ≡ true
      → env.signed b.host ≡ true
      → tok.transfer a env.self b.renter b.deposit_amount s.token ≡ some t
      → let cancel = (run tok env (cancel_booking b.renter id) s).0 in
        let confirm = (run tok env (confirm_visit b.host id) s).0 in
        (env.timestamp < b.visit_time
          → (cancel ≡ ok tt) × (confirm ≡ err (Defs.contract Defs.invalid_booking_state)))
        × (b.visit_time ≤ env.timestamp
            → (cancel ≡ err (Defs.contract Defs.invalid_booking_state)) × (confirm ≡ ok tt))
  unfolding run Defs.cancel_booking Defs.confirm_visit
  one_way_out env s id b a t found st set renter_signed host_signed paid = ground arith
