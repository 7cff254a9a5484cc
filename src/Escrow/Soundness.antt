-- ===== src/Escrow/Soundness.antt =====
-- Soundness of `VisitDepositEscrow` (contracts/pov_deposit_escrow/src/lib.rs): whatever calls are
-- made, the entries stay in order and the contract holds every deposit that it owes.
use po_vdeposit.Common.{
  ℕ, ◌+◌, ◌≤◌, ◌≡◌, refl, subst, false, none, some, [], arith, if◌then◌else◌, ◌==◌,
}
use po_vdeposit.Common.Int.{ℤ, pos}
use po_vdeposit.Escrow.Defs
use po_vdeposit.Escrow.Defs.{Booking, Ledger, Token, Env, deployed, find_booking}
use po_vdeposit.Escrow.Host.{Request, invoke, Step, call, outside, Reach, here, next}
use po_vdeposit.Escrow.Books.{
  IsEntry, AreEntries, stake, held, lookup-IsEntry, insert-AreEntries, held-insert, held-insert_new,
}
use po_vdeposit.Escrow.Effects.{
  written, with_state, new_booking, Effect, kept, initialized, created, funded, withdrawn,
  cancelled, confirmed,
}
use po_vdeposit.Escrow.Effects.Cases.{invoke-Effect}

module _ {T : Type 0} (tok : Token T) where
  -- The entries are in order, and the balance in the accepted asset covers all stakes.
  pub record IsSound (self : Defs.Address) (s : Ledger T) : Type 0 where
    pub entries : AreEntries self s.bookings
    pub backed :
        (a : Defs.Address) → s.asset ≡ some a → held s.bookings ≤ tok.balance s.token a self
    pub unset : s.asset ≡ none → s.bookings ≡ []

  pub deployed-IsSound : (self : Defs.Address) (t : T) → IsSound self (deployed t)
  deployed-IsSound self t = record { entries = tt; backed = λ a e. cc; unset = λ e. refl }

  -- The token's law at an amount that is known to be a natural number.
  pub transfer_moves :
      (a from to n : ℕ) (amount : ℤ) (t t' : T)
      → amount ≡ pos n
      → tok.transfer a from to amount t ≡ some t'
      → (holder : ℕ)
      → tok.balance t' a holder + (if holder == from then n else 0)
        ≡ tok.balance t a holder + (if holder == to then n else 0)
  transfer_moves a from to n amount t t' e paid holder =
      tok.transfer-balance a from to n t t' (rw e at paid) holder

  -- An entry that is written back in another state keeps the ledger sound, if the token pays for
  -- what its stake rises by.
  written-IsSound :
      (self id : ℕ) (b : Booking) (st : Defs.BookingState) (e : Defs.Event) (t : T) (s : Ledger T)
      → IsSound self s
      → find_booking id s ≡ some b
      → ((a : Defs.Address)
          → s.asset ≡ some a
          → tok.balance s.token a self + stake (with_state st b) ≤ tok.balance t a self + stake b)
      → IsSound self (written (with_state st b) e (record s { token = t }))
  written-IsSound self id b st e t s h found pays =
      let entry : IsEntry self id b = lookup-IsEntry self id b s.bookings h.entries found in
      let entry' : IsEntry self b.booking_id (with_state st b) = ground arith in
      record {
        entries = insert-AreEntries self b.booking_id (with_state st b) s.bookings h.entries entry';
        backed = λ a set. ground (
          arith,
          h.backed a set,
          pays a set,
          held-insert b.booking_id (with_state st b) b s.bookings,
        );
        unset = λ none_set. ground (arith, h.unset none_set);
      }

  -- Only the transfer of the asset in use moves a balance that counts.
  same_asset : (s : Ledger T) (a a' : Defs.Address) → s.asset ≡ some a → s.asset ≡ some a' → a ≡ a'
  same_asset s a a' p q = cc

  Effect-IsSound :
      (env : Env) (s s' : Ledger T)
      → env.signed env.self ≡ false
      → IsSound env.self s
      → Effect tok env s s'
      → IsSound env.self s'
  Effect-IsSound env s s' u h (kept e) = ground arith
  Effect-IsSound env s s' u h (initialized a fresh e) = ground (arith, h.unset fresh)
  Effect-IsSound env s s' u h
        (created a id renter host n visit_time set free ne lo hi later signed e) =
      let b : Booking = new_booking id renter host (pos n) visit_time in
      ground (
        arith,
        h.backed a set,
        held-insert_new id b s.bookings free,
        insert-AreEntries env.self id b s.bookings h.entries,
      )
  Effect-IsSound env s s' u h (funded a id b t set found st signed paid e) =
      let entry : IsEntry env.self id b = lookup-IsEntry env.self id b s.bookings h.entries found in
      rw e (
        written-IsSound env.self id b Defs.funded (Defs.booking_funded id b.deposit_amount) t s h
          found
          λ a' set'. ground (
            arith,
            same_asset s a a' set set',
            transfer_moves a b.renter env.self _ b.deposit_amount s.token t entry.amount paid
                env.self,
          ))
  Effect-IsSound env s s' u h (withdrawn id b found st early signed e) = rw e (
      written-IsSound env.self id b Defs.refunded (Defs.deposit_refunded id b.deposit_amount)
        s.token s h found λ a' set'. ground arith)
  Effect-IsSound env s s' u h (cancelled a id b t set found st early signed paid e) =
      let entry : IsEntry env.self id b = lookup-IsEntry env.self id b s.bookings h.entries found in
      rw e (
        written-IsSound env.self id b Defs.refunded (Defs.deposit_refunded id b.deposit_amount) t s
          h found
          λ a' set'. ground (
            arith,
            same_asset s a a' set set',
            transfer_moves a env.self b.renter _ b.deposit_amount s.token t entry.amount paid
                env.self,
          ))
  Effect-IsSound env s s' u h (confirmed a id b t set found st late signed paid e) =
      let entry : IsEntry env.self id b = lookup-IsEntry env.self id b s.bookings h.entries found in
      rw e (
        written-IsSound env.self id b Defs.released (Defs.visit_confirmed id b.deposit_amount) t s h
          found
          λ a' set'. ground (
            arith,
            same_asset s a a' set set',
            transfer_moves a env.self b.renter _ b.deposit_amount s.token t entry.amount paid
                env.self,
          ))

  pub invoke-IsSound :
      (env : Env) (request : Request) (s : Ledger T)
      → env.signed env.self ≡ false
      → IsSound env.self s
      → IsSound env.self (invoke tok env request s)
  invoke-IsSound env request s u h =
      Effect-IsSound env s (invoke tok env request s) u h (invoke-Effect tok env s request)

  pub Step-IsSound :
      (self : ℕ) (s s' : Ledger T) → Step tok self s s' → IsSound self s → IsSound self s'
  Step-IsSound self s s' (call env request e u) h =
      subst (λ x. env.signed x ≡ false → IsSound x s → IsSound x (invoke tok env request s)) e
        (invoke-IsSound env request s) u h
  Step-IsSound self s s' (outside t grows) h = record {
    entries = h.entries;
    backed = λ a set. omega (arith, h.backed a set, grows a);
    unset = h.unset;
  }

  pub Reach-IsSound :
      (self : ℕ) (s s' : Ledger T) → IsSound self s → Reach tok self s s' → IsSound self s'
  Reach-IsSound self s s' h here = h
  Reach-IsSound self s s'' h (next {s'} r step) =
      Step-IsSound self s' s'' step (Reach-IsSound self s s' h r)

  -- In every ledger that can be reached from a fresh deployment, by any calls of anybody at any
  -- times and with any transfers of others in between, the contract's balance in the accepted
  -- asset covers the deposits of all its funded bookings.
  pub held-le-balance :
      (self : ℕ) (t : T) (s : Ledger T) (a : ℕ)
      → Reach tok self (deployed t) s
      → s.asset ≡ some a
      → held s.bookings ≤ tok.balance s.token a self
  held-le-balance self t s a r set =
      (Reach-IsSound self (deployed t) s (deployed-IsSound self t) r).backed a set
