-- ===== src/Escrow/Lifecycle.antt =====
-- The life of one booking in `VisitDepositEscrow` (contracts/pov_deposit_escrow/src/lib.rs): along
-- which edges its state moves, and that nothing else of it ever changes.
use po_vdeposit.Common.{ℕ, ◌≡◌, ◌⊎◌, refl, subst, some, arith, ℕ_discrete}
use po_vdeposit.Common.Int.{pos}
use po_vdeposit.Escrow.Defs
use po_vdeposit.Escrow.Defs.{
  Booking, BookingState, Event, created, funded, refunded, released, Ledger, Token, Env,
  find_booking,
}
use po_vdeposit.Escrow.Host.{invoke, Step, call, outside, Reach, here, next}
use po_vdeposit.Escrow.Books.{IsEntry, lookup-IsEntry}
use po_vdeposit.Escrow.Effects
use po_vdeposit.Escrow.Effects.{written, with_state, new_booking, find_booking-written, Effect}
use po_vdeposit.Escrow.Effects.Cases.{invoke-Effect}
use po_vdeposit.Escrow.Soundness.{IsSound, Reach-IsSound}

-- The edges of the contract's state machine.
infix 40 ◌⟶◌
pub data ◌⟶◌ (st st' : BookingState) : Type 0 where
  stay : st ≡ st' → st ⟶ st'
  fund : st ≡ created → st' ≡ funded → st ⟶ st'
  withdraw : st ≡ created → st' ≡ refunded → st ⟶ st'
  cancel : st ≡ funded → st' ≡ refunded → st ⟶ st'
  confirm : st ≡ funded → st' ≡ released → st ⟶ st'

-- The same booking, moved along at most one edge.
abbrev pub Moved : {T : Type 0} → ℕ → Booking → Ledger T → Type 0
Moved id b s' = (st : BookingState) × (find_booking id s' ≡ some (with_state st b)) × (b.state ⟶ st)

-- No edge leaves a settled state.
stays :
    {T : Type 0} (st : BookingState) (b : Booking) (s' : Ledger T) (id : ℕ)
    → find_booking id s' ≡ some (with_state st b)
    → (b.state ≡ refunded) ⊎ (b.state ≡ released)
    → b.state ⟶ st
    → find_booking id s' ≡ some b
stays st b s' id after final (stay e) = ground arith
stays st b s' id after final (fund e e') = ground arith
stays st b s' id after final (withdraw e e') = ground arith
stays st b s' id after final (cancel e e') = ground arith
stays st b s' id after final (confirm e e') = ground arith

module _ {T : Type 0} (tok : Token T) (self : ℕ) where
  -- Writing one entry back in another state moves that booking only.
  written-Moved :
      (s : Ledger T) (id i : ℕ) (b c : Booking) (st : BookingState) (e : Event) (t : T)
      → IsSound tok self s
      → find_booking id s ≡ some b
      → find_booking i s ≡ some c
      → c.state ⟶ st
      → Moved id b (written (with_state st c) e (record s { token = t }))
  written-Moved s id i b c st e t h found found_c edge =
      let entry : IsEntry self i c = lookup-IsEntry self i c s.bookings h.entries found_c in
      elim (ℕ_discrete id i) [
        | yes p ↦
            let same : c ≡ b = cc in
            (
              st,
              ground (arith, find_booking-written id (with_state st c) e (record s { token = t })),
              subst (λ x. x.state ⟶ st) same edge,
            )
        | no p ↦ (
          b.state,
          ground (arith, find_booking-written id (with_state st c) e (record s { token = t })),
          stay refl,
        )
      ]

  Effect-Moved :
      (env : Env) (s s' : Ledger T) (id : ℕ) (b : Booking)
      → IsSound tok self s
      → find_booking id s ≡ some b
      → Effect tok env s s'
      → Moved id b s'
  Effect-Moved env s s' id b h found (Effects.kept e) = (b.state, ground arith, stay refl)
  Effect-Moved env s s' id b h found (Effects.initialized a fresh e) =
      (b.state, ground arith, stay refl)
  Effect-Moved env s s' id b h found
        (Effects.created a i renter host n v set free ne lo hi later signed e) =
      let new : Booking = new_booking i renter host (pos n) v in
      let event : Event = Defs.booking_created i renter host (pos n) in
      (b.state, ground (arith, find_booking-written id new event s), stay refl)
  Effect-Moved env s s' id b h found (Effects.funded a i c t set found_c st signed paid e) = rw e (
      written-Moved s id i b c funded (Defs.booking_funded i c.deposit_amount) t h found found_c
        (fund st refl))
  Effect-Moved env s s' id b h found (Effects.withdrawn i c found_c st early signed e) = rw e (
      written-Moved s id i b c refunded (Defs.deposit_refunded i c.deposit_amount) s.token h found
        found_c (withdraw st refl))
  Effect-Moved env s s' id b h found
        (Effects.cancelled a i c t set found_c st early signed paid e) =
      rw e (
        written-Moved s id i b c refunded (Defs.deposit_refunded i c.deposit_amount) t h found
          found_c (cancel st refl))
  Effect-Moved env s s' id b h found (Effects.confirmed a i c t set found_c st late signed paid e) =
      rw e (
        written-Moved s id i b c released (Defs.visit_confirmed i c.deposit_amount) t h found
          found_c (confirm st refl))

  -- A step of a sound ledger leaves every booking in place, with its parties, amount and time, and
  -- moves its state along at most one edge of the contract's state machine.
  pub Step-Moved :
      (s s' : Ledger T) (id : ℕ) (b : Booking)
      → IsSound tok self s
      → Step tok self s s'
      → find_booking id s ≡ some b
      → Moved id b s'
  Step-Moved s s' id b h (call env request e u) found =
      Effect-Moved env s (invoke tok env request s) id b h found (invoke-Effect tok env s request)
  Step-Moved s s' id b h (outside t grows) found = (b.state, found, stay refl)

  -- A refunded or released booking of a sound ledger is settled for good: no sequence of steps
  -- changes it again.
  pub settled-Reach :
      (s s' : Ledger T) (id : ℕ) (b : Booking)
      → IsSound tok self s
      → find_booking id s ≡ some b
      → (b.state ≡ refunded) ⊎ (b.state ≡ released)
      → Reach tok self s s'
      → find_booking id s' ≡ some b
  settled-Reach s s' id b h found final here = found
  settled-Reach s s'' id b h found final (next {s'} r step) =
      let still : find_booking id s' ≡ some b = settled-Reach s s' id b h found final r in
      let (st, after, edge) = Step-Moved s' s'' id b (Reach-IsSound tok self s s' h r) step still in
      stays st b s'' id after final edge
