-- ===== src/Escrow/Log.antt =====
-- The events of `VisitDepositEscrow` (contracts/pov_deposit_escrow/src/lib.rs) as evidence: how
-- often each kind stands in the log says where a booking is.
use po_vdeposit.Common.{
  ℕ, ◌≤◌, ◌≡◌, refl, Bool, false, Option, none, some, arith, ◌==◌, count, ℕ_discrete,
}
use po_vdeposit.Common.Int.{pos}
use po_vdeposit.Escrow.Defs
use po_vdeposit.Escrow.Defs.{
  Booking, BookingState, Event, Ledger, Token, Env, deployed, find_booking,
}
use po_vdeposit.Escrow.Host.{invoke, Step, call, outside, Reach, here, next}
use po_vdeposit.Escrow.Books.{IsEntry, lookup-IsEntry}
use po_vdeposit.Escrow.Effects
use po_vdeposit.Escrow.Effects.{written, with_state, new_booking, find_booking-written, Effect}
use po_vdeposit.Escrow.Effects.Cases.{invoke-Effect}
use po_vdeposit.Escrow.Soundness.{IsSound, deployed-IsSound, Reach-IsSound}

abbrev pub is_funding : ℕ → Event → Bool
is_funding id (Defs.booking_funded i n) = id == i
is_funding id _ = false

abbrev pub is_refund : ℕ → Event → Bool
is_refund id (Defs.deposit_refunded i n) = id == i
is_refund id _ = false

abbrev pub is_confirmation : ℕ → Event → Bool
is_confirmation id (Defs.visit_confirmed i n) = id == i
is_confirmation id _ = false

-- The numbers of funding, refund and confirmation events that each state admits.
abbrev pub Counts : BookingState → ℕ → ℕ → ℕ → Type 0
Counts Defs.created f r c = (f ≡ 0) × (r ≡ 0) × (c ≡ 0)
Counts Defs.funded f r c = (f ≡ 1) × (r ≡ 0) × (c ≡ 0)
Counts Defs.refunded f r c = (f ≤ 1) × (r ≡ 1) × (c ≡ 0)
Counts Defs.released f r c = (f ≡ 1) × (r ≡ 0) × (c ≡ 1)

abbrev pub Explains : Option Booking → ℕ → ℕ → ℕ → Type 0
Explains none f r c = (f ≡ 0) × (r ≡ 0) × (c ≡ 0)
Explains (some b) f r c = Counts b.state f r c

abbrev pub LoggedAt : {T : Type 0} → ℕ → Ledger T → Type 0
LoggedAt id s =
    Explains (find_booking id s) (count (is_funding id) s.events) (count (is_refund id) s.events)
      (count (is_confirmation id) s.events)

module _ {T : Type 0} (tok : Token T) (self : ℕ) where
  Effect-LoggedAt :
      (env : Env) (s s' : Ledger T) (id : ℕ)
      → IsSound tok self s
      → LoggedAt id s
      → Effect tok env s s'
      → LoggedAt id s'
  Effect-LoggedAt env s s' id h log (Effects.kept e) = ground arith
  Effect-LoggedAt env s s' id h log (Effects.initialized a fresh e) = ground arith
  Effect-LoggedAt env s s' id h log
        (Effects.created a i renter host n v set free ne lo hi later signed e) =
      let new : Booking = new_booking i renter host (pos n) v in
      let event : Event = Defs.booking_created i renter host (pos n) in
      elim (ℕ_discrete id i) [
        | yes p ↦ ground (arith, find_booking-written id new event s)
        | no p ↦ ground (arith, find_booking-written id new event s)
      ]
  Effect-LoggedAt env s s' id h log (Effects.funded a i b t set found st signed paid e) =
      let entry : IsEntry self i b = lookup-IsEntry self i b s.bookings h.entries found in
      let at =
        find_booking-written id (with_state Defs.funded b) (Defs.booking_funded i b.deposit_amount)
          (record s { token = t }) in
      elim (ℕ_discrete id i) [ yes p ↦ ground (arith, at) | no p ↦ ground (arith, at) ]
  Effect-LoggedAt env s s' id h log (Effects.withdrawn i b found st early signed e) =
      let entry : IsEntry self i b = lookup-IsEntry self i b s.bookings h.entries found in
      let at =
        find_booking-written id (with_state Defs.refunded b)
          (Defs.deposit_refunded i b.deposit_amount) (s) in
      elim (ℕ_discrete id i) [ yes p ↦ ground (arith, at) | no p ↦ ground (arith, at) ]
  Effect-LoggedAt env s s' id h log (Effects.cancelled a i b t set found st early signed paid e) =
      let entry : IsEntry self i b = lookup-IsEntry self i b s.bookings h.entries found in
      let at =
        find_booking-written id (with_state Defs.refunded b)
          (Defs.deposit_refunded i b.deposit_amount) (record s { token = t }) in
      elim (ℕ_discrete id i) [ yes p ↦ ground (arith, at) | no p ↦ ground (arith, at) ]
  Effect-LoggedAt env s s' id h log (Effects.confirmed a i b t set found st late signed paid e) =
      let entry : IsEntry self i b = lookup-IsEntry self i b s.bookings h.entries found in
      let at =
        find_booking-written id (with_state Defs.released b)
          (Defs.visit_confirmed i b.deposit_amount) (record s { token = t }) in
      elim (ℕ_discrete id i) [ yes p ↦ ground (arith, at) | no p ↦ ground (arith, at) ]

  Step-LoggedAt :
      (s s' : Ledger T) (id : ℕ)
      → IsSound tok self s
      → LoggedAt id s
      → Step tok self s s'
      → LoggedAt id s'
  Step-LoggedAt s s' id h log (call env request e u) =
      Effect-LoggedAt env s (invoke tok env request s) id h log (invoke-Effect tok env s request)
  Step-LoggedAt s s' id h log (outside t grows) = log

  -- In every ledger that is reached from a fresh deployment, the events of each booking id tell
  -- its state. A booking that is created or absent has no funding, refund or confirmation event; a
  -- funded one has one funding event and no other; a refunded one has one refund event, no
  -- confirmation and at most one funding event; a released one has one funding event, one
  -- confirmation and no refund.
  pub Reach-LoggedAt :
      (t : T) (s : Ledger T) (id : ℕ) → Reach tok self (deployed t) s → LoggedAt id s
  Reach-LoggedAt t s id here = (refl, refl, refl)
  Reach-LoggedAt t s'' id (next {s'} r step) =
      let sound = Reach-IsSound tok self (deployed t) s' (deployed-IsSound tok self t) r in
      Step-LoggedAt s' s'' id sound (Reach-LoggedAt t s' id r) step
