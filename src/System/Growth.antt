-- ===== src/System/Growth.antt =====
-- The log of the escrow contract (contracts/pov_deposit_escrow/src/lib.rs) only grows, and what an
-- event that the verifier (apps/api/src/stellar/contract-transaction-verifier.ts) accepts says of it.
use po_vdeposit.Common.{ℕ, ◌≡◌, ◌≤◌, sym, ◌∙◌, true, [], ◌∷◌, List, Bool, Text, arith, count}
use po_vdeposit.Common.Numerals.{decimal}
use po_vdeposit.Booking.Types.{Booking}
use po_vdeposit.Escrow.Defs
use po_vdeposit.Escrow.Defs.{Ledger, Token}
use po_vdeposit.Escrow.Host
use po_vdeposit.Escrow.Effects
use po_vdeposit.Escrow.Effects.{Effect}
use po_vdeposit.Escrow.Effects.Cases.{invoke-Effect}
use po_vdeposit.Escrow.Log.{is_funding, is_refund, is_confirmation}
use po_vdeposit.Verifier
use po_vdeposit.Verifier.{
  Rpc, Kind, text, number, event_name, booking_funded, visit_confirmed, deposit_refunded,
}
use po_vdeposit.Controller.Found.{IsProven}
use po_vdeposit.System.{IsPublished, latest, earlier, IsHonest, topics_of}

-- The events that the verifier looks for.
abbrev pub is_kind : Kind → ℕ → Defs.Event → Bool
is_kind booking_funded = is_funding
is_kind visit_confirmed = is_confirmation
is_kind deposit_refunded = is_refund

-- The contract has published an event of the kind, for the booking id that reads as `chain`.
pub record HasEvent (kind : Kind) (chain : Text) (events : List Defs.Event) : Type 0 where
  pub number : ℕ
  pub reads : decimal number ≡ chain
  pub counted : 1 ≤ count (is_kind kind number) events

module _ {T : Type 0} (tok : Token T) (self : ℕ) where
  invoke-grows :
      (env : Defs.Env) (s s' : Ledger T) (p : Defs.Event → Bool)
      → Effect tok env s s'
      → count p s.events ≤ count p s'.events
  invoke-grows env s s' p (Effects.kept e) = ground arith
  invoke-grows env s s' p (Effects.initialized a fresh e) = ground arith
  invoke-grows env s s' p (Effects.created a i renter host n v set free ne lo hi later signed e) =
      ground arith
  invoke-grows env s s' p (Effects.funded a i b t set found st signed paid e) = ground arith
  invoke-grows env s s' p (Effects.withdrawn i b found st early signed e) = ground arith
  invoke-grows env s s' p (Effects.cancelled a i b t set found st early signed paid e) =
      ground arith
  invoke-grows env s s' p (Effects.confirmed a i b t set found st late signed paid e) = ground arith

  pub Step-grows :
      (s s' : Ledger T) (p : Defs.Event → Bool)
      → Host.Step tok self s s'
      → count p s.events ≤ count p s'.events
  Step-grows s s' p (Host.call env request e u) =
      invoke-grows env s (Host.invoke tok env request s) p (invoke-Effect tok env s request)
  Step-grows s s' p (Host.outside t grows) = omega arith

count-published :
    (x : Defs.Event) (xs : List Defs.Event) (p : Defs.Event → Bool)
    → p x ≡ true
    → IsPublished x xs
    → 1 ≤ count p xs
count-published x [] p h there = elim there [ ]
count-published x (y ∷ ys) p h latest = ground arith
count-published x (y ∷ ys) p h (earlier there) = ground (arith, count-published x ys p h there)

-- The first two topics tell the kind and the booking.
topics_of-is_kind :
    (x : Defs.Event) (kind : Kind) (rest : List Verifier.Native)
    → topics_of x ≡ text (event_name kind) ∷ rest
    → (n : ℕ) × (rest ≡ number n ∷ []) × (is_kind kind n x ≡ true)
topics_of-is_kind (Defs.booking_funded i n) booking_funded rest e = (i, ground arith, ground arith)
topics_of-is_kind (Defs.visit_confirmed i n) visit_confirmed rest e =
    (i, ground arith, ground arith)
topics_of-is_kind (Defs.deposit_refunded i n) deposit_refunded rest e =
    (i, ground arith, ground arith)
topics_of-is_kind (Defs.booking_created i r h n) _ rest e = ground (arith, e)
topics_of-is_kind (Defs.booking_funded i n) _ rest e = ground (arith, e)
topics_of-is_kind (Defs.visit_confirmed i n) _ rest e = ground (arith, e)
topics_of-is_kind (Defs.deposit_refunded i n) _ rest e = ground (arith, e)

-- An event that proves a change of a booking, reported by an honest server, is in the log.
pub IsProven-HasEvent :
    (rpc : Rpc) (contract_id hash : Text) (kind : Kind) (old : Booking) (events : List Defs.Event)
    → IsHonest rpc contract_id events
    → IsProven rpc contract_id hash kind old
    → HasEvent kind old.on_chain_booking_id events
IsProven-HasEvent rpc contract_id hash kind old events honest proof =
    let (rest, begins, reads) = proof.proves.topics in
    let (x, there, same) = honest.reports _ _ proof.event proof.there proof.proves.successful in
    let (n, at, counts) = topics_of-is_kind x kind rest (sym same ∙ begins) in
    record {
      number = n;
      reads = rw at at reads;
      counted = count-published x events (is_kind kind n) counts there;
    }
