-- ===== src/Booking/Commits.antt =====
-- The database under any interleaving of requests to the workflow of
-- apps/api/src/booking/booking-workflow.service.ts: each branch commits at some moment, on
-- whatever snapshot it has read before.
use po_vdeposit.Common.{
  ◌≡◌, subst, ◌⊎◌, inl, inr, Option, none, some, List, [], ◌∷◌, Text, Text-discrete, arith,
  Option-cases,
}
use po_vdeposit.Booking.Types
use po_vdeposit.Booking.Types.{BookingState, Booking, CreateBooking, Verification}
use po_vdeposit.Booking.Store.{Store, Stored, Transaction, TransactionKind}
use po_vdeposit.Booking.Workflow.{
  insert_row, create_row, fund_row, check_in_row, refund_row, confirm_row,
}
use po_vdeposit.Booking.Machine.{
  RowStep, stay, appear, fund, check_in, refund, complete, fund_row-RowStep, refund_row-RowStep,
  check_in_row-RowStep, confirm_row-RowStep,
}
use po_vdeposit.Booking.Insert.{insert_row-ok, insert-cases, create_row-eq}

-- The payments that each state has on record. Only five of the twelve states are reached.
abbrev pub Payments : BookingState → List Transaction → Type 0
Payments Types.pending_funding ts = ts ≡ []
Payments Types.funded ts = (h : Text) × (ts ≡ record { hash = h; kind = TransactionKind.fund } ∷ [])
Payments Types.checked_in ts =
    (h : Text) × (ts ≡ record { hash = h; kind = TransactionKind.fund } ∷ [])
Payments Types.completed ts =
    (h : Text) × (ts ≡ record { hash = h; kind = TransactionKind.fund } ∷ [])
Payments Types.refunded ts =
    (h h' : Text) × (ts
      ≡ record { hash = h; kind = TransactionKind.fund }
        ∷ record { hash = h'; kind = TransactionKind.refund }
        ∷ [])
Payments _ ts = ⊥

abbrev pub IsRecorded : Option Stored → Type 0
IsRecorded none = Unit
IsRecorded (some r) = Payments r.status r.transactions

module _ {D : Type 0} (store : Store D) where
  create_row-RowStep :
      (network id other : Text) (input : CreateBooking) (d : D)
      → RowStep
          (store.find_booking d other)
          (store.find_booking (create_row store network id input d).1 other)
  create_row-RowStep network id other input d = elim (Option-cases input.visit_time) [
    | inl invalid ↦ stay (unfold create_row in ground arith)
    | inr (v, e) ↦ elim (insert-cases store (insert_row store network id input v) d) [
      | inl (x, failed) ↦ stay (ground (arith, create_row-eq store network id input v d e))
      | inr (b, d', done, all) ↦
          let (r, same, row, absent, now, others) =
            insert_row-ok store network id input v d d' b done in
          let state : (create_row store network id input d).1 ≡ d' =
            ground (arith, create_row-eq store network id input v d e) in
          elim (Text-discrete other id) [
            | yes p ↦ appear r (rw p absent) (rw (state, p) now) row.pending row.unpaid
            | no p ↦ stay (rw state (others other p))
          ]
    ]
  ]

  -- One request reaches the database; its snapshot of the booking may be stale.
  pub data Commit (d d' : D) : Type 0 where
    created :
        (network id : Text) (input : CreateBooking)
        → d' ≡ (create_row store network id input d).1
        → Commit d d'
    funded :
        (id : Text) (booking : Booking) (hash : Text) (v : Option Verification)
        → d' ≡ (fund_row store id booking hash v d).1
        → Commit d d'
    checked_in :
        (id actor proof : Text) → d' ≡ (check_in_row store id actor proof d).1 → Commit d d'
    refunded :
        (id actor : Text) (booking : Booking) (hash : Text) (v : Option Verification)
        → d' ≡ (refund_row store id actor booking hash v d).1
        → Commit d d'
    confirmed : (id actor hash : Text) → d' ≡ (confirm_row store id actor hash d).1 → Commit d d'

  pub data Commits (d : D) : D → Type 0 where
    here : Commits d d
    next : {d' d'' : D} → Commits d d' → Commit d' d'' → Commits d d''

  -- Every request moves each row along at most one edge of the state machine.
  pub Commit-RowStep :
      (d d' : D) (other : Text)
      → Commit d d'
      → RowStep (store.find_booking d other) (store.find_booking d' other)
  Commit-RowStep d d' other (created network id input e) =
      rw e (create_row-RowStep network id other input d)
  Commit-RowStep d d' other (funded id booking hash v e) =
      rw e (fund_row-RowStep store id other booking hash v d)
  Commit-RowStep d d' other (checked_in id actor proof e) =
      rw e (check_in_row-RowStep store id other actor proof d)
  Commit-RowStep d d' other (refunded id actor booking hash v e) =
      rw e (refund_row-RowStep store id other actor booking hash v d)
  Commit-RowStep d d' other (confirmed id actor hash e) =
      rw e (confirm_row-RowStep store id other actor hash d)

RowStep-IsRecorded : (o o' : Option Stored) → RowStep o o' → IsRecorded o → IsRecorded o'
RowStep-IsRecorded o o' (stay e) h = rw e h
RowStep-IsRecorded o o' (appear r e e' st ts) h = ground arith
RowStep-IsRecorded o o' (fund r p stamp e st k e') h =
    let paid : Payments Types.pending_funding r.transactions =
      subst (λ x. Payments x r.transactions) st (rw e at h) in
    rw e' (p.hash, ground arith)
RowStep-IsRecorded o o' (check_in r proof stamp e st e') h =
    rw e' (subst (λ x. Payments x r.transactions) st (rw e at h))
RowStep-IsRecorded o o' (refund r p stamp e st k e') h =
    let (first, paid) = subst (λ x. Payments x r.transactions) st (rw e at h) in
    rw e' (first, p.hash, ground arith)
RowStep-IsRecorded o o' (complete r stamp e st e') h =
    rw e' (subst (λ x. Payments x r.transactions) st (rw e at h))

-- A settled row is left alone.
RowStep-final :
    (o o' : Option Stored) (r : Stored)
    → RowStep o o'
    → o ≡ some r
    → (r.status ≡ Types.completed) ⊎ (r.status ≡ Types.refunded)
    → o' ≡ some r
RowStep-final o o' r (stay e) found final = ground arith
RowStep-final o o' r (appear x e e' st ts) found final = ground arith
RowStep-final o o' r (fund x p stamp e st k e') found final = ground arith
RowStep-final o o' r (check_in x proof stamp e st e') found final = ground arith
RowStep-final o o' r (refund x p stamp e st k e') found final = ground arith
RowStep-final o o' r (complete x stamp e st e') found final = ground arith

module _ {D : Type 0} (store : Store D) where
  -- Whatever requests reach a database whose rows are on record, in whatever order and on whatever
  -- snapshots: every booking is then in one of five states, and has on record no payment while it
  -- awaits funding, one funding payment when it is funded, checked in or completed, and one funding
  -- and one refund payment when it is refunded.
  pub Commits-IsRecorded :
      (d d' : D) (id : Text)
      → IsRecorded (store.find_booking d id)
      → Commits store d d'
      → IsRecorded (store.find_booking d' id)
  Commits-IsRecorded d d' id h here = h
  Commits-IsRecorded d d'' id h (next {d'} r c) =
      RowStep-IsRecorded (store.find_booking d' id) (store.find_booking d'' id)
        (Commit-RowStep store d' d'' id c) (Commits-IsRecorded d d' id h r)

  -- A completed or refunded booking is settled once: no later requests change its row.
  pub Commits-final :
      (d d' : D) (id : Text) (r : Stored)
      → store.find_booking d id ≡ some r
      → (r.status ≡ Types.completed) ⊎ (r.status ≡ Types.refunded)
      → Commits store d d'
      → store.find_booking d' id ≡ some r
  Commits-final d d' id r found final here = found
  Commits-final d d'' id r found final (next {d'} before c) =
      RowStep-final (store.find_booking d' id) (store.find_booking d'' id) r
        (Commit-RowStep store d' d'' id c) (Commits-final d d' id r found final before) final
