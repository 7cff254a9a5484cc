-- ===== src/Booking/Moves/Rows.antt =====
-- The database branches of `BookingWorkflowService`
-- (apps/api/src/booking/booking-workflow.service.ts), by the moves they make, and the guards
-- in front of them.
use po_vdeposit.Common.{
  ℕ, ◌≡◌, refl, inl, inr, ◌⊎◌, ◌&&◌, ◌===◌, is_hash, Option, none, some, Text, arith, Option-cases,
  Bool-cases,
}
use po_vdeposit.Booking.Types
use po_vdeposit.Booking.Types.{
  pending_funding, funded, checked_in, completed, refunded, is_pending, is_funded, is_checked_in,
  Booking, CreateBooking, Verification, Error,
}
use po_vdeposit.Booking.Store.{Store, TransactionKind}
use po_vdeposit.Booking.Backend.{prisma, from_database}
use po_vdeposit.Booking.Workflow
use po_vdeposit.Booking.Workflow.{
  fund_body, fund_row, check_in_row, refund_body, refund_row, confirm_row, insert_row, create_row,
  create_memory, max_amount,
}
use po_vdeposit.Booking.Rows.{
  payment_of, history_of, fund_where, refund_where, check_in_where, confirm_where, to_status,
}
use po_vdeposit.Booking.Machine.{with_proof, check_in_row_state, confirm_row_state}
use po_vdeposit.Booking.Requests.{fund, check_in, refund, confirm, view}
use po_vdeposit.Booking.Moves.{Moved, stay, touch-Moved, transact-Moved}

module _ {D : Type 0} (store : Store D) where
  -- Each branch over the database.
  pub fund_row-Moved :
      (id other : Text) (booking : Booking) (hash : Text) (v : Option Verification) (d : D)
      → Moved
          (fund id hash v)
          other
          (view store (prisma d) other)
          (view store (prisma (fund_row store id booking hash v d).1) other)
  unfolding fund_row
  fund_row-Moved id other booking hash none d = stay refl
  fund_row-Moved id other booking hash (some v) d =
      unfold fund_body in
      transact-Moved store (fund id hash (some v)) (fund_where id) (to_status funded)
        Types.not_awaiting_funding (payment_of id booking hash TransactionKind.fund v)
        (history_of id pending_funding funded booking.input.renter (some hash)) other d refl refl
        refl refl (λ r fit. tt)

  pub refund_row-Moved :
      (id other actor : Text) (booking : Booking) (hash : Text) (v : Option Verification) (d : D)
      → Moved
          (refund id actor hash v)
          other
          (view store (prisma d) other)
          (view store (prisma (refund_row store id actor booking hash v d).1) other)
  unfolding refund_row from_database
  refund_row-Moved id other actor booking hash none d = stay refl
  refund_row-Moved id other actor booking hash (some v) d =
      unfold refund_body in
      transact-Moved store (refund id actor hash (some v)) (refund_where id actor)
        (to_status refunded) Types.cannot_be_refunded
        (payment_of id booking hash TransactionKind.refund v)
        (history_of id funded refunded actor (some hash)) other d refl refl refl refl
        (λ r fit. ground arith)

  pub check_in_row-Moved :
      (id other actor proof : Text) (d : D)
      → Moved
          (check_in id actor proof)
          other
          (view store (prisma d) other)
          (view store (prisma (check_in_row store id actor proof d).1) other)
  unfolding from_database
  check_in_row-Moved id other actor proof d = rw (check_in_row_state store id actor proof d) (
      touch-Moved store (check_in id actor proof) (check_in_where id actor) (with_proof proof)
        Types.cannot_be_checked_in (history_of id funded checked_in actor none) other d refl refl
        refl (λ r fit. ground arith))

  pub confirm_row-Moved :
      (id other actor hash : Text) (d : D)
      → Moved
          (confirm id actor hash)
          other
          (view store (prisma d) other)
          (view store (prisma (confirm_row store id actor hash d).1) other)
  unfolding from_database
  confirm_row-Moved id other actor hash d = rw (confirm_row_state store id actor hash d) (
      touch-Moved store (confirm id actor hash) (confirm_where id actor) (to_status completed)
        Types.cannot_be_confirmed (history_of id checked_in completed actor (some hash)) other d
        refl refl refl (λ r fit. ground arith))

  -- Past its guards an operation over the database runs its branch.
  pub fund-runs :
      (now : ℕ) (id hash : Text) (v : Option Verification) (d : D)
      → ((Workflow.fund store now id hash v (prisma d)).1 ≡ prisma d)
        ⊎ ((b : Booking) × ((Workflow.fund store now id hash v (prisma d)).1
              ≡ prisma (fund_row store id b hash v d).1))
  unfolding Workflow.fund
  fund-runs now id hash v d = elim (Option-cases (store.find_booking d id)) [
    | inl missing ↦ inl (ground arith)
    | inr (r, found) ↦ elim (Bool-cases (is_pending r.status && is_hash hash)) [
      | inl fit ↦ inr (from_database r, ground arith)
      | inr miss ↦ inl (ground arith)
    ]
  ]

  pub refund-runs :
      (now : ℕ) (id actor hash : Text) (v : Option Verification) (d : D)
      → ((Workflow.refund store now id actor hash v (prisma d)).1 ≡ prisma d)
        ⊎ ((b : Booking) × ((Workflow.refund store now id actor hash v (prisma d)).1
              ≡ prisma (refund_row store id actor b hash v d).1))
  unfolding Workflow.refund
  refund-runs now id actor hash v d = elim (Option-cases (store.find_booking d id)) [
    | inl missing ↦ inl (ground arith)
    | inr (r, found) ↦
        elim (Bool-cases (is_funded r.status && r.renter_address === actor && is_hash hash)) [
          | inl fit ↦ inr (from_database r, ground arith)
          | inr miss ↦ inl (ground arith)
        ]
  ]

  pub check_in-runs :
      (now : ℕ) (id actor proof : Text) (d : D)
      → ((Workflow.check_in store now id actor proof (prisma d)).1 ≡ prisma d)
        ⊎ ((Workflow.check_in store now id actor proof (prisma d)).1
            ≡ prisma (check_in_row store id actor proof d).1)
  unfolding Workflow.check_in
  check_in-runs now id actor proof d = elim (Option-cases (store.find_booking d id)) [
    | inl missing ↦ inl (ground arith)
    | inr (r, found) ↦
        elim (Bool-cases (is_funded r.status && r.renter_address === actor && is_hash proof)) [
          | inl fit ↦ inr (ground arith)
          | inr miss ↦ inl (ground arith)
        ]
  ]

  pub confirm-runs :
      (now : ℕ) (id actor hash : Text) (d : D)
      → ((Workflow.confirm store now id actor hash (prisma d)).1 ≡ prisma d)
        ⊎ ((Workflow.confirm store now id actor hash (prisma d)).1
            ≡ prisma (confirm_row store id actor hash d).1)
  unfolding Workflow.confirm
  confirm-runs now id actor hash d = elim (Option-cases (store.find_booking d id)) [
    | inl missing ↦ inl (ground arith)
    | inr (r, found) ↦
        elim (Bool-cases (is_checked_in r.status && r.host_address === actor && is_hash hash)) [
          | inl fit ↦ inr (ground arith)
          | inr miss ↦ inl (ground arith)
        ]
  ]
