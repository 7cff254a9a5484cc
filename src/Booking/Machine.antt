-- ===== src/Booking/Machine.antt =====
-- The state machine of the bookings in the database, as the database branches of
-- apps/api/src/booking/booking-workflow.service.ts drive it. A branch is given any snapshot of the
-- booking that was read before: requests may have run in between.
use po_vdeposit.Common.{
  ℕ, ◌≡◌, refl, ◌⊎◌, inl, inr, Option, none, some, [], Text, Text-discrete, ok, err, arith, Action,
  Result, ◌>>◌,
}
use po_vdeposit.Booking.Types
use po_vdeposit.Booking.Types.{
  pending_funding, funded, checked_in, completed, refunded, Booking, CreateBooking, Verification,
  Error,
}
use po_vdeposit.Booking.Store.{
  Store, Stored, TransactionKind, Payment, Change, changed, with_payment,
}
use po_vdeposit.Booking.Backend.{get_row}
use po_vdeposit.Booking.Workflow.{
  fund_body, fund_row, check_in_row, refund_body, refund_row, confirm_row,
}
use po_vdeposit.Booking.Rows.{
  payment_of, history_of, fund_where, refund_where, check_in_where, confirm_where, to_status, touch,
  commit-ok, touch_lem,
}

abbrev pub with_proof : Text → Change
with_proof proof = record { status = checked_in; check_in_proof_hash = some proof }

-- What one request can do to the row of one id.
pub data RowStep (before after : Option Stored) : Type 0 where
  stay : after ≡ before → RowStep before after
  appear :
      (r : Stored)
      → before ≡ none
      → after ≡ some r
      → r.status ≡ pending_funding
      → r.transactions ≡ []
      → RowStep before after
  fund :
      (r : Stored) (p : Payment) (stamp : ℕ)
      → before ≡ some r
      → r.status ≡ pending_funding
      → p.kind ≡ TransactionKind.fund
      → after ≡ some (with_payment p (changed stamp (to_status funded) r))
      → RowStep before after
  check_in :
      (r : Stored) (proof : Text) (stamp : ℕ)
      → before ≡ some r
      → r.status ≡ funded
      → after ≡ some (changed stamp (with_proof proof) r)
      → RowStep before after
  refund :
      (r : Stored) (p : Payment) (stamp : ℕ)
      → before ≡ some r
      → r.status ≡ funded
      → p.kind ≡ TransactionKind.refund
      → after ≡ some (with_payment p (changed stamp (to_status refunded) r))
      → RowStep before after
  complete :
      (r : Stored) (stamp : ℕ)
      → before ≡ some r
      → r.status ≡ checked_in
      → after ≡ some (changed stamp (to_status completed) r)
      → RowStep before after

module _ {D : Type 0} (store : Store D) where
  -- How a branch ends that runs a transaction and goes on: the transaction is rolled back and its
  -- error passed on, or it commits.
  pub transact-cases :
      (m : Action D Error (Unit {0})) (k : Action D Error Booking) (d : D)
      → ((e : Error) × ((store.transaction (Unit {0}) m >> k) d ≡ (err e, d)))
        ⊎ ((d' : D) × (m d ≡ (ok tt, d')) × ((store.transaction (Unit {0}) m >> k) d ≡ k d'))
  transact-cases m k d = go (m d) refl
    where
      go :
          (out : Result Error (Unit {0}) × D)
          → m d ≡ out
          → ((e : Error) × ((store.transaction (Unit {0}) m >> k) d ≡ (err e, d)))
            ⊎ ((d' : D) × (m d ≡ (ok tt, d')) × ((store.transaction (Unit {0}) m >> k) d ≡ k d'))
      go (ok u, d') e = inr (d', e, ground (arith, store.transaction-atomic (Unit {0}) m d))
      go (err x, d') e = inl (x, ground (arith, store.transaction-atomic (Unit {0}) m d))

  pub get_row_state : (id : Text) (d : D) → (get_row store id d).1 ≡ d
  unfolding get_row
  get_row_state id d = ground arith

  pub fund_row-RowStep :
      (id other : Text) (booking : Booking) (hash : Text) (v : Option Verification) (d : D)
      → RowStep
          (store.find_booking d other)
          (store.find_booking (fund_row store id booking hash v d).1 other)
  unfolding fund_row
  fund_row-RowStep id other booking hash none d = stay refl
  fund_row-RowStep id other booking hash (some v) d =
      elim (transact-cases (fund_body store id booking hash v) (get_row store id) d) [
        | inl (e, failed) ↦ stay (ground arith)
        | inr (d', done, next) ↦
            let (r, found, fit, changed_row, others) =
              commit-ok store (fund_where id) (to_status funded) Types.not_awaiting_funding
                (payment_of id booking hash TransactionKind.fund v)
                (history_of id pending_funding funded booking.input.renter (some hash)) d d' refl
                (unfold fund_body in done) in
            elim (Text-discrete other id) [
              | yes p ↦
                  fund r (payment_of id booking hash TransactionKind.fund v) (store.stamp d)
                    (ground arith) (ground arith) refl (ground (arith, get_row_state id d'))
              | no p ↦ stay (ground (arith, get_row_state id d', others other p))
            ]
      ]

  pub refund_row-RowStep :
      (id other actor : Text) (booking : Booking) (hash : Text) (v : Option Verification) (d : D)
      → RowStep
          (store.find_booking d other)
          (store.find_booking (refund_row store id actor booking hash v d).1 other)
  unfolding refund_row
  refund_row-RowStep id other actor booking hash none d = stay refl
  refund_row-RowStep id other actor booking hash (some v) d =
      elim (transact-cases (refund_body store id actor booking hash v) (get_row store id) d) [
        | inl (e, failed) ↦ stay (ground arith)
        | inr (d', done, next) ↦
            let (r, found, fit, changed_row, others) =
              commit-ok store (refund_where id actor) (to_status refunded) Types.cannot_be_refunded
                (payment_of id booking hash TransactionKind.refund v)
                (history_of id funded refunded actor (some hash)) d d' refl
                (unfold refund_body in done) in
            elim (Text-discrete other id) [
              | yes p ↦
                  refund r (payment_of id booking hash TransactionKind.refund v) (store.stamp d)
                    (ground arith) (ground arith) refl (ground (arith, get_row_state id d'))
              | no p ↦ stay (ground (arith, get_row_state id d', others other p))
            ]
      ]

  -- The branches of `checkIn` and `confirm` leave the rows as the update and the history entry do.
  pub check_in_row_state :
      (id actor proof : Text) (d : D)
      → (check_in_row store id actor proof d).1
        ≡ (touch store
            (check_in_where id actor)
            (with_proof proof)
            Types.cannot_be_checked_in
            (history_of id funded checked_in actor none)
            d).1
  unfolding check_in_row
  check_in_row_state id actor proof d = ground arith

  pub confirm_row_state :
      (id actor hash : Text) (d : D)
      → (confirm_row store id actor hash d).1
        ≡ (touch store
            (confirm_where id actor)
            (to_status completed)
            Types.cannot_be_confirmed
            (history_of id checked_in completed actor (some hash))
            d).1
  unfolding confirm_row
  confirm_row_state id actor hash d = ground arith

  pub check_in_row-RowStep :
      (id other actor proof : Text) (d : D)
      → RowStep
          (store.find_booking d other)
          (store.find_booking (check_in_row store id actor proof d).1 other)
  check_in_row-RowStep id other actor proof d =
      rw (check_in_row_state id actor proof d)
        (elim (touch_lem store (check_in_where id actor) (with_proof proof)
          Types.cannot_be_checked_in (history_of id funded checked_in actor none) d) [
            | inl (failed, same) ↦ stay (same other)
            | inr (r, found, fit, now, others) ↦ elim (Text-discrete other id) [
              | yes p ↦ check_in r proof (store.stamp d) (ground arith) (ground arith) (rw p now)
              | no p ↦ stay (others other p)
            ]
          ])

  pub confirm_row-RowStep :
      (id other actor hash : Text) (d : D)
      → RowStep
          (store.find_booking d other)
          (store.find_booking (confirm_row store id actor hash d).1 other)
  confirm_row-RowStep id other actor hash d =
      rw (confirm_row_state id actor hash d)
        (elim (touch_lem store (confirm_where id actor) (to_status completed)
          Types.cannot_be_confirmed (history_of id checked_in completed actor (some hash)) d) [
            | inl (failed, same) ↦ stay (same other)
            | inr (r, found, fit, now, others) ↦ elim (Text-discrete other id) [
              | yes p ↦ complete r (store.stamp d) (ground arith) (ground arith) (rw p now)
              | no p ↦ stay (others other p)
            ]
          ])
