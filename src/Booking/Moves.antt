-- ===== src/Booking/Moves.antt =====
-- What a request to `BookingWorkflowService` (apps/api/src/booking/booking-workflow.service.ts)
-- leaves of each booking, whether or not it succeeds: some of its writes can stand in front of an
-- error.
pub mod Rows
pub mod Served
pub mod Created
use po_vdeposit.Common.{
  ℕ, ◌≡◌, ◌≢◌, refl, sym, ◌∙◌, ap, inl, inr, true, ◌⊎◌, ◌&&◌, ◌||◌, not, not_after, ◌===◌, is_hash,
  Option, none, some, Text, Text-discrete, ok, err, arith, Option-cases, Bool-cases, Result-cases,
  Action, ◌>>◌,
}
use po_vdeposit.Common.Int.{pos, leb_ℤ, ltb_ℤ}
use po_vdeposit.Common.Dict.{lookup, insert, lookup-insert_self, lookup-insert_ne}
use mathlib.Core.Option
use po_vdeposit.Booking.Types
use po_vdeposit.Booking.Types.{
  pending_funding, funded, checked_in, completed, refunded, is_pending, is_funded, is_checked_in,
  Booking, CreateBooking, Verification, Error,
}
use po_vdeposit.Booking.Store.{
  Store, Stored, Where, Change, Payment, History, TransactionKind, fits, changed, with_payment,
}
use po_vdeposit.Booking.Backend.{
  Backend, memory, prisma, Bookings, from_database, get_row, on_chain_id, either_backend, fresh,
}
use po_vdeposit.Booking.Workflow
use po_vdeposit.Booking.Workflow.{
  fund_body, fund_row, check_in_row, refund_body, refund_row, confirm_row, insert_row, create_row,
  create_memory, max_amount,
}
use po_vdeposit.Booking.Rows.{
  payment_of, history_of, fund_where, refund_where, check_in_where, confirm_where, to_status, touch,
  touch_lem, commit, commit-ok,
}
use po_vdeposit.Booking.Machine.{
  transact-cases, with_proof, check_in_row_state, confirm_row_state, get_row_state,
}
use po_vdeposit.Booking.Requests.Memory.{serve-memory}
use po_vdeposit.Booking.Insert.{insert_row-ok, insert-cases, create_row-eq}
use po_vdeposit.Booking.Requests.{
  Request, fund, check_in, refund, confirm, target, source_state, target_state, MayAsk, serve, view,
}

-- The booking is as it was, or it is the one that the request names and has moved along the
-- request's edge, for a party who may ask.
pub data Moved (q : Request) (id : Text) (before after : Option Booking) : Type 0 where
  stay : after ≡ before → Moved q id before after
  move :
      (old b : Booking)
      → id ≡ target q
      → before ≡ some old
      → after ≡ some b
      → old.state ≡ source_state q
      → b.state ≡ target_state q
      → MayAsk q old
      → b.input ≡ old.input
      → b.on_chain_booking_id ≡ old.on_chain_booking_id
      → Moved q id before after

module _ {D : Type 0} (store : Store D) where
  pub shown :
      (id : Text) (d : D) (o : Option Stored)
      → store.find_booking d id ≡ o
      → view store (prisma d) id ≡ Option.map from_database o
  shown id d o e = ap (Option.map from_database) e

  -- A row that has become another one of the same deal.
  pub row-Moved :
      (q : Request) (id : Text) (d d' : D) (r r' : Stored)
      → id ≡ target q
      → store.find_booking d id ≡ some r
      → store.find_booking d' id ≡ some r'
      → r.status ≡ source_state q
      → r'.status ≡ target_state q
      → MayAsk q (from_database r)
      → (from_database r').input ≡ (from_database r).input
      → r'.on_chain_booking_id ≡ r.on_chain_booking_id
      → Moved q id (view store (prisma d) id) (view store (prisma d') id)
  unfolding from_database
  row-Moved q id d d' r r' named found now from to may input chain =
      move (from_database r) (from_database r') named (shown id d (some r) found)
        (shown id d' (some r') now) from to may input chain

  pub touch-Moved :
      (q : Request) (w : Where) (c : Change) (e : Error) (h : History) (id : Text) (d : D)
      → w.id ≡ target q
      → w.status ≡ source_state q
      → c.status ≡ target_state q
      → ((r : Stored) → fits w r ≡ true → MayAsk q (from_database r))
      → Moved q id (view store (prisma d) id) (view store (prisma (touch store w c e h d).1) id)
  unfolding from_database
  touch-Moved q w c e h id d named from to may = elim (touch_lem store w c e h d) [
    | inl (failed, same) ↦ stay (shown id (touch store w c e h d).1 _ (same id))
    | inr (r, found, fit, now, others) ↦ elim (Text-discrete id w.id) [
      | yes p ↦
          row-Moved q id d (touch store w c e h d).1 r (changed (store.stamp d) c r) (p ∙ named)
            (rw p found) (rw p now) (ground arith) to (may r fit) refl refl
      | no p ↦ stay (shown id (touch store w c e h d).1 _ (others id p))
    ]
  ]

  -- The transactions, with the reading of the row that follows them.
  pub transact-Moved :
      (q : Request) (w : Where) (c : Change) (e : Error) (p : Payment) (h : History) (id : Text)
      (d : D)
      → p.booking_id ≡ w.id
      → w.id ≡ target q
      → w.status ≡ source_state q
      → c.status ≡ target_state q
      → ((r : Stored) → fits w r ≡ true → MayAsk q (from_database r))
      → Moved q id (view store (prisma d) id) (
          view store
            (prisma
              ((store.transaction (Unit {0}) (commit store w c e p h) >> get_row store (target q))
                d).1)
            id)
  unfolding from_database
  transact-Moved q w c e p h id d paid named from to may =
      elim (transact-cases store (commit store w c e p h) (get_row store (target q)) d) [
        | inl (x, failed) ↦ stay (ap (λ out. view store (prisma out.1) id) failed)
        | inr (d', done, next) ↦
            let final : ((store.transaction (Unit {0}) (commit store w c e p h)
                    >> get_row store (target q))
                  d).1
                ≡ d' =
              ap (λ out. out.1) next ∙ get_row_state store (target q) d' in
            let (r, found, fit, now, others) = commit-ok store w c e p h d d' paid done in
            rw final (elim (Text-discrete id w.id) [
              | yes i ↦
                  row-Moved q id d d' r (with_payment p (changed (store.stamp d) c r)) (i ∙ named)
                    (rw i found) (rw i now) (ground arith) to (may r fit) refl refl
              | no i ↦ stay (shown id d' _ (others id i))
            ])
      ]
