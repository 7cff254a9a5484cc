-- ===== src/Booking/Requests/Memory.antt =====
-- Requests to `BookingWorkflowService` (apps/api/src/booking/booking-workflow.service.ts) over its
-- `Map` of bookings.
use po_vdeposit.Common.{ℕ, ◌≡◌, inl, inr, Text-discrete, ok, arith, Option-cases}
use po_vdeposit.Common.Dict.{lookup, lookup-insert_self, lookup-insert_ne}
use po_vdeposit.Booking.Types.{Booking}
use po_vdeposit.Booking.Store.{Store}
use po_vdeposit.Booking.Backend.{Backend, memory, Bookings}
use po_vdeposit.Booking.Workflow
use po_vdeposit.Booking.Workflow.{fund_row, check_in_row, refund_row, confirm_row}
use po_vdeposit.Booking.Requests.{Request, fund, check_in, refund, confirm, serve, Advances}

module _ {D : Type 0} (store : Store D) where
  -- Over the `Map`: the object that is found is changed in place.
  pub serve-memory :
      (now : ℕ) (q : Request) (m : Bookings) (s' : Backend D) (b : Booking)
      → serve store now q (memory m) ≡ (ok b, s')
      → (old : Booking) × Advances store q (memory m) s' b old
  unfolding Workflow.fund Workflow.check_in Workflow.refund Workflow.confirm
  serve-memory now (fund id hash v) m s' b e = elim (Option-cases (lookup Text-discrete id m)) [
    | inl missing ↦ ground arith
    | inr (old, found) ↦ (
      old,
      record {
        before = found;
        allowed = ground arith;
        actor = tt;
        hashed = ground arith;
        reached = ground arith;
        recorded = tt;
        same_deal = ground arith;
        same_id = ground arith;
        after = ground (arith, lookup-insert_self Text-discrete id b m);
        others = λ other ne. ground (arith, lookup-insert_ne Text-discrete other id b m ne);
      },
    )
  ]
  serve-memory now (check_in id actor proof) m s' b e =
      elim (Option-cases (lookup Text-discrete id m)) [
        | inl missing ↦ ground arith
        | inr (old, found) ↦ (
          old,
          record {
            before = found;
            allowed = ground arith;
            actor = ground arith;
            hashed = ground arith;
            reached = ground arith;
            recorded = ground arith;
            same_deal = ground arith;
            same_id = ground arith;
            after = ground (arith, lookup-insert_self Text-discrete id b m);
            others = λ other ne. ground (arith, lookup-insert_ne Text-discrete other id b m ne);
          },
        )
      ]
  serve-memory now (refund id actor hash v) m s' b e =
      elim (Option-cases (lookup Text-discrete id m)) [
        | inl missing ↦ ground arith
        | inr (old, found) ↦ (
          old,
          record {
            before = found;
            allowed = ground arith;
            actor = ground arith;
            hashed = ground arith;
            reached = ground arith;
            recorded = tt;
            same_deal = ground arith;
            same_id = ground arith;
            after = ground (arith, lookup-insert_self Text-discrete id b m);
            others = λ other ne. ground (arith, lookup-insert_ne Text-discrete other id b m ne);
          },
        )
      ]
  serve-memory now (confirm id actor hash) m s' b e =
      elim (Option-cases (lookup Text-discrete id m)) [
        | inl missing ↦ ground arith
        | inr (old, found) ↦ (
          old,
          record {
            before = found;
            allowed = ground arith;
            actor = ground arith;
            hashed = ground arith;
            reached = ground arith;
            recorded = tt;
            same_deal = ground arith;
            same_id = ground arith;
            after = ground (arith, lookup-insert_self Text-discrete id b m);
            others = λ other ne. ground (arith, lookup-insert_ne Text-discrete other id b m ne);
          },
        )
      ]
