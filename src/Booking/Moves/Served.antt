-- ===== src/Booking/Moves/Served.antt =====
-- The operations of `BookingWorkflowService`
-- (apps/api/src/booking/booking-workflow.service.ts) by the moves they make.
use po_vdeposit.Common.{
  ℕ, ◌≡◌, refl, inl, inr, Text, Text-discrete, err, arith, Option-cases, Result-cases,
}
use po_vdeposit.Common.Dict.{lookup}
use po_vdeposit.Booking.Types.{Error}
use po_vdeposit.Booking.Store.{Store}
use po_vdeposit.Booking.Backend.{Backend, memory, prisma, Bookings}
use po_vdeposit.Booking.Workflow
use po_vdeposit.Booking.Workflow.{
  fund_body, fund_row, check_in_row, refund_body, refund_row, confirm_row, insert_row, create_row,
  create_memory, max_amount,
}
use po_vdeposit.Booking.Requests.Memory.{serve-memory}
use po_vdeposit.Booking.Requests.{Request, fund, check_in, refund, confirm, target, serve, view}
use po_vdeposit.Booking.Moves.{Moved, stay, move}
use po_vdeposit.Booking.Moves.Rows.{
  fund_row-Moved, refund_row-Moved, check_in_row-Moved, confirm_row-Moved, fund-runs, refund-runs,
  check_in-runs, confirm-runs,
}

module _ {D : Type 0} (store : Store D) where
  serve_prisma-Moved :
      (now : ℕ) (q : Request) (id : Text) (d : D)
      → Moved q id (view store (prisma d) id) (view store (serve store now q (prisma d)).1 id)
  serve_prisma-Moved now (fund i hash v) id d = elim (fund-runs store now i hash v d) [
    | inl same ↦ rw same (stay refl)
    | inr (b, ran) ↦ rw ran (fund_row-Moved store i id b hash v d)
  ]
  serve_prisma-Moved now (check_in i actor proof) id d =
      elim (check_in-runs store now i actor proof d) [
        | inl same ↦ rw same (stay refl)
        | inr ran ↦ rw ran (check_in_row-Moved store i id actor proof d)
      ]
  serve_prisma-Moved now (refund i actor hash v) id d =
      elim (refund-runs store now i actor hash v d) [
        | inl same ↦ rw same (stay refl)
        | inr (b, ran) ↦ rw ran (refund_row-Moved store i id actor b hash v d)
      ]
  serve_prisma-Moved now (confirm i actor hash) id d =
      elim (confirm-runs store now i actor hash d) [
        | inl same ↦ rw same (stay refl)
        | inr ran ↦ rw ran (confirm_row-Moved store i id actor hash d)
      ]

  -- Over the `Map` an operation that throws has changed nothing.
  serve_memory-err :
      (now : ℕ) (q : Request) (m : Bookings) (e : Error)
      → (serve store now q (memory m)).0 ≡ err e
      → (serve store now q (memory m)).1 ≡ memory m
  unfolding Workflow.fund Workflow.check_in Workflow.refund Workflow.confirm
  serve_memory-err now (fund id hash v) m e failed =
      elim (Option-cases (lookup Text-discrete id m)) [
        | inl missing ↦ ground arith
        | inr (old, found) ↦ ground arith
      ]
  serve_memory-err now (check_in id actor proof) m e failed =
      elim (Option-cases (lookup Text-discrete id m)) [
        | inl missing ↦ ground arith
        | inr (old, found) ↦ ground arith
      ]
  serve_memory-err now (refund id actor hash v) m e failed =
      elim (Option-cases (lookup Text-discrete id m)) [
        | inl missing ↦ ground arith
        | inr (old, found) ↦ ground arith
      ]
  serve_memory-err now (confirm id actor hash) m e failed =
      elim (Option-cases (lookup Text-discrete id m)) [
        | inl missing ↦ ground arith
        | inr (old, found) ↦ ground arith
      ]

  -- A request that is served, with success or not, leaves every booking as it was, or moves the one
  -- that it names along its edge, where the party may ask for it.
  pub serve-Moved :
      (now : ℕ) (q : Request) (id : Text) (s : Backend D)
      → Moved q id (view store s id) (view store (serve store now q s).1 id)
  serve-Moved now q id (prisma d) = serve_prisma-Moved now q id d
  serve-Moved now q id (memory m) = elim (Result-cases (serve store now q (memory m)).0) [
    | inl (e, failed) ↦ rw (serve_memory-err now q m e failed) (stay refl)
    | inr (b, fine) ↦
        let (old, step) =
          serve-memory store now q m (serve store now q (memory m)).1 b (ground arith) in
        elim (Text-discrete id (target q)) [
          | yes p ↦
              move old b p (rw p step.before) (rw p step.after) step.allowed step.reached step.actor
                step.same_deal step.same_id.1
          | no p ↦ stay (step.others id p)
        ]
  ]
