-- ===== src/Booking/Moves/Created.antt =====
-- What `create` of `BookingWorkflowService`
-- (apps/api/src/booking/booking-workflow.service.ts) leaves under each id.
use po_vdeposit.Common.{
  ℕ, ◌≡◌, refl, inl, inr, ◌⊎◌, ◌&&◌, ◌||◌, not, not_after, ◌===◌, is_hash, Option, some, Text,
  Text-discrete, arith, Option-cases, Bool-cases,
}
use po_vdeposit.Common.Int.{pos, leb_ℤ, ltb_ℤ}
use po_vdeposit.Common.Dict.{lookup, lookup-insert_self, lookup-insert_ne}
use po_vdeposit.Booking.Types.{pending_funding, Booking, CreateBooking}
use po_vdeposit.Booking.Store.{Store}
use po_vdeposit.Booking.Backend.{
  Backend, memory, prisma, Bookings, from_database, on_chain_id, either_backend, fresh,
}
use po_vdeposit.Booking.Workflow
use po_vdeposit.Booking.Workflow.{
  fund_body, fund_row, check_in_row, refund_body, refund_row, confirm_row, insert_row, create_row,
  create_memory, max_amount,
}
use po_vdeposit.Booking.Insert.{insert_row-ok, insert-cases, create_row-eq}
use po_vdeposit.Booking.Requests.{view}
use po_vdeposit.Booking.Moves.{shown}

module _ {D : Type 0} (store : Store D) where
  -- Past its guards `create` stores the booking.
  create-runs :
      (now later : ℕ) (network id : Text) (input : CreateBooking) (s : Backend D)
      → let s' = (Workflow.create store now later network id input s).1 in
        (s' ≡ s)
        ⊎ (s'
            ≡ (either_backend
                (create_memory store (fresh later id input))
                (create_row store network id input)
                s).1)
  unfolding Workflow.create
  create-runs now later network id input s =
      elim (Bool-cases (
        not (input.renter === input.host)
        && not (leb_ℤ input.deposit_amount (pos 0) || ltb_ℤ (pos max_amount) input.deposit_amount)
        && not (not_after input.visit_time (some now))
        && is_hash input.evidence_hash)) [
          | inl fit ↦ inr (ground arith)
          | inr miss ↦ inl (ground arith)
        ]

  -- What a request to create leaves under an id: what stood there, or a booking that awaits its
  -- funding.
  abbrev pub Created : (id other : Text) (before after : Option Booking) → Type 0
  Created id other before after =
      (after ≡ before)
      ⊎ ((b : Booking) × (other ≡ id)
          × (after ≡ some b)
          × (b.state ≡ pending_funding)
          × (b.on_chain_booking_id ≡ on_chain_id id))

  create_memory-Created :
      (now : ℕ) (id other : Text) (input : CreateBooking) (m : Bookings)
      → Created id other
          (lookup Text-discrete other m)
          (lookup Text-discrete other (create_memory store (fresh now id input) m).1)
  unfolding create_memory
  create_memory-Created now id other input m = elim (Text-discrete other id) [
    | yes p ↦ inr (
      fresh now id input,
      p,
      rw p (lookup-insert_self Text-discrete id (fresh now id input) m),
      refl,
      refl,
    )
    | no p ↦ inl (lookup-insert_ne Text-discrete other id (fresh now id input) m p)
  ]

  create_row-Created :
      (network id other : Text) (input : CreateBooking) (d : D)
      → Created id other
          (view store (prisma d) other)
          (view store (prisma (create_row store network id input d).1) other)
  unfolding from_database
  create_row-Created network id other input d = elim (Option-cases input.visit_time) [
    | inl invalid ↦ inl (unfold create_row in ground arith)
    | inr (v, given) ↦ elim (insert-cases store (insert_row store network id input v) d) [
      | inl (x, failed) ↦ inl (ground (arith, create_row-eq store network id input v d given))
      | inr (b, d', done, all) ↦
          let (r, same, row, absent, now, others) =
            insert_row-ok store network id input v d d' b done in
          let final : (create_row store network id input d).1 ≡ d' =
            ground (arith, create_row-eq store network id input v d given) in
          rw final (elim (Text-discrete other id) [
            | yes p ↦ inr (
              from_database r,
              p,
              shown store other d' (some r) (rw p now),
              row.pending,
              row.on_chain,
            )
            | no p ↦ inl (shown store other d' _ (others other p))
          ])
    ]
  ]

  pub create-Created :
      (now later : ℕ) (network id other : Text) (input : CreateBooking) (s : Backend D)
      → Created id other
          (view store s other)
          (view store (Workflow.create store now later network id input s).1 other)
  create-Created now later network id other input s =
      elim (create-runs now later network id input s) [
        | inl same ↦ rw same (inl refl)
        | inr ran ↦ rw ran (stored s)
      ]
    where
      stored :
          (x : Backend D)
          → Created id other (view store x other) (
              view store
                (either_backend
                  (create_memory store (fresh later id input))
                  (create_row store network id input)
                  x).1
                other)
      stored (memory m) = create_memory-Created later id other input m
      stored (prisma d) = create_row-Created network id other input d
