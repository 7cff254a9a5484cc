-- ===== src/Booking/Results.antt =====
-- What the database branches of apps/api/src/booking/booking-workflow.service.ts return when they
-- succeed, on whatever snapshot: the row fitted when they committed, and the result is that row
-- after the change.
use po_vdeposit.Common.{◌≡◌, ◌≢◌, refl, inl, inr, true, Option, none, some, Text, ok, arith, ◌>>◌}
use po_vdeposit.Booking.Types
use po_vdeposit.Booking.Types.{
  BookingState, pending_funding, funded, checked_in, completed, refunded, Booking, Verification,
}
use po_vdeposit.Booking.Store.{
  Store, Stored, TransactionKind, Change, changed, with_payment, Where, fits, History,
}
use po_vdeposit.Booking.Backend.{from_database, get_row}
use po_vdeposit.Booking.Workflow.{
  fund_body, fund_row, check_in_row, refund_body, refund_row, confirm_row,
}
use po_vdeposit.Booking.Rows.{
  payment_of, history_of, fund_where, refund_where, check_in_where, confirm_where, to_status,
  commit-ok, touch_lem, touch,
}
use po_vdeposit.Booking.Machine.{with_proof, transact-cases}

module _ {D : Type 0} (store : Store D) where
  -- The row of `id` was `r`, is now `r'`, and is what the call returned; no other row changed.
  pub record Became (id : Text) (d d' : D) (b : Booking) (r r' : Stored) : Type 0 where
    pub before : store.find_booking d id ≡ some r
    pub after : store.find_booking d' id ≡ some r'
    pub returned : b ≡ from_database r'
    pub others :
        (other : Text) → other ≢ id → store.find_booking d' other ≡ store.find_booking d other

  get_row-found :
      (id : Text) (d : D) (r : Stored)
      → store.find_booking d id ≡ some r
      → get_row store id d ≡ (ok (from_database r), d)
  unfolding get_row
  get_row-found id d r found = ground arith

  -- A `fund` that succeeds found the row awaiting funding when it committed, and had the verified
  -- metadata: the row is funded now and has the payment on record.
  pub fund_row-ok :
      (id : Text) (booking : Booking) (hash : Text) (v : Option Verification) (d d' : D)
      (b : Booking)
      → fund_row store id booking hash v d ≡ (ok b, d')
      → (w : Verification) × (r : Stored) × (v ≡ some w)
        × (r.status ≡ pending_funding)
        × Became id d d' b r (
            with_payment
              (payment_of id booking hash TransactionKind.fund w)
              (changed (store.stamp d) (to_status funded) r))
  unfolding fund_row
  fund_row-ok id booking hash none d d' b e = cc
  fund_row-ok id booking hash (some w) d d' b e =
      elim (transact-cases store (fund_body store id booking hash w) (get_row store id) d) [
        | inl (x, failed) ↦ ground arith
        | inr (d1, done, next) ↦
            let (r, found, fit, now, others) =
              commit-ok store (fund_where id) (to_status funded) Types.not_awaiting_funding
                (payment_of id booking hash TransactionKind.fund w)
                (history_of id pending_funding funded booking.input.renter (some hash)) d d1 refl
                (unfold fund_body in done) in
            let same : d1 ≡ d' = ground (arith, get_row-found id d1 _ now) in
            (
              w,
              r,
              refl,
              ground arith,
              record {
                before = found;
                after = ground arith;
                returned = ground (arith, get_row-found id d1 _ now);
                others = λ other ne. ground (arith, others other ne);
              },
            )
      ]

  -- A `refund` that succeeds found the row funded when it committed, had the verified metadata,
  -- and the actor was the row's renter: the row is refunded now and has the payment on record.
  pub refund_row-ok :
      (id actor : Text) (booking : Booking) (hash : Text) (v : Option Verification) (d d' : D)
      (b : Booking)
      → refund_row store id actor booking hash v d ≡ (ok b, d')
      → (w : Verification) × (r : Stored) × (v ≡ some w)
        × (r.status ≡ funded)
        × (r.renter_address ≡ actor)
        × Became id d d' b r (
            with_payment
              (payment_of id booking hash TransactionKind.refund w)
              (changed (store.stamp d) (to_status refunded) r))
  unfolding refund_row
  refund_row-ok id actor booking hash none d d' b e = cc
  refund_row-ok id actor booking hash (some w) d d' b e =
      elim (transact-cases store (refund_body store id actor booking hash w) (get_row store id) d) [
        | inl (x, failed) ↦ ground arith
        | inr (d1, done, next) ↦
            let (r, found, fit, now, others) =
              commit-ok store (refund_where id actor) (to_status refunded) Types.cannot_be_refunded
                (payment_of id booking hash TransactionKind.refund w)
                (history_of id funded refunded actor (some hash)) d d1 refl
                (unfold refund_body in done) in
            let same : d1 ≡ d' = ground (arith, get_row-found id d1 _ now) in
            (
              w,
              r,
              refl,
              ground arith,
              ground arith,
              record {
                before = found;
                after = ground arith;
                returned = ground (arith, get_row-found id d1 _ now);
                others = λ other ne. ground (arith, others other ne);
              },
            )
      ]

  touch-ok :
      (w : Where) (c : Change) (e : Types.Error) (h : History) (d d' : D) (b : Booking)
      → (touch store w c e h >> get_row store w.id) d ≡ (ok b, d')
      → (r : Stored) × (fits w r ≡ true) × Became w.id d d' b r (changed (store.stamp d) c r)
  touch-ok w c e h d d' b done = elim (touch_lem store w c e h d) [
    | inl (failed, same) ↦ ground arith
    | inr (r, found, fit, now, others) ↦
        let d1 = (touch store w c e h d).1 in
        let same : d1 ≡ d' = ground (arith, get_row-found w.id d1 _ now) in
        (
          r,
          fit,
          record {
            before = found;
            after = ground arith;
            returned = ground (arith, get_row-found w.id d1 _ now);
            others = λ other ne. ground (arith, others other ne);
          },
        )
  ]

  check_in_row-eq :
      (id actor proof : Text) (d : D)
      → check_in_row store id actor proof d
        ≡ (touch store
                (check_in_where id actor)
                (with_proof proof)
                Types.cannot_be_checked_in
                (history_of id funded checked_in actor none)
              >> get_row store id)
            d
  unfolding check_in_row
  check_in_row-eq id actor proof d = ground arith

  confirm_row-eq :
      (id actor hash : Text) (d : D)
      → confirm_row store id actor hash d
        ≡ (touch store
                (confirm_where id actor)
                (to_status completed)
                Types.cannot_be_confirmed
                (history_of id checked_in completed actor (some hash))
              >> get_row store id)
            d
  unfolding confirm_row
  confirm_row-eq id actor hash d = ground arith

  -- A check-in that succeeds found the row funded and the actor its renter: the row is checked in
  -- now, with the proof's hash.
  pub check_in_row-ok :
      (id actor proof : Text) (d d' : D) (b : Booking)
      → check_in_row store id actor proof d ≡ (ok b, d')
      → (r : Stored) × (r.status ≡ funded)
        × (r.renter_address ≡ actor)
        × Became id d d' b r (changed (store.stamp d) (with_proof proof) r)
  check_in_row-ok id actor proof d d' b e =
      let (r, fit, became) =
        touch-ok (check_in_where id actor) (with_proof proof) Types.cannot_be_checked_in
          (history_of id funded checked_in actor none) d d' b
          (rw (check_in_row-eq id actor proof d) at e) in
      (r, ground arith, ground arith, became)

  -- A confirmation that succeeds found the row checked in and the actor its host: the row is
  -- completed now. It adds no payment to the row.
  pub confirm_row-ok :
      (id actor hash : Text) (d d' : D) (b : Booking)
      → confirm_row store id actor hash d ≡ (ok b, d')
      → (r : Stored) × (r.status ≡ checked_in)
        × (r.host_address ≡ actor)
        × Became id d d' b r (changed (store.stamp d) (to_status completed) r)
  confirm_row-ok id actor hash d d' b e =
      let (r, fit, became) =
        touch-ok (confirm_where id actor) (to_status completed) Types.cannot_be_confirmed
          (history_of id checked_in completed actor (some hash)) d d' b
          (rw (confirm_row-eq id actor hash d) at e) in
      (r, ground arith, ground arith, became)
