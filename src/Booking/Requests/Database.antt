-- ===== src/Booking/Requests/Database.antt =====
-- Requests to `BookingWorkflowService` (apps/api/src/booking/booking-workflow.service.ts) over its
-- database.
use po_vdeposit.Common.{
  ℕ, ◌≡◌, refl, sym, subst, inl, inr, true, Option, some, Text, ok, arith, Option-cases, is_hash,
}
use po_vdeposit.Booking.Types.{Booking, Verification}
use po_vdeposit.Booking.Store.{Store, Stored}
use po_vdeposit.Booking.Backend.{Backend, prisma, from_database}
use po_vdeposit.Booking.Workflow
use po_vdeposit.Booking.Workflow.{fund_row, check_in_row, refund_row, confirm_row}
use po_vdeposit.Booking.Results.{
  Became, fund_row-ok, refund_row-ok, check_in_row-ok, confirm_row-ok,
}
use po_vdeposit.Booking.Requests.{
  Request, fund, check_in, refund, confirm, target, source_state, target_state, MayAsk, Records,
  evidence, serve, Advances,
}

module _ {D : Type 0} (store : Store D) where
  -- A row that became another one, with the same deal, is an advance of the booking that it shows.
  Became-Advances :
      (q : Request) (d d' : D) (b : Booking) (r r' : Stored)
      → Became store (target q) d d' b r r'
      → r.status ≡ source_state q
      → MayAsk q (from_database r)
      → is_hash (evidence q) ≡ true
      → r'.status ≡ target_state q
      → Records q (from_database r')
      → (from_database r').input ≡ (from_database r).input
      → (r'.id ≡ r.id)
      → (r'.on_chain_booking_id ≡ r.on_chain_booking_id)
      → Advances store q (prisma d) (prisma d') b (from_database r)
  unfolding from_database
  Became-Advances q d d' b r r' became st may hashed st' records input same same' = record {
    before = ground arith;
    allowed = st;
    actor = may;
    hashed = hashed;
    reached = ground arith;
    recorded = subst (Records q) (sym became.returned) records;
    same_deal = ground arith;
    same_id = (ground arith, ground arith);
    after = ground arith;
    others = λ other ne. rw (became.others other ne) refl;
  }

  -- Over the database: past its guards an operation runs its branch, on the row that it has read.
  fund-runs :
      (now : ℕ) (id hash : Text) (v : Option Verification) (d : D) (s' : Backend D) (b : Booking)
      → Workflow.fund store now id hash v (prisma d) ≡ (ok b, s')
      → (r : Stored) × (d' : D) × (store.find_booking d id ≡ some r)
        × (is_hash hash ≡ true)
        × (fund_row store id (from_database r) hash v d ≡ (ok b, d'))
        × (s' ≡ prisma d')
  unfolding Workflow.fund
  fund-runs now id hash v d s' b e = elim (Option-cases (store.find_booking d id)) [
    | inl missing ↦ ground arith
    | inr (r, found) ↦ (
      r,
      (fund_row store id (from_database r) hash v d).1,
      found,
      ground arith,
      ground arith,
      ground arith,
    )
  ]

  check_in-runs :
      (now : ℕ) (id actor proof : Text) (d : D) (s' : Backend D) (b : Booking)
      → Workflow.check_in store now id actor proof (prisma d) ≡ (ok b, s')
      → (r : Stored) × (d' : D) × (store.find_booking d id ≡ some r)
        × (is_hash proof ≡ true)
        × (check_in_row store id actor proof d ≡ (ok b, d'))
        × (s' ≡ prisma d')
  unfolding Workflow.check_in
  check_in-runs now id actor proof d s' b e = elim (Option-cases (store.find_booking d id)) [
    | inl missing ↦ ground arith
    | inr (r, found) ↦ (
      r,
      (check_in_row store id actor proof d).1,
      found,
      ground arith,
      ground arith,
      ground arith,
    )
  ]

  refund-runs :
      (now : ℕ) (id actor hash : Text) (v : Option Verification) (d : D) (s' : Backend D)
      (b : Booking)
      → Workflow.refund store now id actor hash v (prisma d) ≡ (ok b, s')
      → (r : Stored) × (d' : D) × (store.find_booking d id ≡ some r)
        × (is_hash hash ≡ true)
        × (refund_row store id actor (from_database r) hash v d ≡ (ok b, d'))
        × (s' ≡ prisma d')
  unfolding Workflow.refund
  refund-runs now id actor hash v d s' b e = elim (Option-cases (store.find_booking d id)) [
    | inl missing ↦ ground arith
    | inr (r, found) ↦ (
      r,
      (refund_row store id actor (from_database r) hash v d).1,
      found,
      ground arith,
      ground arith,
      ground arith,
    )
  ]

  confirm-runs :
      (now : ℕ) (id actor hash : Text) (d : D) (s' : Backend D) (b : Booking)
      → Workflow.confirm store now id actor hash (prisma d) ≡ (ok b, s')
      → (r : Stored) × (d' : D) × (store.find_booking d id ≡ some r)
        × (is_hash hash ≡ true)
        × (confirm_row store id actor hash d ≡ (ok b, d'))
        × (s' ≡ prisma d')
  unfolding Workflow.confirm
  confirm-runs now id actor hash d s' b e = elim (Option-cases (store.find_booking d id)) [
    | inl missing ↦ ground arith
    | inr (r, found) ↦
        (r, (confirm_row store id actor hash d).1, found, ground arith, ground arith, ground arith)
  ]

  pub serve-prisma :
      (now : ℕ) (q : Request) (d : D) (s' : Backend D) (b : Booking)
      → serve store now q (prisma d) ≡ (ok b, s')
      → (old : Booking) × Advances store q (prisma d) s' b old
  unfolding from_database
  serve-prisma now (fund id hash v) d s' b e =
      let (r0, d', found, hashed, done, final) = fund-runs now id hash v d s' b e in
      let (w, r, given, st, became) = fund_row-ok store id (from_database r0) hash v d d' b done in
      (
        from_database r,
        subst (λ x. Advances store (fund id hash v) (prisma d) x b (from_database r)) (sym final)
            (Became-Advances (fund id hash v) d d' b r _ became st tt hashed refl tt refl refl
              refl),
      )
  serve-prisma now (check_in id actor proof) d s' b e =
      let (r0, d', found, hashed, done, final) = check_in-runs now id actor proof d s' b e in
      let (r, st, who, became) = check_in_row-ok store id actor proof d d' b done in
      (
        from_database r,
        subst (λ x. Advances store (check_in id actor proof) (prisma d) x b (from_database r))
            (sym final)
            (Became-Advances (check_in id actor proof) d d' b r _ became st who hashed refl refl
              refl refl refl),
      )
  serve-prisma now (refund id actor hash v) d s' b e =
      let (r0, d', found, hashed, done, final) = refund-runs now id actor hash v d s' b e in
      let (w, r, given, st, who, became) =
        refund_row-ok store id actor (from_database r0) hash v d d' b done in
      (
        from_database r,
        subst (λ x. Advances store (refund id actor hash v) (prisma d) x b (from_database r))
            (sym final)
            (Became-Advances (refund id actor hash v) d d' b r _ became st who hashed refl tt refl
              refl refl),
      )
  serve-prisma now (confirm id actor hash) d s' b e =
      let (r0, d', found, hashed, done, final) = confirm-runs now id actor hash d s' b e in
      let (r, st, who, became) = confirm_row-ok store id actor hash d d' b done in
      (
        from_database r,
        subst (λ x. Advances store (confirm id actor hash) (prisma d) x b (from_database r))
            (sym final)
            (Became-Advances (confirm id actor hash) d d' b r _ became st who hashed refl tt refl
              refl refl),
      )
