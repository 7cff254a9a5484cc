-- ===== src/Booking/Evidence.antt =====
-- The transaction hashes that apps/api/src/booking/booking-workflow.service.ts shows of a booking,
-- over the `Map` and over the database.
use po_vdeposit.Common.{ℕ, ◌≡◌, refl, subst, Option, none, some, Text, ok, err, arith}
use po_vdeposit.Booking.Types
use po_vdeposit.Booking.Types.{BookingState, Booking, Verification}
use po_vdeposit.Booking.Store.{Store, Stored, changed}
use po_vdeposit.Booking.Backend.{Backend, memory, Bookings, from_database}
use po_vdeposit.Booking.Workflow
use po_vdeposit.Booking.Rows.{check_in_where, history_of, update-hit}
use po_vdeposit.Booking.Machine.{with_proof}
use po_vdeposit.Booking.Commits.{IsRecorded, Payments}
use po_vdeposit.Booking.Results.{fund_row-ok, refund_row-ok, confirm_row-ok}

-- What a booking shows in each state, when its row has the payments of that state.
abbrev pub Shows : BookingState → Booking → Type 0
Shows Types.pending_funding b =
    (b.funding_transaction_hash ≡ none) × (b.settlement_transaction_hash ≡ none)
Shows Types.refunded b =
    (h h' : Text) × (b.funding_transaction_hash ≡ some h)
    × (b.settlement_transaction_hash ≡ some h')
Shows _ b =
    (h : Text) × (b.funding_transaction_hash ≡ some h) × (b.settlement_transaction_hash ≡ none)

Payments-Shows :
    (st : BookingState) (r : Stored) → Payments st r.transactions → Shows st (from_database r)
unfolding from_database
Payments-Shows Types.pending_funding r h = (ground arith, ground arith)
Payments-Shows Types.refunded r (h, h', e) = (h, h', ground arith, ground arith)
Payments-Shows Types.funded r (h, e) = (h, ground arith, ground arith)
Payments-Shows Types.checked_in r (h, e) = (h, ground arith, ground arith)
Payments-Shows Types.completed r (h, e) = (h, ground arith, ground arith)
Payments-Shows _ r h = absurd h

-- In a row whose payments are those of its state, the hashes that are shown follow from the state:
-- none before funding, then the funding hash alone, also once the booking is completed, and the
-- refund's hash beside it once it is refunded.
pub from_database-Shows :
    (r : Stored) → IsRecorded (some r) → Shows (from_database r).state (from_database r)
unfolding from_database
from_database-Shows r h = Payments-Shows r.status r h

module _ {D : Type 0} (store : Store D) where
  -- Where the payments of a row are those of its state, a funding that succeeds in the database
  -- shows its hash as the funding transaction, and no settlement transaction.
  pub fund_row-hash :
      (id : Text) (booking : Booking) (hash : Text) (v : Option Verification) (d d' : D)
      (b : Booking)
      → IsRecorded (store.find_booking d id)
      → Workflow.fund_row store id booking hash v d ≡ (ok b, d')
      → (b.funding_transaction_hash ≡ some hash) × (b.settlement_transaction_hash ≡ none)
  unfolding from_database
  fund_row-hash id booking hash v d d' b h e =
      let (w, r, given, st, became) = fund_row-ok store id booking hash v d d' b e in
      let paid : Payments Types.pending_funding r.transactions =
        subst (λ x. Payments x r.transactions) st (rw (became.before) at h) in
      (ground arith, ground arith)

  -- Where the payments of a row are those of its state, a refund that succeeds in the database
  -- shows its own hash as the settlement transaction.
  pub refund_row-hash :
      (id actor : Text) (booking : Booking) (hash : Text) (v : Option Verification) (d d' : D)
      (b : Booking)
      → IsRecorded (store.find_booking d id)
      → Workflow.refund_row store id actor booking hash v d ≡ (ok b, d')
      → b.settlement_transaction_hash ≡ some hash
  unfolding from_database
  refund_row-hash id actor booking hash v d d' b h e =
      let (w, r, given, st, who, became) = refund_row-ok store id actor booking hash v d d' b e in
      let (first, paid) = subst (λ x. Payments x r.transactions) st (rw (became.before) at h) in
      ground arith

  -- Where the payments of a row are those of its state, a confirmation that succeeds in the
  -- database completes the booking, and shows no settlement transaction whatever hash it was
  -- given.
  pub confirm_row-no_hash :
      (id actor hash : Text) (d d' : D) (b : Booking)
      → IsRecorded (store.find_booking d id)
      → Workflow.confirm_row store id actor hash d ≡ (ok b, d')
      → (b.state ≡ Types.completed) × (b.settlement_transaction_hash ≡ none)
  unfolding from_database
  confirm_row-no_hash id actor hash d d' b h e =
      let (r, st, who, became) = confirm_row-ok store id actor hash d d' b e in
      let (first, paid) = subst (λ x. Payments x r.transactions) st (rw (became.before) at h) in
      (ground arith, ground arith)

  -- Over the `Map` the same operation shows the hash.
  pub confirm_memory-hash :
      (now : ℕ) (id actor hash : Text) (m : Bookings) (s' : Backend D) (b : Booking)
      → Workflow.confirm store now id actor hash (memory m) ≡ (ok b, s')
      → (b.state ≡ Types.completed) × (b.settlement_transaction_hash ≡ some hash)
  unfolding Workflow.confirm
  confirm_memory-hash now id actor hash m s' b e = (ground arith, ground arith)

  -- Where the row is funded, the actor is its renter and the history entry of the check-in is
  -- rejected, the caller gets an error and the row is checked in all the same.
  pub check_in_row-partial :
      (id actor proof : Text) (d : D) (r : Stored)
      → store.find_booking d id ≡ some r
      → r.status ≡ Types.funded
      → r.renter_address ≡ actor
      → ((d1 : D)
          → store.create_history (history_of id Types.funded Types.checked_in actor none) d1 ≡ none)
      → let (result, d') = Workflow.check_in_row store id actor proof d in
        (result ≡ err Types.query_rejected)
        × ((r' : Stored) × (store.find_booking d' id ≡ some r') × (r'.status ≡ Types.checked_in))
  unfolding Workflow.check_in_row
  check_in_row-partial id actor proof d r found st who rejects =
      let hit =
        update-hit store (check_in_where id actor) (with_proof proof) d r found
          (ground (arith, store.find-id d id r found)) in
      let d1 = (store.update_many (check_in_where id actor) (with_proof proof) d).1 in
      (
        ground (arith, hit.0, rejects d1),
        (
          changed (store.stamp d) (with_proof proof) r,
          ground (arith, hit.0, hit.1, rejects d1),
          refl,
        ),
      )
