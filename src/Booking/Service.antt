-- ===== src/Booking/Service.antt =====
-- `BookingWorkflowService` (apps/api/src/booking/booking-workflow.service.ts) against its state
-- machine, with its bookings in the `Map` or in the database alike.
use po_vdeposit.Common.{ℕ, ◌≡◌, ok}
use po_vdeposit.Booking.Types.{Booking}
use po_vdeposit.Booking.Store.{Store}
use po_vdeposit.Booking.Backend.{Backend, memory, prisma}
use po_vdeposit.Booking.Requests.{Request, serve, Advances}
use po_vdeposit.Booking.Requests.Memory.{serve-memory}
use po_vdeposit.Booking.Requests.Database.{serve-prisma}

module _ {D : Type 0} (store : Store D) where
  -- An operation that succeeds, over the `Map` or over the database, found the booking in the state
  -- that its edge leaves, was asked by the booking's renter for a check-in or a refund, by its
  -- host for a confirmation and by anybody for a funding, and was given a hash of 64 hexadecimal
  -- digits. The booking that it returns is the one that is found afterwards, in the
  -- state that the edge enters, with the same ids, parties, amount, time and evidence; after a
  -- check-in it shows the hash that was given as its proof. All other bookings are as they were.
  pub serve-Advances :
      (now : ℕ) (q : Request) (s s' : Backend D) (b : Booking)
      → serve store now q s ≡ (ok b, s')
      → (old : Booking) × Advances store q s s' b old
  serve-Advances now q (memory m) s' b e = serve-memory store now q m s' b e
  serve-Advances now q (prisma d) s' b e = serve-prisma store now q d s' b e
