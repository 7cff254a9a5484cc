-- ===== src/Booking/Rows.antt =====
-- What the transactions of `fund` and `refund` and the updates of `checkIn` and `confirm`
-- (apps/api/src/booking/booking-workflow.service.ts) do to the rows of the database.
use po_vdeposit.Common.{
  ◌≡◌, ◌≢◌, true, ◌⊎◌, inl, inr, Option, none, some, Text, ok, err, arith, Option-cases, Bool-cases,
  Action, not, throw_if, ◌==◌, ◌>>=◌, ◌>>◌,
}
use po_vdeposit.Booking.Types
use po_vdeposit.Booking.Types.{
  pending_funding, funded, checked_in, completed, refunded, Booking, Verification,
}
use po_vdeposit.Booking.Store.{
  Store, Stored, Where, Change, Payment, History, TransactionKind, fits, changed, with_payment,
}
use po_vdeposit.Booking.Backend.{update_rows, or_rejected}

abbrev pub payment_of : Text → Booking → Text → TransactionKind → Verification → Payment
payment_of id booking hash kind v = record {
  booking_id = id;
  hash = hash;
  kind = kind;
  amount = booking.input.deposit_amount;
  ledger = v.ledger;
  confirmed_at = v.confirmed_at;
}

abbrev pub history_of :
    Text → Types.BookingState → Types.BookingState → Text → Option Text → History
history_of id from to actor hash = record {
  booking_id = id;
  before = some from;
  after = to;
  actor = actor;
  tx_hash = hash;
}

abbrev pub fund_where : Text → Where
fund_where id = record { id = id; status = pending_funding; renter = none; host = none }

abbrev pub refund_where : Text → Text → Where
refund_where id actor = record { id = id; status = funded; renter = some actor; host = none }

abbrev pub check_in_where : Text → Text → Where
check_in_where id actor = record { id = id; status = funded; renter = some actor; host = none }

abbrev pub confirm_where : Text → Text → Where
confirm_where id actor = record { id = id; status = checked_in; renter = none; host = some actor }

abbrev pub to_status : Types.BookingState → Change
to_status st = record { status = st; check_in_proof_hash = none }

module _ {D : Type 0} (store : Store D) where
  -- An update by an id that finds a row which fits changes that row and no other.
  pub update-hit :
      (w : Where) (c : Change) (d : D) (r : Stored)
      → store.find_booking d w.id ≡ some r
      → fits w r ≡ true
      → ((store.update_many w c d).0 ≡ 1)
        × (store.find_booking (store.update_many w c d).1 w.id ≡ some (changed (store.stamp d) c r))
        × ((other : Text)
            → other ≢ w.id
            → store.find_booking (store.update_many w c d).1 other ≡ store.find_booking d other)
  update-hit w c d r found fit = (
    ground (arith, store.update-count w c d),
    ground (arith, store.update-find w c d w.id),
    λ other ne. ground (arith, store.update-find w c d other),
  )

  -- An update that must hit, a payment and a history entry: the shape of both transactions.
  abbrev pub commit :
      Where → Change → Types.Error → Payment → History → Action D Types.Error (Unit {0})
  commit w c e p h = do
    count ← update_rows store w c
    throw_if (not (count == 1)) e
    or_rejected store (store.create_payment p)
    or_rejected store (store.create_history h)

  -- It commits only on a row that fits at that moment, and then writes the change and the payment
  -- to that row and nothing to the others.
  pub commit-ok :
      (w : Where) (c : Change) (e : Types.Error) (p : Payment) (h : History) (d d' : D)
      → p.booking_id ≡ w.id
      → commit w c e p h d ≡ (ok tt, d')
      → (r : Stored) × (store.find_booking d w.id ≡ some r)
        × (fits w r ≡ true)
        × (store.find_booking d' w.id ≡ some (with_payment p (changed (store.stamp d) c r)))
        × ((other : Text) → other ≢ w.id → store.find_booking d' other ≡ store.find_booking d other)
  commit-ok w c e p h d d' same done = elim (Option-cases (store.find_booking d w.id)) [
    | inl missing ↦ ground (arith, store.update-count w c d)
    | inr (r, found) ↦ elim (Bool-cases (fits w r)) [
      | inr miss ↦ ground (arith, store.update-count w c d)
      | inl fit ↦
          let d1 = (store.update_many w c d).1 in
          elim (Option-cases (store.create_payment p d1)) [
            | inl refused ↦ ground (arith, store.update-count w c d)
            | inr (d2, paid) ↦ elim (Option-cases (store.create_history h d2)) [
              | inl refused ↦ ground (arith, store.update-count w c d)
              | inr (d3, noted) ↦
                  let (n, here_row, others) = update-hit w c d r found fit in
                  let final : d3 ≡ d' = ground (arith, store.update-count w c d) in
                  (
                    r,
                    found,
                    fit,
                    ground (
                      arith,
                      store.history-find h d2 d3 w.id noted,
                      store.payment-find p d1 d2 w.id paid,
                    ),
                    λ other ne. ground (
                      arith,
                      others other ne,
                      store.history-find h d2 d3 other noted,
                      store.payment-find p d1 d2 other paid,
                    ),
                  )
            ]
          ]
    ]
  ]

  -- An update that must hit and a history entry, in no transaction: the shape of `checkIn` and
  -- `confirm`.
  abbrev pub touch : Where → Change → Types.Error → History → Action D Types.Error (Unit {0})
  touch w c e h = do
    count ← update_rows store w c
    throw_if (not (count == 1)) e
    or_rejected store (store.create_history h)

  -- Either it fails and no row has changed, or the row fitted at that moment and has the change,
  -- whether or not the history entry was then accepted.
  pub touch_lem :
      (w : Where) (c : Change) (e : Types.Error) (h : History) (d : D)
      → let (result, d') = touch w c e h d in
        ((result ≡ err e)
          × ((other : Text) → store.find_booking d' other ≡ store.find_booking d other))
        ⊎ ((r : Stored) × (store.find_booking d w.id ≡ some r)
            × (fits w r ≡ true)
            × (store.find_booking d' w.id ≡ some (changed (store.stamp d) c r))
            × ((other : Text)
                → other ≢ w.id
                → store.find_booking d' other ≡ store.find_booking d other))
  touch_lem w c e h d = elim (Option-cases (store.find_booking d w.id)) [
    | inl missing ↦ inl (
      ground (arith, store.update-count w c d),
      λ other. ground (arith, store.update-count w c d, store.update-find w c d other),
    )
    | inr (r, found) ↦ elim (Bool-cases (fits w r)) [
      | inr miss ↦ inl (
        ground (arith, store.update-count w c d),
        λ other. ground (arith, store.update-count w c d, store.update-find w c d other),
      )
      | inl fit ↦
          let d1 = (store.update_many w c d).1 in
          let (n, here_row, others) = update-hit w c d r found fit in
          elim (Option-cases (store.create_history h d1)) [
            | inl refused ↦
                inr (r, found, fit, ground arith, λ other ne. ground (arith, others other ne))
            | inr (d2, noted) ↦ inr (
              r,
              found,
              fit,
              ground (arith, store.history-find h d1 d2 w.id noted),
              λ other ne. ground (arith, others other ne, store.history-find h d1 d2 other noted),
            )
          ]
    ]
  ]
