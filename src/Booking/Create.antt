-- ===== src/Booking/Create.antt =====
-- `create` of apps/api/src/booking/booking-workflow.service.ts: what it accepts, what it stores,
-- and the id under which the escrow contract knows the booking.
use po_vdeposit.Common.{
  ℕ, ◌^◌, ◌≤◌, ◌<◌, ◌≡◌, ◌≢◌, refl, inl, inr, true, false, none, some, [], ◌∷◌, ◌||◌, Text,
  Text-discrete, ok, arith, Option-cases, is_hash, is_hex, all, take, length-take-le, all-take,
  not_after,
}
use po_vdeposit.Common.Int.{pos, pos_part}
use po_vdeposit.Common.Numerals.{hex_value, hex_value-u64, decimal}
use po_vdeposit.Common.Dict.{lookup-insert_self}
use po_vdeposit.Booking.Types.{pending_funding, CreateBooking, Booking}
use po_vdeposit.Booking.Store.{Store}
use po_vdeposit.Booking.Backend.{
  Backend, memory, prisma, on_chain_id, is_dash, without_dashes, from_database,
}
use po_vdeposit.Booking.Workflow.{max_amount, insert_row, create_row, create}
use po_vdeposit.Booking.Insert.{insert_row-ok, insert-cases, create_row-eq}
use po_vdeposit.Booking.Requests.{view}

-- What the guards of `create` establish of the input.
pub record IsAcceptable (now : ℕ) (input : CreateBooking) : Type 0 where
  pub parties : input.renter ≢ input.host
  pub amount : (n : ℕ) × (input.deposit_amount ≡ pos n) × (0 < n) × (n ≤ max_amount)
  pub later : not_after input.visit_time (some now) ≡ false
  pub hashed : is_hash input.evidence_hash ≡ true

-- What the caller gets: the input, pending, under the id and the contract's id that follow from it.
pub record IsCreated (id : Text) (input : CreateBooking) (b : Booking) : Type 0 where
  pub input_kept : b.input ≡ input
  pub id_kept : b.id ≡ id
  pub on_chain : b.on_chain_booking_id ≡ on_chain_id id
  pub pending : b.state ≡ pending_funding
  pub unfunded : b.funding_transaction_hash ≡ none
  pub unsettled : b.settlement_transaction_hash ≡ none

module _ {D : Type 0} (store : Store D) where
  create-IsAcceptable :
      (now later : ℕ) (network id : Text) (input : CreateBooking) (s s' : Backend D) (b : Booking)
      → create store now later network id input s ≡ (ok b, s')
      → IsAcceptable now input
  unfolding create
  create-IsAcceptable now later network id input s s' b e = record {
    parties = ground arith;
    amount = (pos_part input.deposit_amount, ground arith, ground arith, ground arith);
    later = ground arith;
    hashed = ground arith;
  }

  create_row-ok :
      (network id : Text) (input : CreateBooking) (d d' : D) (b : Booking)
      → create_row store network id input d ≡ (ok b, d')
      → IsCreated id input b × (view store (prisma d') id ≡ some b)
  unfolding from_database
  create_row-ok network id input d d' b e = elim (Option-cases input.visit_time) [
    | inl invalid ↦ unfold create_row in ground arith
    | inr (v, given) ↦ elim (insert-cases store (insert_row store network id input v) d) [
      | inl (x, failed) ↦ ground (arith, create_row-eq store network id input v d given)
      | inr (b', d1, done, all_done) ↦
          let (r, same, row, absent, now, others) =
            insert_row-ok store network id input v d d1 b' done in
          let final : (b' ≡ b) × (d1 ≡ d') = (
            ground (arith, create_row-eq store network id input v d given),
            ground (arith, create_row-eq store network id input v d given),
          ) in
          (
            record {
              input_kept = ground arith;
              id_kept = ground arith;
              on_chain = ground arith;
              pending = ground arith;
              unfunded = ground arith;
              unsettled = ground arith;
            },
            ground arith,
          )
    ]
  ]

  create-IsCreated :
      (now later : ℕ) (network id : Text) (input : CreateBooking) (s s' : Backend D) (b : Booking)
      → create store now later network id input s ≡ (ok b, s')
      → IsCreated id input b × (view store s' id ≡ some b)
  unfolding create
  create-IsCreated now later network id input (memory m) s' b e = (
    record {
      input_kept = ground arith;
      id_kept = ground arith;
      on_chain = ground arith;
      pending = ground arith;
      unfunded = ground arith;
      unsettled = ground arith;
    },
    ground (arith, lookup-insert_self Text-discrete id b m),
  )
  create-IsCreated now later network id input (prisma d) s' b e =
      let d' = (create_row store network id input d).1 in
      let final : (create_row store network id input d ≡ (ok b, d')) × (s' ≡ prisma d') =
        (ground arith, ground arith) in
      rw (final.1) (create_row-ok network id input d d' b final.0)

  -- A booking that is created, over the `Map` or in the database, was asked for by a renter who is
  -- not the host, with an amount from 1 to 100,000,000,000 stroops, a visit time that is not known
  -- to be past and an evidence hash of 64 hexadecimal digits. What is returned and then found under
  -- the new id has exactly the given data, awaits funding and has no transaction on record.
  pub create-ok :
      (now later : ℕ) (network id : Text) (input : CreateBooking) (s s' : Backend D) (b : Booking)
      → create store now later network id input s ≡ (ok b, s')
      → IsAcceptable now input × IsCreated id input b × (view store s' id ≡ some b)
  create-ok now later network id input s s' b e =
      let (created, found) = create-IsCreated now later network id input s s' b e in
      (create-IsAcceptable now later network id input s s' b e, created, found)

all-without_dashes :
    (s : Text) → all (λ c. is_hex c || is_dash c) s ≡ true → all is_hex (without_dashes s) ≡ true
all-without_dashes [] h = refl
all-without_dashes (c ∷ s) h = ground (arith, all-without_dashes s)

-- The id of a booking for the escrow contract, which is made from a UUID, is the decimal form of a
-- number that fits the contract's `u64`.
pub on_chain_id-u64 :
    (id : Text)
    → all (λ c. is_hex c || is_dash c) id ≡ true
    → (n : ℕ) × (on_chain_id id ≡ decimal n) × (n < 2 ^ 64)
unfolding on_chain_id
on_chain_id-u64 id h = (
  hex_value (take 16 (without_dashes id)),
  refl,
  hex_value-u64 _ (all-take is_hex 16 (without_dashes id) (all-without_dashes id h))
      (length-take-le 16 (without_dashes id)),
)
