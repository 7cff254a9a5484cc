-- ===== src/Booking/Insert.antt =====
-- The database branch of `create` (apps/api/src/booking/booking-workflow.service.ts): what it
-- stores, and that it changes no other row.
use po_vdeposit.Common.{
  ℕ, ◌≡◌, ◌≢◌, refl, ◌⊎◌, inl, inr, none, some, [], Text, ok, err, arith, Option-cases, Action,
  Result,
}
use po_vdeposit.Booking.Types.{pending_funding, Booking, CreateBooking, Error}
use po_vdeposit.Booking.Store.{Store, Stored, NewRow}
use po_vdeposit.Booking.Backend.{on_chain_id, from_database}
use po_vdeposit.Booking.Workflow.{first, insert_row, create_row}

-- The row that the callback asks for.
abbrev pub new_row : Text → CreateBooking → ℕ → Text → Text → Text → Text → NewRow
new_row id input visit_time property_id host_id slot renter = record {
  id = id;
  on_chain_booking_id = on_chain_id id;
  property_id = property_id;
  slot_id = slot;
  renter_id = renter;
  host_id = host_id;
  deposit_amount = input.deposit_amount;
  visit_time = visit_time;
  evidence_hash = input.evidence_hash;
  history_actor = input.renter;
}

-- What the stored row has of the input.
pub record IsStored (id : Text) (input : CreateBooking) (visit_time : ℕ) (r : Stored) : Type 0 where
  pub id_kept : r.id ≡ id
  pub on_chain : r.on_chain_booking_id ≡ on_chain_id id
  pub listing : r.property_slug ≡ input.listing_id
  pub renter : r.renter_address ≡ input.renter
  pub host : r.host_address ≡ input.host
  pub amount : r.deposit_amount ≡ input.deposit_amount
  pub visit : r.visit_time ≡ visit_time
  pub evidence : r.evidence_hash ≡ input.evidence_hash
  pub pending : r.status ≡ pending_funding
  pub unpaid : r.transactions ≡ []

module _ {D : Type 0} (store : Store D) where
  -- A callback that returns has stored one new row, with the input's data.
  pub insert_row-ok :
      (network id : Text) (input : CreateBooking) (visit_time : ℕ) (d d' : D) (b : Booking)
      → insert_row store network id input visit_time d ≡ (ok b, d')
      → (r : Stored) × (b ≡ from_database r)
        × IsStored id input visit_time r
        × (store.find_booking d id ≡ none)
        × (store.find_booking d' id ≡ some r)
        × ((other : Text) → other ≢ id → store.find_booking d' other ≡ store.find_booking d other)
  unfolding insert_row
  insert_row-ok network id input visit_time d d' b e =
      elim (Option-cases (store.find_property input.listing_id input.host visit_time d)) [
        | inl missing ↦ ground arith
        | inr (p, found) ↦ elim (Option-cases (first p.slots)) [
          | inl full ↦ ground arith
          | inr (slot, free) ↦
              let (w, d1) = store.upsert_wallet input.renter network d in
              let n = new_row id input visit_time p.id p.host_id slot w in
              elim (Option-cases (store.create_booking n d1)) [
                | inl refused ↦ ground arith
                | inr ((r, d2), stored) ↦
                    let (now, kept_id, chain, slug, who, host, amount, visit, hash, status, paid) =
                      store.created-row n d1 d2 r stored in
                    let (slug_known, host_known) =
                      store.property-found input.listing_id input.host visit_time d p found in
                    let renter_known = store.wallet-address input.renter network d in
                    let same_slug = store.wallet-keeps_slug input.renter network p.id d in
                    let same_host =
                      store.wallet-keeps_address input.renter network p.host_id input.host d
                        host_known in
                    let same_rows =
                      λ (i : Text). store.wallet-keeps_rows input.renter network i d in
                    let final : (b ≡ from_database r) × (d2 ≡ d') = (ground arith, ground arith) in
                    (
                      r,
                      final.0,
                      record {
                        id_kept = kept_id;
                        on_chain = chain;
                        listing = ground arith;
                        renter = ground arith;
                        host = ground arith;
                        amount = amount;
                        visit = visit;
                        evidence = hash;
                        pending = status;
                        unpaid = paid;
                      },
                      ground (arith, store.created-absent n d1 d2 r stored, same_rows id),
                      ground arith,
                      λ other ne.
                          ground (
                            arith,
                            store.created-others n d1 d2 r other stored ne,
                            same_rows other,
                          ),
                    )
              ]
        ]
      ]

  -- How the transaction of `create` ends.
  pub insert-cases :
      (m : Action D Error Booking) (d : D)
      → ((e : Error) × (store.transaction Booking m d ≡ (err e, d)))
        ⊎ ((b : Booking) × (d' : D) × (m d ≡ (ok b, d'))
            × (store.transaction Booking m d ≡ (ok b, d')))
  insert-cases m d = go (m d) refl
    where
      go :
          (out : Result Error Booking × D)
          → m d ≡ out
          → ((e : Error) × (store.transaction Booking m d ≡ (err e, d)))
            ⊎ ((b : Booking) × (d' : D) × (m d ≡ (ok b, d'))
                × (store.transaction Booking m d ≡ (ok b, d')))
      go (ok b, d') e = inr (b, d', e, ground (arith, store.transaction-atomic Booking m d))
      go (err x, d') e = inl (x, ground (arith, store.transaction-atomic Booking m d))

  -- The database branch of `create` on a valid visit time.
  pub create_row-eq :
      (network id : Text) (input : CreateBooking) (v : ℕ) (d : D)
      → input.visit_time ≡ some v
      → create_row store network id input d
        ≡ store.transaction Booking (insert_row store network id input v) d
  unfolding create_row
  create_row-eq network id input v d e = rw e
