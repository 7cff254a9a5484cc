-- ===== src/Booking/Store.antt =====
-- The database as the API uses it through Prisma: the rows of apps/api/prisma/schema.prisma, the
-- queries as an interface over the states `D`, and what the services rely on of them.
use po_vdeposit.Common.{
  ℕ, ◌+◌, ◌≡◌, ◌≢◌, ◌≤◌, Bool, true, false, ◌&&◌, Option, none, some, List, [], ◌∷◌, ◌++◌, Text,
  ◌===◌, ok, err, Action, if◌then◌else◌, length,
}
use po_vdeposit.Common.Int.{ℤ}
use mathlib.Core.Option
use po_vdeposit.Booking.Types.{BookingState, BookingState-discrete, pending_funding, Error}

pub data TransactionKind : Type 0 where
  fund refund release split : TransactionKind

pub record Transaction : Type 0 where
  pub hash : Text
  pub kind : TransactionKind

-- A row of `Booking` with the relations that the service includes.
pub record Stored : Type 0 where
  pub id : Text
  pub on_chain_booking_id : Text
  pub property_slug : Text
  pub renter_address : Text
  pub host_address : Text
  pub deposit_amount : ℤ
  pub visit_time : ℕ
  pub evidence_hash : Text
  pub check_in_proof_hash : Option Text
  pub status : BookingState
  pub version : ℕ
  pub created_at : ℕ
  pub updated_at : ℕ
  pub transactions : List Transaction

-- The `where` of `booking.updateMany`: the id, the status, and the renter's or host's address.
pub record Where : Type 0 where
  pub id : Text
  pub status : BookingState
  pub renter : Option Text
  pub host : Option Text

-- Its `data`: the new status, a proof hash where one is given; the version goes up by one.
pub record Change : Type 0 where
  pub status : BookingState
  pub check_in_proof_hash : Option Text

-- The `data` of `paymentTransaction.create`.
pub record Payment : Type 0 where
  pub booking_id : Text
  pub hash : Text
  pub kind : TransactionKind
  pub amount : ℤ
  pub ledger : ℕ
  pub confirmed_at : ℕ

-- The `data` of `bookingStatusHistory.create`.
pub record History : Type 0 where
  pub booking_id : Text
  pub before : Option BookingState
  pub after : BookingState
  pub actor : Text
  pub tx_hash : Option Text

-- What `property.findFirst` selects.
pub record PropertyRow : Type 0 where
  pub id : Text
  pub host_id : Text
  pub slots : List Text

-- The `data` of `booking.create`.
pub record NewRow : Type 0 where
  pub id : Text
  pub on_chain_booking_id : Text
  pub property_id : Text
  pub slot_id : Text
  pub renter_id : Text
  pub host_id : Text
  pub deposit_amount : ℤ
  pub visit_time : ℕ
  pub evidence_hash : Text
  pub history_actor : Text

abbrev pub same_status : BookingState → BookingState → Bool
same_status a b = elim (BookingState-discrete a b) [ yes _ ↦ true | no _ ↦ false ]

abbrev pub given_is : Option Text → Text → Bool
given_is none a = true
given_is (some b) a = a === b

-- Whether a row meets the `where`, and the row after the update.
abbrev pub fits : Where → Stored → Bool
fits w r =
    r.id === w.id
    && same_status r.status w.status
    && given_is w.renter r.renter_address
    && given_is w.host r.host_address

abbrev pub or_kept : Option Text → Option Text → Option Text
or_kept none old = old
or_kept (some new) old = some new

abbrev pub changed : ℕ → Change → Stored → Stored
changed stamp c r = record r {
  status = c.status;
  check_in_proof_hash = or_kept c.check_in_proof_hash r.check_in_proof_hash;
  version = r.version + 1;
  updated_at = stamp;
}

abbrev pub hits : Where → Option Stored → Bool
hits w none = false
hits w (some r) = fits w r

abbrev pub with_payment : Payment → Stored → Stored
with_payment p r = record r {
  transactions = r.transactions ++ record { hash = p.hash; kind = p.kind } ∷ [];
}

-- All or nothing: what a failed transaction wrote is rolled back.
abbrev pub atomic : {D A : Type 0} → Action D Error A → Action D Error A
atomic m d = let (r, d') = m d in elim r [ ok a ↦ (ok a, d') | err e ↦ (err e, d) ]

-- Ids are unique, so `updateMany` by an id touches at most one row. `create` is rejected where a
-- unique column (`PaymentTransaction.hash`, `Booking.slotId`) already has the value.
pub record Store (D : Type 0) : Type 1 where
  pub stamp : D → ℕ
  pub find_booking : D → Text → Option Stored
  pub recent : D → List Stored
  pub update_many : Where → Change → D → ℕ × D
  pub create_payment : Payment → D → Option D
  pub create_history : History → D → Option D
  pub find_property : Text → Text → ℕ → D → Option PropertyRow
  pub upsert_wallet : Text → Text → D → Text × D
  pub create_booking : NewRow → D → Option (Stored × D)
  -- `$transaction` with a callback.
  pub transaction : (A : Type 0) → Action D Error A → Action D Error A
  -- `slug` and `address` behind the ids, as the relations of the schema give them.
  pub slug_of : D → Text → Option Text
  pub address_of : D → Text → Option Text
  pub find-id : (d : D) (id : Text) (r : Stored) → find_booking d id ≡ some r → r.id ≡ id
  pub recent-length : (d : D) → length (recent d) ≤ 50
  pub update-count :
      (w : Where) (c : Change) (d : D)
      → (update_many w c d).0 ≡ (if hits w (find_booking d w.id) then 1 else 0)
  pub update-find :
      (w : Where) (c : Change) (d : D) (id : Text)
      → find_booking (update_many w c d).1 id ≡ (
          if id === w.id && hits w (find_booking d w.id)
          then Option.map (changed (stamp d) c) (find_booking d id)
          else find_booking d id)
  pub payment-find :
      (p : Payment) (d d' : D) (id : Text)
      → create_payment p d ≡ some d'
      → find_booking d' id ≡ (
          if id === p.booking_id
          then Option.map (with_payment p) (find_booking d id)
          else find_booking d id)
  pub history-find :
      (h : History) (d d' : D) (id : Text)
      → create_history h d ≡ some d'
      → find_booking d' id ≡ find_booking d id
  pub property-found :
      (slug host : Text) (at : ℕ) (d : D) (p : PropertyRow)
      → find_property slug host at d ≡ some p
      → (slug_of d p.id ≡ some slug) × (address_of d p.host_id ≡ some host)
  pub wallet-address :
      (address network : Text) (d : D)
      → address_of (upsert_wallet address network d).1 (upsert_wallet address network d).0
        ≡ some address
  pub wallet-keeps_slug :
      (address network other : Text) (d : D)
      → slug_of (upsert_wallet address network d).1 other ≡ slug_of d other
  pub wallet-keeps_address :
      (address network other a : Text) (d : D)
      → address_of d other ≡ some a
      → address_of (upsert_wallet address network d).1 other ≡ some a
  pub created-row :
      (n : NewRow) (d d' : D) (r : Stored)
      → create_booking n d ≡ some (r, d')
      → (find_booking d' n.id ≡ some r)
        × (r.id ≡ n.id)
        × (r.on_chain_booking_id ≡ n.on_chain_booking_id)
        × (some r.property_slug ≡ slug_of d n.property_id)
        × (some r.renter_address ≡ address_of d n.renter_id)
        × (some r.host_address ≡ address_of d n.host_id)
        × (r.deposit_amount ≡ n.deposit_amount)
        × (r.visit_time ≡ n.visit_time)
        × (r.evidence_hash ≡ n.evidence_hash)
        × (r.status ≡ pending_funding)
        × (r.transactions ≡ [])
  pub created-others :
      (n : NewRow) (d d' : D) (r : Stored) (other : Text)
      → create_booking n d ≡ some (r, d')
      → other ≢ n.id
      → find_booking d' other ≡ find_booking d other
  pub created-absent :
      (n : NewRow) (d d' : D) (r : Stored)
      → create_booking n d ≡ some (r, d')
      → find_booking d n.id ≡ none
  pub wallet-keeps_rows :
      (address network id : Text) (d : D)
      → find_booking (upsert_wallet address network d).1 id ≡ find_booking d id
  pub transaction-atomic :
      (A : Type 0) (m : Action D Error A) (d : D) → transaction A m d ≡ atomic m d
