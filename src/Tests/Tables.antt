-- ===== src/Tests/Tables.antt =====
-- A database for apps/api/src/booking/booking-workflow.service.ts: the rows of `Booking` as a
-- function of the id, wallets and properties that are their own ids, and a history that takes all
-- entries or none.
use po_vdeposit.Common.{
  ℕ, ◌≡◌, refl, Bool, ◌&&◌, Option, none, some, [], ◌∷◌, Text, Text-discrete, ◌===◌, if◌then◌else◌,
  arith, inl, inr, Bool-cases, Option-cases, sym, ap, subst,
}
use mathlib.Core.Option
use po_vdeposit.Booking.Types
use po_vdeposit.Booking.Types.{Error}
use po_vdeposit.Booking.Store.{
  Store, Stored, Where, Change, Payment, NewRow, hits, changed, with_payment, atomic,
}

abbrev pub Rows : Type 0
Rows = Text → Option Stored

abbrev named : Text → Stored → Stored
named id r = record r { id = id }

abbrev pub find_in : Rows → Text → Option Stored
find_in d id = Option.map (named id) (d id)

abbrev pub put : Text → Option Stored → Rows → Rows
put id r d other = if other === id then r else d other

abbrev updated : Where → Change → Rows → ℕ × Rows
updated w c d =
    if hits w (find_in d w.id) then (1, put w.id (Option.map (changed 0 c) (d w.id)) d) else (0, d)

abbrev row_of : NewRow → Stored
row_of n = record {
  id = n.id;
  on_chain_booking_id = n.on_chain_booking_id;
  property_slug = n.property_id;
  renter_address = n.renter_id;
  host_address = n.host_id;
  deposit_amount = n.deposit_amount;
  visit_time = n.visit_time;
  evidence_hash = n.evidence_hash;
  check_in_proof_hash = none;
  status = Types.pending_funding;
  version = 0;
  created_at = 0;
  updated_at = 0;
  transactions = [];
}

abbrev added : NewRow → Rows → Option (Stored × Rows)
added n d = elim (d n.id) [ some r ↦ none | none ↦ some (row_of n, put n.id (some (row_of n)) d) ]

pub named-id : (d : Rows) (id : Text) (r : Stored) → find_in d id ≡ some r → r.id ≡ id
named-id d id r e = elim (Option-cases (d id)) [
  | inl absent ↦ ground arith
  | inr (a, there) ↦ ground arith
]

pub some_inj : {A : Type 0} {a b : A} → some a ≡ some b → a ≡ b
some_inj e = cc

pub find-put :
    (k id : Text) (o : Option Stored) (d : Rows)
    → find_in (put k o d) id ≡ (if id === k then Option.map (named id) o else find_in d id)
find-put k id o d = elim (Text-discrete id k) [ yes same ↦ ground arith | no other ↦ ground arith ]

named-changed :
    (c : Change) (id : Text) (o : Option Stored)
    → Option.map (named id) (Option.map (changed 0 c) o)
      ≡ Option.map (changed 0 c) (Option.map (named id) o)
named-changed c id none = refl
named-changed c id (some r) = refl

named-with_payment :
    (p : Payment) (id : Text) (o : Option Stored)
    → Option.map (named id) (Option.map (with_payment p) o)
      ≡ Option.map (with_payment p) (Option.map (named id) o)
named-with_payment p id none = refl
named-with_payment p id (some r) = refl

pub updated-count :
    (w : Where) (c : Change) (d : Rows)
    → (updated w c d).0 ≡ (if hits w (find_in d w.id) then 1 else 0)
updated-count w c d = elim (Bool-cases (hits w (find_in d w.id))) [
  | inl hit ↦ rw hit refl
  | inr miss ↦ rw miss refl
]

pub updated-find :
    (w : Where) (c : Change) (d : Rows) (id : Text)
    → find_in (updated w c d).1 id ≡ (
        if id === w.id && hits w (find_in d w.id)
        then Option.map (changed 0 c) (find_in d id)
        else find_in d id)
updated-find w c d id = elim (Bool-cases (hits w (find_in d w.id))) [
  | inr miss ↦ rw miss (ground arith)
  | inl hit ↦ rw hit (elim (Text-discrete id w.id) [
    | yes same ↦ ground (
      arith,
      find-put w.id id (Option.map (changed 0 c) (d w.id)) d,
      named-changed c id (d w.id),
      ap d same,
    )
    | no other ↦ ground (arith, find-put w.id id (Option.map (changed 0 c) (d w.id)) d)
  ])
]

pub paid-find :
    (p : Payment) (d : Rows) (id : Text)
    → find_in (put p.booking_id (Option.map (with_payment p) (d p.booking_id)) d) id
      ≡ (if id === p.booking_id then Option.map (with_payment p) (find_in d id) else find_in d id)
paid-find p d id = elim (Text-discrete id p.booking_id) [
  | yes same ↦ ground (
    arith,
    find-put p.booking_id id (Option.map (with_payment p) (d p.booking_id)) d,
    named-with_payment p id (d p.booking_id),
    ap d same,
  )
  | no other ↦
      ground (arith, find-put p.booking_id id (Option.map (with_payment p) (d p.booking_id)) d)
]

-- What `added` says of its arguments.
pub added-cases :
    (n : NewRow) (d d' : Rows) (r : Stored)
    → added n d ≡ some (r, d')
    → (d n.id ≡ none) × (r ≡ row_of n) × (d' ≡ put n.id (some (row_of n)) d)
added-cases n d d' r e = elim (Option-cases (d n.id)) [
  | inl free ↦
      let it : ◌≡◌ {A = Option (Stored × Rows)} (some (row_of n, put n.id (some (row_of n)) d))
          (some (r, d')) =
        ground arith in
      (free, ground arith, ground arith)
  | inr (old, there) ↦ ground arith
]

abbrev pub tables : Bool → Store Rows
tables history = record {
  stamp = λ d. 0;
  find_booking = find_in;
  recent = λ d. [];
  update_many = updated;
  create_payment = λ p d. some (put p.booking_id (Option.map (with_payment p) (d p.booking_id)) d);
  create_history = λ h d. if history then some d else none;
  find_property = λ slug host at d. some (record { id = slug; host_id = host; slots = slug ∷ [] });
  upsert_wallet = λ address network d. (address, d);
  create_booking = added;
  transaction = λ A m. atomic m;
  slug_of = λ d id. some id;
  address_of = λ d id. some id;
  find-id = λ d id r e. named-id d id r e;
  recent-length = λ d. ground arith;
  update-count = λ w c d. updated-count w c d;
  update-find = λ w c d id. updated-find w c d id;
  payment-find = λ p d d' id e.
      subst
        (λ w. find_in w id ≡ (
          if id === p.booking_id then Option.map (with_payment p) (find_in d id) else find_in d id))
        (some_inj e) (paid-find p d id);
  history-find = λ h d d' id e. elim (Bool-cases history) [
    | inl takes ↦ ap (λ w. find_in w id) (sym (some_inj (rw takes at e)))
    | inr refuses ↦ ground arith
  ];
  property-found = λ slug host at d p e. (ground arith, ground arith);
  wallet-address = λ address network d. refl;
  wallet-keeps_slug = λ address network other d. refl;
  wallet-keeps_address = λ address network other a d e. e;
  created-row = λ n d d' r e.
      let (free, it, at) = added-cases n d d' r e in
      rw (it, at)
        (
          ground (arith, find-put n.id n.id (some (row_of n)) d),
          refl,
          refl,
          refl,
          refl,
          refl,
          refl,
          refl,
          refl,
          refl,
          refl,
        );
  created-others = λ n d d' r other e differ.
      let (free, it, at) = added-cases n d d' r e in
      rw at (ground (arith, find-put n.id other (some (row_of n)) d));
  created-absent = λ n d d' r e. let (free, it, at) = added-cases n d d' r e in rw free refl;
  wallet-keeps_rows = λ address network id d. refl;
  transaction-atomic = λ A m d. refl;
}
