-- ===== src/Listing.antt =====
-- The listings: `PropertyService` and `PropertyController` (apps/api/src/property/property.service.ts,
-- apps/api/src/property/property.controller.ts). The rows come from the database. Its ordering and
-- its comparison without regard to case are parameters.
pub mod Items
pub mod Laws
use po_vdeposit.Common.{
  ℕ, Bool, true, false, not, ◌&&◌, Option, none, some, List, [], ◌∷◌, map, Text, codes, ◌===◌, ltb,
  if◌then◌else◌, Result, ok, err,
}
use po_vdeposit.Config.{trim}

pub record Image : Type 0 where
  pub url : Text
  pub alt_text : Text

pub record SlotRow : Type 0 where
  pub id : Text
  pub starts_at : ℕ
  pub ends_at : ℕ
  pub locked_until : Option ℕ
  pub booking : Option Text

pub record PropertyRow : Type 0 where
  pub id : Text
  pub slug : Text
  pub title : Text
  pub description : Text
  pub district : Text
  pub active : Bool
  pub created_at : ℕ
  pub host_address : Text
  pub images : List (ℕ × Image)
  pub slots : List SlotRow

-- What is selected.
pub record Slot : Type 0 where
  pub id : Text
  pub starts_at : ℕ
  pub ends_at : ℕ
  pub locked_until : Option ℕ

pub record Listing : Type 0 where
  pub id : Text
  pub slug : Text
  pub title : Text
  pub description : Text
  pub district : Text
  pub host_address : Text
  pub images : List Image
  pub slots : List Slot

-- An item of a list, by its place.
pub data IsIn {A : Type 0} (x : A) : List A → Type 0 where
  head : {xs : List A} → IsIn x (x ∷ xs)
  tail : {y : A} {xs : List A} → IsIn x xs → IsIn x (y ∷ xs)

-- An order of a list has the same items.
pub record IsOrder {A : Type 0} (f : List A → List A) : Type 0 where
  pub from : (x : A) (xs : List A) → IsIn x (f xs) → IsIn x xs
  pub into : (x : A) (xs : List A) → IsIn x xs → IsIn x (f xs)

-- The orders of the database, of properties from the newest, of slots from the earliest and of
-- images by their position; and its comparison with `mode: "insensitive"`.
pub record Database : Type 0 where
  pub newest : List PropertyRow → List PropertyRow
  pub earliest : List SlotRow → List SlotRow
  pub positioned : List (ℕ × Image) → List (ℕ × Image)
  pub same_letters : Text → Text → Bool
  pub newest-IsOrder : IsOrder newest
  pub earliest-IsOrder : IsOrder earliest

abbrev pub kept {ℓ} : {A : Type ℓ} → (A → Bool) → List A → List A
kept p [] = []
kept p (x ∷ xs) = if p x then x ∷ kept p xs else kept p xs

-- `startsAt: { gt: new Date() }, booking: null`.
abbrev pub is_free : ℕ → SlotRow → Bool
is_free now s = ltb now s.starts_at && (elim s.booking [ none ↦ true | some id ↦ false ])

abbrev pub slot_of : SlotRow → Slot
slot_of s = record {
  id = s.id;
  starts_at = s.starts_at;
  ends_at = s.ends_at;
  locked_until = s.locked_until;
}

abbrev pub first_of {ℓ} : {A : Type ℓ} → List A → Option A
first_of [] = none
first_of (x ∷ xs) = some x

module _ (db : Database) where
  abbrev pub free_slots : ℕ → PropertyRow → List Slot
  free_slots now p = map slot_of (db.earliest (kept (is_free now) p.slots))

  -- The `select` of both queries.
  unfoldable pub listing_of : ℕ → PropertyRow → Listing
  listing_of now p = record {
    id = p.id;
    slug = p.slug;
    title = p.title;
    description = p.description;
    district = p.district;
    host_address = p.host_address;
    images = map (λ (i : ℕ × Image). i.1) (db.positioned p.images);
    slots = free_slots now p;
  }

  -- `active: true`, and the district where one is given.
  abbrev pub is_listed : Option Text → PropertyRow → Bool
  is_listed none p = p.active
  is_listed (some d) p = p.active && db.same_letters p.district d

  unfoldable pub list : ℕ → Option Text → List PropertyRow → List Listing
  unfolding listing_of
  list now district rows = map (listing_of now) (db.newest (kept (is_listed district) rows))

  unfoldable pub by_slug : ℕ → Text → List PropertyRow → Option Listing
  unfolding listing_of
  by_slug now slug rows =
      elim (first_of (kept (λ (p : PropertyRow). p.slug === slug && p.active) rows)) [
        | none ↦ none
        | some p ↦ some (listing_of now p)
      ]

  -- `district?.trim() || undefined`.
  abbrev pub district_of : Option Text → Option Text
  district_of none = none
  district_of (some d) = if trim d === [] then none else some (trim d)

  -- The two endpoints; the second one answers 404.
  unfoldable pub get_list : ℕ → Option Text → List PropertyRow → List Listing
  unfolding list
  get_list now district rows = list now (district_of district) rows

  unfoldable pub get_by_slug : ℕ → Text → List PropertyRow → Result Text Listing
  unfolding by_slug
  get_by_slug now slug rows = elim (by_slug now slug rows) [
    | none ↦ err (codes "Property not found")
    | some l ↦ ok l
  ]
