-- ===== src/Listing/Laws.antt =====
-- What the two endpoints of apps/api/src/property/property.controller.ts show.
use po_vdeposit.Common.{
  ℕ, ◌≡◌, refl, inl, inr, true, Option, none, some, List, [], map, Text, ◌===◌, same-eq, ◌<◌, arith,
  Bool-cases, Option-cases, some_inj, ◌≢◌, sym, ◌∙◌, ap, subst, false, same_self,
}
use po_vdeposit.Config.{trim}
use po_vdeposit.Listing
use po_vdeposit.Listing.{
  IsIn, head, tail, SlotRow, PropertyRow, Slot, Database, is_free, slot_of, free_slots, listing_of,
  is_listed, list, by_slug, get_list, district_of,
}
use po_vdeposit.Listing.Items.{kept-IsIn, IsIn-kept, map-IsIn, IsIn-map}

-- A row of a slot that is to come and has no booking, and what is shown of it.
pub record IsFreeSlot (now : ℕ) (rows : List SlotRow) (s : Slot) : Type 0 where
  pub row : SlotRow
  pub there : IsIn row rows
  pub to_come : now < row.starts_at
  pub unbooked : row.booking ≡ none
  pub same_id : s.id ≡ row.id
  pub same_times : (s.starts_at ≡ row.starts_at) × (s.ends_at ≡ row.ends_at)
  pub same_lock : s.locked_until ≡ row.locked_until

-- What is shown of a property: its own fields, its images by their position, and its free slots, each
-- of them and no other.
pub record Shows (db : Database) (now : ℕ) (p : PropertyRow) (l : Listing.Listing) : Type 0 where
  pub same_id : (l.id ≡ p.id) × (l.slug ≡ p.slug)
  pub same_title : l.title ≡ p.title
  pub same_description : l.description ≡ p.description
  pub same_district : l.district ≡ p.district
  pub same_host : l.host_address ≡ p.host_address
  pub images : l.images ≡ map (λ (i : ℕ × Listing.Image). i.1) (db.positioned p.images)
  pub only_free : (s : Slot) → IsIn s l.slots → IsFreeSlot now p.slots s
  pub all_free :
      (r : SlotRow)
      → IsIn r p.slots
      → now < r.starts_at
      → r.booking ≡ none
      → (s : Slot) × IsIn s l.slots × (s.id ≡ r.id)

-- An active property, in the district that is asked for if one is: its letters, without white space
-- at the ends.
abbrev pub IsWanted : Database → Option Text → PropertyRow → Type 0
IsWanted db district p =
    (p.active ≡ true)
    × ((t : Text) → district ≡ some t → trim t ≢ [] → db.same_letters p.district (trim t) ≡ true)

false-ne-true : false ≢ true
false-ne-true e = cc

module _ (db : Database) where
  free_slots-only :
      (now : ℕ) (p : PropertyRow) (s : Slot)
      → IsIn s (free_slots db now p)
      → IsFreeSlot now p.slots s
  free_slots-only now p s there =
      let (r, sorted, same) = IsIn-map slot_of s _ there in
      let (i, free) = kept-IsIn (is_free now) r p.slots (db.earliest-IsOrder.from r _ sorted) in
      elim (Option-cases r.booking) [
        | inl none_yet ↦ record {
          row = r;
          there = i;
          to_come = ground arith;
          unbooked = none_yet;
          same_id = ap (λ (x : Slot). x.id) same;
          same_times = (ap (λ (x : Slot). x.starts_at) same, ap (λ (x : Slot). x.ends_at) same);
          same_lock = ap (λ (x : Slot). x.locked_until) same;
        }
        | inr (b, taken) ↦ ground arith
      ]

  free_slots-all :
      (now : ℕ) (p : PropertyRow) (r : SlotRow)
      → IsIn r p.slots
      → now < r.starts_at
      → r.booking ≡ none
      → (s : Slot) × IsIn s (free_slots db now p) × (s.id ≡ r.id)
  free_slots-all now p r there soon unbooked = (
    slot_of r,
    map-IsIn slot_of r _
        (db.earliest-IsOrder.into r _ (IsIn-kept (is_free now) r p.slots there (ground arith))),
    refl,
  )

  listing_of-Shows : (now : ℕ) (p : PropertyRow) → Shows db now p (listing_of db now p)
  unfolding listing_of
  listing_of-Shows now p = record {
    same_id = (refl, refl);
    same_title = refl;
    same_description = refl;
    same_district = refl;
    same_host = refl;
    images = refl;
    only_free = free_slots-only now p;
    all_free = free_slots-all now p;
  }

  is_listed-IsWanted :
      (district : Option Text) (p : PropertyRow)
      → is_listed db (district_of db district) p ≡ true
      → IsWanted db district p
  is_listed-IsWanted none p h = (h, λ t e. cc)
  is_listed-IsWanted (some d) p h = elim (Bool-cases (trim d === [])) [
    | inl blank ↦ (
      ground arith,
      λ t e full. absurd (full (ap trim (sym (some_inj e)) ∙ same-eq (trim d) [] blank)),
    )
    | inr full ↦ (
      ground arith,
      λ t e given.
          subst (λ x. db.same_letters p.district (trim x) ≡ true) (some_inj e) (ground arith),
    )
  ]

  IsWanted-is_listed :
      (district : Option Text) (p : PropertyRow)
      → IsWanted db district p
      → is_listed db (district_of db district) p ≡ true
  IsWanted-is_listed none p (active, near) = active
  IsWanted-is_listed (some d) p (active, near) = elim (Bool-cases (trim d === [])) [
    | inl blank ↦ ground arith
    | inr full ↦
        let there =
          near d refl (λ e. false-ne-true (sym full ∙ ap (λ x. x === []) e ∙ same_self [])) in
        ground arith
  ]

  -- The list, for any district, shows active properties of that district, each by its own fields and
  -- with exactly its free slots; and every active property of the district is in the list.
  pub get_list-Shows :
      (now : ℕ) (district : Option Text) (rows : List PropertyRow)
      → ((l : Listing.Listing)
          → IsIn l (get_list db now district rows)
          → (p : PropertyRow) × IsIn p rows × IsWanted db district p × Shows db now p l)
        × ((p : PropertyRow)
            → IsIn p rows
            → IsWanted db district p
            → (l : Listing.Listing) × IsIn l (get_list db now district rows) × Shows db now p l)
  unfolding get_list
  get_list-Shows now district rows = (
    λ l there.
        let (p, sorted, same) = IsIn-map (listing_of db now) l _ there in
        let (i, listed) =
          kept-IsIn (is_listed db (district_of db district)) p rows
            (db.newest-IsOrder.from p _ sorted) in
        (
          p,
          i,
          is_listed-IsWanted district p listed,
          subst (Shows db now p) (sym same) (listing_of-Shows now p),
        ),
    λ p there wanted. (
      listing_of db now p,
      map-IsIn (listing_of db now) p _ (
          db.newest-IsOrder.into p _ (
            IsIn-kept (is_listed db (district_of db district)) p rows there
              (IsWanted-is_listed district p wanted))),
      listing_of-Shows now p,
    ),
  )
