-- ===== src/Tests/Listings.antt =====
-- The listings of apps/api/src/property/property.service.ts at work, on a database that keeps the
-- order of its rows.
use po_vdeposit.Common.{Bool, true, false, Option, none, some, List, [], ◌∷◌, Text, codes, ◌===◌}
use po_vdeposit.Listing
use po_vdeposit.Listing.{IsIn, IsOrder, PropertyRow, SlotRow, Database, Listing, get_list}
use po_vdeposit.Listing.Laws.{IsWanted, Shows, get_list-Shows}

same-IsOrder : {A : Type 0} → IsOrder {A = A} (λ xs. xs)
same-IsOrder = record { from = λ x xs i. i; into = λ x xs i. i }

abbrev database : Database
database = record {
  newest = λ xs. xs;
  earliest = λ xs. xs;
  positioned = λ xs. xs;
  same_letters = λ a b. a === b;
  newest-IsOrder = same-IsOrder;
  earliest-IsOrder = same-IsOrder;
}

abbrev slot : Option Text → SlotRow
slot booking = record {
  id = codes "s1";
  starts_at = 500;
  ends_at = 600;
  locked_until = none;
  booking = booking;
}

abbrev loft : Bool → PropertyRow
loft active = record {
  id = codes "p1";
  slug = codes "loft";
  title = codes "Loft";
  description = [];
  district = codes "Greenway";
  active = active;
  created_at = 1;
  host_address = codes "GBOB";
  images = [];
  slots = slot none ∷ slot (some (codes "b1")) ∷ [];
}

abbrev rows : List PropertyRow
rows = loft true ∷ loft false ∷ []

abbrev asked : Option Text
asked = some (codes " Greenway ")

get_list-Shows_example :
    ((l : Listing.Listing)
      → IsIn l (get_list database 100 asked rows)
      → (p : PropertyRow) × IsIn p rows × IsWanted database asked p × Shows database 100 p l)
    × ((p : PropertyRow)
        → IsIn p rows
        → IsWanted database asked p
        → (l : Listing.Listing) × IsIn l (get_list database 100 asked rows)
          × Shows database 100 p l)
get_list-Shows_example = get_list-Shows database 100 asked rows
