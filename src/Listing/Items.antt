-- ===== src/Listing/Items.antt =====
-- The items of a list that is mapped, or of which some are kept (the `where` of
-- apps/api/src/property/property.service.ts).
use po_vdeposit.Common.{
  ◌≡◌, refl, inl, inr, ◌⊎◌, Bool, true, none, some, List, [], ◌∷◌, map, Bool-cases, some_inj, false,
}
use po_vdeposit.Listing.{IsIn, head, tail, kept, first_of}

IsIn-cons : {A : Type 0} (x y : A) (ys : List A) → IsIn x (y ∷ ys) → (x ≡ y) ⊎ IsIn x ys
IsIn-cons x y ys head = inl refl
IsIn-cons x y ys (tail there) = inr there

pub kept-IsIn :
    {A : Type 0} (p : A → Bool) (x : A) (xs : List A)
    → IsIn x (kept p xs)
    → IsIn x xs × (p x ≡ true)
kept-IsIn p x [] there = elim there [ ]
kept-IsIn p x (y ∷ ys) there = elim (Bool-cases (p y)) [
  | inl taken ↦ elim (IsIn-cons x y (kept p ys) (rw taken at there)) [
    | inl same ↦ rw same (head, taken)
    | inr rest ↦ let (i, h) = kept-IsIn p x ys rest in (tail i, h)
  ]
  | inr left ↦ let (i, h) = kept-IsIn p x ys (rw left at there) in (tail i, h)
]

pub IsIn-kept :
    {A : Type 0} (p : A → Bool) (x : A) (xs : List A) → IsIn x xs → p x ≡ true → IsIn x (kept p xs)
IsIn-kept p x [] there h = elim there [ ]
IsIn-kept p x (y ∷ ys) head h = rw h head
IsIn-kept p x (y ∷ ys) (tail there) h = elim (Bool-cases (p y)) [
  | inl yes_it ↦ rw yes_it (tail (IsIn-kept p x ys there h))
  | inr not_it ↦ rw not_it (IsIn-kept p x ys there h)
]

pub map-IsIn : {A B : Type 0} (f : A → B) (x : A) (xs : List A) → IsIn x xs → IsIn (f x) (map f xs)
map-IsIn f x [] there = elim there [ ]
map-IsIn f x (y ∷ ys) head = head
map-IsIn f x (y ∷ ys) (tail there) = tail (map-IsIn f x ys there)

pub IsIn-map :
    {A B : Type 0} (f : A → B) (b : B) (xs : List A)
    → IsIn b (map f xs)
    → (x : A) × IsIn x xs × (b ≡ f x)
IsIn-map f b [] there = elim there [ ]
IsIn-map f b (x ∷ xs) head = (x, head, refl)
IsIn-map f b (x ∷ xs) (tail there) = let (y, i, e) = IsIn-map f b xs there in (y, tail i, e)

pub first_of-IsIn : {A : Type 0} (x : A) (xs : List A) → first_of xs ≡ some x → IsIn x xs
first_of-IsIn x [] e = cc
first_of-IsIn x (y ∷ ys) e = rw (some_inj e) head

pub kept-false :
    {A : Type 0} (p : A → Bool) (x : A) (xs : List A)
    → first_of (kept p xs) ≡ none
    → IsIn x xs
    → p x ≡ false
kept-false p x xs e there = elim (Bool-cases (p x)) [
  | inl fits ↦ nothing (kept p xs) e (IsIn-kept p x xs there fits)
  | inr left ↦ left
]
  where
    nothing : (ys : List _) → first_of ys ≡ none → IsIn x ys → p x ≡ false
    nothing [] e there = elim there [ ]
    nothing (y ∷ ys) e there = cc
