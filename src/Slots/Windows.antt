-- ===== src/Slots/Windows.antt =====
-- The windows of one property, over `create`, `reserve` and `confirm` of
-- apps/api/src/property/viewing-slot.service.ts.
use po_vdeposit.Common.{
  ℕ, ◌≤◌, ◌<◌, ◌≡◌, ◌≢◌, sym, ◌∙◌, subst, ◌⊎◌, inl, inr, refl, Bool, false, none, some, [], ◌∷◌,
  Text, Text-discrete, any, arith, Option-cases, Bool-cases, Time, not_after, ◌||◌, ◌&&◌, not,
}
use po_vdeposit.Common.Dict.{lookup, insert, values, lookup-insert}
use po_vdeposit.Slots.{
  ViewingSlot, Slots, Request, creating, reserving, confirming, handle, Calls, here, next, overlaps,
  create, reserve, confirm, truthy, new_slot, locked, is_by, held_by, booked_as,
}

-- The slot of an id.
abbrev pub At : Slots → Text → ViewingSlot → Type 0
At s id slot = lookup Text-discrete id s ≡ some slot

abbrev pub Apart : ViewingSlot → ViewingSlot → Type 0
Apart a b = a.property_id ≡ b.property_id → (a.ends_at ≤ b.starts_at) ⊎ (b.ends_at ≤ a.starts_at)

-- Every window has a length, and those of one property have no instant in common.
pub record AreWindows (s : Slots) : Type 0 where
  pub ordered : (id : Text) (a : ViewingSlot) → At s id a → a.starts_at < a.ends_at
  pub apart : (i j : Text) (a b : ViewingSlot) → At s i a → At s j b → i ≢ j → Apart a b

any-lookup :
    (p : ViewingSlot → Bool) (s : Slots) (id : Text) (slot : ViewingSlot)
    → any p (values s) ≡ false
    → At s id slot
    → p slot ≡ false
any-lookup p [] id slot none_such h = ground arith
any-lookup p ((j, a) ∷ s) id slot none_such h = elim (Text-discrete id j) [
  | yes same ↦ let it : a ≡ slot = ground arith in subst (λ x. p x ≡ false) it (ground arith)
  | no other ↦ any-lookup p s id slot (ground arith) (ground arith)
]

-- What a call does to the slots.
data Effect (s s' : Slots) : Type 0 where
  unchanged : s' ≡ s → Effect s s'
  made :
      (slot : ViewingSlot)
      → slot.starts_at < slot.ends_at
      → any (overlaps slot.property_id (some slot.starts_at) (some slot.ends_at)) (values s) ≡ false
      → s' ≡ insert Text-discrete slot.id slot s
      → Effect s s'
  kept :
      (id : Text) (old new : ViewingSlot)
      → At s id old
      → new.property_id ≡ old.property_id
      → new.starts_at ≡ old.starts_at
      → new.ends_at ≡ old.ends_at
      → s' ≡ insert Text-discrete id new s
      → Effect s s'

create-Effect :
    (now : ℕ) (id property_id host : Text) (start end : Time) (s : Slots)
    → Effect s (create now id property_id host start end s).1
unfolding create
create-Effect now id property_id host none end s =
    elim (Bool-cases (any (overlaps property_id none end) (values s))) [
      | inl found ↦ unchanged (ground arith)
      | inr free ↦ unchanged (ground arith)
    ]
create-Effect now id property_id host (some start) none s =
    elim (Bool-cases (any (overlaps property_id (some start) none) (values s))) [
      | inl found ↦ unchanged (ground arith)
      | inr free ↦ unchanged (ground arith)
    ]
create-Effect now id property_id host (some start) (some end) s =
    elim (Bool-cases (not_after (some start) (some now) || not_after (some end) (some start))) [
      | inl wrong ↦ unchanged (ground arith)
      | inr proper ↦
          elim (Bool-cases (any (overlaps property_id (some start) (some end)) (values s))) [
            | inl found ↦ unchanged (ground arith)
            | inr free ↦
                made (new_slot id property_id host start end) (ground arith) free (ground arith)
          ]
    ]

reserve-Effect :
    (now tick : ℕ) (id renter : Text) (s : Slots) → Effect s (reserve now tick id renter s).1
unfolding reserve
reserve-Effect now tick id renter s = elim (Option-cases (lookup Text-discrete id s)) [
  | inl unknown ↦ unchanged (ground arith)
  | inr (a, found) ↦ elim (Bool-cases (truthy a.booking_id)) [
    | inl booked ↦ unchanged (ground arith)
    | inr free ↦ elim (Bool-cases (locked now a.locked_until && not (is_by a.reserved_by renter))) [
      | inl taken ↦ unchanged (ground arith)
      | inr is_open ↦ kept id a (held_by tick renter a) found refl refl refl (ground arith)
    ]
  ]
]

confirm-Effect :
    (now : ℕ) (id renter booking_id : Text) (s : Slots)
    → Effect s (confirm now id renter booking_id s).1
unfolding confirm
confirm-Effect now id renter booking_id s = elim (Option-cases (lookup Text-discrete id s)) [
  | inl unknown ↦ unchanged (ground arith)
  | inr (a, found) ↦ elim (Bool-cases (truthy a.booking_id)) [
    | inl booked ↦ unchanged (ground arith)
    | inr free ↦
        elim (Bool-cases (not (is_by a.reserved_by renter) || not (locked now a.locked_until))) [
          | inl late ↦ unchanged (ground arith)
          | inr held ↦ kept id a (booked_as booking_id a) found refl refl refl (ground arith)
        ]
  ]
]

handle-Effect : (r : Request) (s : Slots) → Effect s (handle r s).1
unfolding handle
handle-Effect (creating now id property_id host start end) s =
    create-Effect now id property_id host start end s
handle-Effect (reserving now tick id renter) s = reserve-Effect now tick id renter s
handle-Effect (confirming now id renter booking_id) s = confirm-Effect now id renter booking_id s

At-insert :
    (s : Slots) (id i : Text) (v a : ViewingSlot)
    → At (insert Text-discrete id v s) i a
    → ((i ≡ id) × (v ≡ a)) ⊎ ((i ≢ id) × At s i a)
At-insert s id i v a at = elim (Text-discrete i id) [
  | yes same ↦ inl (same, ground (arith, lookup-insert Text-discrete i id v s))
  | no other ↦ inr (other, ground (arith, lookup-insert Text-discrete i id v s))
]

-- A window with nothing to overlap is apart from the one of any slot there is.
free-Apart :
    (s : Slots) (id : Text) (a slot : ViewingSlot)
    → any (overlaps slot.property_id (some slot.starts_at) (some slot.ends_at)) (values s) ≡ false
    → At s id a
    → Apart a slot × Apart slot a
free-Apart s id a slot free found =
    let miss =
      any-lookup (overlaps slot.property_id (some slot.starts_at) (some slot.ends_at)) s id a free
        found in
    (λ same. ground arith, λ same. ground arith)

made-AreWindows :
    (s : Slots) (slot : ViewingSlot)
    → slot.starts_at < slot.ends_at
    → any (overlaps slot.property_id (some slot.starts_at) (some slot.ends_at)) (values s) ≡ false
    → AreWindows s
    → AreWindows (insert Text-discrete slot.id slot s)
made-AreWindows s slot proper free h = record {
  ordered = λ i a at. elim (At-insert s slot.id i slot a at) [
    | inl (same, it) ↦ subst (λ x. x.starts_at < x.ends_at) it proper
    | inr (other, before) ↦ h.ordered i a before
  ];
  apart = λ i j a b at bt differ. elim (At-insert s slot.id i slot a at) [
    | inl (i_new, is_a) ↦ elim (At-insert s slot.id j slot b bt) [
      | inl (j_new, is_b) ↦ elim (differ (i_new ∙ sym j_new)) [ ]
      | inr (j_old, b_old) ↦ subst (λ x. Apart x b) is_a (free-Apart s j b slot free b_old).1
    ]
    | inr (i_old, a_old) ↦ elim (At-insert s slot.id j slot b bt) [
      | inl (j_new, is_b) ↦ subst (λ x. Apart a x) is_b (free-Apart s i a slot free a_old).0
      | inr (j_old, b_old) ↦ h.apart i j a b a_old b_old differ
    ]
  ];
}

kept-AreWindows :
    (s : Slots) (id : Text) (old new : ViewingSlot)
    → At s id old
    → new.property_id ≡ old.property_id
    → new.starts_at ≡ old.starts_at
    → new.ends_at ≡ old.ends_at
    → AreWindows s
    → AreWindows (insert Text-discrete id new s)
kept-AreWindows s id old new found same starts ends h = record {
  ordered = λ i a at. elim (At-insert s id i new a at) [
    | inl (is_id, it) ↦
        subst (λ x. x.starts_at < x.ends_at) it (ground (arith, h.ordered id old found))
    | inr (other, before) ↦ h.ordered i a before
  ];
  apart = λ i j a b at bt differ. elim (At-insert s id i new a at) [
    | inl (i_new, is_a) ↦ elim (At-insert s id j new b bt) [
      | inl (j_new, is_b) ↦ elim (differ (i_new ∙ sym j_new)) [ ]
      | inr (j_old, b_old) ↦
          let other : id ≢ j = λ it. differ (i_new ∙ it) in
          subst (λ x. Apart x b) is_a λ both. ground (arith, h.apart id j old b found b_old other)
    ]
    | inr (i_old, a_old) ↦ elim (At-insert s id j new b bt) [
      | inl (j_new, is_b) ↦
          let other : i ≢ id = i_old in
          subst (λ x. Apart a x) is_b λ both. ground (arith, h.apart i id a old a_old found other)
      | inr (j_old, b_old) ↦ h.apart i j a b a_old b_old differ
    ]
  ];
}

Effect-AreWindows : (s s' : Slots) → Effect s s' → AreWindows s → AreWindows s'
Effect-AreWindows s s' (unchanged e) h = subst AreWindows (sym e) h
Effect-AreWindows s s' (made slot proper free e) h =
    subst AreWindows (sym e) (made-AreWindows s slot proper free h)
Effect-AreWindows s s' (kept id old new found same starts ends e) h =
    subst AreWindows (sym e) (kept-AreWindows s id old new found same starts ends h)

-- From no slots at all, whatever calls are made: every window has a length, and two slots of one
-- property have no instant in common.
pub Calls-AreWindows : (P : Request → Type 0) (s : Slots) → Calls P [] s → AreWindows s
Calls-AreWindows P s here = record {
  ordered = λ id a at. ground arith;
  apart = λ i j a b at bt differ. ground arith;
}
Calls-AreWindows P s (next {s'} before r holds fresh) =
    Effect-AreWindows s' (handle r s').1 (handle-Effect r s') (Calls-AreWindows P s' before)
