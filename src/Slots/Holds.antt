-- ===== src/Slots/Holds.antt =====
-- The five minutes for which `reserve` of apps/api/src/property/viewing-slot.service.ts holds a slot.
use po_vdeposit.Common.{
  ℕ, ◌+◌, ◌<◌, ◌≡◌, ◌≢◌, ◌∙◌, subst, inl, inr, refl, false, some, Text, Text-discrete, arith,
  Option-cases, ok,
}
use po_vdeposit.Common.Dict.{lookup, insert, lookup-insert_self}
use po_vdeposit.Slots.{
  ViewingSlot, Slots, Request, creating, reserving, confirming, handle, IsFresh, Calls, here, next,
  reserve, confirm, truthy, held_by, booked_as, five_minutes,
}
use po_vdeposit.Slots.Locks.{IsHeld, key, handle-other}

-- A call by someone else than `renter`, at an instant before `until`.
abbrev pub ByOther : Text → ℕ → Request → Type 0
ByOther renter until (creating now id property_id host start end) = Unit
ByOther renter until (reserving now tick id who) = (who ≢ renter) × (now < until)
ByOther renter until (confirming now id who booking_id) = (who ≢ renter) × (now < until)

reserve-held :
    (now tick : ℕ) (id who renter : Text) (until : ℕ) (s : Slots)
    → IsHeld id renter until s
    → who ≢ renter
    → now < until
    → (reserve now tick id who s).1 ≡ s
unfolding reserve
reserve-held now tick id who renter until s (a, at, holder, lock, free) other early = ground arith

confirm-held :
    (now : ℕ) (id who renter booking : Text) (until : ℕ) (s : Slots)
    → IsHeld id renter until s
    → who ≢ renter
    → (confirm now id who booking s).1 ≡ s
unfolding confirm
confirm-held now id who renter booking until s (a, at, holder, lock, free) other = ground arith

handle-IsHeld :
    (r : Request) (id renter : Text) (until : ℕ) (s : Slots)
    → ByOther renter until r
    → IsFresh r s
    → IsHeld id renter until s
    → IsHeld id renter until (handle r s).1
unfolding handle
handle-IsHeld r id renter until s by fresh (a, at, holder, lock, free) =
    elim (Text-discrete id (key r)) [
      | no other ↦ (a, handle-other r s id other ∙ at, holder, lock, free)
      | yes same ↦ go r by fresh same
    ]
  where
    go :
        (r : Request)
        → ByOther renter until r
        → IsFresh r s
        → id ≡ key r
        → IsHeld id renter until (handle r s).1
    go (creating now new property_id host start end) by fresh same = ground arith
    go (reserving now tick at' who) (other, early) fresh same =
        subst (λ w. IsHeld id renter until (reserve now tick w who s).1) same
          (rw (reserve-held now tick id who renter until s (a, at, holder, lock, free) other early)
            (a, at, holder, lock, free))
    go (confirming now at' who booking) (other, early) fresh same =
        subst (λ w. IsHeld id renter until (confirm now w who booking s).1) same
          (rw (confirm-held now id who renter booking until s (a, at, holder, lock, free) other)
            (a, at, holder, lock, free))

Calls-IsHeld :
    (id renter : Text) (until : ℕ) (s s' : Slots)
    → Calls (ByOther renter until) s s'
    → IsHeld id renter until s
    → IsHeld id renter until s'
Calls-IsHeld id renter until s s' here h = h
Calls-IsHeld id renter until s s'' (next {s'} before r by fresh) h =
    handle-IsHeld r id renter until s' by fresh (Calls-IsHeld id renter until s s' before h)

reserve-IsHeld :
    (now tick : ℕ) (id renter : Text) (s s' : Slots) (slot : ViewingSlot)
    → reserve now tick id renter s ≡ (ok slot, s')
    → IsHeld id renter (tick + five_minutes) s'
unfolding reserve
reserve-IsHeld now tick id renter s s' slot e = elim (Option-cases (lookup Text-discrete id s)) [
  | inl unknown ↦ ground arith
  | inr (a, found) ↦
      let free : truthy a.booking_id ≡ false = ground arith in
      let written : insert Text-discrete id (held_by tick renter a) s ≡ s' = ground arith in
      subst (λ w. IsHeld id renter (tick + five_minutes) w) written
        (
          held_by tick renter a,
          lookup-insert_self Text-discrete id (held_by tick renter a) s,
          refl,
          refl,
          free,
        )
]

confirm-IsHeld :
    (now until : ℕ) (id renter booking : Text) (s : Slots)
    → IsHeld id renter until s
    → now < until
    → (slot : ViewingSlot) × (confirm now id renter booking s
        ≡ (ok slot, insert Text-discrete id slot s))
      × (slot.booking_id ≡ some booking)
unfolding confirm
confirm-IsHeld now until id renter booking s (a, at, holder, lock, free) early =
    (booked_as booking a, ground arith, refl)

-- After a renter has reserved a slot, the others may call the service as they like for the five
-- minutes that follow the instant at which the lock was set: when the renter confirms within them, the slot is booked for the renter.
pub reserve-confirm :
    (now tick later : ℕ) (id renter booking : Text) (s s' s'' : Slots) (slot : ViewingSlot)
    → reserve now tick id renter s ≡ (ok slot, s')
    → Calls (ByOther renter (tick + five_minutes)) s' s''
    → later < tick + five_minutes
    → (booked : ViewingSlot) × (confirm later id renter booking s''
        ≡ (ok booked, insert Text-discrete id booked s''))
      × (booked.booking_id ≡ some booking)
reserve-confirm now tick later id renter booking s s' s'' slot e calls early =
    let held = reserve-IsHeld now tick id renter s s' slot e in
    confirm-IsHeld later (tick + five_minutes) id renter booking s''
      (Calls-IsHeld id renter (tick + five_minutes) s' s'' calls held) early
