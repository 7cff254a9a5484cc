-- ===== src/Slots/Locks.antt =====
-- Who holds and who has booked a slot, over `create`, `reserve` and `confirm` of
-- apps/api/src/property/viewing-slot.service.ts.
use po_vdeposit.Common.{
  ℕ, ◌≡◌, ◌≢◌, ◌∙◌, subst, ◌⊎◌, inl, inr, refl, true, false, not, ◌&&◌, ◌||◌, none, some, Text,
  Text-discrete, arith, Option-cases, Bool-cases, Time, any, not_after, ok, err,
}
use po_vdeposit.Common.Dict.{lookup, insert, values, lookup-insert_ne, lookup-insert_self}
use po_vdeposit.Slots.{
  ViewingSlot, Slots, already_booked, Request, creating, reserving, confirming, handle, IsFresh,
  Calls, here, next, overlaps, create, reserve, confirm, truthy, new_slot, locked, is_by, held_by,
  booked_as,
}
use po_vdeposit.Slots.Windows.{At}

-- A slot that has its booking, under a text that counts as true.
abbrev pub IsBooked : Text → Text → Slots → Type 0
IsBooked id booking s =
    (a : ViewingSlot) × At s id a × (a.booking_id ≡ some booking) × (truthy (some booking) ≡ true)

-- A slot that `renter` holds until `until`, with no booking.
abbrev pub IsHeld : Text → Text → ℕ → Slots → Type 0
IsHeld id renter until s =
    (a : ViewingSlot) × At s id a
    × (a.reserved_by ≡ some renter)
    × (a.locked_until ≡ some until)
    × (truthy a.booking_id ≡ false)

-- The slot that a call is about.
abbrev pub key : Request → Text
key (creating now id property_id host start end) = id
key (reserving now tick id renter) = id
key (confirming now id renter booking_id) = id

abbrev Writes : Text → Slots → Slots → Type 0
Writes id s s' = (s' ≡ s) ⊎ ((slot : ViewingSlot) × (s' ≡ insert Text-discrete id slot s))

create-Writes :
    (now : ℕ) (id property_id host : Text) (start end : Time) (s : Slots)
    → Writes id s (create now id property_id host start end s).1
unfolding create
create-Writes now id property_id host start end s =
    elim (Bool-cases (not_after start (some now) || not_after end start)) [
      | inl wrong ↦ inl (rw wrong refl)
      | inr proper ↦ elim (Bool-cases (any (overlaps property_id start end) (values s))) [
        | inl found ↦ inl (rw (proper, found) refl)
        | inr free ↦ go start end proper free
      ]
    ]
  where
    go :
        (start end : Time)
        → (not_after start (some now) || not_after end start) ≡ false
        → any (overlaps property_id start end) (values s) ≡ false
        → Writes id s (create now id property_id host start end s).1
    go (some a) (some b) proper free =
        inr (new_slot id property_id host a b, rw (proper, free) refl)
    go none end proper free = inl (rw (proper, free) refl)
    go (some a) none proper free = inl (rw (proper, free) refl)

reserve-Writes :
    (now tick : ℕ) (id renter : Text) (s : Slots) → Writes id s (reserve now tick id renter s).1
unfolding reserve
reserve-Writes now tick id renter s = elim (Option-cases (lookup Text-discrete id s)) [
  | inl unknown ↦ inl (ground arith)
  | inr (a, found) ↦ elim (Bool-cases (truthy a.booking_id)) [
    | inl booked ↦ inl (ground arith)
    | inr free ↦ elim (Bool-cases (locked now a.locked_until && not (is_by a.reserved_by renter))) [
      | inl taken ↦ inl (ground arith)
      | inr is_open ↦ inr (held_by tick renter a, ground arith)
    ]
  ]
]

confirm-Writes :
    (now : ℕ) (id renter booking : Text) (s : Slots)
    → Writes id s (confirm now id renter booking s).1
unfolding confirm
confirm-Writes now id renter booking s = elim (Option-cases (lookup Text-discrete id s)) [
  | inl unknown ↦ inl (ground arith)
  | inr (a, found) ↦ elim (Bool-cases (truthy a.booking_id)) [
    | inl booked ↦ inl (ground arith)
    | inr free ↦
        elim (Bool-cases (not (is_by a.reserved_by renter) || not (locked now a.locked_until))) [
          | inl late ↦ inl (ground arith)
          | inr held ↦ inr (booked_as booking a, ground arith)
        ]
  ]
]

handle-Writes : (r : Request) (s : Slots) → Writes (key r) s (handle r s).1
unfolding handle
handle-Writes (creating now id property_id host start end) s =
    create-Writes now id property_id host start end s
handle-Writes (reserving now tick id renter) s = reserve-Writes now tick id renter s
handle-Writes (confirming now id renter booking) s = confirm-Writes now id renter booking s

pub handle-other :
    (r : Request) (s : Slots) (id : Text)
    → id ≢ key r
    → lookup Text-discrete id (handle r s).1 ≡ lookup Text-discrete id s
handle-other r s id other = elim (handle-Writes r s) [
  | inl same ↦ rw same refl
  | inr (slot, written) ↦ rw written (lookup-insert_ne Text-discrete id (key r) slot s other)
]

reserve-booked :
    (now tick : ℕ) (id renter booking : Text) (s : Slots)
    → IsBooked id booking s
    → reserve now tick id renter s ≡ (err already_booked, s)
unfolding reserve
reserve-booked now tick id renter booking s (a, at, has, real) = ground arith

confirm-booked :
    (now : ℕ) (id renter booking other : Text) (s : Slots)
    → IsBooked id booking s
    → confirm now id renter other s ≡ (err already_booked, s)
unfolding confirm
confirm-booked now id renter booking other s (a, at, has, real) = ground arith

handle-IsBooked :
    (r : Request) (id booking : Text) (s : Slots)
    → IsFresh r s
    → IsBooked id booking s
    → IsBooked id booking (handle r s).1
unfolding handle
handle-IsBooked r id booking s fresh (a, at, has, real) = elim (Text-discrete id (key r)) [
  | no other ↦ (a, handle-other r s id other ∙ at, has, real)
  | yes same ↦ go r fresh same
]
  where
    go : (r : Request) → IsFresh r s → id ≡ key r → IsBooked id booking (handle r s).1
    go (creating now new property_id host start end) fresh same = ground arith
    go (reserving now tick at' renter) fresh same =
        subst (λ w. IsBooked id booking (reserve now tick w renter s).1) same
          (rw (reserve-booked now tick id renter booking s (a, at, has, real)) (a, at, has, real))
    go (confirming now at' renter other) fresh same =
        subst (λ w. IsBooked id booking (confirm now w renter other s).1) same
          (rw (confirm-booked now id renter booking other s (a, at, has, real)) (a, at, has, real))

Calls-IsBooked :
    (P : Request → Type 0) (id booking : Text) (s s' : Slots)
    → Calls P s s'
    → IsBooked id booking s
    → IsBooked id booking s'
Calls-IsBooked P id booking s s' here h = h
Calls-IsBooked P id booking s s'' (next {s'} before r holds fresh) h =
    handle-IsBooked r id booking s' fresh (Calls-IsBooked P id booking s s' before h)

confirm-IsBooked :
    (now : ℕ) (id renter booking : Text) (s s' : Slots) (slot : ViewingSlot)
    → truthy (some booking) ≡ true
    → confirm now id renter booking s ≡ (ok slot, s')
    → IsBooked id booking s'
unfolding confirm
confirm-IsBooked now id renter booking s s' slot real e =
    elim (Option-cases (lookup Text-discrete id s)) [
      | inl unknown ↦ ground arith
      | inr (a, found) ↦
          let written : insert Text-discrete id (booked_as booking a) s ≡ s' = ground arith in
          subst (λ w. IsBooked id booking w) written
            (
              booked_as booking a,
              lookup-insert_self Text-discrete id (booked_as booking a) s,
              refl,
              real,
            )
    ]

-- A slot that `confirm` has given to a booking whose id is not empty has that booking after any
-- further calls, and then `reserve` and `confirm` refuse it to everyone and change nothing.
pub confirm_once :
    (P : Request → Type 0) (now later tick : ℕ) (id renter booking other renter' : Text)
    (s s' s'' : Slots) (slot : ViewingSlot)
    → truthy (some booking) ≡ true
    → confirm now id renter booking s ≡ (ok slot, s')
    → Calls P s' s''
    → IsBooked id booking s''
      × (reserve later tick id renter' s'' ≡ (err already_booked, s''))
      × (confirm later id renter' other s'' ≡ (err already_booked, s''))
confirm_once P now later tick id renter booking other renter' s s' s'' slot real e calls =
    let h =
      Calls-IsBooked P id booking s' s'' calls
        (confirm-IsBooked now id renter booking s s' slot real e) in
    (
      h,
      reserve-booked later tick id renter' booking s'' h,
      confirm-booked later id renter' booking other s'' h,
    )
