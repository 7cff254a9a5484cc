-- ===== src/Slots.antt =====
-- `ViewingSlotService` (apps/api/src/property/viewing-slot.service.ts): the windows in which a host
-- shows a property, who holds one for five minutes, and who has booked it. The random id of a new
-- slot and the readings of the clock come as arguments.
use po_vdeposit.Common.{
  ℕ, ◌+◌, ◌≡◌, Bool, true, false, not, ◌&&◌, ◌||◌, Option, none, some, [], Text, Text-discrete,
  ◌===◌, Time, not_after, before, any, Result, ok, err, Action, pure, throw, or_throw, throw_if,
  gets, modify, ◌>>=◌, ◌>>◌, if◌then◌else◌,
}
use po_vdeposit.Common.Dict.{Dict, lookup, insert, values}
pub mod Windows
pub mod Locks
pub mod Holds

-- `startsAt` and `endsAt` are texts that `toISOString` made, so their dates are valid.
pub record ViewingSlot : Type 0 where
  pub id : Text
  pub property_id : Text
  pub host : Text
  pub starts_at : ℕ
  pub ends_at : ℕ
  pub reserved_by : Option Text
  pub locked_until : Option ℕ
  pub booking_id : Option Text

pub data Error : Type 0 where
  invalid_window overlapping invalid_date not_found already_booked temporarily_reserved
        reservation_expired :
      Error

-- `this.slots`.
abbrev pub Slots : Type 0
Slots = Dict Text ViewingSlot

-- Whether an optional text counts as true: it is there and not empty.
abbrev pub truthy : Option Text → Bool
truthy none = false
truthy (some t) = not (t === [])

abbrev pub is_by : Option Text → Text → Bool
is_by none renter = false
is_by (some r) renter = r === renter

abbrev pub five_minutes : ℕ
five_minutes = 300000

-- The test of `some` in `create`.
abbrev pub overlaps : Text → Time → Time → ViewingSlot → Bool
overlaps property_id start end slot =
    slot.property_id === property_id
    && before start (some slot.ends_at)
    && before (some slot.starts_at) end

abbrev pub new_slot : Text → Text → Text → ℕ → ℕ → ViewingSlot
new_slot id property_id host start end = record {
  id = id;
  property_id = property_id;
  host = host;
  starts_at = start;
  ends_at = end;
  reserved_by = none;
  locked_until = none;
  booking_id = none;
}

-- An invalid date passes every comparison and makes `toISOString` throw.
abbrev slot_of : Text → Text → Text → Time → Time → Option ViewingSlot
slot_of id property_id host (some start) (some end) = some (new_slot id property_id host start end)
slot_of id property_id host _ _ = none

unfoldable pub create : ℕ → Text → Text → Text → Time → Time → Action Slots Error ViewingSlot
create now id property_id host start end = do
  throw_if (not_after start (some now) || not_after end start) invalid_window
  throw_if (any (overlaps property_id start end) (← gets λ slots. values slots)) overlapping
  slot ← or_throw (slot_of id property_id host start end) invalid_date
  modify λ slots. insert Text-discrete slot.id slot slots
  pure slot

abbrev get : Text → Action Slots Error ViewingSlot
get id = do or_throw (← gets (lookup Text-discrete id)) not_found

-- Whether `lockedUntil` is a date behind `now`.
abbrev pub locked : ℕ → Option ℕ → Bool
locked now none = false
locked now (some until) = before (some now) (some until)

abbrev pub held_by : ℕ → Text → ViewingSlot → ViewingSlot
held_by now renter slot = record slot {
  reserved_by = some renter;
  locked_until = some (now + five_minutes);
}

-- `now` and `tick` are the two readings of the clock.
unfoldable pub reserve : ℕ → ℕ → Text → Text → Action Slots Error ViewingSlot
reserve now tick id renter = do
  slot ← get id
  throw_if (truthy slot.booking_id) already_booked
  throw_if (locked now slot.locked_until && not (is_by slot.reserved_by renter))
      temporarily_reserved
  let held = held_by tick renter slot
  modify λ slots. insert Text-discrete id held slots
  pure held

abbrev pub booked_as : Text → ViewingSlot → ViewingSlot
booked_as booking_id slot = record slot { booking_id = some booking_id; locked_until = none }

unfoldable pub confirm : ℕ → Text → Text → Text → Action Slots Error ViewingSlot
confirm now id renter booking_id = do
  slot ← get id
  throw_if (truthy slot.booking_id) already_booked
  throw_if (not (is_by slot.reserved_by renter) || not (locked now slot.locked_until))
      reservation_expired
  let booked = booked_as booking_id slot
  modify λ slots. insert Text-discrete id booked slots
  pure booked

-- A call of the service.
pub data Request : Type 0 where
  creating : ℕ → Text → Text → Text → Time → Time → Request
  reserving : ℕ → ℕ → Text → Text → Request
  confirming : ℕ → Text → Text → Text → Request

unfoldable pub handle : Request → Action Slots Error ViewingSlot
handle (creating now id property_id host start end) = create now id property_id host start end
handle (reserving now tick id renter) = reserve now tick id renter
handle (confirming now id renter booking_id) = confirm now id renter booking_id

-- A random id is a new one.
abbrev pub IsFresh : Request → Slots → Type 0
IsFresh (creating now id property_id host start end) slots = lookup Text-discrete id slots ≡ none
IsFresh (reserving now tick id renter) slots = Unit
IsFresh (confirming now id renter booking_id) slots = Unit

-- Calls one after another, of which each satisfies `P`.
pub data Calls (P : Request → Type 0) (s : Slots) : Slots → Type 0 where
  here : Calls P s s
  next :
      {s' : Slots} → Calls P s s' → (r : Request) → P r → IsFresh r s' → Calls P s (handle r s').1
