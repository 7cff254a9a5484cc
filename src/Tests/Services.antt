-- ===== src/Tests/Services.antt =====
-- The verifier of apps/api/src/stellar/contract-transaction-verifier.ts and the slots of
-- apps/api/src/property/viewing-slot.service.ts at work.
use po_vdeposit.Common.{
  ℕ, ◌+◌, ◌*◌, ◌≡◌, ◌≢◌, ◌<◌, refl, Bool, true, false, Option, none, some, List, [], ◌∷◌, Text,
  codes, ok, err, Result, arith, Text-discrete,
}
use po_vdeposit.Common.Dict.{insert}
use po_vdeposit.Verifier
use po_vdeposit.Verifier.{Rpc, Event, Transaction, Verified, verify_event}
use po_vdeposit.Verifier.Laws.{Proves, Member, verify_event-ok}
use po_vdeposit.Slots
use po_vdeposit.Slots.{
  ViewingSlot, Slots, Request, creating, reserving, confirming, handle, Calls, here, next, reserve,
  confirm, five_minutes,
}
use po_vdeposit.Slots.Windows.{AreWindows, Calls-AreWindows}
use po_vdeposit.Slots.Locks.{IsBooked, confirm_once}
use po_vdeposit.Slots.Holds.{reserve-confirm}

abbrev tx : Text
tx = codes "c0ffee"

abbrev event : Event
event = record {
  in_successful_contract_call = true;
  tx_hash = tx;
  topics = Verifier.text (codes "booking_funded") ∷ Verifier.number 7 ∷ [];
}

abbrev rpc : Rpc
rpc = record {
  get_transaction =
      λ hash. record { status = Verifier.success; ledger = 40; created_at = 1700000000 };
  get_events = λ a b contract. event ∷ [];
}

abbrev proven : Verified
proven = record { ledger = 40; confirmed_at = 1700000000 * 1000 }

verified : verify_event rpc (codes "CC") tx (codes "7") Verifier.booking_funded ≡ ok proven
unfolding verify_event Text-discrete po_vdeposit.Common.Numerals.decimal
verified = refl

verify_event-ok_example :
    (codes "CC" ≢ [])
    × (Verifier.success ≡ Verifier.success)
    × (proven ≡ record { ledger = 40; confirmed_at = 1700000000 * 1000 })
    × ((e : Event) × Member e (event ∷ []) × Proves tx (codes "7") Verifier.booking_funded e)
verify_event-ok_example =
    verify_event-ok rpc (codes "CC") tx (codes "7") Verifier.booking_funded proven verified

abbrev loft : Text
loft = codes "loft"

abbrev AnyCall : Request → Type 0
AnyCall r = Unit

abbrev opening : Request
opening = creating 10 (codes "s1") loft (codes "bob") (some 1000) (some 2000)

abbrev opened : Slots
opened = (handle opening []).1

abbrev both : Slots
both = (handle (creating 11 (codes "s2") loft (codes "bob") (some 1500) (some 2500)) opened).1

fresh2 : Slots.IsFresh (creating 11 (codes "s2") loft (codes "bob") (some 1500) (some 2500)) opened
unfolding handle Slots.create Text-discrete
fresh2 = refl

abbrev both_calls : Calls AnyCall [] both
both_calls =
    next (next here opening tt refl)
      (creating 11 (codes "s2") loft (codes "bob") (some 1500) (some 2500)) tt fresh2

Calls-AreWindows_example : AreWindows both
Calls-AreWindows_example = Calls-AreWindows AnyCall both both_calls

abbrev slot : ViewingSlot
slot = Slots.new_slot (codes "s1") loft (codes "bob") 1000 2000

abbrev one_slot : Slots
one_slot = (codes "s1", slot) ∷ []

abbrev held : ViewingSlot
held = Slots.held_by 20 (codes "alice") slot

abbrev held_slot : Slots
held_slot = (codes "s1", held) ∷ []

reserved : reserve 19 20 (codes "s1") (codes "alice") one_slot ≡ (ok held, held_slot)
unfolding reserve Text-discrete
reserved = refl

abbrev attempt : Request
attempt = reserving 30 31 (codes "s1") (codes "carol")

reserve-confirm_example :
    (booked : ViewingSlot) × (confirm 40
        (codes "s1")
        (codes "alice")
        (codes "b1")
        (handle attempt held_slot).1
      ≡ (ok booked, insert Text-discrete (codes "s1") booked (handle attempt held_slot).1))
    × (booked.booking_id ≡ some (codes "b1"))
reserve-confirm_example =
    reserve-confirm 19 20 40 (codes "s1") (codes "alice") (codes "b1") one_slot held_slot
      (handle attempt held_slot).1 held reserved
      (next here attempt ((λ same. ground (arith, same)), ground arith) tt) (ground arith)

abbrev booked : ViewingSlot
booked = Slots.booked_as (codes "b1") held

abbrev booked_slot : Slots
booked_slot = (codes "s1", booked) ∷ []

confirmed :
    confirm 40 (codes "s1") (codes "alice") (codes "b1") held_slot ≡ (ok booked, booked_slot)
unfolding confirm Text-discrete
confirmed = refl

nonempty : Slots.truthy (some (codes "b1")) ≡ true
unfolding Text-discrete
nonempty = refl

confirm_once_example :
    IsBooked (codes "s1") (codes "b1") (handle attempt booked_slot).1
    × (reserve 90 91 (codes "s1") (codes "carol") (handle attempt booked_slot).1
        ≡ (err Slots.already_booked, (handle attempt booked_slot).1))
    × (confirm 90 (codes "s1") (codes "carol") (codes "b2") (handle attempt booked_slot).1
        ≡ (err Slots.already_booked, (handle attempt booked_slot).1))
confirm_once_example =
    confirm_once AnyCall 40 90 91 (codes "s1") (codes "alice") (codes "b1") (codes "b2")
      (codes "carol") held_slot booked_slot (handle attempt booked_slot).1 booked nonempty confirmed
      (next here attempt tt tt)
