-- ===== src/Web/Form/Laws.antt =====
-- The order of the steps in the mutation of apps/web/components/booking-form.tsx.
use po_vdeposit.Common.{
  ℕ, ◌≡◌, refl, ◌≢◌, sym, ◌∙◌, ap, subst, inl, inr, true, false, Option, none, some, List, [], ◌∷◌,
  Text, Time, codes, ◌===◌, Result, ok, err, arith, Result-cases, Bool-cases, Option-cases, same-eq,
  same_self,
}
use po_vdeposit.Booking.Types.{Booking}
use po_vdeposit.Web.Requests
use po_vdeposit.Config.{text_or}
use po_vdeposit.Web.Requests.{
  Thrown, Call, Partners, Encoder, NewBooking, contract_of, stellar_config, invoke_escrow,
}
use po_vdeposit.Web.Form.{Slot, Property, Fields}
use po_vdeposit.Web.Form.Steps.{chosen, created_of, Booked, new_booking, pay, book}
use po_vdeposit.Common.Numerals.{decimal}
use po_vdeposit.Web.Form.Deposit.{stroops}
use po_vdeposit.Web.Form.Payment.{Payment, pay-Payment}

true-ne-false : true ≢ false
true-ne-false e = cc

text_or-some :
    (w : Option Text) (t : Text)
    → (text_or w [] === []) ≡ false
    → (text_or w [] === t) ≡ true
    → w ≡ some t
text_or-some none t h k = absurd (true-ne-false (sym (same_self []) ∙ h))
text_or-some (some []) t h k = absurd (true-ne-false (sym (same_self []) ∙ h))
text_or-some (some (c ∷ s)) t h k = ap some (same-eq (c ∷ s) t k)

module _ {V : Type 0} (partners : Partners V) (encoder : Encoder V) (blank : Booking)
    (digest : Text → List ℕ) (date_of : Text → Time) where
  -- What the API is asked to create: a booking of the chosen slot of the chosen listing, by the renter
  -- and for the amount of the form.
  pub record IsFor (p : Property) (slot : Slot) (f : Fields) (new : NewBooking) : Type 0 where
    pub listing : new.listing_id ≡ p.slug
    pub renter : new.renter ≡ f.renter
    pub host : new.host ≡ p.host_address
    pub amount : new.deposit_amount ≡ decimal (stroops f.deposit_xlm)
    pub time : new.visit_time ≡ slot.starts_at

  new_booking-IsFor :
      (p : Property) (slot : Slot) (f : Fields)
      → IsFor p slot f (new_booking partners encoder blank digest date_of p slot f)
  unfolding new_booking
  new_booking-IsFor p slot f = record {
    listing = refl;
    renter = refl;
    host = refl;
    amount = refl;
    time = refl;
  }

  -- Where a run of the mutation ends.
  pub data Progress (properties : Option (List Property)) (wallet : Option Text) (f : Fields)
      (before after : List (Call V)) (r : Result Thrown Booked) : Type 0 where
    refused :
        (e : Thrown) → r ≡ err e → after ≡ before → Progress properties wallet f before after r
    unaccepted :
        (p : Property) (slot : Slot) (e : Thrown)
        → chosen properties f.selection ≡ some (p, slot)
        → IsFor p slot f (new_booking partners encoder blank digest date_of p slot f)
        → r ≡ err e
        → after
          ≡ Requests.post_booking (new_booking partners encoder blank digest date_of p slot f)
            ∷ before
        → created_of (partners.created after) ≡ err e
        → Progress properties wallet f before after r
    accepted :
        (p : Property) (slot : Slot) (id chain_id : Text)
        → chosen properties f.selection ≡ some (p, slot)
        → IsFor p slot f (new_booking partners encoder blank digest date_of p slot f)
        → wallet ≡ some f.renter
        → created_of (
            partners.created (
              Requests.post_booking (new_booking partners encoder blank digest date_of p slot f)
              ∷ before))
          ≡ ok (id, chain_id)
        → Payment partners encoder blank digest date_of
            (new_booking partners encoder blank digest date_of p slot f)
            id
            chain_id
            before
            after
            r
        → Progress properties wallet f before after r

  -- The mutation takes its steps in one order: the listing and the slot that were chosen, and the
  -- wallet that the form names, or nothing at all is asked; the API is asked to create a booking of
  -- that listing and slot, with the listing's host and the form's renter and amount;
  -- only with its two ids is the contract called, first to create the booking and, if that
  -- succeeds, to fund it; and only when both calls have succeeded is the funding reported to the
  -- API. The contract is the one of the settings. The call to create has the number that the API
  -- gave, the renter, the host, the amount and the second of the visit that the API was asked for, in
  -- this order; the call to fund has the renter and the number. Success is reported only where the API has accepted
  -- the report, with the API's id and the hashes of the two calls.
  pub book-Progress :
      (properties : Option (List Property)) (wallet : Option Text) (f : Fields)
      (before : List (Call V))
      → let (r, after) = book partners encoder blank digest date_of properties wallet f before in
        Progress properties wallet f before after r
  unfolding book
  book-Progress properties wallet f before = elim (Option-cases (chosen properties f.selection)) [
    | inl missing ↦
        refused (some (codes "Selected viewing time is no longer available.")) (ground arith)
          (ground arith)
    | inr ((p, slot), found) ↦ elim (Bool-cases (text_or wallet [] === [])) [
      | inl nobody ↦
          refused (some (codes "Connect Freighter before creating a booking.")) (ground arith)
            (ground arith)
      | inr somebody ↦ elim (Bool-cases (text_or wallet [] === f.renter)) [
        | inr other ↦
            refused (some (codes "Renter address must match the connected Freighter account."))
              (ground arith) (ground arith)
        | inl same ↦
            let new = new_booking partners encoder blank digest date_of p slot f in
            elim (Result-cases
              (created_of (partners.created (Requests.post_booking new ∷ before)))) [
                | inl (e, x) ↦
                    unaccepted p slot e found (new_booking-IsFor p slot f) (ground arith)
                      (ground arith) (ground arith)
                | inr ((id, chain_id), x) ↦
                    let paid : book partners encoder blank digest date_of properties wallet f before
                        ≡ pay partners encoder blank digest date_of new (id, chain_id)
                            (Requests.post_booking new ∷ before) =
                      ground arith in
                    accepted p slot id chain_id found (new_booking-IsFor p slot f)
                      (text_or-some wallet f.renter somebody same) x
                      (subst
                        (λ out.
                          Payment partners encoder blank digest date_of new id chain_id before out.1
                            out.0)
                        (sym paid)
                        (pay-Payment partners encoder blank digest date_of new id chain_id before))
              ]
      ]
    ]
  ]
