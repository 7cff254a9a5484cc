-- ===== src/Web/Form/Payment.antt =====
-- The calls of the contract in the mutation of apps/web/components/booking-form.tsx, and the report
-- of the funding.
use po_vdeposit.Common.{
  ℕ, ◌/◌, ◌≡◌, ◌∙◌, ap, inl, inr, List, [], ◌∷◌, Text, Time, Result, ok, err, arith, Result-cases,
}
use po_vdeposit.Booking.Types.{Booking}
use mathlib.Core.Option
use po_vdeposit.Web.Invoke.{create_booking, fund_booking}
use po_vdeposit.Web.Requests
use po_vdeposit.Web.Requests.{
  Thrown, Call, Partners, Encoder, NewBooking, contract_of, stellar_config, invoke_escrow,
}
use po_vdeposit.Web.Form.Steps.{funded_of, Booked, booking_arguments, pay}

module _ {V : Type 0} (partners : Partners V) (encoder : Encoder V) (blank : Booking)
    (digest : Text → List ℕ) (date_of : Text → Time) where
  -- What the contract's calls are made from: the number that the API gave, and the renter, the host,
  -- the amount and the second of the visit that the API was asked for, each as the encoder has it.
  pub record Encoded (chain_id : Text) (new : NewBooking) : Type 0 where
    pub which : V
    pub renter : V
    pub host : V
    pub amount : V
    pub time : V
    pub which-eq : encoder.u64 chain_id ≡ ok which
    pub renter-eq : encoder.address new.renter ≡ ok renter
    pub host-eq : encoder.address new.host ≡ ok host
    pub amount-eq : encoder.i128 new.deposit_amount ≡ ok amount
    pub time-eq : encoder.seconds (Option.map (λ t. t / 1000) (date_of new.visit_time)) ≡ ok time

  -- The arguments of `create_booking`, in the order of the contract.
  abbrev pub listed : {chain_id : Text} {new : NewBooking} → Encoded chain_id new → List V
  listed a = a.which ∷ a.renter ∷ a.host ∷ a.amount ∷ a.time ∷ []

  abbrev pub asked : NewBooking → List (Call V) → List (Call V)
  asked new before = Requests.get_config ∷ Requests.post_booking new ∷ before

  abbrev pub creating :
      {chain_id : Text}
      → Text
      → (new : NewBooking) → Encoded chain_id new
      → List (Call V)
      → List (Call V)
  creating contract_id new a before =
      Requests.invoke contract_id create_booking (listed a) new.renter ∷ asked new before

  abbrev pub funding :
      {chain_id : Text}
      → Text
      → (new : NewBooking) → Encoded chain_id new
      → List (Call V)
      → List (Call V)
  funding contract_id new a before =
      Requests.invoke contract_id fund_booking (a.renter ∷ a.which ∷ []) new.renter
      ∷ creating contract_id new a before

  -- Where a run ends that has an accepted booking with the ids `id` and `chain_id`, by its calls.
  pub data Payment (new : NewBooking) (id chain_id : Text) (before after : List (Call V))
      (r : Result Thrown Booked) : Type 0 where
    unready :
        (e : Thrown) → r ≡ err e → after ≡ asked new before → Payment new id chain_id before after r
    not_created :
        (contract_id : Text) (a : Encoded chain_id new) (e : Thrown)
        → r ≡ err e
        → contract_of (partners.config (asked new before)) ≡ ok contract_id
        → after ≡ creating contract_id new a before
        → partners.invoked after ≡ err e
        → Payment new id chain_id before after r
    not_funded :
        (contract_id create_hash : Text) (a : Encoded chain_id new) (e : Thrown)
        → r ≡ err e
        → contract_of (partners.config (asked new before)) ≡ ok contract_id
        → partners.invoked (creating contract_id new a before) ≡ ok create_hash
        → after ≡ funding contract_id new a before
        → partners.invoked after ≡ err e
        → Payment new id chain_id before after r
    reported :
        (contract_id create_hash fund_hash : Text) (a : Encoded chain_id new)
        → contract_of (partners.config (asked new before)) ≡ ok contract_id
        → partners.invoked (creating contract_id new a before) ≡ ok create_hash
        → partners.invoked (funding contract_id new a before) ≡ ok fund_hash
        → after ≡ Requests.post_fund id fund_hash ∷ funding contract_id new a before
        → ((b : Booked)
            → r ≡ ok b
            → (b ≡ record { id = id; create_hash = create_hash; fund_hash = fund_hash })
              × (funded_of (partners.funded after) ≡ ok tt))
        → Payment new id chain_id before after r

  booking_arguments-listed :
      (chain_id : Text) (new : NewBooking) (arguments : List V)
      → booking_arguments partners encoder blank digest date_of chain_id new ≡ ok arguments
      → (a : Encoded chain_id new) × (arguments ≡ listed a)
  unfolding booking_arguments
  booking_arguments-listed chain_id new arguments e = elim (Result-cases (encoder.u64 chain_id)) [
    | inl (x, failed) ↦ ground arith
    | inr (which, p) ↦ elim (Result-cases (encoder.address new.renter)) [
      | inl (x, failed) ↦ ground arith
      | inr (renter, q) ↦ elim (Result-cases (encoder.address new.host)) [
        | inl (x, failed) ↦ ground arith
        | inr (host, r) ↦ elim (Result-cases (encoder.i128 new.deposit_amount)) [
          | inl (x, failed) ↦ ground arith
          | inr (amount, u) ↦
              elim (Result-cases
                (encoder.seconds (Option.map (λ t. t / 1000) (date_of new.visit_time)))) [
                  | inl (x, failed) ↦ ground arith
                  | inr (time, v) ↦ (
                    record {
                      which = which;
                      renter = renter;
                      host = host;
                      amount = amount;
                      time = time;
                      which-eq = p;
                      renter-eq = q;
                      host-eq = r;
                      amount-eq = u;
                      time-eq = v;
                    },
                    ground arith,
                  )
                ]
        ]
      ]
    ]
  ]

  pub pay-Payment :
      (new : NewBooking) (id chain_id : Text) (before : List (Call V))
      → let (r, after) =
          pay partners encoder blank digest date_of new
            (id, chain_id)
            (Requests.post_booking new ∷ before) in
        Payment new id chain_id before after r
  unfolding pay stellar_config invoke_escrow
  pay-Payment new id chain_id before =
      elim (Result-cases (contract_of (partners.config (asked new before)))) [
        | inl (e, x) ↦ unready e (ground arith) (ground arith)
        | inr (c, x) ↦
            elim (Result-cases
              (booking_arguments partners encoder blank digest date_of chain_id new)) [
                | inl (e, y) ↦ unready e (ground arith) (ground arith)
                | inr (arguments, y0) ↦
                    let (a, at) = booking_arguments-listed chain_id new arguments y0 in
                    let y = y0 ∙ ap ok at in
                    let p = a.renter-eq in
                    let q = a.which-eq in
                    elim (Result-cases (partners.invoked (creating c new a before))) [
                      | inl (e, z) ↦
                          not_created c a e (ground arith) x (ground arith) (ground arith)
                      | inr (create_hash, z) ↦
                          let sent = funding c new a before in
                          elim (Result-cases (partners.invoked sent)) [
                            | inl (e, w) ↦
                                not_funded c create_hash a e (ground arith) x z (ground arith)
                                  (ground arith)
                            | inr (fund_hash, w) ↦
                                elim (Result-cases (
                                  funded_of
                                    (partners.funded (Requests.post_fund id fund_hash ∷ sent)))) [
                                      | inl (e, v) ↦
                                          reported c create_hash fund_hash a x z w (ground arith)
                                            (λ booked fine. ground arith)
                                      | inr (u, v) ↦
                                          reported c create_hash fund_hash a x z w (ground arith)
                                            (λ booked fine. ground arith)
                                    ]
                          ]
                    ]
              ]
      ]
