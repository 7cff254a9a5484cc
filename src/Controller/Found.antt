-- ===== src/Controller/Found.antt =====
-- What the endpoints of apps/api/src/booking/booking.controller.ts share: the booking that is found,
-- the event that is verified, and the service's answer.
use po_vdeposit.Common.{
  ℕ, ◌+◌, ◌≡◌, sym, ◌∙◌, ap, subst, ◌⊎◌, inl, inr, refl, Bool, some, Text, Time, Text-discrete, ok,
  err, Result, Action, arith, some_inj, Option-cases, Result-cases, bind-eq, ◌>>=◌,
}
use po_vdeposit.Common.Dict.{lookup}
use po_vdeposit.Booking.Types
use po_vdeposit.Booking.Types.{Booking, Verification}
use po_vdeposit.Booking.Store
use po_vdeposit.Booking.Backend
use po_vdeposit.Booking.Requests.{Request, Advances, serve, view, target}
use po_vdeposit.Booking.Service.{serve-Advances}
use po_vdeposit.Verifier.{Rpc, Event, Kind, Verified, verify_event}
use po_vdeposit.Verifier.Laws.{Member, Proves, verify_event-ok}
use po_vdeposit.CheckIn.Store as Codes
use po_vdeposit.Controller.{Api, Failure, on_bookings, or_internal, verified, require_booking}

-- A change of the booking that an event of the contract, in the transaction that was named, proves.
pub record IsProven (rpc : Rpc) (contract_id hash : Text) (kind : Kind) (old : Booking)
    : Type 0 where
  pub event : Event
  pub there :
      let t = rpc.get_transaction hash in
      Member event (rpc.get_events t.ledger (t.ledger + 1) contract_id)
  pub proves : Proves hash old.on_chain_booking_id kind event

module _ (sha256 : Text → Text) (is_datetime : Text → Bool) (date_of : Text → Time) (rpc : Rpc)
    (contract_id : Text) (network : Text) {D C : Type 0} (store : Store.Store D)
    (coding : Codes.Coding) (challenges : Codes.Store C) where
  pub get-cases :
      (id : Text) (s : Backend.Backend D)
      → ((e : Types.Error) × (Backend.get store id s ≡ (err e, s)))
        ⊎ ((b : Booking) × (Backend.get store id s ≡ (ok b, s)) × (view store s id ≡ some b))
  unfolding Backend.get Backend.get_memory Backend.get_row
  get-cases id (Backend.memory m) = elim (Option-cases (lookup Text-discrete id m)) [
    | inl absent ↦ inl (Types.booking_not_found, ground arith)
    | inr (b, there) ↦ inr (b, ground arith, there)
  ]
  get-cases id (Backend.prisma d) = elim (Option-cases (store.find_booking d id)) [
    | inl absent ↦ inl (Types.booking_not_found, ground arith)
    | inr (r, there) ↦ inr (Backend.from_database r, ground arith, ground arith)
  ]

  pub require_booking-ok :
      (id : Text) (s s' : Api D C) (b : Booking)
      → require_booking sha256 is_datetime date_of rpc contract_id network store coding challenges
          id s
        ≡ (ok b, s')
      → (s' ≡ s) × (view store s.bookings id ≡ some b)
  unfolding require_booking
  require_booking-ok id s s' b e = elim (get-cases id s.bookings) [
    | inl (x, failed) ↦ ground arith
    | inr (a, done, there) ↦ (ground arith, there ∙ ground arith)
  ]

  pub proven :
      (hash : Text) (kind : Kind) (old : Booking) (v : Verified)
      → verify_event rpc contract_id hash old.on_chain_booking_id kind ≡ ok v
      → IsProven rpc contract_id hash kind old
  proven hash kind old v e =
      let (set, good, at, (event, there, proves)) =
        verify_event-ok rpc contract_id hash old.on_chain_booking_id kind v e in
      record { event = event; there = there; proves = proves }

  pub on_bookings-ok :
      (m : Action (Backend.Backend D) Types.Error Booking) (s s' : Api D C) (b : Booking)
      → or_internal (on_bookings m) s ≡ (ok b, s')
      → m s.bookings ≡ (ok b, s'.bookings)
  on_bookings-ok m s s' b e = go (m s.bookings) refl
    where
      go :
          (out : Result Types.Error Booking × Backend.Backend D)
          → m s.bookings ≡ out
          → m s.bookings ≡ (ok b, s'.bookings)
      go (ok a, d) done = ground arith
      go (err x, d) done = ground arith

  pub on_bookings-challenges :
      (m : Action (Backend.Backend D) Types.Error Booking) (s s' : Api D C) (b : Booking)
      → or_internal (on_bookings m) s ≡ (ok b, s')
      → s'.challenges ≡ s.challenges
  on_bookings-challenges m s s' b e = go (m s.bookings) refl
    where
      go :
          (out : Result Types.Error Booking × Backend.Backend D)
          → m s.bookings ≡ out
          → s'.challenges ≡ s.challenges
      go (ok a, d) done = ground arith
      go (err x, d) done = ground arith

  -- The three endpoints that stand on an event of the contract share their middle.
  pub find_and_verify-ok :
      (id hash : Text) (kind : Kind) (k : Booking → Verification → Action (Api D C) Failure Booking)
      (s s' : Api D C) (b : Booking)
      → (do
        booking ←
            require_booking sha256 is_datetime date_of rpc contract_id network store coding
              challenges id
        verification ← verified (verify_event rpc contract_id hash booking.on_chain_booking_id kind)
        k booking verification)
          s
        ≡ (ok b, s')
      → (old : Booking) × (v : Verification) × (view store s.bookings id ≡ some old)
        × IsProven rpc contract_id hash kind old
        × (k old v s ≡ (ok b, s'))
  find_and_verify-ok id hash kind k s s' b e =
      go
        (require_booking sha256 is_datetime date_of rpc contract_id network store coding challenges
          id s)
        refl
    where
      go :
          (out : Result Failure Booking × Api D C)
          → require_booking sha256 is_datetime date_of rpc contract_id network store coding
              challenges id s
            ≡ out
          → (old : Booking) × (v : Verification) × (view store s.bookings id ≡ some old)
            × IsProven rpc contract_id hash kind old
            × (k old v s ≡ (ok b, s'))
      go (err x, s1) done = ground arith
      go (ok old, s1) done =
          let (same, there) = require_booking-ok id s s1 old done in
          elim (Result-cases (verify_event rpc contract_id hash old.on_chain_booking_id kind)) [
            | inl (x, refused) ↦ ground arith
            | inr (v, accepted) ↦ (
              old,
              record { ledger = v.ledger; confirmed_at = v.confirmed_at },
              there,
              proven hash kind old v accepted,
              subst
                  (λ w.
                    k old (record { ledger = v.ledger; confirmed_at = v.confirmed_at }) w
                    ≡ (ok b, s'))
                  same
                  (sym (
                      bind-eq
                        (require_booking sha256 is_datetime date_of rpc contract_id network store
                          coding challenges id)
                        (λ booking.
                          verified
                            (verify_event rpc contract_id hash booking.on_chain_booking_id kind)
                          >>= k booking)
                        s s1 old done
                      ∙ bind-eq
                          (verified
                            (verify_event rpc contract_id hash old.on_chain_booking_id kind))
                          (k old) s1 s1
                          (record { ledger = v.ledger; confirmed_at = v.confirmed_at })
                          (ap (λ r. verified r s1) accepted))
                    ∙ e),
            )
          ]

  -- The service's part of such an endpoint, with the booking that was found before.
  pub advanced :
      (now : ℕ) (q : Request) (s s' : Api D C) (b old : Booking)
      → view store s.bookings (target q) ≡ some old
      → or_internal (on_bookings (serve store now q)) s ≡ (ok b, s')
      → Advances store q s.bookings s'.bookings b old
  advanced now q s s' b old there e =
      let (found, proof) =
        serve-Advances store now q s.bookings s'.bookings b
          (on_bookings-ok (serve store now q) s s' b e) in
      let same : found ≡ old = some_inj (sym proof.before ∙ there) in
      subst (λ x. Advances store q s.bookings s'.bookings b x) same proof
