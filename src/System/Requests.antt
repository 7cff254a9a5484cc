-- ===== src/System/Requests.antt =====
-- A request to the API (apps/api/src/booking/booking.controller.ts) that nothing comes between keeps
-- every booking explained by the log of the contract (contracts/pov_deposit_escrow/src/lib.rs).
use po_vdeposit.Common.{ℕ, ◌≡◌, subst, inl, inr, some, List, Bool, Text, Time}
use po_vdeposit.Booking.Store
use po_vdeposit.Booking.Backend
use po_vdeposit.Booking.Requests.{view, serve}
use po_vdeposit.Booking.Moves.Served.{serve-Moved}
use po_vdeposit.Booking.Moves.Created.{create-Created}
use po_vdeposit.Escrow.Defs
use po_vdeposit.Escrow.Defs.{Token, deployed, find_booking}
use po_vdeposit.Verifier.{Rpc}
use po_vdeposit.CheckIn.Store as Codes
use po_vdeposit.Controller.{Api}
use po_vdeposit.Controller.Effects
use po_vdeposit.Controller.Effects.{Effect, IsBacked}
use po_vdeposit.Controller.Effects.Endpoints.{
  create-Effect, fund-Effect, cancel-Effect, check_in_challenge-Effect, check_in-Effect,
  confirm-Effect,
}
use po_vdeposit.System
use po_vdeposit.System.{IsHonest, Endpoint, after}
use po_vdeposit.System.Backing.{Explained, request-Backed, Moved-Explained}

module _ (sha256 : Text → Text) (is_datetime : Text → Bool) (date_of : Text → Time)
    (contract_id : Text) (network : Text) {T D C : Type 0} (tok : Token T) (self : ℕ)
    (store : Store.Store D) (coding : Codes.Coding) (challenges : Codes.Store C) where
  pub Effect-Explained :
      (rpc : Rpc) (s s' : Backend.Backend D) (events : List Defs.Event) (id : Text)
      → IsHonest rpc contract_id events
      → Explained (view store s id) events
      → Effect sha256 is_datetime date_of rpc contract_id network store coding challenges s s'
      → Explained (view store s' id) events
  Effect-Explained rpc s s' events id honest h (Effects.quiet same) = rw same h
  Effect-Explained rpc s s' events id honest h (Effects.created now later i input e) =
      rw e (elim (create-Created store now later network i id input s) [
        | inl same ↦ rw same h
        | inr (b, p, found, pending, known) ↦ rw found (rw pending tt)
      ])
  Effect-Explained rpc s s' events id honest h (Effects.served now q e backed) = rw e (
      Moved-Explained q id (view store s id) (view store (serve store now q s).1 id) events
        (λ old was named.
          request-Backed rpc contract_id q old events honest
            (backed old (subst (λ i. view store s i ≡ some old) named was)))
        (serve-Moved store now q id s) h)

  pub after-Effect :
      (rpc : Rpc) (endpoint : Endpoint) (s : Api D C)
      → Effect sha256 is_datetime date_of rpc contract_id network store coding challenges s.bookings
          (after sha256 is_datetime date_of contract_id network tok self store coding challenges rpc
            endpoint s).bookings
  after-Effect rpc (System.create now later id body) s =
      create-Effect sha256 is_datetime date_of rpc contract_id network store coding challenges now
        later id body s
  after-Effect rpc (System.fund now id hash) s =
      fund-Effect sha256 is_datetime date_of rpc contract_id network store coding challenges now id
        hash s
  after-Effect rpc (System.cancel now id actor hash) s =
      cancel-Effect sha256 is_datetime date_of rpc contract_id network store coding challenges now
        id actor hash s
  after-Effect rpc (System.check_in_challenge now nonce id actor) s =
      check_in_challenge-Effect sha256 is_datetime date_of rpc contract_id network store coding
        challenges now nonce id actor s
  after-Effect rpc (System.check_in now later tick last id actor token) s =
      check_in-Effect sha256 is_datetime date_of rpc contract_id network store coding challenges now
        later tick last id actor token s
  after-Effect rpc (System.confirm now id actor hash) s =
      confirm-Effect sha256 is_datetime date_of rpc contract_id network store coding challenges now
        id actor hash s
