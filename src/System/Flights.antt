-- ===== src/System/Flights.antt =====
-- Requests to the API (apps/api/src/booking/booking.controller.ts) that overlap. The endpoints that
-- stand on an event of the contract wait three times: for the booking, for the verifier, and for the
-- service. Between these, other requests and calls of the contract may come. A request in flight is
-- known by what it has learnt; what it has learnt is kept, so that it may also act on it twice.
use po_vdeposit.Common.{ℕ, ◌≡◌, some, List, ◌∷◌, Text, Time, Bool, ok}
use po_vdeposit.Booking.Types.{Booking, Verification}
use po_vdeposit.Booking.Store
use po_vdeposit.Booking.Requests
use po_vdeposit.Booking.Requests.{Request, serve}
use po_vdeposit.Escrow.Defs.{Ledger, Token}
use po_vdeposit.Escrow.Host
use po_vdeposit.Verifier.{
  Rpc, Kind, Verified, booking_funded, visit_confirmed, deposit_refunded, verify_event,
}
use po_vdeposit.CheckIn.Store as Codes
use po_vdeposit.Controller.{Api, require_booking}
use po_vdeposit.System.{Deployment, Endpoint, IsHonest, after}

-- The endpoints that stand on an event.
pub data Paid : Type 0 where
  fund : (now : ℕ) (id transaction_hash : Text) → Paid
  cancel : (now : ℕ) (id actor transaction_hash : Text) → Paid
  confirm : (now : ℕ) (id actor transaction_hash : Text) → Paid

abbrev pub id_of : Paid → Text
id_of (fund now id hash) = id
id_of (cancel now id actor hash) = id
id_of (confirm now id actor hash) = id

abbrev pub hash_of : Paid → Text
hash_of (fund now id hash) = hash
hash_of (cancel now id actor hash) = hash
hash_of (confirm now id actor hash) = hash

abbrev pub time_of : Paid → ℕ
time_of (fund now id hash) = now
time_of (cancel now id actor hash) = now
time_of (confirm now id actor hash) = now

abbrev pub kind_of : Paid → Kind
kind_of (fund now id hash) = booking_funded
kind_of (cancel now id actor hash) = deposit_refunded
kind_of (confirm now id actor hash) = visit_confirmed

-- What the service is asked at last.
abbrev pub request_of : Paid → Verification → Request
request_of (fund now id hash) v = Requests.fund id hash (some v)
request_of (cancel now id actor hash) v = Requests.refund id actor hash (some v)
request_of (confirm now id actor hash) v = Requests.confirm id actor hash

pub data Flight : Type 0 where
  found : Paid → Booking → Flight
  verified : Paid → Verification → Flight

pub data IsIn (x : Flight) : List Flight → Type 0 where
  first : {xs : List Flight} → IsIn x (x ∷ xs)
  later : {y : Flight} {xs : List Flight} → IsIn x xs → IsIn x (y ∷ xs)

pub record Traffic (T D C : Type 0) : Type 0 where
  pub deployment : Deployment T D C
  pub flights : List Flight

module _ (sha256 : Text → Text) (is_datetime : Text → Bool) (date_of : Text → Time)
    (contract_id : Text) (network : Text) {T D C : Type 0} (tok : Token T) (self : ℕ)
    (store : Store.Store D) (coding : Codes.Coding) (challenges : Codes.Store C) where
  abbrev pub written : Paid → Verification → Api D C → Api D C
  written p v api = record api {
    bookings = (serve store (time_of p) (request_of p v) api.bookings).1;
  }

  pub data Move (s : Traffic T D C) : Traffic T D C → Type 0 where
    chain :
        (ledger : Ledger T)
        → Host.Step tok self s.deployment.ledger ledger
        → Move s (record s { deployment = record s.deployment { ledger = ledger } })
    -- A request that nothing comes between, of any endpoint.
    request :
        (rpc : Rpc) (endpoint : Endpoint)
        → IsHonest rpc contract_id s.deployment.ledger.events
        → Move s (record s {
          deployment = record s.deployment {
            api =
                after sha256 is_datetime date_of contract_id network tok self store coding
                  challenges rpc endpoint s.deployment.api;
          };
        })
    look :
        (rpc : Rpc) (p : Paid) (old : Booking) (api : Api D C)
        → require_booking sha256 is_datetime date_of rpc contract_id network store coding challenges
            (id_of p)
            s.deployment.api
          ≡ (ok old, api)
        → Move s (record s { flights = found p old ∷ s.flights })
    verify :
        (rpc : Rpc) (p : Paid) (old : Booking) (v : Verified)
        → IsIn (found p old) s.flights
        → IsHonest rpc contract_id s.deployment.ledger.events
        → verify_event rpc contract_id (hash_of p) old.on_chain_booking_id (kind_of p) ≡ ok v
        → Move s (record s {
          flights =
              verified p (record { ledger = v.ledger; confirmed_at = v.confirmed_at }) ∷ s.flights;
        })
    write :
        (p : Paid) (v : Verification)
        → IsIn (verified p v) s.flights
        → Move s
            (record s { deployment = record s.deployment { api = written p v s.deployment.api } })

  pub data Moves (s : Traffic T D C) : Traffic T D C → Type 0 where
    here : Moves s s
    next : {s' s'' : Traffic T D C} → Moves s s' → Move s' s'' → Moves s s''
