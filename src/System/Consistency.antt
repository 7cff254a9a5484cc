-- ===== src/System/Consistency.antt =====
-- What overlapping requests and invocations of the contract keep: each booking of the API is
-- explained by the log of the contract and has its number, and each request in flight has learnt the
-- truth (apps/api/src/booking/booking.controller.ts, apps/api/src/stellar/contract-transaction-verifier.ts).
use po_vdeposit.Common.{
  ℕ, ◌≡◌, ◌≤◌, refl, sym, ◌∙◌, ap, subst, inl, inr, Option, none, some, List, ◌∷◌, Text, Time, Bool,
  count,
}
use po_vdeposit.Booking.Types.{Booking, Verification}
use po_vdeposit.Booking.Store
use po_vdeposit.Booking.Backend
use po_vdeposit.Booking.Backend.{on_chain_id}
use po_vdeposit.Booking.Requests.{Request, view, target, target_state, serve}
use po_vdeposit.Booking.Moves
use po_vdeposit.Booking.Moves.{Moved}
use po_vdeposit.Booking.Moves.Served.{serve-Moved}
use po_vdeposit.Booking.Moves.Created.{create-Created}
use po_vdeposit.Escrow.Defs
use po_vdeposit.Escrow.Defs.{Token, Ledger, deployed}
use po_vdeposit.Verifier.{Rpc}
use po_vdeposit.CheckIn.Store as Codes
use po_vdeposit.Controller.Found.{require_booking-ok, proven}
use po_vdeposit.Controller.Effects
use po_vdeposit.Controller.Effects.{Effect}
use po_vdeposit.System.{after}
use po_vdeposit.System.Growth.{HasEvent, Step-grows, IsProven-HasEvent}
use po_vdeposit.System.Backing.{Backed, Explained, Moved-Explained, Explained-grows, HasEvent-grows}
use po_vdeposit.System.Requests.{Effect-Explained, after-Effect}
use po_vdeposit.System.Flights
use po_vdeposit.System.Flights.{
  Paid, Flight, IsIn, Traffic, Move, Moves, id_of, hash_of, time_of, kind_of, request_of, written,
  found, verified, first, later, here, next,
}

-- A booking has the number that follows from its id.
abbrev pub Numbered : Text → Option Booking → Type 0
Numbered id none = Unit
Numbered id (some b) = b.on_chain_booking_id ≡ on_chain_id id

-- What a flight knows: the number of the booking that it has found, or that the event it asked for is
-- in the log.
abbrev pub IsLearnt : List Defs.Event → Flight → Type 0
IsLearnt events (found p old) = old.on_chain_booking_id ≡ on_chain_id (id_of p)
IsLearnt events (verified p v) = HasEvent (kind_of p) (on_chain_id (id_of p)) events

IsLearnt-grows :
    (x : Flight) (events events' : List Defs.Event)
    → ((p : Defs.Event → Bool) → count p events ≤ count p events')
    → IsLearnt events x
    → IsLearnt events' x
IsLearnt-grows (found p old) events events' grows h = h
IsLearnt-grows (verified p v) events events' grows h =
    HasEvent-grows (kind_of p) (on_chain_id (id_of p)) events events' grows h

IsLearnt-more :
    (y : Flight) (flights : List Flight) (events : List Defs.Event)
    → IsLearnt events y
    → ((x : Flight) → IsIn x flights → IsLearnt events x)
    → (x : Flight) → IsIn x (y ∷ flights)
    → IsLearnt events x
IsLearnt-more y flights events h rest x first = h
IsLearnt-more y flights events h rest x (later there) = rest x there

-- The request that a flight ends with names its booking and is backed by its event.
request_of-target : (p : Paid) (v : Verification) → target (request_of p v) ≡ id_of p
request_of-target (Flights.fund now id hash) v = refl
request_of-target (Flights.cancel now id actor hash) v = refl
request_of-target (Flights.confirm now id actor hash) v = refl

request_of-Backed :
    (p : Paid) (v : Verification) (id : Text) (events : List Defs.Event)
    → HasEvent (kind_of p) id events
    → Backed (target_state (request_of p v)) id events
request_of-Backed (Flights.fund now id hash) v i events h = h
request_of-Backed (Flights.cancel now id actor hash) v i events h = h
request_of-Backed (Flights.confirm now id actor hash) v i events h = h

Moved-Numbered :
    (q : Request) (id : Text) (before after : Option Booking)
    → Moved q id before after
    → Numbered id before
    → Numbered id after
Moved-Numbered q id before after (Moves.stay same) h = rw same h
Moved-Numbered q id before after (Moves.move old b named was now from to may input kept) h =
    rw now (kept ∙ (rw was at h))

module _ (sha256 : Text → Text) (is_datetime : Text → Bool) (date_of : Text → Time)
    (contract_id : Text) (network : Text) {T D C : Type 0} (tok : Token T) (self : ℕ)
    (store : Store.Store D) (coding : Codes.Coding) (challenges : Codes.Store C) where
  Effect-Numbered :
      (rpc : Rpc) (s s' : Backend.Backend D) (id : Text)
      → Numbered id (view store s id)
      → Effect sha256 is_datetime date_of rpc contract_id network store coding challenges s s'
      → Numbered id (view store s' id)
  Effect-Numbered rpc s s' id h (Effects.quiet same) = rw same h
  Effect-Numbered rpc s s' id h (Effects.created now after_now i input e) =
      rw e (elim (create-Created store now after_now network i id input s) [
        | inl same ↦ rw same h
        | inr (b, p, there, pending, known) ↦ rw there (known ∙ ap on_chain_id (sym p))
      ])
  Effect-Numbered rpc s s' id h (Effects.served now q e backed) = rw e (
      Moved-Numbered q id (view store s id) (view store (serve store now q s).1 id)
        (serve-Moved store now q id s) h)

  pub record IsConsistent (s : Traffic T D C) : Type 0 where
    pub explained :
        (id : Text) → Explained (view store s.deployment.api.bookings id) s.deployment.ledger.events
    pub numbered : (id : Text) → Numbered id (view store s.deployment.api.bookings id)
    pub learnt : (x : Flight) → IsIn x s.flights → IsLearnt s.deployment.ledger.events x

  Move-IsConsistent :
      (s s' : Traffic T D C)
      → Move sha256 is_datetime date_of contract_id network tok self store coding challenges s s'
      → IsConsistent s
      → IsConsistent s'
  Move-IsConsistent s s' (Flights.chain ledger step) h =
      let grows =
        λ (p : Defs.Event → Bool). Step-grows tok self s.deployment.ledger ledger p step in
      record {
        explained = λ id.
            Explained-grows (view store s.deployment.api.bookings id) s.deployment.ledger.events
              ledger.events grows (h.explained id);
        numbered = h.numbered;
        learnt = λ x there.
            IsLearnt-grows x s.deployment.ledger.events ledger.events grows (h.learnt x there);
      }
  Move-IsConsistent s s' (Flights.request rpc endpoint honest) h =
      let api = s.deployment.api in
      let api' =
        after sha256 is_datetime date_of contract_id network tok self store coding challenges rpc
          endpoint api in
      let effect =
        after-Effect sha256 is_datetime date_of contract_id network tok self store coding challenges
          rpc endpoint api in
      record {
        explained = λ id.
            Effect-Explained sha256 is_datetime date_of contract_id network tok self store coding
              challenges rpc api.bookings api'.bookings s.deployment.ledger.events id honest
              (h.explained id) effect;
        numbered = λ id. Effect-Numbered rpc api.bookings api'.bookings id (h.numbered id) effect;
        learnt = h.learnt;
      }
  Move-IsConsistent s s' (Flights.look rpc p old api done) h =
      let (same, there) =
        require_booking-ok sha256 is_datetime date_of rpc contract_id network store coding
          challenges (id_of p) s.deployment.api api old done in
      let known : Numbered (id_of p) (some old) = rw there at (h.numbered (id_of p)) in
      record {
        explained = h.explained;
        numbered = h.numbered;
        learnt = IsLearnt-more _ s.flights s.deployment.ledger.events known h.learnt;
      }
  Move-IsConsistent s s' (Flights.verify rpc p old v there honest done) h =
      let event =
        IsProven-HasEvent rpc contract_id (hash_of p) (kind_of p) old s.deployment.ledger.events
          honest
          (proven sha256 is_datetime date_of rpc contract_id network store coding challenges
            (hash_of p) (kind_of p) old v done) in
      let known : HasEvent (kind_of p) (on_chain_id (id_of p)) s.deployment.ledger.events =
        subst (λ c. HasEvent (kind_of p) c s.deployment.ledger.events)
          (h.learnt (found p old) there) event in
      record {
        explained = h.explained;
        numbered = h.numbered;
        learnt = IsLearnt-more _ s.flights s.deployment.ledger.events known h.learnt;
      }
  Move-IsConsistent s s' (Flights.write p v there) h =
      let q = request_of p v in
      let before = s.deployment.api.bookings in
      let after = (serve store (time_of p) q before).1 in
      let event = h.learnt (verified p v) there in
      record {
        explained = λ id.
            Moved-Explained q id (view store before id) (view store after id)
              s.deployment.ledger.events
              (λ old was named from.
                request_of-Backed p v old.on_chain_booking_id s.deployment.ledger.events
                  (number_of p v id old event (rw was at (h.numbered id)) named))
              (serve-Moved store (time_of p) q id before) (h.explained id);
        numbered = λ id.
            Moved-Numbered q id (view store before id) (view store after id)
              (serve-Moved store (time_of p) q id before) (h.numbered id);
        learnt = h.learnt;
      }
    where
      number_of :
          (p : Paid) (v : Verification) (id : Text) (old : Booking)
          → HasEvent (kind_of p) (on_chain_id (id_of p)) s.deployment.ledger.events
          → old.on_chain_booking_id ≡ on_chain_id id
          → id ≡ target (request_of p v)
          → HasEvent (kind_of p) old.on_chain_booking_id s.deployment.ledger.events
      number_of p v id old event number named =
          subst (λ c. HasEvent (kind_of p) c s.deployment.ledger.events)
            (sym (number ∙ ap on_chain_id (named ∙ request_of-target p v))) event

  pub Moves-IsConsistent :
      (s s' : Traffic T D C)
      → Moves sha256 is_datetime date_of contract_id network tok self store coding challenges s s'
      → IsConsistent s
      → IsConsistent s'
  Moves-IsConsistent s s' here h = h
  Moves-IsConsistent s s'' (next {s'} r step) h =
      Move-IsConsistent s' s'' step (Moves-IsConsistent s s' r h)
