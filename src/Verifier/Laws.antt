-- ===== src/Verifier/Laws.antt =====
-- What a verified transaction of apps/api/src/stellar/contract-transaction-verifier.ts is evidence
-- of.
use po_vdeposit.Common.{
  ◌+◌, ◌*◌, ◌≡◌, ◌≢◌, true, inl, inr, List, [], ◌∷◌, Text, ok, arith, any, Bool-cases, same-eq,
}
use po_vdeposit.Verifier.{
  Rpc, Event, Native, text, Kind, event_name, is_name, is_booking, string_of_first, matches,
  success, Verified, verify_event,
}

-- The event is one that the contract published in the transaction, of the kind and booking.
pub record Proves (hash booking_id : Text) (kind : Kind) (e : Event) : Type 0 where
  pub successful : e.in_successful_contract_call ≡ true
  pub in_transaction : e.tx_hash ≡ hash
  pub topics :
      (rest : List Native) × (e.topics ≡ text (event_name kind) ∷ rest)
      × (string_of_first rest ≡ booking_id)

-- An event of the list, by its place.
pub data Member (e : Event) : List Event → Type 0 where
  head : {es : List Event} → Member e (e ∷ es)
  tail : {x : Event} {es : List Event} → Member e es → Member e (x ∷ es)

topics_lem :
    (ts : List Native) (kind : Kind) (id : Text)
    → is_name ts (event_name kind) ≡ true
    → is_booking ts id ≡ true
    → (rest : List Native) × (ts ≡ text (event_name kind) ∷ rest) × (string_of_first rest ≡ id)
topics_lem (text t ∷ rest) kind id h k = (rest, ground arith, same-eq (string_of_first rest) id k)
topics_lem _ kind id h k = cc

matches-Proves :
    (hash id : Text) (kind : Kind) (e : Event)
    → matches hash id kind e ≡ true
    → Proves hash id kind e
matches-Proves hash id kind e h = record {
  successful = ground arith;
  in_transaction = ground arith;
  topics = topics_lem e.topics kind id (ground arith) (ground arith);
}

any-Member :
    (hash id : Text) (kind : Kind) (es : List Event)
    → any (matches hash id kind) es ≡ true
    → (e : Event) × Member e es × Proves hash id kind e
any-Member hash id kind [] h = cc
any-Member hash id kind (e ∷ es) h = elim (Bool-cases (matches hash id kind e)) [
  | inl found ↦ (e, head, matches-Proves hash id kind e found)
  | inr miss ↦
      let (x, there, proof) = any-Member hash id kind es (rw miss at h) in (x, tail there, proof)
]

module _ (rpc : Rpc) (contract_id : Text) where
  -- A transaction is verified only where the contract's id is configured, the transaction
  -- succeeded, and among the contract's events in the transaction's own ledger stands one that a
  -- successful call published in this very transaction, whose first topic is the expected
  -- name, and whose second one reads as the booking's id: a number in decimal, a text as it is, and
  -- any other value as `String` has it. The result reports the transaction's ledger and time.
  pub verify_event-ok :
      (hash id : Text) (kind : Kind) (v : Verified)
      → verify_event rpc contract_id hash id kind ≡ ok v
      → let t = rpc.get_transaction hash in
        (contract_id ≢ [])
        × (t.status ≡ success)
        × (v ≡ record { ledger = t.ledger; confirmed_at = t.created_at * 1000 })
        × ((e : Event) × Member e (rpc.get_events t.ledger (t.ledger + 1) contract_id)
            × Proves hash id kind e)
  unfolding verify_event
  verify_event-ok hash id kind v h =
      let t = rpc.get_transaction hash in
      (
        ground arith,
        ground arith,
        ground arith,
        any-Member hash id kind (rpc.get_events t.ledger (t.ledger + 1) contract_id) (ground arith),
      )
