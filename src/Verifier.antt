-- ===== src/Verifier.antt =====
-- `ContractTransactionVerifier` (apps/api/src/stellar/contract-transaction-verifier.ts). The RPC
-- server is a parameter: what it answers for a hash and for a range of ledgers.
pub mod Laws
use po_vdeposit.Common.{
  ℕ, ◌+◌, ◌*◌, Bool, true, false, not, ◌&&◌, ◌||◌, Option, none, some, List, [], ◌∷◌, Text, ◌===◌,
  codes, any, Result, ok, err, if◌then◌else◌,
}
use po_vdeposit.Common.Numerals.{decimal}

-- `transaction.status`.
pub data Status : Type 0 where
  success not_found failed : Status

pub record Transaction : Type 0 where
  pub status : Status
  pub ledger : ℕ
  pub created_at : ℕ

-- A topic as `scValToNative` returns it: a text, an unsigned number, or any other value with the
-- text that `String` makes of it.
pub data Native : Type 0 where
  text : Text → Native
  number : ℕ → Native
  other : Text → Native

pub record Event : Type 0 where
  pub in_successful_contract_call : Bool
  pub tx_hash : Text
  pub topics : List Native

-- `getTransaction`, and `getEvents` on the half-open range of ledgers and one contract's id.
pub record Rpc : Type 0 where
  pub get_transaction : Text → Transaction
  pub get_events : (start_ledger end_ledger : ℕ) (contract_id : Text) → List Event

pub data Kind : Type 0 where
  booking_funded visit_confirmed deposit_refunded : Kind

abbrev pub event_name : Kind → Text
event_name booking_funded = codes "booking_funded"
event_name visit_confirmed = codes "visit_confirmed"
event_name deposit_refunded = codes "deposit_refunded"

pub data Error : Type 0 where
  not_configured not_successful : Error
  event_missing : Kind → Error

-- `topics[0] === expectedEvent`, and `String(topics[1]) === bookingId`.
abbrev pub is_name : List Native → Text → Bool
is_name (text t ∷ rest) name = t === name
is_name _ name = false

-- `String(topic)`.
abbrev pub string_of : Native → Text
string_of (text t) = t
string_of (number n) = decimal n
string_of (other t) = t

-- `String` of the first topic, which may be missing.
abbrev pub string_of_first : List Native → Text
string_of_first [] = codes "undefined"
string_of_first (topic ∷ rest) = string_of topic

abbrev pub is_booking : List Native → Text → Bool
is_booking [] id = codes "undefined" === id
is_booking (first ∷ rest) id = string_of_first rest === id

abbrev pub matches : Text → Text → Kind → Event → Bool
matches hash booking_id kind event =
    if not event.in_successful_contract_call || not (event.tx_hash === hash)
    then false
    else is_name event.topics (event_name kind) && is_booking event.topics booking_id

abbrev pub is_success : Status → Bool
is_success success = true
is_success _ = false

pub record Verified : Type 0 where
  pub ledger : ℕ
  pub confirmed_at : ℕ

module _ (rpc : Rpc) (contract_id : Text) where
  -- `verifyEvent`; `contract_id` is `process.env.ESCROW_CONTRACT_ID`, empty where it is not set.
  unfoldable pub verify_event : Text → Text → Kind → Result Error Verified
  verify_event hash booking_id kind =
      let transaction = rpc.get_transaction hash in
      if contract_id === []
      then err not_configured
      else if not (is_success transaction.status)
      then err not_successful
      else if not (
          any (matches hash booking_id kind)
            (rpc.get_events transaction.ledger (transaction.ledger + 1) contract_id))
      then err (event_missing kind)
      else ok (record { ledger = transaction.ledger; confirmed_at = transaction.created_at * 1000 })

  unfoldable pub verify_funding : Text → Text → Result Error Verified
  unfolding verify_event
  verify_funding hash booking_id = verify_event hash booking_id booking_funded

  unfoldable pub verify_settlement : Text → Text → Result Error Verified
  unfolding verify_event
  verify_settlement hash booking_id = verify_event hash booking_id visit_confirmed

  unfoldable pub verify_refund : Text → Text → Result Error Verified
  unfolding verify_event
  verify_refund hash booking_id = verify_event hash booking_id deposit_refunded
