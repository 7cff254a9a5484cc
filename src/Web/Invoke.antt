-- ===== src/Web/Invoke.antt =====
-- How the browser calls the contract (`invokeEscrow` of apps/web/lib/contract.ts), and the network
-- profile of apps/web/lib/stellar-network.ts. The servers and the wallet are parameters.
use po_vdeposit.Common.{
  ℕ, zero, suc, ◌+◌, ◌≤◌, ◌<◌, ◌≡◌, ◌≢◌, ◌⊎◌, refl, inl, inr, Bool, true, false, ◌||◌, Option, none,
  some, List, [], ◌∷◌, ◌++◌, Text, codes, ◌===◌, Result, ok, err, if◌then◌else◌, arith,
  Option-cases, Bool-cases, is_some,
}
use po_vdeposit.Config.{StellarNetwork, public, testnet, network_of}

pub data EscrowMethod : Type 0 where
  booking cancel_booking confirm_visit create_booking fund_booking initialize : EscrowMethod

abbrev pub name_of : EscrowMethod → Text
name_of booking = codes "booking"
name_of cancel_booking = codes "cancel_booking"
name_of confirm_visit = codes "confirm_visit"
name_of create_booking = codes "create_booking"
name_of fund_booking = codes "fund_booking"
name_of initialize = codes "initialize"

pub data Status : Type 0 where
  success failed not_found : Status

Status-cases : (s : Status) → (s ≡ success) ⊎ ((s ≡ failed) ⊎ (s ≡ not_found))
Status-cases success = inl refl
Status-cases failed = inr (inl refl)
Status-cases not_found = inr (inr refl)

none_between : (a m : ℕ) → a ≤ m → m < a → ⊥
none_between a m low high = omega arith

-- `sendTransaction`: the hash, and whether the status is "ERROR".
pub record Submitted : Type 0 where
  pub hash : Text
  pub is_error : Bool

-- `signTransaction` of the wallet.
pub record Signed : Type 0 where
  pub signed_tx_xdr : Text
  pub error : Option Text

-- Loading the account and simulating the call give the prepared transaction or an error; what the
-- server says of a hash depends on the attempt.
pub record Chain (Arguments : Type 0) : Type 0 where
  pub prepare : (contract_id address method : Text) → Arguments → Result Text Text
  pub sign : Text → Signed
  pub send : Text → Submitted
  pub get_transaction : (hash : Text) (attempt : ℕ) → Status

pub data Error : Type 0 where
  simulation : Text → Error
  signature : Option Text → Error
  rejected transaction_failed timed_out : Error

abbrev pub attempts : ℕ
attempts = 30

module _ {Arguments : Type 0} (chain : Chain Arguments) where
  -- The loop, with the attempts that are left.
  unfoldable pub poll : (hash : Text) (left attempt : ℕ) → Result Error Text
  poll hash zero attempt = err timed_out
  poll hash (suc left) attempt =
      let rest = poll hash left (attempt + 1) in
      elim (chain.get_transaction hash attempt) [
        | success ↦ ok hash
        | failed ↦ err transaction_failed
        | not_found ↦ rest
      ]

  -- The part behind the simulation.
  unfoldable pub submit : Text → Result Error Text
  submit prepared =
      let signed = chain.sign prepared in
      let submitted = chain.send signed.signed_tx_xdr in
      if is_some signed.error || (signed.signed_tx_xdr === [])
      then err (signature signed.error)
      else if submitted.is_error
      then err rejected
      else poll submitted.hash attempts 0

  unfoldable pub invoke_escrow :
      (contract_id : Text) → EscrowMethod → Arguments → (address : Text) → Result Error Text
  invoke_escrow contract_id method arguments address =
      elim (chain.prepare contract_id address (name_of method) arguments) [
        | err e ↦ err (simulation e)
        | ok prepared ↦ submit prepared
      ]

  poll-ok :
      (hash : Text) (left attempt : ℕ) (result : Text)
      → poll hash left attempt ≡ ok result
      → (n : ℕ) × (result ≡ hash)
        × (attempt ≤ n)
        × (n < attempt + left)
        × (chain.get_transaction hash n ≡ success)
        × ((m : ℕ) → attempt ≤ m → m < n → chain.get_transaction hash m ≡ not_found)
  unfolding poll
  poll-ok hash zero attempt result e = ground arith
  poll-ok hash (suc left) attempt result e =
      elim (Status-cases (chain.get_transaction hash attempt)) [
        | inl at ↦ (
          attempt,
          ground arith,
          omega arith,
          omega arith,
          at,
          λ m least most. elim (none_between attempt m least most) [ ],
        )
        | inr (inl at) ↦ ground arith
        | inr (inr at) ↦
            let (n, same, low, high, there, before) =
              poll-ok hash left (attempt + 1) result (rw (at, poll) at e) in
            (
              n,
              same,
              omega arith,
              omega arith,
              there,
              λ m least most. elim (po_vdeposit.Common.ℕ_discrete m attempt) [
                | yes first ↦ rw first at
                | no later ↦ before m (ground arith) most
              ],
            )
      ]

  -- A call that the browser reports as done has been signed and sent, and the server has reported
  -- the sent transaction's hash as a success in one of 30 attempts, and as unknown in all before it.
  pub invoke_escrow-ok :
      (contract_id : Text) (method : EscrowMethod) (arguments : Arguments) (address hash : Text)
      → invoke_escrow contract_id method arguments address ≡ ok hash
      → (prepared : Text) × (n : ℕ) × (chain.prepare contract_id address (name_of method) arguments
          ≡ ok prepared)
        × ((chain.sign prepared).error ≡ none)
        × (chain.send (chain.sign prepared).signed_tx_xdr
            ≡ record { hash = hash; is_error = false })
        × (n < 30)
        × (chain.get_transaction hash n ≡ success)
        × ((m : ℕ) → m < n → chain.get_transaction hash m ≡ not_found)
  unfolding invoke_escrow submit
  invoke_escrow-ok contract_id method arguments address hash e =
      go (chain.prepare contract_id address (name_of method) arguments) refl
    where
      go :
          (out : Result Text Text)
          → chain.prepare contract_id address (name_of method) arguments ≡ out
          → (prepared : Text) × (n : ℕ) × (chain.prepare contract_id address
                (name_of method)
                arguments
              ≡ ok prepared)
            × ((chain.sign prepared).error ≡ none)
            × (chain.send (chain.sign prepared).signed_tx_xdr
                ≡ record { hash = hash; is_error = false })
            × (n < 30)
            × (chain.get_transaction hash n ≡ success)
            × ((m : ℕ) → m < n → chain.get_transaction hash m ≡ not_found)
      go (err x) at = ground arith
      go (ok prepared) at =
          let signed = chain.sign prepared in
          let sent = chain.send signed.signed_tx_xdr in
          let polled : poll sent.hash attempts 0 ≡ ok hash = ground arith in
          let (n, same, low, high, there, before) = poll-ok sent.hash attempts 0 hash polled in
          (
            prepared,
            n,
            at,
            ground arith,
            ground arith,
            omega arith,
            rw same there,
            λ m most. rw same (before m (omega arith) most),
          )

-- The profile of a network, and where its explorer shows a transaction.
pub record NetworkProfile : Type 0 where
  pub network : StellarNetwork
  pub label : Text
  pub horizon_url : Text
  pub explorer_base : Text

abbrev pub profile_of : StellarNetwork → NetworkProfile
profile_of public = record {
  network = public;
  label = codes "Mainnet";
  horizon_url = codes "https://horizon.stellar.org";
  explorer_base = codes "https://stellar.expert/explorer/public";
}
profile_of testnet = record {
  network = testnet;
  label = codes "Testnet";
  horizon_url = codes "https://horizon-testnet.stellar.org";
  explorer_base = codes "https://stellar.expert/explorer/testnet";
}

abbrev pub stellar_profile : Option Text → NetworkProfile
stellar_profile raw = profile_of (network_of raw)

abbrev pub explorer_transaction_url : Text → NetworkProfile → Text
explorer_transaction_url hash profile = profile.explorer_base ++ codes "/tx/" ++ hash
