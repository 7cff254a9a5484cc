-- ===== src/Escrow/Defs.antt =====
-- The data, storage and entry points of `VisitDepositEscrow`. Addresses are only compared, so they
-- are numbers. The token contract is a parameter. How long an entry lives is not modelled.
use po_vdeposit.Common.{
  ℕ, ◌+◌, ◌≡◌, Bool, true, false, ◌&&◌, ◌||◌, not, Option, none, some, List, [], ◌∷◌, leb, ltb,
  ◌==◌, if◌then◌else◌, is_some, Action, pure, throw_if, or_throw, gets, modify, ◌>>=◌, ◌>>◌,
  ℕ_discrete,
}
use po_vdeposit.Common.Int.{ℤ, pos, leb_ℤ}
use po_vdeposit.Common.Dict.{Dict, lookup, insert}

abbrev pub Address : Type 0
Address = ℕ

abbrev pub min_deposit : ℕ
min_deposit = 100000

abbrev pub max_deposit : ℕ
max_deposit = 1000000000

pub data BookingState : Type 0 where
  created funded refunded released : BookingState

pub BookingState-discrete : Discrete BookingState
BookingState-discrete = hlevel

-- `==` of the derived `PartialEq`.
abbrev pub same_state : BookingState → BookingState → Bool
same_state created created = true
same_state funded funded = true
same_state refunded refunded = true
same_state released released = true
same_state _ _ = false

pub record Booking : Type 0 where
  pub booking_id : ℕ
  pub renter : Address
  pub host : Address
  pub deposit_amount : ℤ
  pub visit_time : ℕ
  pub state : BookingState

pub data ContractError : Type 0 where
  already_initialized not_initialized booking_already_exists : ContractError
  booking_not_found invalid_booking_state unauthorized invalid_booking : ContractError

-- How a call can fail: by an error of the contract, by `require_auth`, or by a trap.
pub data Failure : Type 0 where
  contract : ContractError → Failure
  auth_missing trapped : Failure

pub data Event : Type 0 where
  booking_created : (booking_id : ℕ) (renter host : Address) (deposit_amount : ℤ) → Event
  booking_funded : (booking_id : ℕ) (amount : ℤ) → Event
  deposit_refunded : (booking_id : ℕ) (amount : ℤ) → Event
  visit_confirmed : (booking_id : ℕ) (amount : ℤ) → Event

-- The token contract of the accepted asset, with the states `T`. A transfer that it accepts takes
-- the amount from the sender and adds it to the receiver, and leaves all other balances alone.
pub record Token (T : Type 0) : Type 0 where
  pub balance : T → Address → Address → ℕ
  pub transfer : Address → Address → Address → ℤ → T → Option T
  pub transfer-balance :
      (asset from to n : ℕ) (t t' : T)
      → transfer asset from to (pos n) t ≡ some t'
      → (holder : Address)
      → balance t' asset holder + (if holder == from then n else 0)
        ≡ balance t asset holder + (if holder == to then n else 0)

-- The instance storage, the persistent storage, the events (newest first) and the token contract.
pub record Ledger (T : Type 0) : Type 0 where
  pub asset : Option Address
  pub bookings : Dict ℕ Booking
  pub events : List Event
  pub token : T

-- What the host tells a call: the contract's own address, the time, and who has signed.
pub record Env : Type 0 where
  pub self : Address
  pub timestamp : ℕ
  pub signed : Address → Bool

abbrev pub deployed : {T : Type 0} → T → Ledger T
deployed t = record { asset = none; bookings = []; events = []; token = t }

abbrev pub Call : Type 0 → Type 0 → Type 0
Call T A = Action (Ledger T) Failure A

module _ {T : Type 0} where
  abbrev pub find_booking : ℕ → Ledger T → Option Booking
  find_booking id s = lookup ℕ_discrete id s.bookings

  abbrev pub require_auth : Env → Address → Call T (Unit {0})
  require_auth env who = throw_if (not (env.signed who)) auth_missing

  abbrev pub publish : Event → Call T (Unit {0})
  publish e = modify λ s. record s { events = e ∷ s.events }

  unfoldable pub asset : Call T Address
  asset = do or_throw (← gets λ s. s.asset) (contract not_initialized)

  unfoldable pub read_booking : ℕ → Call T Booking
  read_booking id = do or_throw (← gets (find_booking id)) (contract booking_not_found)

  unfoldable pub write_booking : Booking → Call T (Unit {0})
  write_booking b = modify λ s. record s { bookings = insert ℕ_discrete b.booking_id b s.bookings }

module _ {T : Type 0} (tok : Token T) where
  -- `asset(env).unwrap()` traps where no asset is set, and so does a refused transfer.
  unfoldable pub transfer : Address → Address → ℤ → Call T (Unit {0})
  transfer from to amount = do
    a ← or_throw (← gets λ s. s.asset) trapped
    t ← or_throw (← gets λ s. tok.transfer a from to amount s.token) trapped
    modify λ s. record s { token = t }

  unfoldable pub initialize : Env → Address → Address → Call T (Unit {0})
  initialize env admin accepted_asset = do
    throw_if (is_some (← gets λ s. s.asset)) (contract already_initialized)
    require_auth env admin
    modify λ s. record s { asset = some accepted_asset }

  unfoldable pub create_booking : Env → ℕ → Address → Address → ℤ → ℕ → Call T (Unit {0})
  unfolding asset write_booking
  create_booking env booking_id renter host deposit_amount visit_time = do
    asset
    throw_if (is_some (← gets (find_booking booking_id))) (contract booking_already_exists)
    throw_if
        (renter == host
          || not (leb_ℤ (pos min_deposit) deposit_amount && leb_ℤ deposit_amount (pos max_deposit))
          || leb visit_time env.timestamp)
        (contract invalid_booking)
    require_auth env renter
    write_booking (record {
      booking_id = booking_id;
      renter = renter;
      host = host;
      deposit_amount = deposit_amount;
      visit_time = visit_time;
      state = created;
    })
    publish (booking_created booking_id renter host deposit_amount)

  unfoldable pub booking : Env → ℕ → Call T Booking
  unfolding read_booking
  booking env booking_id = read_booking booking_id

  unfoldable pub fund_booking : Env → Address → ℕ → Call T (Unit {0})
  unfolding read_booking write_booking transfer
  fund_booking env renter booking_id = do
    booking ← read_booking booking_id
    throw_if (not (booking.renter == renter)) (contract unauthorized)
    throw_if (not (same_state booking.state created)) (contract invalid_booking_state)
    require_auth env renter
    transfer renter env.self booking.deposit_amount
    write_booking (record booking { state = funded })
    publish (booking_funded booking_id booking.deposit_amount)

  unfoldable pub cancel_booking : Env → Address → ℕ → Call T (Unit {0})
  unfolding read_booking write_booking transfer
  cancel_booking env renter booking_id = do
    booking ← read_booking booking_id
    throw_if (not (booking.renter == renter)) (contract unauthorized)
    throw_if (not (same_state booking.state created) && not (same_state booking.state funded))
        (contract invalid_booking_state)
    throw_if (leb booking.visit_time env.timestamp) (contract invalid_booking_state)
    require_auth env renter
    if same_state booking.state funded
        then transfer env.self renter booking.deposit_amount
        else pure tt
    write_booking (record booking { state = refunded })
    publish (deposit_refunded booking_id booking.deposit_amount)

  unfoldable pub confirm_visit : Env → Address → ℕ → Call T (Unit {0})
  unfolding read_booking write_booking transfer
  confirm_visit env host booking_id = do
    booking ← read_booking booking_id
    throw_if (not (booking.host == host)) (contract unauthorized)
    throw_if (not (same_state booking.state funded) || ltb env.timestamp booking.visit_time)
        (contract invalid_booking_state)
    require_auth env host
    transfer env.self booking.renter booking.deposit_amount
    write_booking (record booking { state = released })
    publish (visit_confirmed booking_id booking.deposit_amount)
