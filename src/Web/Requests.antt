-- ===== src/Web/Requests.antt =====
-- How the browser asks the API (apps/web/lib/booking.ts, apps/web/lib/wallet-auth.ts) and its other
-- partners. What they answer is a parameter that may depend on every call made so far, in order. A
-- value that is thrown is an `Error` with a message, or `none` where it is anything else.
use po_vdeposit.Common.{
  ℕ, Bool, true, false, not, ◌||◌, Option, some, List, [], ◌∷◌, ◌++◌, Text, Time, codes, ◌===◌,
  Result, ok, err, Action, if◌then◌else◌,
}
use po_vdeposit.Common.Numerals.{decimal}
use po_vdeposit.Booking.Types.{Booking}
use po_vdeposit.Config.{text_or}
use po_vdeposit.Web.{BookingAction}
use po_vdeposit.Web.Invoke.{EscrowMethod}

abbrev pub Thrown : Type 0
Thrown = Option Text

-- A body that JSON can read, or the message of the error where it cannot.
pub record Json (A : Type 0) : Type 0 where
  pub message : Option Text
  pub value : A

pub data Reply (A : Type 0) : Type 0 where
  unreachable : Text → Reply A
  answered : (is_ok : Bool) (status : ℕ) (body : Result Text (Json A)) → Reply A

-- `response.json().catch(() => ({}))`, the test of `response.ok`, and the payload. `blank` stands
-- for what the empty object is read as.
unfoldable pub receive : {A : Type 0} → A → (ℕ → Text) → Reply A → Result Thrown A
receive blank fallback (unreachable m) = err (some m)
receive blank fallback (answered true status (ok j)) = ok j.value
receive blank fallback (answered true status (err e)) = ok blank
receive blank fallback (answered false status (ok j)) =
    err (some (text_or j.message (fallback status)))
receive blank fallback (answered false status (err e)) = err (some (fallback status))

abbrev pub with_status : Text → ℕ → Text
with_status words status = words ++ codes " (HTTP " ++ decimal status ++ codes ")"

abbrev pub post_failed : ℕ → Text
post_failed status = codes "Request failed with HTTP " ++ decimal status

-- What the form asks the API to create.
pub record NewBooking : Type 0 where
  pub listing_id : Text
  pub renter : Text
  pub host : Text
  pub deposit_amount : Text
  pub visit_time : Text
  pub evidence_hash : Text

-- `{ id?, onChainBookingId?, error? }`.
pub record Created : Type 0 where
  pub id : Option Text
  pub on_chain_booking_id : Option Text
  pub error : Option Text

pub record Challenge : Type 0 where
  pub token : Text
  pub expires_at : Time

-- The calls to the API, by the last part of their path and the body, and to the contract.
pub data Call (V : Type 0) : Type 0 where
  get_booking : (id : Text) → Call V
  get_challenge : (id actor : Text) → Call V
  post_action : (id : Text) (action : BookingAction) (body : List (Text × Text)) → Call V
  get_config : Call V
  post_booking : NewBooking → Call V
  post_fund : (id transaction_hash : Text) → Call V
  invoke :
      (contract_id : Text) (method : EscrowMethod) (arguments : List V) (address : Text) → Call V

-- The answers, by the calls so far with the one that is answered first.
pub record Partners (V : Type 0) : Type 0 where
  pub booking : List (Call V) → Reply Booking
  pub challenge : List (Call V) → Reply Challenge
  pub config : List (Call V) → Reply (Option Text)
  pub created : List (Call V) → Reply Created
  pub funded : List (Call V) → Reply (Unit {0})
  pub invoked : List (Call V) → Result Thrown Text

-- `nativeToScVal` of a text as an address, and of `BigInt` of a text or a number.
pub record Encoder (V : Type 0) : Type 0 where
  pub address : Text → Result Thrown V
  pub u64 : Text → Result Thrown V
  pub i128 : Text → Result Thrown V
  pub seconds : Option ℕ → Result Thrown V

-- The state of a computation that makes calls is the list of them, the last one first.
abbrev pub Calls : Type 0 → Type 0 → Type 0
Calls V A = Action (List (Call V)) Thrown A

abbrev pub ask : {V R : Type 0} → Call V → (List (Call V) → R) → List (Call V) → R × List (Call V)
ask call reply calls = (reply (call ∷ calls), call ∷ calls)

-- `!response.ok || !config.contractId`.
unfoldable pub contract_of : Reply (Option Text) → Result Thrown Text
contract_of (unreachable m) = err (some m)
contract_of (answered is_ok status (err e)) = err (some e)
contract_of (answered is_ok status (ok j)) =
    if not is_ok || (text_or j.value [] === [])
    then err (some (codes "Escrow contract is not configured."))
    else ok (text_or j.value [])

module _ {V : Type 0} (partners : Partners V) (blank : Booking) where
  unfoldable pub fetch_booking : Text → Calls V Booking
  unfolding receive
  fetch_booking id calls =
      let (r, calls') = ask (get_booking id) partners.booking calls in
      (receive blank (with_status (codes "Could not load the booking")) r, calls')

  unfoldable pub request_check_in_challenge : Challenge → (id actor : Text) → Calls V Challenge
  unfolding receive
  request_check_in_challenge empty id actor calls =
      let (r, calls') = ask (get_challenge id actor) partners.challenge calls in
      (receive empty (with_status (codes "Could not issue a challenge")) r, calls')

  unfoldable pub post_booking_action :
      (id : Text) → BookingAction → List (Text × Text) → Calls V Booking
  unfolding receive
  post_booking_action id action body calls =
      let (r, calls') = ask (post_action id action body) partners.booking calls in
      (receive blank post_failed r, calls')

  -- `stellarConfig`, and the same lines of the form. A body that is no JSON is an error here.
  unfoldable pub stellar_config : Calls V Text
  unfolding contract_of
  stellar_config calls =
      let (r, calls') = ask get_config partners.config calls in (contract_of r, calls')

  -- `invokeEscrow`.
  unfoldable pub invoke_escrow :
      (contract_id : Text) → EscrowMethod → List V → (address : Text) → Calls V Text
  invoke_escrow contract_id method arguments address =
      ask (invoke contract_id method arguments address) partners.invoked
