-- ===== src/Web/Actions.antt =====
-- The component `BookingActions` (apps/web/components/booking-actions.tsx): its state, and what its
-- buttons do. `wallet` is the address in the browser's storage, `time_text` the local text of a time.
pub mod Laws
pub mod OffChain
use po_vdeposit.Common.{
  ℕ, Bool, true, false, Option, none, some, List, [], ◌∷◌, ◌++◌, Text, Time, codes, ◌===◌, Result,
  ok, err, Action, pure, throw, throw_if, gets, modify, lift, if◌then◌else◌, ◌>>=◌, ◌>>◌,
}
use po_vdeposit.Config.{text_or, trim}
use po_vdeposit.Booking.Types
use po_vdeposit.Booking.Types.{Booking, BookingState}
use po_vdeposit.Web
use po_vdeposit.Web.{BookingAction, issue_challenge, check_in, confirm, cancel, available_actions}
use po_vdeposit.Web.Invoke.{EscrowMethod, confirm_visit, cancel_booking}
use po_vdeposit.Web.Requests.{
  Thrown, Call, Calls, Partners, Encoder, Challenge, fetch_booking, request_check_in_challenge,
  post_booking_action, stellar_config, invoke_escrow,
}

-- The value of `booking.state`.
abbrev pub state_name : BookingState → Text
state_name Types.pending_funding = codes "PENDING_FUNDING"
state_name Types.funded = codes "FUNDED"
state_name Types.checked_in = codes "CHECKED_IN"
state_name Types.completed = codes "COMPLETED"
state_name Types.cancelled = codes "CANCELLED"
state_name Types.renter_no_show = codes "RENTER_NO_SHOW"
state_name Types.host_no_show = codes "HOST_NO_SHOW"
state_name Types.disputed = codes "DISPUTED"
state_name Types.refunded = codes "REFUNDED"
state_name Types.released = codes "RELEASED"
state_name Types.split = codes "SPLIT"
state_name Types.expired = codes "EXPIRED"

abbrev pub says_state : Booking → Text
says_state b = codes "Booking is " ++ state_name b.state ++ codes "."

pub record Screen : Type 0 where
  pub reference : Text
  pub booking : Option Booking
  pub status : Text
  pub code : Text
  pub busy : Bool

-- The screen, and the calls that were made.
pub record Session (V : Type 0) : Type 0 where
  pub screen : Screen
  pub calls : List (Call V)

abbrev pub Step : Type 0 → Type 0 → Type 0
Step V A = Action (Session V) Thrown A

abbrev pub calling : {V A : Type 0} → Calls V A → Step V A
calling m s = let (r, calls) = m s.calls in (r, record s { calls = calls })

abbrev pub set_status : {V : Type 0} → Text → Step V (Unit {0})
set_status words = modify λ s. record s { screen = record s.screen { status = words } }

abbrev pub set_code : {V : Type 0} → Text → Step V (Unit {0})
set_code words = modify λ s. record s { screen = record s.screen { code = words } }

abbrev pub set_busy : {V : Type 0} → Bool → Session V → Session V
set_busy busy s = record s { screen = record s.screen { busy = busy } }

-- `setBooking` and `setStatus`.
abbrev pub show : {V : Type 0} → Option Booking → Text → Session V → Session V
show booking words s = record s { screen = record s.screen { booking = booking; status = words } }

-- `error instanceof Error ? error.message : otherwise`.
abbrev pub or_message : Thrown → Text → Text
or_message none otherwise = otherwise
or_message (some m) otherwise = m

-- `actor` with a second field.
abbrev pub body_of : Text → Text → Text → List (Text × Text)
body_of wallet field value = (codes "actor", wallet) ∷ (field, value) ∷ []

-- What follows the `try` block.
abbrev pub ending : {V : Type 0} → Result Thrown (Option Booking) × Session V → Session V
ending (ok none, s) = set_busy false s
ending (ok (some updated), s) = set_busy false (show (some updated) (says_state updated) s)
ending (err e, s) =
    set_busy false
      (show s.screen.booking (or_message e (codes "The escrow rejected that action.")) s)

module _ {V : Type 0} (partners : Partners V) (encoder : Encoder V) (blank : Booking)
    (empty : Challenge) (time_text : Time → Text) where
  unfoldable pub load : Session V → Session V
  load s =
      let (r, calls) = fetch_booking partners blank (trim s.screen.reference) s.calls in
      let s' = record (set_busy true s) { calls = calls } in
      set_busy false (elim r [
        | ok b ↦ show (some b) (says_state b) s'
        | err e ↦ show none (or_message e (codes "Could not load the booking.")) s'
      ])

  -- The branch that asks the host's code from the API; it returns before a booking is set.
  unfoldable pub show_code : Booking → Text → Step V (Unit {0})
  show_code b wallet = do
    challenge ← calling (request_check_in_challenge partners blank empty b.id wallet)
    set_code challenge.token
    set_status (
        codes "Show this code to the renter. It expires "
        ++ time_text challenge.expires_at
        ++ codes ".")

  unfoldable pub record_check_in : Booking → Text → Step V Booking
  record_check_in b wallet = do
    code ← gets λ s. trim s.screen.code
    throw_if (code === []) (some (codes "Enter the check-in code shown by the host."))
    set_status (codes "Recording the check-in…")
    calling (post_booking_action partners blank b.id check_in (body_of wallet (codes "token") code))

  -- The branch that goes to the contract first, and then tells the API.
  unfoldable pub settle : BookingAction → EscrowMethod → Booking → Text → Step V Booking
  settle action method b wallet = do
    set_status (codes "Approve the escrow call in Freighter…")
    contract_id ← calling (stellar_config partners blank)
    who ← lift (encoder.address wallet)
    which ← lift (encoder.u64 b.on_chain_booking_id)
    hash ← calling (invoke_escrow partners blank contract_id method (who ∷ which ∷ []) wallet)
    set_status (codes "Waiting for the ledger to confirm…")
    calling (
        post_booking_action partners blank b.id action
          (body_of wallet (codes "transactionHash") hash))

  -- The `try` block; a booking where it ends with one.
  unfoldable pub attempt : BookingAction → Booking → Text → Step V (Option Booking)
  unfolding show_code record_check_in settle
  attempt issue_challenge b wallet = show_code b wallet >> pure none
  attempt check_in b wallet = record_check_in b wallet >>= λ updated. pure (some updated)
  attempt confirm b wallet =
      settle confirm confirm_visit b wallet >>= λ updated. pure (some updated)
  attempt cancel b wallet = settle cancel cancel_booking b wallet >>= λ updated. pure (some updated)

  -- Behind the guards.
  unfoldable pub finish : BookingAction → Booking → Text → Session V → Session V
  unfolding attempt
  finish action b wallet s = ending (attempt action b wallet (set_busy true s))

  unfoldable pub run : Option Text → BookingAction → Session V → Session V
  run wallet action s = elim s.screen.booking [
    | none ↦ s
    | some b ↦ if text_or wallet [] === [] then s else finish action b (text_or wallet []) s
  ]

  -- The buttons: none without a booking.
  abbrev pub buttons : Option Text → Session V → List BookingAction
  buttons wallet s = elim s.screen.booking [ none ↦ [] | some b ↦ available_actions b wallet ]
