-- ===== src/Web.antt =====
-- What the browser offers of a booking (apps/web/lib/booking.ts), and which network it expects of a
-- wallet (apps/web/lib/network.ts). The booking is the one that the API answers with.
pub mod Laws
pub mod Invoke
pub mod Requests
pub mod Actions
pub mod Form
pub mod Signature
pub mod Wallet
pub mod Listings
use po_vdeposit.Common.{
  Bool, true, false, ◌||◌, Option, none, some, List, [], ◌∷◌, ◌++◌, Text, codes, ◌===◌,
  if◌then◌else◌,
}
use po_vdeposit.Booking.Types.{Booking, is_funded, is_checked_in}

pub data BookingAction : Type 0 where
  issue_challenge check_in confirm cancel : BookingAction

-- The last part of the path that an action is posted to.
abbrev pub path_of : BookingAction → Text
path_of issue_challenge = codes "issue-challenge"
path_of check_in = codes "check-in"
path_of confirm = codes "confirm"
path_of cancel = codes "cancel"

abbrev pub action_label : BookingAction → Text
action_label issue_challenge = codes "Show the check-in code"
action_label check_in = codes "Record check-in"
action_label confirm = codes "Confirm visit and release deposit"
action_label cancel = codes "Cancel and refund deposit"

-- `availableActions`, for a wallet that is connected.
abbrev pub actions_of : Booking → Text → List BookingAction
actions_of booking wallet =
    let is_renter = wallet === booking.input.renter in
    let is_host = wallet === booking.input.host in
    if is_funded booking.state
    then if is_renter then check_in ∷ cancel ∷ [] else if is_host then issue_challenge ∷ [] else []
    else if is_checked_in booking.state
    then if is_host then confirm ∷ [] else []
    else []

unfoldable pub available_actions : Booking → Option Text → List BookingAction
available_actions booking none = []
available_actions booking (some wallet) = if wallet === [] then [] else actions_of booking wallet

-- What a wallet says of its network.
pub record WalletNetwork : Type 0 where
  pub network : Option Text
  pub network_passphrase : Option Text

abbrev pub is_given : Option Text → Text → Bool
is_given none value = false
is_given (some given) value = given === value

abbrev pub is_testnet : WalletNetwork → Bool
is_testnet w =
    is_given w.network (codes "TESTNET")
    || is_given w.network_passphrase (codes "Test SDF Network ; September 2015")

unfoldable pub is_expected_network : WalletNetwork → Text → Bool
is_expected_network w expected =
    if expected === codes "PUBLIC" then is_given w.network (codes "PUBLIC") else is_testnet w
