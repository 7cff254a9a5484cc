-- ===== src/Web/Wallet.antt =====
-- The wallet dialog (apps/web/components/wallet-dialog.tsx) and the login requests that it makes
-- (apps/web/lib/wallet-auth.ts). The extensions and the API are parameters.
pub mod Laws
use po_vdeposit.Common.{
  ℕ, ◌-◌, Bool, true, false, not, ◌||◌, Option, none, some, List, [], ◌∷◌, ◌++◌, take, drop, length,
  Text, codes, ◌===◌, Result, ok, err, if◌then◌else◌, is_some, Action, pure, throw, throw_if, lift,
  ◌>>=◌, ◌>>◌,
}
use po_vdeposit.Web.{WalletNetwork, is_expected_network}
use po_vdeposit.Web.Invoke.{NetworkProfile}
use po_vdeposit.Config
use po_vdeposit.Config.{text_or}
use po_vdeposit.Web.Requests.{Thrown, Reply, receive, post_failed}
use po_vdeposit.Web.Actions.{or_message}
use po_vdeposit.Web.Signature.{Signature, to_base64_signature}

pub data Kind : Type 0 where
  freighter rabet : Kind

abbrev pub kind_name : Kind → Text
kind_name freighter = codes "Freighter"
kind_name rabet = codes "Rabet"

pub record WalletSession : Type 0 where
  pub kind : Kind
  pub address : Text

-- `{ address?, error? }`, or Rabet's `{ publicKey?, error? }`.
pub record Access : Type 0 where
  pub address : Option Text
  pub error : Option Text

-- `SignedMessage`; `String(error)` where there is one.
pub record SignedMessage : Type 0 where
  pub signed_message : Signature
  pub error : Option Text

-- `AuthChallenge`.
pub record AuthChallenge : Type 0 where
  pub id : Text
  pub message : Text

-- The two extensions, of which Rabet may be missing.
pub record Extensions : Type 0 where
  pub is_connected : Bool
  pub network : WalletNetwork
  pub request_access : Access
  pub sign_message : (message address : Text) → SignedMessage
  pub rabet : Option Access
  pub rabet_disconnect : Result Thrown (Unit {0})

-- What the API answers to `/api/auth/challenge` and `/api/auth/verify`.
pub record Login : Type 0 where
  pub challenge : (address : Text) → Reply AuthChallenge
  pub verify : (challenge_id address signature : Text) → Reply (Unit {0})

-- The component's state, with the stored address and whether the dialog is shown.
pub record Dialog : Type 0 where
  pub session : Option WalletSession
  pub status : Text
  pub stored : Option Text
  pub shown : Bool

-- `shortAddress`: `slice(0, 6)` and `slice(-4)`.
abbrev pub short_address : Text → Text
short_address s = take 6 s ++ codes "…" ++ drop (length s - 4) s

-- The button that opens the dialog.
abbrev pub trigger_label : Option WalletSession → Text
trigger_label none = codes "Connect wallet"
trigger_label (some session) = kind_name session.kind ++ codes " " ++ short_address session.address

abbrev pub network_name : Config.StellarNetwork → Text
network_name Config.public = codes "PUBLIC"
network_name Config.testnet = codes "TESTNET"

-- A text that JavaScript takes for true.
abbrev pub is_given : Option Text → Bool
is_given t = not (text_or t [] === [])

abbrev pub granted : Kind → Access → Result Thrown WalletSession
granted kind a =
    if is_given a.error || (text_or a.address [] === [])
    then err (some (text_or a.error (codes "Wallet access was rejected.")))
    else ok (record { kind = kind; address = text_or a.address [] })

module _ (profile : NetworkProfile) (extensions : Extensions) (login : Login)
    (blank : AuthChallenge) where
  -- What the dialog shows first.
  abbrev pub opened : Option Text → Dialog
  opened stored = record {
    session = none;
    status =
        if text_or stored [] === []
        then codes "Choose a wallet. " ++ profile.label ++ codes " is required."
        else codes "Previous public address "
          ++ short_address (text_or stored [])
          ++ codes ". Reconnect to authorize.";
    stored = stored;
    shown = false;
  }

  unfoldable pub connect_freighter : Result Thrown WalletSession
  unfolding is_expected_network
  connect_freighter =
      if not extensions.is_connected
      then err (some (codes "Install or unlock Freighter first."))
      else if not (is_expected_network extensions.network (network_name profile.network))
      then err (some (codes "Switch Freighter to Stellar " ++ profile.label ++ codes "."))
      else granted freighter extensions.request_access

  unfoldable pub connect_rabet : Result Thrown WalletSession
  connect_rabet = elim extensions.rabet [
    | none ↦ err (some (codes "Install or unlock Rabet first."))
    | some access ↦ granted rabet access
  ]

  -- `requestChallenge` and `submitSignature`.
  abbrev pub request_challenge : Text → Result Thrown AuthChallenge
  request_challenge address = receive blank post_failed (login.challenge address)

  abbrev pub submit_signature : (challenge_id address signature : Text) → Result Thrown (Unit {0})
  submit_signature challenge_id address signature =
      receive tt post_failed (login.verify challenge_id address signature)

  abbrev pub sending : (challenge_id address : Text) → SignedMessage → Result Thrown (Unit {0})
  sending challenge_id address signed =
      if is_some signed.error
      then err signed.error
      else elim (to_base64_signature signed.signed_message) [
        | err e ↦ err e
        | ok signature ↦ submit_signature challenge_id address signature
      ]

  unfoldable pub authenticate : Text → Result Thrown (Unit {0})
  unfolding receive to_base64_signature
  authenticate address = elim (request_challenge address) [
    | err e ↦ err e
    | ok challenge ↦
        sending challenge.id address (extensions.sign_message challenge.message address)
  ]

  abbrev pub reached : Kind → Result Thrown WalletSession
  reached freighter = connect_freighter
  reached rabet = connect_rabet

  -- Only Freighter's session is authenticated.
  abbrev pub checked : WalletSession → Result Thrown (Unit {0})
  checked session = elim session.kind [ freighter ↦ authenticate session.address | rabet ↦ ok tt ]

  abbrev pub success_status : WalletSession → Text
  success_status session = elim session.kind [
    | freighter ↦ codes "Freighter verified on " ++ profile.label ++ codes "."
    | rabet ↦
        codes "Rabet connected to " ++ profile.label ++ codes " without signature verification."
  ]

  -- The `try` block, and what follows.
  abbrev pub attempt : Kind → Result Thrown WalletSession
  attempt kind = elim (reached kind) [
    | err e ↦ err e
    | ok next ↦ elim (checked next) [ err e ↦ err e | ok done ↦ ok next ]
  ]

  unfoldable pub connect : Kind → Dialog → Dialog
  unfolding connect_freighter connect_rabet authenticate
  connect kind d = elim (attempt kind) [
    | ok next ↦ record {
      session = some next;
      status = success_status next;
      stored = some next.address;
      shown = false;
    }
    | err e ↦ record d {
      session = none;
      status = or_message e (codes "Wallet connection failed.");
      stored = none;
    }
  ]

  abbrev pub is_rabet : Option WalletSession → Bool
  is_rabet none = false
  is_rabet (some session) = elim session.kind [ freighter ↦ false | rabet ↦ true ]

  -- Only a session of Rabet is told to its extension, and nothing is forgotten where that fails.
  unfoldable pub disconnect : Dialog → Dialog
  disconnect d =
      let forgotten = record d {
        session = none;
        status = codes "Wallet disconnected.";
        stored = none;
      } in
      if is_rabet d.session
      then elim extensions.rabet_disconnect [ ok done ↦ forgotten | err e ↦ d ]
      else forgotten
