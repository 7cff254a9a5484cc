-- ===== src/Config.antt =====
-- The settings that the API reads from the environment: `readStellarSettings`
-- (apps/api/src/config/stellar.config.ts) and `checkInSecret` (apps/api/src/config/secrets.ts). The
-- host name of a URL is a parameter, with none where `new URL` throws.
pub mod Laws
pub mod Answers
use po_vdeposit.Common.{
  ℕ, Bool, true, false, not, ◌&&◌, ◌||◌, ◌==◌, leb, Option, none, some, List, [], ◌∷◌, reverse,
  Text, codes, ◌===◌, upper, Result, ok, err, if◌then◌else◌,
}

pub data StellarNetwork : Type 0 where
  public testnet : StellarNetwork

abbrev pub passphrase_of : StellarNetwork → Text
passphrase_of public = codes "Public Global Stellar Network ; September 2015"
passphrase_of testnet = codes "Test SDF Network ; September 2015"

abbrev pub horizon_of : StellarNetwork → Text
horizon_of public = codes "https://horizon.stellar.org"
horizon_of testnet = codes "https://horizon-testnet.stellar.org"

abbrev pub rpc_of : StellarNetwork → Text
rpc_of public = codes "https://stellar.api.onfinality.io/public"
rpc_of testnet = codes "https://soroban-testnet.stellar.org"

pub record StellarSettings : Type 0 where
  pub network : StellarNetwork
  pub network_passphrase : Text
  pub rpc_url : Text
  pub horizon_url : Text
  pub contract_id : Text

-- The variables that the two functions read.
pub record Environment : Type 0 where
  pub stellar_network : Option Text
  pub stellar_network_passphrase : Option Text
  pub stellar_horizon_url : Option Text
  pub stellar_rpc_url : Option Text
  pub escrow_contract_id : Option Text
  pub checkin_token_secret : Option Text
  pub session_secret : Option Text
  pub node_env : Option Text

pub data Error : Type 0 where
  foreign_passphrase foreign_horizon : StellarNetwork → Error
  invalid_url secret_required : Error

-- The white space that `trim` takes off.
abbrev pub is_space : ℕ → Bool
is_space c =
    (leb 9 c && leb c 13)
    || c == 32
    || c == 160
    || c == 5760
    || (leb 8192 c && leb c 8202)
    || c == 8232
    || c == 8233
    || c == 8239
    || c == 8287
    || c == 12288
    || c == 65279

abbrev pub trim_start : Text → Text
trim_start [] = []
trim_start (c ∷ s) = if is_space c then trim_start s else c ∷ s

unfoldable pub trim : Text → Text
trim s = reverse (trim_start (reverse (trim_start s)))

-- `toUpperCase`, on the letters whose upper case is in ASCII.
abbrev pub to_upper : Text → Text
to_upper [] = []
to_upper (c ∷ s) =
    if c == 305
    then b'I' ∷ to_upper s
    else if c == 383
    then b'S' ∷ to_upper s
    else if c == 64261 || c == 64262
    then b'S' ∷ b'T' ∷ to_upper s
    else upper c ∷ to_upper s

-- `value?.trim() || otherwise`, and `a || b`.
abbrev pub or_else : Text → Text → Text
or_else [] otherwise = otherwise
or_else (c ∷ s) otherwise = c ∷ s

abbrev pub trimmed_or : Option Text → Text → Text
trimmed_or none otherwise = otherwise
trimmed_or (some value) otherwise = or_else (trim value) otherwise

abbrev pub network_of : Option Text → StellarNetwork
network_of none = public
network_of (some value) = if to_upper (trim value) === codes "TESTNET" then testnet else public

module _ (hostname : Text → Option Text) where
  -- The comparison of the two host names; either URL may be invalid.
  abbrev pub check_horizon : StellarNetwork → Text → Result Error (Unit {0})
  check_horizon network url = elim (hostname url) [
    | none ↦ err invalid_url
    | some given ↦ elim (hostname (horizon_of network)) [
      | none ↦ err invalid_url
      | some expected ↦ if given === expected then ok tt else err (foreign_horizon network)
    ]
  ]

  unfoldable pub read_stellar_settings : Environment → Result Error StellarSettings
  read_stellar_settings env =
      let network = network_of env.stellar_network in
      let passphrase = trimmed_or env.stellar_network_passphrase (passphrase_of network) in
      let horizon = trimmed_or env.stellar_horizon_url (horizon_of network) in
      if not (passphrase === passphrase_of network)
      then err (foreign_passphrase network)
      else elim (check_horizon network horizon) [
        | err e ↦ err e
        | ok u ↦ ok (record {
          network = network;
          network_passphrase = passphrase;
          rpc_url = trimmed_or env.stellar_rpc_url (rpc_of network);
          horizon_url = horizon;
          contract_id = trimmed_or env.escrow_contract_id [];
        })
      ]

abbrev pub text_or : Option Text → Text → Text
text_or none otherwise = otherwise
text_or (some value) otherwise = or_else value otherwise

abbrev pub is_production : Option Text → Bool
is_production none = false
is_production (some value) = value === codes "production"

unfoldable pub check_in_secret : Environment → Result Error Text
check_in_secret env =
    let secret = text_or env.checkin_token_secret (text_or env.session_secret []) in
    if not (secret === [])
    then ok secret
    else if is_production env.node_env
    then err secret_required
    else ok (codes "development-only-checkin-secret")
