-- ===== src/Tests/Settings.antt =====
-- The settings (apps/api/src/config) read from one environment.
use po_vdeposit.Common.{
  ℕ, ◌+◌, ◌≡◌, ◌≢◌, ◌↔◌, ◌⊎◌, refl, Bool, true, false, ◌&&◌, Option, none, some, [], ◌∷◌, Text,
  codes, ok, err, Result, arith, if◌then◌else◌, ◌===◌, any, Time,
}
use po_vdeposit.Config
use po_vdeposit.Config.{Environment, StellarSettings, read_stellar_settings, check_in_secret}
use po_vdeposit.Config.Laws.{AreCoherent, read_stellar_settings-AreCoherent}

abbrev env : Environment
env = record {
  stellar_network = some (codes " testnet ");
  stellar_network_passphrase = none;
  stellar_horizon_url = none;
  stellar_rpc_url = none;
  escrow_contract_id = some (codes "CC");
  checkin_token_secret = none;
  session_secret = some (codes "secret");
  node_env = some (codes "production");
}

abbrev settings : StellarSettings
settings = record {
  network = Config.testnet;
  network_passphrase = Config.passphrase_of Config.testnet;
  rpc_url = Config.rpc_of Config.testnet;
  horizon_url = Config.horizon_of Config.testnet;
  contract_id = codes "CC";
}

abbrev hostname : Text → Option Text
hostname url = some url

settings-read : read_stellar_settings hostname env ≡ ok settings
unfolding read_stellar_settings Config.trim po_vdeposit.Common.Text-discrete
    po_vdeposit.Common.ℕ_discrete
settings-read = refl

read_stellar_settings-AreCoherent_example : AreCoherent hostname env settings
read_stellar_settings-AreCoherent_example =
    read_stellar_settings-AreCoherent hostname env settings settings-read

production : Config.is_production env.node_env ≡ true
unfolding po_vdeposit.Common.Text-discrete po_vdeposit.Common.ℕ_discrete
production = refl

secret-read : check_in_secret env ≡ ok (codes "secret")
unfolding check_in_secret po_vdeposit.Common.Text-discrete po_vdeposit.Common.ℕ_discrete
secret-read = refl
