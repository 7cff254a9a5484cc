-- ===== src/Config/Answers.antt =====
-- What the API says of its settings (apps/api/src/app.controller.ts), and the origins that may log in
-- (apps/api/src/app.module.ts).
use po_vdeposit.Common.{Option, List, ◌∷◌, map, Text, codes, split_on}
use po_vdeposit.Config.{StellarNetwork, StellarSettings, text_or, trim}

pub record Health : Type 0 where
  pub status : Text
  pub service : Text
  pub network : StellarNetwork

abbrev pub health : StellarSettings → Health
health settings = record {
  status = codes "ok";
  service = codes "pov-deposit";
  network = settings.network;
}

-- `stellarConfig` answers with all five settings.
abbrev pub stellar_config : StellarSettings → StellarSettings
stellar_config settings = record {
  network = settings.network;
  network_passphrase = settings.network_passphrase;
  rpc_url = settings.rpc_url;
  horizon_url = settings.horizon_url;
  contract_id = settings.contract_id;
}

-- `process.env.PUBLIC_ORIGIN`, split at its commas and trimmed.
unfoldable pub allowed_origins : Option Text → List Text
unfolding split_on trim
allowed_origins public_origin =
    let (origin, others) = split_on b',' (text_or public_origin (codes "http://localhost:3000")) in
    map trim (origin ∷ others)
