-- ===== src/Config/Laws.antt =====
-- What the settings of apps/api/src/config/stellar.config.ts and secrets.ts have in common.
use po_vdeposit.Common.{
  ◌≡◌, ◌≢◌, ap, sym, ◌∙◌, ◌⊎◌, inl, inr, true, Option, none, some, [], ◌∷◌, Text, Text-discrete, ok,
  arith, Option-cases,
}
use po_vdeposit.Config.{
  StellarSettings, Environment, passphrase_of, horizon_of, rpc_of, network_of, trimmed_or,
  read_stellar_settings, is_production, text_or, check_in_secret,
}

-- What a network fixes of the settings.
pub record AreCoherent (hostname : Text → Option Text) (env : Environment) (s : StellarSettings)
    : Type 0 where
  pub network : s.network ≡ network_of env.stellar_network
  pub passphrase : s.network_passphrase ≡ passphrase_of s.network
  pub horizon :
      (h : Text) × (hostname s.horizon_url ≡ some h) × (hostname (horizon_of s.network) ≡ some h)
  pub rpc : s.rpc_url ≡ trimmed_or env.stellar_rpc_url (rpc_of s.network)

-- Settings that are read are for the network that is named, or the public one: the passphrase is that
-- network's, and the Horizon server has the host name of that network's server. The RPC server is
-- not compared: it is the one that is given, without white space at the ends, or that network's
-- where that is missing or blank.
pub read_stellar_settings-AreCoherent :
    (hostname : Text → Option Text) (env : Environment) (s : StellarSettings)
    → read_stellar_settings hostname env ≡ ok s
    → AreCoherent hostname env s
unfolding read_stellar_settings
read_stellar_settings-AreCoherent hostname env s e =
    let network = network_of env.stellar_network in
    let url = trimmed_or env.stellar_horizon_url (horizon_of network) in
    elim (Option-cases (hostname url)) [
      | inl unread ↦ ground arith
      | inr (given, read) ↦ elim (Option-cases (hostname (horizon_of network))) [
        | inl unread ↦ ground arith
        | inr (expected, own) ↦
            let at : s.horizon_url ≡ url = ground arith in
            let net : s.network ≡ network = ground arith in
            let same : given ≡ expected = ground arith in
            record {
              network = net;
              passphrase = ground arith;
              horizon = (
                expected,
                ap hostname at ∙ read ∙ ap some same,
                ap (λ n. hostname (horizon_of n)) net ∙ own,
              );
              rpc = ground arith;
            }
      ]
    ]

text_or-some :
    (o : Option Text) (otherwise secret : Text)
    → text_or o otherwise ≡ secret
    → secret ≢ []
    → (o ≡ some secret) ⊎ (otherwise ≡ secret)
text_or-some none otherwise secret e real = inr e
text_or-some (some []) otherwise secret e real = inr e
text_or-some (some (c ∷ s)) otherwise secret e real = inl (ap some e)

-- The key of the check-in codes is never empty and, in production, is the secret of the codes, or
-- else that of the sessions: there is no fallback.
pub check_in_secret-production :
    (env : Environment) (secret : Text)
    → is_production env.node_env ≡ true
    → check_in_secret env ≡ ok secret
    → (secret ≢ [])
      × ((env.checkin_token_secret ≡ some secret) ⊎ (env.session_secret ≡ some secret))
unfolding check_in_secret
check_in_secret-production env secret production e =
    let key = text_or env.checkin_token_secret (text_or env.session_secret []) in
    elim (Text-discrete key []) [
      | yes empty ↦ ground arith
      | no real ↦
          let it : key ≡ secret = ground arith in
          let full : secret ≢ [] = λ nothing. real (it ∙ nothing) in
          (
            full,
            elim (text_or-some env.checkin_token_secret (text_or env.session_secret []) secret it
                full) [
                  | inl first ↦ inl first
                  | inr second ↦ elim (text_or-some env.session_secret [] secret second full) [
                    | inl given ↦ inr given
                    | inr nothing ↦ elim (full (sym nothing)) [ ]
                  ]
                ],
          )
    ]
