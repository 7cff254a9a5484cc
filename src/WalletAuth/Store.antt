-- ===== src/WalletAuth/Store.antt =====
-- The wallet library and the tables behind the queries of
-- apps/api/src/auth/wallet-auth.service.ts, as what the service relies on.
use po_vdeposit.Common.{
  ℕ, ◌≡◌, ◌≢◌, Bool, ◌&&◌, not, Option, none, some, Text, ◌===◌, ok, err, Action, if◌then◌else◌,
  is_some,
}
use mathlib.Core.Option

pub data Error : Type 0 where
  origin_not_allowed invalid_address not_found already_used expired mismatch invalid_signature
        query_rejected :
      Error

-- `Keypair.fromPublicKey` throws unless the address is a key; `verify` reads the signature from
-- base64. The last is `createHash("sha256")` in hexadecimal.
pub record Keys : Type 0 where
  pub is_key : Text → Bool
  pub verify : (address message signature : Text) → Bool
  pub hash : Text → Text

-- A row of `AuthChallenge`, with the address of its wallet.
pub record Row : Type 0 where
  pub id : Text
  pub address : Text
  pub origin : Text
  pub network : Text
  pub expires_at : ℕ
  pub consumed_at : Option ℕ

abbrev pub consumed_by : Text → ℕ → Row → Row
consumed_by id now c =
    if c.id === id && not (is_some c.consumed_at) then record c { consumed_at = some now } else c

abbrev pub atomic : {D : Type 0} → Action D Error (Unit {0}) → Action D Error (Unit {0})
atomic m d = let (r, d') = m d in elim r [ ok a ↦ (ok a, d') | err e ↦ (err e, d) ]

-- The queries. A query that is rejected gives `none`, or changes nothing.
pub record Store (D : Type 0) : Type 0 where
  pub upsert_wallet : (address network : Text) → D → Option (Text × D)
  pub wallet_address : D → Text → Option Text
  pub create_challenge :
      (id wallet_id nonce_hash origin network : Text) (expires_at : ℕ) → D → Option D
  pub find_challenge : D → Text → Option Row
  pub consume_many : (id : Text) (now : ℕ) → D → ℕ × D
  pub find_wallet : (address : Text) → D → Option Text
  pub create_session : (wallet_id token_hash : Text) (expires_at : ℕ) → D → Option D
  pub transaction : Action D Error (Unit {0}) → Action D Error (Unit {0})
  pub upsert-address :
      (address network wallet : Text) (d d' : D)
      → upsert_wallet address network d ≡ some (wallet, d')
      → (wallet_address d' wallet ≡ some address)
        × ((id : Text) → find_challenge d' id ≡ find_challenge d id)
  pub create-find :
      (new wallet nonce_hash from on address : Text) (until : ℕ) (d d' : D)
      → create_challenge new wallet nonce_hash from on until d ≡ some d'
      → wallet_address d wallet ≡ some address
      → find_challenge d' new
        ≡ some (record {
          id = new;
          address = address;
          origin = from;
          network = on;
          expires_at = until;
          consumed_at = none;
        })
  pub create-others :
      (new wallet nonce_hash from on other : Text) (until : ℕ) (d d' : D)
      → create_challenge new wallet nonce_hash from on until d ≡ some d'
      → other ≢ new
      → find_challenge d' other ≡ find_challenge d other
  pub consume-count :
      (id : Text) (now : ℕ) (d : D) (c : Row)
      → find_challenge d id ≡ some c
      → (consume_many id now d).0 ≡ (if is_some c.consumed_at then 0 else 1)
  pub consume-find :
      (id other : Text) (now : ℕ) (d : D)
      → find_challenge (consume_many id now d).1 other
        ≡ Option.map (consumed_by id now) (find_challenge d other)
  pub consume-none :
      (id : Text) (now : ℕ) (d : D) → find_challenge d id ≡ none → (consume_many id now d).0 ≡ 0
  pub find-id : (d : D) (id : Text) (c : Row) → find_challenge d id ≡ some c → c.id ≡ id
  pub session-find :
      (wallet token_hash : Text) (until : ℕ) (d d' : D) (id : Text)
      → create_session wallet token_hash until d ≡ some d'
      → find_challenge d' id ≡ find_challenge d id
  pub transaction-atomic : (m : Action D Error (Unit {0})) (d : D) → transaction m d ≡ atomic m d
