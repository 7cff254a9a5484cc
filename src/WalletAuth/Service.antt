-- ===== src/WalletAuth/Service.antt =====
-- `issue` and `verify` of `WalletAuthService` (apps/api/src/auth/wallet-auth.service.ts). The random
-- id and token and the readings of the clock come as arguments.
use po_vdeposit.Common.{
  ℕ, ◌+◌, Bool, true, false, not, ◌||◌, Option, none, some, List, [], ◌∷◌, ◌++◌, Text,
  Text-discrete, codes, ◌===◌, ◌==◌, any, leb, ok, err, Action, pure, throw_if, or_throw, gets,
  modify, ◌>>=◌, ◌>>◌, is_some,
}
use po_vdeposit.Common.Dict.{Dict, lookup, insert}
use po_vdeposit.Common.Iso.{to_iso_string}
use po_vdeposit.WalletAuth.Store
use po_vdeposit.WalletAuth.Store.{Error, Keys, Row, Store}

-- `expiresAt` is a text that `toISOString` made: the date that `new Date` reads from it.
pub record Challenge : Type 0 where
  pub id : Text
  pub address : Text
  pub origin : Text
  pub message : Text
  pub expires_at : ℕ
  pub network : Text
  pub used : Bool

-- The service's state: `this.challenges`, and the database behind `this.prisma`, if there is one.
pub record Auth (D : Type 0) : Type 0 where
  pub challenges : Dict Text Challenge
  pub database : Option D

pub record Issued : Type 0 where
  pub id : Text
  pub message : Text
  pub expires_at : ℕ
  pub network : Text

pub record Session : Type 0 where
  pub token : Text
  pub expires_at : Text

pub record Login : Type 0 where
  pub challenge_id : Text
  pub address : Text
  pub origin : Text
  pub signature : Text

-- `[…].join("\n")`.
abbrev join_lines : List Text → Text
join_lines [] = []
join_lines (l ∷ []) = l
join_lines (l ∷ m ∷ ls) = l ++ b'\n' ∷ join_lines (m ∷ ls)

-- The text that is signed, which `issue` builds in place and `message` builds again.
unfoldable pub message : (id address origin expires_at network : Text) → Text
message id address origin expires_at network = join_lines (
    codes "Proof-of-Visit Deposit authentication"
    ∷ (codes "Address: " ++ address)
    ∷ (codes "Network: " ++ network)
    ∷ (codes "Origin: " ++ origin)
    ∷ (codes "Nonce: " ++ id)
    ∷ (codes "Expires: " ++ expires_at)
    ∷ [])

abbrev pub five_minutes : ℕ
five_minutes = 300000

abbrev pub fifteen_minutes : ℕ
fifteen_minutes = 900000

-- Setting `used` on the object that the map holds. One that was read from the database is in no map.
abbrev pub mark : Text → Dict Text Challenge → Dict Text Challenge
mark id d = elim (lookup Text-discrete id d) [
  | none ↦ d
  | some c ↦ insert Text-discrete id (record c { used = true }) d
]

-- A challenge that is read from the database.
abbrev pub from_row : Row → Challenge
from_row row = record {
  id = row.id;
  address = row.address;
  origin = row.origin;
  message = message row.id row.address row.origin (to_iso_string row.expires_at) row.network;
  expires_at = row.expires_at;
  network = row.network;
  used = is_some row.consumed_at;
}

abbrev pub on_database : {D : Type 0} → Action D Error (Unit {0}) → Action (Auth D) Error (Unit {0})
on_database m s = elim s.database [
  | none ↦ (ok tt, s)
  | some d ↦ let (r, d') = m d in (r, record s { database = some d' })
]

module _ (keys : Keys) (origins : List Text) (network : Text) {D : Type 0} (store : Store D) where
  -- The two queries of `issue`.
  unfoldable pub insert_challenge :
      (id address origin : Text) (expires_at : ℕ) → Action D Error (Unit {0})
  insert_challenge id address origin expires_at d = elim (store.upsert_wallet address network d) [
    | none ↦ (err Store.query_rejected, d)
    | some (wallet, d') ↦
        elim (store.create_challenge id wallet (keys.hash id) origin network expires_at d') [
          | none ↦ (err Store.query_rejected, d')
          | some d'' ↦ (ok tt, d'')
        ]
  ]

  abbrev pub new_challenge : (now : ℕ) (id address origin : Text) → Challenge
  new_challenge now id address origin =
      let until = now + five_minutes in
      record {
        id = id;
        address = address;
        origin = origin;
        message = message id address origin (to_iso_string until) network;
        expires_at = until;
        network = network;
        used = false;
      }

  unfoldable pub issue : (now : ℕ) (id address origin : Text) → Action (Auth D) Error Issued
  issue now id address origin = do
    throw_if (not (any (λ o. o === origin) origins)) Store.origin_not_allowed
    throw_if (not (keys.is_key address)) Store.invalid_address
    let c = new_challenge now id address origin
    modify λ s. record s { challenges = insert Text-discrete id c s.challenges }
    on_database (insert_challenge id address origin c.expires_at)
    pure (record { id = id; message = c.message; expires_at = c.expires_at; network = network })

  -- The challenge of the map, or else of the database.
  unfoldable pub find_challenge : Text → Auth D → Option Challenge
  find_challenge id s = elim (lookup Text-discrete id s.challenges) [
    | some c ↦ some c
    | none ↦ elim s.database [
      | none ↦ none
      | some d ↦ elim (store.find_challenge d id) [ none ↦ none | some row ↦ some (from_row row) ]
    ]
  ]

  -- The callback of the transaction in `verify`.
  unfoldable pub open_session :
      (now : ℕ) (id address token : Text) (until : ℕ) → Action D Error (Unit {0})
  open_session now id address token until = do
    count ← (λ d. let (n, d') = store.consume_many id now d in (ok n, d'))
    throw_if (not (count == 1)) Store.already_used
    wallet ← or_throw (← gets (store.find_wallet address)) Store.query_rejected
    (λ d. elim (store.create_session wallet (keys.hash token) until d) [
      | none ↦ (err Store.query_rejected, d)
      | some d' ↦ (ok tt, d')
    ])

  -- The tests of `verify`, with the clock's first reading.
  abbrev pub check : (now : ℕ) → Login → Challenge → Action (Auth D) Error (Unit {0})
  check now login c = do
    throw_if c.used Store.already_used
    throw_if (leb c.expires_at now) Store.expired
    throw_if (not (c.address === login.address) || not (c.origin === login.origin)) Store.mismatch
    throw_if (not (keys.is_key login.address)) Store.invalid_address
    throw_if (not (keys.verify login.address c.message login.signature)) Store.invalid_signature

  unfoldable pub verify :
      (now later last : ℕ) (token : Text) → Login → Action (Auth D) Error Session
  verify now later last token login = do
    c ← or_throw (← gets (find_challenge login.challenge_id)) Store.not_found
    check now login c
    modify λ s. record s { challenges = mark login.challenge_id s.challenges }
    let until = later + fifteen_minutes
    on_database (store.transaction (open_session last c.id login.address token until))
    pure (record { token = token; expires_at = to_iso_string until })
