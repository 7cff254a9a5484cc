-- ===== src/WalletAuth/Laws.antt =====
-- A challenge of apps/api/src/auth/wallet-auth.service.ts opens at most one session.
use po_vdeposit.Common.{
  ℕ, ◌≡◌, ◌≢◌, sym, ap, refl, ◌⊎◌, inl, inr, true, none, some, List, Text, Text-discrete, ok, err,
  Result, Action, arith, Option-cases, is_some,
}
use po_vdeposit.Common.Dict.{Dict, lookup, lookup-insert}
use po_vdeposit.WalletAuth.Store.{Error, Keys, Row, Store}
use po_vdeposit.WalletAuth.Service.{Challenge, Auth, mark, insert_challenge, open_session}

-- No session is to be had from the challenge: its row has been consumed, or, without a database, the
-- map holds no unused one.
abbrev pub Closed : {D : Type 0} → Store D → Text → Auth D → Type 0
Closed store id s = elim s.database [
  | none ↦ (c : Challenge) → lookup Text-discrete id s.challenges ≡ some c → c.used ≡ true
  | some d ↦ (row : Row) × (store.find_challenge d id ≡ some row) × (is_some row.consumed_at ≡ true)
]

pub mark-lookup :
    (id other : Text) (d : Dict Text Challenge) (c : Challenge)
    → lookup Text-discrete other (mark id d) ≡ some c
    → (c.used ≡ true) ⊎ ((other ≢ id) × (lookup Text-discrete other d ≡ some c))
mark-lookup id other d c e = elim (Option-cases (lookup Text-discrete id d)) [
  | inl none_there ↦ elim (Text-discrete other id) [
    | yes same ↦ ground (arith, ap (λ k. lookup Text-discrete k d) same)
    | no differ ↦ inr (differ, ground arith)
  ]
  | inr (a, found) ↦
      let written = lookup-insert Text-discrete other id (record a { used = true }) d in
      elim (Text-discrete other id) [
        | yes same ↦
            let it : record a { used = true } ≡ c = ground arith in inl (sym (ap (λ x. x.used) it))
        | no differ ↦ inr (differ, ground arith)
      ]
]

module _ (keys : Keys) (origins : List Text) (network : Text) {D : Type 0} (store : Store D) where
  pub insert_challenge-find :
      (id address origin : Text) (until : ℕ) (d : D) (other : Text)
      → other ≢ id
      → store.find_challenge
          (insert_challenge keys origins network store id address origin until d).1
          other
        ≡ store.find_challenge d other
  unfolding insert_challenge
  insert_challenge-find id address origin until d other differ =
      elim (Option-cases (store.upsert_wallet address network d)) [
        | inl rejected ↦ ground arith
        | inr ((wallet, d1), made) ↦
            let same = (store.upsert-address address network wallet d d1 made).1 other in
            elim (Option-cases
              (store.create_challenge id wallet (keys.hash id) origin network until d1)) [
                | inl rejected ↦ ground arith
                | inr (d2, created) ↦ ground (
                  arith,
                  store.create-others id wallet (keys.hash id) origin network other until d1 d2
                      created differ,
                )
              ]
      ]

  -- What a session that is opened has done.
  pub open_session-ok :
      (now : ℕ) (id address token : Text) (until : ℕ) (d d' : D)
      → open_session keys origins network store now id address token until d ≡ (ok tt, d')
      → ((store.consume_many id now d).0 ≡ 1)
        × ((wallet : Text) × (store.create_session wallet
                (keys.hash token)
                until
                (store.consume_many id now d).1
              ≡ some d'))
  unfolding open_session
  open_session-ok now id address token until d d' e =
      elim (Option-cases (store.find_wallet address (store.consume_many id now d).1)) [
        | inl unknown ↦ ground arith
        | inr (wallet, found) ↦
            elim (Option-cases (
              store.create_session wallet (keys.hash token) until
                (store.consume_many id now d).1)) [
                  | inl rejected ↦ ground arith
                  | inr (d1, created) ↦ (ground arith, (wallet, ground arith))
                ]
      ]

  pub transaction-cases :
      (m : Action D Error (Unit {0})) (d : D)
      → ((e : Error) × (store.transaction m d ≡ (err e, d)))
        ⊎ ((d' : D) × (m d ≡ (ok tt, d')) × (store.transaction m d ≡ (ok tt, d')))
  transaction-cases m d = go (m d) refl
    where
      go :
          (out : Result Error (Unit {0}) × D)
          → m d ≡ out
          → ((e : Error) × (store.transaction m d ≡ (err e, d)))
            ⊎ ((d' : D) × (m d ≡ (ok tt, d')) × (store.transaction m d ≡ (ok tt, d')))
      go (ok u, d') e = inr (d', e, ground (arith, store.transaction-atomic m d))
      go (err x, d') e = inl (x, ground (arith, store.transaction-atomic m d))

  -- The row of `other`, behind the transaction of `verify`: consumed once, consumed for ever.
  pub open_session-consumed :
      (now : ℕ) (id address token : Text) (until : ℕ) (d : D) (other : Text) (row : Row)
      → store.find_challenge d other ≡ some row
      → is_some row.consumed_at ≡ true
      → store.find_challenge
          (store.transaction
            (open_session keys origins network store now id address token until)
            d).1
          other
        ≡ some row
  open_session-consumed now id address token until d other row found used =
      let m = open_session keys origins network store now id address token until in
      elim (transaction-cases m d) [
        | inl (x, failed) ↦ ground arith
        | inr (d', done, all) ↦
            let (one, (wallet, created)) = open_session-ok now id address token until d d' done in
            let kept =
              store.session-find wallet (keys.hash token) until (store.consume_many id now d).1 d'
                other created in
            ground (arith, store.consume-find id other now d)
      ]

  -- Behind a session that is opened, the row of its challenge is consumed, and it was open before.
  pub open_session-spent :
      (now : ℕ) (id address token : Text) (until : ℕ) (d d' : D) (row : Row)
      → open_session keys origins network store now id address token until d ≡ (ok tt, d')
      → store.find_challenge d id ≡ some row
      → (row.consumed_at ≡ none)
        × (store.find_challenge d' id ≡ some (record row { consumed_at = some now }))
  open_session-spent now id address token until d d' row e found =
      let (one, (wallet, created)) = open_session-ok now id address token until d d' e in
      let kept =
        store.session-find wallet (keys.hash token) until (store.consume_many id now d).1 d' id
          created in
      let count = store.consume-count row.id now d row in
      let it = store.find-id d id row found in
      let fresh : row.consumed_at ≡ none = ground (arith, store.consume-count id now d row) in
      (fresh, ground (arith, store.consume-find id id now d))
