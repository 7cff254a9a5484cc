-- ===== src/WalletAuth/Restart.antt =====
-- What `issue` of apps/api/src/auth/wallet-auth.service.ts puts into the map, `verify` builds again
-- from the database.
use po_vdeposit.Common.{
  ℕ, ◌+◌, ◌≡◌, sym, ap, Result, ◌∙◌, refl, inl, inr, true, none, some, List, [], Text,
  Text-discrete, ◌===◌, any, ok, err, arith, Option-cases,
}
use po_vdeposit.Common.Dict.{Dict, insert, lookup-insert_self}
use po_vdeposit.WalletAuth.Store.{Error, Keys, Store}
use po_vdeposit.WalletAuth.Service.{
  Challenge, Auth, Issued, five_minutes, insert_challenge, new_challenge, issue, find_challenge,
}

module _ (keys : Keys) (origins : List Text) (network : Text) {D : Type 0} (store : Store D) where
  insert_challenge-ok :
      (id address origin : Text) (until : ℕ) (d d' : D)
      → insert_challenge keys origins network store id address origin until d ≡ (ok tt, d')
      → store.find_challenge d' id
        ≡ some (record {
          id = id;
          address = address;
          origin = origin;
          network = network;
          expires_at = until;
          consumed_at = none;
        })
  unfolding insert_challenge
  insert_challenge-ok id address origin until d d' e =
      elim (Option-cases (store.upsert_wallet address network d)) [
        | inl rejected ↦ ground arith
        | inr ((wallet, d1), made) ↦
            let (its, same) = store.upsert-address address network wallet d d1 made in
            elim (Option-cases
              (store.create_challenge id wallet (keys.hash id) origin network until d1)) [
                | inl rejected ↦ ground arith
                | inr (d2, created) ↦
                    let at : d2 ≡ d' = ground arith in
                    sym (ap (λ w. store.find_challenge w id) at)
                    ∙ (store.create-find id wallet (keys.hash id) origin network address until d1 d2
                        created its)
              ]
      ]

  issue-ok :
      (now : ℕ) (id address origin : Text) (m : Dict Text Challenge) (d : D) (s' : Auth D)
      (made : Issued)
      → issue keys origins network store now id address origin
          (record { challenges = m; database = some d })
        ≡ (ok made, s')
      → (any (λ o. o === origin) origins ≡ true)
        × (keys.is_key address ≡ true)
        × ((d' : D) × (insert_challenge keys origins network store id address origin
                (now + five_minutes)
                d
              ≡ (ok tt, d'))
            × (s' ≡ record {
              challenges =
                  insert Text-discrete id
                    (new_challenge keys origins network store now id address origin)
                    m;
              database = some d';
            }))
  unfolding issue
  issue-ok now id address origin m d s' made e =
      go (insert_challenge keys origins network store id address origin (now + five_minutes) d) refl
    where
      go :
          (out : Result Error (Unit {0}) × D)
          → insert_challenge keys origins network store id address origin (now + five_minutes) d
            ≡ out
          → (any (λ o. o === origin) origins ≡ true)
            × (keys.is_key address ≡ true)
            × ((d' : D) × (insert_challenge keys origins network store id address origin
                    (now + five_minutes)
                    d
                  ≡ (ok tt, d'))
                × (s' ≡ record {
                  challenges =
                      insert Text-discrete id
                        (new_challenge keys origins network store now id address origin)
                        m;
                  database = some d';
                }))
      go (ok u, d') done = (ground arith, ground arith, (d', done, ground arith))
      go (err x, d') done = ground arith

  -- An issued challenge is the same whether `verify` finds it in the map or, after a restart, builds
  -- it from the database: the same message to sign, wallet, origin and expiry, and not used.
  pub issue-restart :
      (now : ℕ) (id address origin : Text) (m : Dict Text Challenge) (d : D) (s' : Auth D)
      (made : Issued)
      → issue keys origins network store now id address origin
          (record { challenges = m; database = some d })
        ≡ (ok made, s')
      → (find_challenge keys origins network store id s'
          ≡ some (new_challenge keys origins network store now id address origin))
        × (find_challenge keys origins network store id (record s' { challenges = [] })
            ≡ some (new_challenge keys origins network store now id address origin))
  unfolding find_challenge
  issue-restart now id address origin m d s' made e =
      let c = new_challenge keys origins network store now id address origin in
      let (known, key, (d', inserted, at)) = issue-ok now id address origin m d s' made e in
      let row = insert_challenge-ok id address origin (now + five_minutes) d d' inserted in
      let there = lookup-insert_self Text-discrete id c m in (ground arith, ground arith)
