-- ===== src/WalletAuth/Session.antt =====
-- What a session of apps/api/src/auth/wallet-auth.service.ts proves, and what `issue` and `verify`
-- do to the state.
use po_vdeposit.Common.{
  ℕ, ◌+◌, ◌<◌, ◌≡◌, ◌⊎◌, inl, inr, true, false, not, ◌&&◌, Option, none, some, List, Text,
  Text-discrete, ◌===◌, any, leb, ok, arith, Option-cases, Bool-cases,
}
use mathlib.Core.Option
use po_vdeposit.Common.Dict.{Dict, insert}
use po_vdeposit.Common.Iso.{to_iso_string}
use po_vdeposit.WalletAuth.Store.{Keys, Store}
use po_vdeposit.WalletAuth.Service.{
  Challenge, Auth, Session, Login, mark, five_minutes, fifteen_minutes, insert_challenge,
  new_challenge, issue, find_challenge, open_session, verify,
}
use po_vdeposit.WalletAuth.Laws.{transaction-cases}

module _ (keys : Keys) (origins : List Text) (network : Text) {D : Type 0} (store : Store D) where
  -- What a session proves about its login.
  pub record IsVerified (now later : ℕ) (token : Text) (login : Login) (s : Auth D)
      (session : Session) : Type 0 where
    pub challenge : Challenge
    pub found : find_challenge keys origins network store login.challenge_id s ≡ some challenge
    pub unused : challenge.used ≡ false
    pub in_time : now < challenge.expires_at
    pub address : challenge.address ≡ login.address
    pub origin : challenge.origin ≡ login.origin
    pub signed : keys.verify login.address challenge.message login.signature ≡ true
    pub given :
        session ≡ record { token = token; expires_at = to_iso_string (later + fifteen_minutes) }

  -- A session is given only where the challenge of that id is there, unused and not expired, is for
  -- this address and this origin, and its message has been signed with the address's key; the
  -- session ends fifteen minutes later.
  pub verify-IsVerified :
      (now later last : ℕ) (token : Text) (login : Login) (s s' : Auth D) (session : Session)
      → verify keys origins network store now later last token login s ≡ (ok session, s')
      → IsVerified now later token login s session
  unfolding verify
  verify-IsVerified now later last token login s s' session e =
      elim (Option-cases (find_challenge keys origins network store login.challenge_id s)) [
        | inl unknown ↦ ground arith
        | inr (c, found) ↦ record {
          challenge = c;
          found = found;
          unused = ground arith;
          in_time = ground arith;
          address = ground arith;
          origin = ground arith;
          signed = ground arith;
          given = ground arith;
        }
      ]

  abbrev pub with_challenge :
      (now : ℕ) (id address origin : Text) → Dict Text Challenge → Option D → Auth D
  with_challenge now id address origin m db = record {
    challenges =
        insert Text-discrete id (new_challenge keys origins network store now id address origin) m;
    database =
        Option.map
          (λ d.
            (insert_challenge keys origins network store id address origin (now + five_minutes)
              d).1)
          db;
  }

  pub issue-cases :
      (now : ℕ) (id address origin : Text) (m : Dict Text Challenge) (db : Option D)
      → let s : Auth D = record { challenges = m; database = db } in
        let s' = (issue keys origins network store now id address origin s).1 in
        (s' ≡ s) ⊎ (s' ≡ with_challenge now id address origin m db)
  unfolding issue
  issue-cases now id address origin m db = elim (Bool-cases (any (λ o. o === origin) origins)) [
    | inr foreign ↦ inl (ground arith)
    | inl known ↦ elim (Bool-cases (keys.is_key address)) [
      | inr no_key ↦ inl (ground arith)
      | inl key ↦
          inr (elim (Option-cases db) [ inl gone ↦ ground arith | inr (d, there) ↦ ground arith ])
    ]
  ]

  abbrev pub spent :
      (last : ℕ) (token : Text) (until : ℕ)
      → Login
      → Challenge
      → Dict Text Challenge
      → Option D
      → Auth D
  spent last token until login c m db = record {
    challenges = mark login.challenge_id m;
    database =
        Option.map
          (λ d.
            (store.transaction
              (open_session keys origins network store last c.id login.address token until) d).1)
          db;
  }

  pub verify-cases :
      (now later last : ℕ) (token : Text) (login : Login) (m : Dict Text Challenge) (db : Option D)
      → let s : Auth D = record { challenges = m; database = db } in
        let s' = (verify keys origins network store now later last token login s).1 in
        (s' ≡ s)
        ⊎ ((c : Challenge) × (s' ≡ spent last token (later + fifteen_minutes) login c m db))
  unfolding verify
  verify-cases now later last token login m db =
      let s : Auth D = record { challenges = m; database = db } in
      elim (Option-cases (find_challenge keys origins network store login.challenge_id s)) [
        | inl unknown ↦ inl (ground arith)
        | inr (c, found) ↦
            let passes =
              not c.used
              && not (leb c.expires_at now)
              && (c.address === login.address)
              && (c.origin === login.origin)
              && keys.is_key login.address
              && keys.verify login.address c.message login.signature in
            elim (Bool-cases passes) [
              | inl pass ↦ inr (
                c,
                elim (Option-cases db) [ inl gone ↦ ground arith | inr (d, there) ↦ ground arith ],
              )
              | inr stop ↦ inl (ground arith)
            ]
      ]

  pub verify-memory :
      (now later last : ℕ) (token : Text) (login : Login) (m : Dict Text Challenge) (s' : Auth D)
      (session : Session)
      → verify keys origins network store now later last token login
          (record { challenges = m; database = none })
        ≡ (ok session, s')
      → s' ≡ record { challenges = mark login.challenge_id m; database = none }
  unfolding verify
  verify-memory now later last token login m s' session e =
      let s : Auth D = record { challenges = m; database = none } in
      elim (Option-cases (find_challenge keys origins network store login.challenge_id s)) [
        | inl unknown ↦ ground arith
        | inr (c, found) ↦ ground arith
      ]

  pub verify-database :
      (now later last : ℕ) (token : Text) (login : Login) (m : Dict Text Challenge) (d : D)
      (c : Challenge) (s' : Auth D) (session : Session)
      → let s : Auth D = record { challenges = m; database = some d } in
        find_challenge keys origins network store login.challenge_id s ≡ some c
        → verify keys origins network store now later last token login s ≡ (ok session, s')
        → (d' : D) × (s' ≡ record { challenges = mark login.challenge_id m; database = some d' })
          × (open_session keys origins network store last c.id login.address token
                (later + fifteen_minutes)
                d
              ≡ (ok tt, d'))
  unfolding verify
  verify-database now later last token login m d c s' session found e =
      let m' =
        open_session keys origins network store last c.id login.address token
          (later + fifteen_minutes) in
      elim (transaction-cases keys origins network store m' d) [
        | inl (x, failed) ↦ ground arith
        | inr (d', done, all) ↦ (d', ground arith, done)
      ]
