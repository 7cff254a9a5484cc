-- ===== src/WalletAuth/SingleUse.antt =====
-- A challenge of apps/api/src/auth/wallet-auth.service.ts opens one session.
use po_vdeposit.Common.{
  ℕ, ◌+◌, ◌≡◌, ◌≢◌, sym, ◌∙◌, subst, ap, refl, inl, inr, Option, none, some, List, [], Text,
  Text-discrete, ok, arith, Option-cases,
}
use po_vdeposit.Common.Dict.{Dict, lookup-insert_ne}
use po_vdeposit.WalletAuth.Store.{Keys, Store}
use po_vdeposit.WalletAuth.Service.{
  Challenge, Auth, Session, Login, five_minutes, fifteen_minutes, new_challenge, open_session,
  verify,
}
use po_vdeposit.WalletAuth.Session.{
  verify-IsVerified, with_challenge, spent, issue-cases, verify-cases, verify-memory,
  verify-database,
}
use po_vdeposit.WalletAuth.Laws.{
  Closed, open_session-ok, mark-lookup, insert_challenge-find, open_session-consumed,
  open_session-spent,
}
use po_vdeposit.WalletAuth.Steps.{
  Step, Steps, issued, verified, restarted, here, next, IsFiled, Step-IsFiled, Steps-IsFiled,
  find_challenge-id, find_challenge-memory,
}

module _ (keys : Keys) (origins : List Text) (network : Text) {D : Type 0} (store : Store D) where
  issue-Closed :
      (id : Text) (now : ℕ) (new address origin : Text) (m : Dict Text Challenge) (db : Option D)
      → id ≢ new
      → Closed store id (record { challenges = m; database = db })
      → Closed store id (with_challenge keys origins network store now new address origin m db)
  issue-Closed id now new address origin m none differ closed = λ c at. closed c (
      ground (
        arith,
        lookup-insert_ne Text-discrete id new
            (new_challenge keys origins network store now new address origin) m differ,
      ))
  issue-Closed id now new address origin m (some d) differ (row, found, used) = (
    row,
    insert_challenge-find keys origins network store new address origin (now + five_minutes) d id
          differ
        ∙ found,
    used,
  )

  verify-Closed :
      (id : Text) (last : ℕ) (token : Text) (until : ℕ) (login : Login) (c : Challenge)
      (m : Dict Text Challenge) (db : Option D)
      → Closed store id (record { challenges = m; database = db })
      → Closed store id (spent keys origins network store last token until login c m db)
  verify-Closed id last token until login c m none closed = λ a at.
      elim (mark-lookup login.challenge_id id m a at) [
        | inl used ↦ used
        | inr (differ, before) ↦ closed a before
      ]
  verify-Closed id last token until login c m (some d) (row, found, used) = (
    row,
    open_session-consumed keys origins network store last c.id login.address token until d id row
        found used,
    used,
  )

  Step-Closed :
      (id : Text) (s s' : Auth D)
      → Step keys origins network store (λ other. id ≢ other) s s'
      → Closed store id s
      → Closed store id s'
  Step-Closed id s s' (issued now new address origin differ) h =
      elim (issue-cases keys origins network store now new address origin s.challenges s.database) [
        | inl same ↦ subst (λ w. Closed store id w) (sym same) h
        | inr made ↦
            subst (λ w. Closed store id w) (sym made)
              (issue-Closed id now new address origin s.challenges s.database differ h)
      ]
  Step-Closed id s s' (verified now later last token login) h =
      elim (verify-cases keys origins network store now later last token login s.challenges
        s.database) [
          | inl same ↦ subst (λ w. Closed store id w) (sym same) h
          | inr (c, made) ↦
              subst (λ w. Closed store id w) (sym made)
                (verify-Closed id last token (later + fifteen_minutes) login c s.challenges
                  s.database h)
        ]
  Step-Closed id s s' restarted h = restart s.database h
    where
      restart :
          (db : Option D)
          → Closed store id (record { challenges = s.challenges; database = db })
          → Closed store id (record { challenges = []; database = db })
      restart none closed = λ c at. ground arith
      restart (some d) closed = closed

  Steps-Closed :
      (id : Text) (s s' : Auth D)
      → Steps keys origins network store (λ other. id ≢ other) s s'
      → Closed store id s
      → Closed store id s'
  Steps-Closed id s s' here h = h
  Steps-Closed id s s'' (next {s'} before step) h =
      Step-Closed id s' s'' step (Steps-Closed id s s' before h)

  opened-Closed :
      (now later last : ℕ) (token : Text) (login : Login) (m : Dict Text Challenge) (db : Option D)
      (s' : Auth D) (session : Session)
      → IsFiled keys origins network store m
      → verify keys origins network store now later last token login
          (record { challenges = m; database = db })
        ≡ (ok session, s')
      → Closed store login.challenge_id s'
  opened-Closed now later last token login m none s' session filed e =
      subst (λ w. Closed store login.challenge_id w)
        (sym (verify-memory keys origins network store now later last token login m s' session e))
        (λ c at. elim (mark-lookup login.challenge_id login.challenge_id m c at) [
          | inl used ↦ used
          | inr (differ, before) ↦ elim (differ refl) [ ]
        ])
  opened-Closed now later last token login m (some d) s' session filed e =
      let s : Auth D = record { challenges = m; database = some d } in
      let proof =
        verify-IsVerified keys origins network store now later last token login s s' session e in
      let (d', at, done) =
        verify-database keys origins network store now later last token login m d proof.challenge s'
          session proof.found e in
      let own =
        find_challenge-id keys origins network store s login.challenge_id proof.challenge filed
          proof.found in
      let until = later + fifteen_minutes in
      let id = login.challenge_id in
      let spent_it : open_session keys origins network store last id login.address token until d
          ≡ (ok tt, d') =
        subst
          (λ i.
            open_session keys origins network store last i login.address token until d
            ≡ (ok tt, d'))
          own done in
      subst (λ w. Closed store id w) (sym at)
        (elim (Option-cases (store.find_challenge d id)) [
          | inl unknown ↦
              let (one, created) =
                open_session-ok keys origins network store last id login.address token until d d'
                  spent_it in
              let zero_rows = store.consume-none id last d unknown in ground arith
          | inr (row, stored) ↦
              let (fresh, after) =
                open_session-spent keys origins network store last id login.address token until d d'
                  row spent_it stored in
              (record row { consumed_at = some last }, after, refl)
        ])

  Closed-refused :
      (now later last : ℕ) (token : Text) (login : Login) (m : Dict Text Challenge) (db : Option D)
      (s' : Auth D) (session : Session)
      → IsFiled keys origins network store m
      → Closed store login.challenge_id (record { challenges = m; database = db })
      → verify keys origins network store now later last token login
          (record { challenges = m; database = db })
        ≢ (ok session, s')
  Closed-refused now later last token login m none s' session filed closed e =
      let s : Auth D = record { challenges = m; database = none } in
      let proof =
        verify-IsVerified keys origins network store now later last token login s s' session e in
      ground (
        arith,
        closed proof.challenge (
            find_challenge-memory keys origins network store m login.challenge_id proof.challenge
              proof.found),
        proof.unused,
      )
  Closed-refused now later last token login m (some d) s' session filed (row, stored, used) e =
      let s : Auth D = record { challenges = m; database = some d } in
      let proof =
        verify-IsVerified keys origins network store now later last token login s s' session e in
      let (d', at, done) =
        verify-database keys origins network store now later last token login m d proof.challenge s'
          session proof.found e in
      let own =
        find_challenge-id keys origins network store s login.challenge_id proof.challenge filed
          proof.found in
      let until = later + fifteen_minutes in
      let (fresh, after) =
        open_session-spent keys origins network store last proof.challenge.id login.address token
          until d d' row done (subst (λ i. store.find_challenge d i ≡ some row) (sym own) stored) in
      ground arith

  -- From a service whose map of challenges is empty, over any database or none: once a session has
  -- been opened with a challenge, no login with the same challenge opens another, whatever is issued
  -- (under other ids) and verified in between, and whether or not the process is restarted.
  pub verify_once :
      (now later last now' later' last' : ℕ) (token token' : Text) (login login' : Login)
      (db : Option D) (s s' s'' s''' : Auth D) (session session' : Session)
      → Steps keys origins network store (λ _. Unit) (record { challenges = []; database = db }) s
      → verify keys origins network store now later last token login s ≡ (ok session, s')
      → Steps keys origins network store (λ other. login.challenge_id ≢ other) s' s''
      → login'.challenge_id ≡ login.challenge_id
      → verify keys origins network store now' later' last' token' login' s'' ≢ (ok session', s''')
  verify_once now later last now' later' last' token token' login login' db s s' s'' s''' session
        session' r e r' same =
      let filed =
        Steps-IsFiled keys origins network store (λ _. Unit)
          (record { challenges = []; database = db }) s r (λ id c at. ground arith) in
      let closed =
        opened-Closed now later last token login s.challenges s.database s' session filed e in
      let filed' : IsFiled keys origins network store s'.challenges =
        subst (λ w. IsFiled keys origins network store w.challenges) (ap (λ x. x.1) e)
          (Step-IsFiled keys origins network store (λ _. Unit) s
            (verify keys origins network store now later last token login s).1
            (verified now later last token login) filed) in
      Closed-refused now' later' last' token' login' s''.challenges s''.database s''' session'
        (Steps-IsFiled keys origins network store (λ other. login.challenge_id ≢ other) s' s'' r'
          filed')
        (subst (λ i. Closed store i s'') (sym same)
          (Steps-Closed login.challenge_id s' s'' r' closed))
