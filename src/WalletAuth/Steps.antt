-- ===== src/WalletAuth/Steps.antt =====
-- The requests to the service of apps/api/src/auth/wallet-auth.service.ts as steps, and the map that
-- they leave.
use po_vdeposit.Common.{
  ℕ, ◌≡◌, sym, ◌∙◌, subst, refl, inl, inr, true, none, some, List, [], Text, Text-discrete, arith,
  Option-cases,
}
use po_vdeposit.Common.Dict.{Dict, lookup, insert, lookup-insert}
use po_vdeposit.WalletAuth.Store.{Keys, Store}
use po_vdeposit.WalletAuth.Service.{
  Challenge, Auth, Login, mark, from_row, new_challenge, issue, find_challenge, verify,
}
use po_vdeposit.WalletAuth.Session.{issue-cases, verify-cases}

module _ (keys : Keys) (origins : List Text) (network : Text) {D : Type 0} (store : Store D) where
  -- One request, or a restart of the process, which loses the map. `P` holds of every id that is
  -- given out.
  pub data Step (P : Text → Type 0) (s : Auth D) : Auth D → Type 0 where
    issued :
        (now : ℕ) (id address origin : Text)
        → P id
        → Step P s (issue keys origins network store now id address origin s).1
    verified :
        (now later last : ℕ) (token : Text) (login : Login)
        → Step P s (verify keys origins network store now later last token login s).1
    restarted : Step P s (record s { challenges = [] })

  pub data Steps (P : Text → Type 0) (s : Auth D) : Auth D → Type 0 where
    here : Steps P s s
    next : {s' s'' : Auth D} → Steps P s s' → Step P s' s'' → Steps P s s''

  -- Every challenge of the map stands under its own id.
  abbrev pub IsFiled : Dict Text Challenge → Type 0
  IsFiled m = (id : Text) (c : Challenge) → lookup Text-discrete id m ≡ some c → c.id ≡ id

  pub insert-IsFiled :
      (m : Dict Text Challenge) (id : Text) (c : Challenge)
      → c.id ≡ id
      → IsFiled m
      → IsFiled (insert Text-discrete id c m)
  insert-IsFiled m id c own h other a at = elim (Text-discrete other id) [
    | yes same ↦
        let it : c ≡ a = ground (arith, lookup-insert Text-discrete other id c m) in
        subst (λ x. x.id ≡ other) it (own ∙ sym same)
    | no differ ↦ h other a (ground (arith, lookup-insert Text-discrete other id c m))
  ]

  pub mark-IsFiled : (m : Dict Text Challenge) (id : Text) → IsFiled m → IsFiled (mark id m)
  mark-IsFiled m id h = elim (Option-cases (lookup Text-discrete id m)) [
    | inl absent ↦ subst IsFiled (ground arith) h
    | inr (c, found) ↦
        subst IsFiled (ground arith)
          (insert-IsFiled m id (record c { used = true }) (h id c found) h)
  ]

  pub Step-IsFiled :
      (P : Text → Type 0) (s s' : Auth D)
      → Step P s s'
      → IsFiled s.challenges
      → IsFiled s'.challenges
  Step-IsFiled P s s' (issued now id address origin p) h =
      elim (issue-cases keys origins network store now id address origin s.challenges s.database) [
        | inl same ↦ subst (λ w. IsFiled w.challenges) (sym same) h
        | inr made ↦
            subst (λ w. IsFiled w.challenges) (sym made)
              (insert-IsFiled s.challenges id
                (new_challenge keys origins network store now id address origin) refl h)
      ]
  Step-IsFiled P s s' (verified now later last token login) h =
      elim (verify-cases keys origins network store now later last token login s.challenges
        s.database) [
          | inl same ↦ subst (λ w. IsFiled w.challenges) (sym same) h
          | inr (c, made) ↦
              subst (λ w. IsFiled w.challenges) (sym made)
                (mark-IsFiled s.challenges login.challenge_id h)
        ]
  Step-IsFiled P s s' restarted h = λ id c at. ground arith

  pub Steps-IsFiled :
      (P : Text → Type 0) (s s' : Auth D)
      → Steps P s s'
      → IsFiled s.challenges
      → IsFiled s'.challenges
  Steps-IsFiled P s s' here h = h
  Steps-IsFiled P s s'' (next {s'} before step) h =
      Step-IsFiled P s' s'' step (Steps-IsFiled P s s' before h)

  -- The id of the challenge that `verify` finds.
  pub find_challenge-id :
      (s : Auth D) (id : Text) (c : Challenge)
      → IsFiled s.challenges
      → find_challenge keys origins network store id s ≡ some c
      → c.id ≡ id
  unfolding find_challenge
  find_challenge-id s id c h e = elim (Option-cases (lookup Text-discrete id s.challenges)) [
    | inr (a, there) ↦ let it : a ≡ c = ground arith in subst (λ x. x.id ≡ id) it (h id a there)
    | inl absent ↦ elim (Option-cases s.database) [
      | inl without ↦ ground arith
      | inr (d, has) ↦ elim (Option-cases (store.find_challenge d id)) [
        | inl unknown ↦ ground arith
        | inr (row, stored) ↦
            let it : from_row row ≡ c = ground arith in
            subst (λ x. x.id ≡ id) it (store.find-id d id row stored)
      ]
    ]
  ]

  pub find_challenge-memory :
      (m : Dict Text Challenge) (id : Text) (c : Challenge)
      → find_challenge keys origins network store id (record { challenges = m; database = none })
        ≡ some c
      → lookup Text-discrete id m ≡ some c
  unfolding find_challenge
  find_challenge-memory m id c e = elim (Option-cases (lookup Text-discrete id m)) [
    | inl absent ↦ ground arith
    | inr (a, there) ↦ there ∙ ground arith
  ]
