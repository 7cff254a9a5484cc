-- ===== src/CheckIn/SingleUse.antt =====
-- A check-in code of apps/api/src/checkin/check-in-challenge.service.ts is accepted in time, and
-- once: what holds over the database, and what over the set of used tokens.
use po_vdeposit.Common.{
  ℕ, subst, ◌+◌, ◌≡◌, ◌≢◌, refl, ◌⊎◌, true, false, some, ◌∷◌, ◌===◌, any, Text, Text-discrete, ok,
  err, arith, Option-cases, Bool-cases, is_some, inl, inr, Action, Result,
}
use po_vdeposit.CheckIn.Store.{Payload, Error, Coding, Challenge, Store}
use po_vdeposit.CheckIn.Service.{
  Backend, memory, prisma, two_minutes, issue_row, spend, read_token, consume,
}
use po_vdeposit.CheckIn.Laws.{IsChecked, IsSpent, consume-IsChecked, spend-IsSpent}

module _ (coding : Coding) {D : Type 0} (store : Store D) where
  -- How the transaction of `consume` ends.
  transact-cases :
      (m : Action D Error (Unit {0})) (d : D)
      → ((e : Error) × (store.transaction m d ≡ (err e, d)))
        ⊎ ((d' : D) × (m d ≡ (ok tt, d')) × (store.transaction m d ≡ (ok tt, d')))
  transact-cases m d = go (m d) refl
    where
      go :
          (out : Result Error (Unit {0}) × D)
          → m d ≡ out
          → ((e : Error) × (store.transaction m d ≡ (err e, d)))
            ⊎ ((d' : D) × (m d ≡ (ok tt, d')) × (store.transaction m d ≡ (ok tt, d')))
      go (ok u, d') e = inr (d', e, ground (arith, store.transaction-atomic m d))
      go (err x, d') e = inl (x, ground (arith, store.transaction-atomic m d))

  -- A code that is consumed over the database is signed, of version 1, for this booking and this
  -- renter, and not expired by its own date; and its nonce has a challenge on record for this
  -- booking that was open, had not expired, and is marked as consumed now.
  pub consume-ok :
      (now later tick : ℕ) (token booking_id renter : Text) (d : D) (s' : Backend D) (p : Payload)
      → consume coding store now later tick token booking_id renter (prisma d) ≡ (ok p, s')
      → (d' : D) × (s' ≡ prisma d')
        × IsChecked coding store now token booking_id renter p
        × IsSpent coding store later tick booking_id p d d'
  unfolding consume
  consume-ok now later tick token booking_id renter d s' p e =
      let checked =
        consume-IsChecked coding store now later tick token booking_id renter (prisma d) s' p e in
      elim (transact-cases (spend coding store later tick booking_id p) d) [
        | inl (x, failed) ↦ elim (Option-cases (read_token coding token)) [
          | inl unread ↦ ground arith
          | inr (q, found) ↦ let same : q ≡ p = ground arith in ground arith
        ]
        | inr (d', done, all) ↦ elim (Option-cases (read_token coding token)) [
          | inl unread ↦ ground arith
          | inr (q, found) ↦
              let same : q ≡ p = ground arith in
              (
                d',
                ground arith,
                checked,
                spend-IsSpent coding store later tick booking_id p d d' done,
              )
        ]
      ]

  -- How a code that is accepted is used up: its token is a new one of the used tokens, or its challenge
  -- was open in the database and is marked as consumed.
  abbrev pub IsConsumed : ℕ → ℕ → Text → Text → Payload → Backend D → Backend D → Type 0
  IsConsumed later tick token booking_id p (memory used) s' =
      (any (λ t. t === token) used ≡ false) × (s' ≡ memory (token ∷ used))
  IsConsumed later tick token booking_id p (prisma d) s' =
      (d' : D) × (s' ≡ prisma d') × IsSpent coding store later tick booking_id p d d'

  pub consume-IsConsumed :
      (now later tick : ℕ) (token booking_id renter : Text) (s s' : Backend D) (p : Payload)
      → consume coding store now later tick token booking_id renter s ≡ (ok p, s')
      → IsConsumed later tick token booking_id p s s'
  unfolding consume
  consume-IsConsumed now later tick token booking_id renter (memory used) s' p e =
      elim (Option-cases (read_token coding token)) [
        | inl unread ↦ ground arith
        | inr (q, found) ↦ elim (Bool-cases (any (λ t. t === token) used)) [
          | inl again ↦ ground arith
          | inr fresh ↦ (fresh, ground arith)
        ]
      ]
  consume-IsConsumed now later tick token booking_id renter (prisma d) s' p e =
      let (d', at, checked, spent) = consume-ok now later tick token booking_id renter d s' p e in
      (d', at, spent)

  -- The challenge of a nonce has been consumed.
  abbrev pub Spent : Text → D → Type 0
  Spent nonce_hash d =
      (c : Challenge) × (store.find_challenge d nonce_hash ≡ some c)
      × (is_some c.consumed_at ≡ true)

  -- One request to the service reaches the database.
  pub data Step (d d' : D) : Type 0 where
    issued :
        (now : ℕ) (nonce booking_id renter : Text)
        → d' ≡ (issue_row coding store now nonce booking_id renter d).1
        → Step d d'
    consumed :
        (later tick : ℕ) (booking_id : Text) (p : Payload)
        → d' ≡ (store.transaction (spend coding store later tick booking_id p) d).1
        → Step d d'

  pub data Steps (d : D) : D → Type 0 where
    here : Steps d d
    next : {d' d'' : D} → Steps d d' → Step d' d'' → Steps d d''

  consume_many-Spent :
      (id nonce_hash : Text) (now : ℕ) (d : D)
      → Spent nonce_hash d
      → Spent nonce_hash (store.consume_many id now d).1
  consume_many-Spent id nonce_hash now d (c, found, used) =
      (c, ground (arith, store.consume-find id nonce_hash now d), used)

  spend-Spent :
      (nonce_hash : Text) (later tick : ℕ) (booking_id : Text) (p : Payload) (d d' : D)
      → spend coding store later tick booking_id p d ≡ (ok tt, d')
      → Spent nonce_hash d
      → Spent nonce_hash d'
  unfolding spend
  spend-Spent nonce_hash later tick booking_id p d d' e spent =
      elim (Option-cases (store.find_challenge d (coding.hash_nonce p.nonce))) [
        | inl unknown ↦ ground arith
        | inr (c, found) ↦
            subst (λ w. Spent nonce_hash w) (ground arith)
              (consume_many-Spent c.id nonce_hash tick d spent)
      ]

  Step-Spent : (nonce_hash : Text) (d d' : D) → Step d d' → Spent nonce_hash d → Spent nonce_hash d'
  Step-Spent nonce_hash d d' (issued now nonce booking_id renter e) (c, found, used) =
      let hash = coding.hash_nonce nonce in
      elim (Bool-cases (store.has_booking booking_id renter d)) [
        | inl known ↦
            elim (Option-cases (store.create_challenge booking_id hash (now + two_minutes) d)) [
              | inl rejected ↦ (c, ground arith, used)
              | inr (d1, created) ↦ elim (Text-discrete nonce_hash hash) [
                | yes same ↦
                    let (absent, rest) =
                      store.create-find booking_id hash (now + two_minutes) d d1 created in
                    ground arith
                | no other ↦ (
                  c,
                  ground (
                    arith,
                    store.create-others booking_id hash nonce_hash (now + two_minutes) d d1 created
                        other,
                  ),
                  used,
                )
              ]
            ]
        | inr unknown ↦ (c, ground arith, used)
      ]
  Step-Spent nonce_hash d d' (consumed later tick booking_id p e) spent =
      elim (transact-cases (spend coding store later tick booking_id p) d) [
        | inl (x, failed) ↦ subst (λ w. Spent nonce_hash w) (ground arith) spent
        | inr (d1, done, all) ↦
            subst (λ w. Spent nonce_hash w) (ground arith)
              (spend-Spent nonce_hash later tick booking_id p d d1 done spent)
      ]

  Steps-Spent :
      (nonce_hash : Text) (d d' : D) → Steps d d' → Spent nonce_hash d → Spent nonce_hash d'
  Steps-Spent nonce_hash d d' here h = h
  Steps-Spent nonce_hash d d'' (next {d'} r step) h =
      Step-Spent nonce_hash d' d'' step (Steps-Spent nonce_hash d d' r h)

  -- Once a code has been consumed over the database, no code with the same nonce is consumed again,
  -- by whomever and for whatever booking, and whatever codes were issued or consumed in between.
  pub consume_once :
      (now later tick now' later' tick' : ℕ)
      (token booking_id renter token' booking_id' renter' : Text) (d d' d'' : D) (p p' : Payload)
      (s : Backend D)
      → consume coding store now later tick token booking_id renter (prisma d) ≡ (ok p, prisma d')
      → Steps d' d''
      → coding.hash_nonce p'.nonce ≡ coding.hash_nonce p.nonce
      → consume coding store now' later' tick' token' booking_id' renter' (prisma d'') ≢ (ok p', s)
  consume_once now later tick now' later' tick' token booking_id renter token' booking_id' renter' d
        d' d'' p p' s e r same e' =
      let (d1, at, checked, first) =
        consume-ok now later tick token booking_id renter d (prisma d') p e in
      let (c, found, used) =
        Steps-Spent (coding.hash_nonce p.nonce) d' d'' r
          (record first.challenge { consumed_at = some tick }, ground arith, refl) in
      let (d2, at', checked', second) =
        consume-ok now' later' tick' token' booking_id' renter' d'' s p' e' in
      let still =
        subst (λ h. store.find_challenge d'' h ≡ some second.challenge) same second.before in
      let the_same : c ≡ second.challenge = ground arith in ground (arith, second.open_before)
