-- ===== src/CheckIn/RoundTrip.antt =====
-- A check-in code that `issue` of apps/api/src/checkin/check-in-challenge.service.ts makes is one
-- that `consume` takes, and what the set of used tokens lets through.
use po_vdeposit.Common.{
  ℕ, ◌+◌, ◌<◌, ◌≡◌, ◌≢◌, refl, false, none, some, List, [], ◌∷◌, ◌++◌, Text, ok, arith,
  Option-cases, Bool-cases, ◌===◌, any, inl, inr,
}
use po_vdeposit.CheckIn.Store.{Payload, Coding, Challenge, Store}
use po_vdeposit.CheckIn.Service.{
  memory, prisma, two_minutes, payload_of, token_of, Issued, issue, spend, read_token, consume,
}
use po_vdeposit.CheckIn.Laws.{read_token-token_of, read_token-dotted}

append_one-differs : (s : Text) (c : ℕ) → s ≢ s ++ c ∷ []
append_one-differs [] c e = ground arith
append_one-differs (x ∷ s) c e = ground (arith, append_one-differs s c)

module _ (coding : Coding) {D : Type 0} (store : Store D) where
  consume_memory :
      (now now' later tick : ℕ) (nonce token booking_id renter : Text) (used : List Text)
      → read_token coding token ≡ some (payload_of now nonce booking_id renter)
      → now' < now + two_minutes
      → any (λ t. t === token) used ≡ false
      → consume coding store now' later tick token booking_id renter (memory used)
        ≡ (ok (payload_of now nonce booking_id renter), memory (token ∷ used))
  unfolding consume
  consume_memory now now' later tick nonce token booking_id renter used read early fresh =
      ground arith

  spend-ok :
      (later tick : ℕ) (booking_id : Text) (p : Payload) (d : D) (c : Challenge)
      → store.find_challenge d (coding.hash_nonce p.nonce) ≡ some c
      → c.booking_id ≡ booking_id
      → c.consumed_at ≡ none
      → later < c.expires_at
      → spend coding store later tick booking_id p d ≡ (ok tt, (store.consume_many c.id tick d).1)
  unfolding spend
  spend-ok later tick booking_id p d c found same fresh early =
      ground (arith, store.consume-count (coding.hash_nonce p.nonce) tick d c found)

  consume_row :
      (now now' later tick : ℕ) (nonce token booking_id renter : Text) (d d' : D)
      → read_token coding token ≡ some (payload_of now nonce booking_id renter)
      → now' < now + two_minutes
      → spend coding store later tick booking_id (payload_of now nonce booking_id renter) d
        ≡ (ok tt, d')
      → consume coding store now' later tick token booking_id renter (prisma d)
        ≡ (ok (payload_of now nonce booking_id renter), prisma d')
  unfolding consume
  consume_row now now' later tick nonce token booking_id renter d d' read early spent =
      let m = spend coding store later tick booking_id (payload_of now nonce booking_id renter) in
      let done : store.transaction m d ≡ (ok tt, d') =
        ground (arith, store.transaction-atomic m d) in
      ground arith

  issue-issued :
      (now : ℕ) (nonce booking_id renter : Text) (d d' : D) (made : Issued)
      → issue coding store now nonce booking_id renter (prisma d) ≡ (ok made, prisma d')
      → let p = payload_of now nonce booking_id renter in
        (made ≡ record { token = token_of coding p; payload = p })
        × (store.create_challenge booking_id (coding.hash_nonce nonce) (now + two_minutes) d
            ≡ some d')
  unfolding issue
  issue-issued now nonce booking_id renter d d' made e =
      elim (Bool-cases (store.has_booking booking_id renter d)) [
        | inr unknown ↦ ground arith
        | inl known ↦
            elim (Option-cases
              (store.create_challenge booking_id (coding.hash_nonce nonce) (now + two_minutes) d)) [
                | inl rejected ↦ ground arith
                | inr (d1, created) ↦ (ground arith, ground arith)
              ]
      ]

  -- A code that was issued is consumed with its booking and renter within two minutes, on the
  -- database that its issue left.
  pub issue-consume :
      (now now' later tick : ℕ) (nonce booking_id renter : Text) (d d' : D) (made : Issued)
      → issue coding store now nonce booking_id renter (prisma d) ≡ (ok made, prisma d')
      → now' < now + two_minutes
      → later < now + two_minutes
      → (d'' : D) × (consume coding store now' later tick made.token booking_id renter (prisma d')
          ≡ (ok made.payload, prisma d''))
  issue-consume now now' later tick nonce booking_id renter d d' made e early in_time =
      let p = payload_of now nonce booking_id renter in
      let (shape, created) = issue-issued now nonce booking_id renter d d' made e in
      let (absent, (id, stored)) =
        store.create-find booking_id (coding.hash_nonce nonce) (now + two_minutes) d d' created in
      let spent = spend-ok later tick booking_id p d' _ stored refl refl in_time in
      (
        (store.consume_many id tick d').1,
        rw shape (
            consume_row now now' later tick nonce (token_of coding p) booking_id renter d' _
              (read_token-token_of coding p) early spent),
      )

  -- Over the set of used tokens, a code that has been consumed is consumed a second time when a dot
  -- is put behind it.
  pub replay_memory :
      (now now' later tick : ℕ) (nonce booking_id renter : Text) (used : List Text)
      → now' < now + two_minutes
      → any (λ t. t === token_of coding (payload_of now nonce booking_id renter)) used ≡ false
      → any (λ t. t === token_of coding (payload_of now nonce booking_id renter) ++ b'.' ∷ []) used
        ≡ false
      → let p = payload_of now nonce booking_id renter in
        let token = token_of coding p in
        (consume coding store now' later tick token booking_id renter (memory used)
          ≡ (ok p, memory (token ∷ used)))
        × (consume coding store now' later tick
              (token ++ b'.' ∷ [])
              booking_id
              renter
              (memory (token ∷ used))
            ≡ (ok p, memory ((token ++ b'.' ∷ []) ∷ token ∷ used)))
  replay_memory now now' later tick nonce booking_id renter used early fresh fresh' =
      let p = payload_of now nonce booking_id renter in
      let token = token_of coding p in
      (
        consume_memory now now' later tick nonce token booking_id renter used
            (read_token-token_of coding p) early fresh,
        consume_memory now now' later tick nonce (token ++ b'.' ∷ []) booking_id renter
            (token ∷ used) (read_token-dotted coding p) early
            (ground (arith, append_one-differs token b'.', fresh')),
      )
