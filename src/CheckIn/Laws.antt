-- ===== src/CheckIn/Laws.antt =====
-- What a consumed check-in code of apps/api/src/checkin/check-in-challenge.service.ts proves, and
-- that a code that was issued is accepted in time.
use po_vdeposit.Common.{
  ℕ, ◌<◌, ◌≡◌, refl, true, false, none, some, [], ◌∷◌, ◌++◌, Text, ok, arith, Option-cases,
  not_after, inl, inr,
}
use mathlib.Core.List.{append_assoc}
use po_vdeposit.CheckIn.Store.{Payload, Coding, Challenge, Store, no_dot}
use po_vdeposit.CheckIn.Service.{Backend, split, parts_of, token_of, spend, read_token, consume}

split-no_dot : (s : Text) → no_dot s ≡ true → split s ≡ (s, [])
unfolding split
split-no_dot [] h = refl
split-no_dot (c ∷ s) h = ground (arith, split-no_dot s)

pub split-append :
    (s rest : Text)
    → no_dot s ≡ true
    → split (s ++ b'.' ∷ rest) ≡ (s, (split rest).0 ∷ (split rest).1)
unfolding split
split-append [] rest h = refl
split-append (c ∷ s) rest h = ground (arith, split-append s rest)

module _ (coding : Coding) where
  -- The token of a payload is read back as that payload, also with a dot behind it.
  pub read_token-token_of : (p : Payload) → read_token coding (token_of coding p) ≡ some p
  unfolding read_token
  read_token-token_of p =
      let e = coding.encode p in
      ground (
        arith,
        split-append e (coding.sign e),
        coding.encode-no_dot p,
        coding.sign-no_dot e,
        split-no_dot (coding.sign e),
        coding.encode-nonempty p,
        coding.sign-nonempty e,
        coding.decode-encode p,
      )

  pub read_token-dotted :
      (p : Payload) → read_token coding (token_of coding p ++ b'.' ∷ []) ≡ some p
  unfolding read_token
  read_token-dotted p =
      let e = coding.encode p in
      let regrouped : token_of coding p ++ b'.' ∷ [] ≡ e ++ b'.' ∷ (coding.sign e ++ b'.' ∷ []) =
        append_assoc e (b'.' ∷ coding.sign e) (b'.' ∷ []) in
      rw regrouped (
        ground (
          arith,
          split-append e (coding.sign e ++ b'.' ∷ []),
          coding.encode-no_dot p,
          coding.sign-no_dot e,
          split-append (coding.sign e) [],
          split-no_dot [],
          coding.encode-nonempty p,
          coding.sign-nonempty e,
          coding.decode-encode p,
        ))

  -- What the signed part of a token that is read has to be.
  pub record IsSigned (token : Text) (p : Payload) : Type 0 where
    pub encoded : Text
    pub signature : Text
    pub parts : parts_of (split token) ≡ some (encoded, signature)
    pub signed : coding.sign encoded ≡ signature
    pub decoded : coding.decode encoded ≡ some p

  read_token-IsSigned :
      (token : Text) (p : Payload) → read_token coding token ≡ some p → IsSigned token p
  unfolding read_token
  read_token-IsSigned token p h = elim (Option-cases (parts_of (split token))) [
    | inl none_read ↦ ground arith
    | inr ((e, s), found) ↦ record {
      encoded = e;
      signature = s;
      parts = found;
      signed = ground arith;
      decoded = ground arith;
    }
  ]

  module _ {D : Type 0} (store : Store D) where
    -- What the guards and the database establish.
    pub record IsChecked (now : ℕ) (token booking_id renter : Text) (p : Payload) : Type 0 where
      pub signed : IsSigned token p
      pub version : p.version ≡ 1
      pub booking : p.booking_id ≡ booking_id
      pub holder : p.renter ≡ renter
      pub in_time : not_after p.expires_at (some now) ≡ false

    -- The challenge of the nonce was open, and is consumed now.
    pub record IsSpent (later tick : ℕ) (booking_id : Text) (p : Payload) (d d' : D) : Type 0 where
      pub challenge : Challenge
      pub before : store.find_challenge d (coding.hash_nonce p.nonce) ≡ some challenge
      pub for_booking : challenge.booking_id ≡ booking_id
      pub open_before : challenge.consumed_at ≡ none
      pub in_time : later < challenge.expires_at
      pub after :
          store.find_challenge d' (coding.hash_nonce p.nonce)
          ≡ some (record challenge { consumed_at = some tick })

    pub consume-IsChecked :
        (now later tick : ℕ) (token booking_id renter : Text) (s s' : Backend D) (p : Payload)
        → consume coding store now later tick token booking_id renter s ≡ (ok p, s')
        → IsChecked now token booking_id renter p
    unfolding consume
    consume-IsChecked now later tick token booking_id renter s s' p e =
        elim (Option-cases (read_token coding token)) [
          | inl unread ↦ ground arith
          | inr (q, found) ↦
              let same : q ≡ p = ground arith in
              record {
                signed = read_token-IsSigned token p (ground arith);
                version = ground arith;
                booking = ground arith;
                holder = ground arith;
                in_time = ground arith;
              }
        ]

    pub spend-IsSpent :
        (later tick : ℕ) (booking_id : Text) (p : Payload) (d d' : D)
        → spend coding store later tick booking_id p d ≡ (ok tt, d')
        → IsSpent later tick booking_id p d d'
    unfolding spend
    spend-IsSpent later tick booking_id p d d' e =
        elim (Option-cases (store.find_challenge d (coding.hash_nonce p.nonce))) [
          | inl unknown ↦ ground arith
          | inr (c, found) ↦ record {
            challenge = c;
            before = found;
            for_booking = ground arith;
            open_before = ground arith;
            in_time = ground arith;
            after = ground (arith, store.consume-find c.id (coding.hash_nonce p.nonce) tick d);
          }
        ]
