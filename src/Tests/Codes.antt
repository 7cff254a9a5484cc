-- ===== src/Tests/Codes.antt =====
-- A coding and a table for apps/api/src/checkin/check-in-challenge.service.ts: the fields in a row,
-- each behind its length and away from the dot, and the challenges as a function of the hash.
use po_vdeposit.Common.{
  ℕ, suc, ◌+◌, ◌-◌, ◌≡◌, ◌≢◌, refl, true, Option, none, some, [], ◌∷◌, ◌++◌, map, Text,
  Text-discrete, ◌===◌, inl, inr, Time, if◌then◌else◌, length, take, drop, arith, Option-cases,
  is_some, ap, subst, ◌∙◌, codes,
}
use mathlib.Core.Option
use po_vdeposit.CheckIn.Store.{Payload, Coding, Challenge, Store, no_dot, consumed_by, atomic}

abbrev framed : Text → Text → Text
framed s rest = length s ∷ s ++ rest

abbrev time_fields : Time → Text
time_fields none = 0 ∷ []
time_fields (some t) = 1 ∷ t ∷ []

abbrev fields : Payload → Text
fields p =
    p.version ∷ framed p.booking_id (framed p.renter (framed p.nonce (time_fields p.expires_at)))

abbrev cut : Text → Text × Text
cut [] = ([], [])
cut (n ∷ s) = (take n s, drop n s)

abbrev time_of : Text → Time
time_of (suc _ ∷ t ∷ []) = some t
time_of _ = none

abbrev payload_from : Text → Option Payload
payload_from [] = none
payload_from (v ∷ s) =
    let (b, s1) = cut s in
    let (r, s2) = cut s1 in
    let (n, s3) = cut s2 in
    some (record { version = v; booking_id = b; renter = r; nonce = n; expires_at = time_of s3 })

abbrev encode : Payload → Text
encode p = map (λ c. c + 47) (fields p)

abbrev decode : Text → Option Payload
decode s = payload_from (map (λ c. c - 47) s)

take-append : (s rest : Text) → take (length s) (s ++ rest) ≡ s
take-append [] rest = refl
take-append (c ∷ s) rest = ap (λ t. c ∷ t) (take-append s rest)

drop-append : (s rest : Text) → drop (length s) (s ++ rest) ≡ rest
drop-append [] rest = refl
drop-append (c ∷ s) rest = drop-append s rest

cut-framed : (s rest : Text) → cut (framed s rest) ≡ (s, rest)
cut-framed s rest = ground (arith, take-append s rest, drop-append s rest)

time_lem : (t : Time) → time_of (time_fields t) ≡ t
time_lem none = refl
time_lem (some t) = refl

back : (s : Text) → map (λ c. c - 47) (map (λ c. c + 47) s) ≡ s
back [] = refl
back (c ∷ s) = ground (arith, back s)

shifted-no_dot : (s : Text) → no_dot (map (λ c. c + 47) s) ≡ true
shifted-no_dot [] = refl
shifted-no_dot (c ∷ s) = ground (arith, shifted-no_dot s)

payload_lem : (p : Payload) → payload_from (fields p) ≡ some p
payload_lem p =
    let rest2 = framed p.nonce (time_fields p.expires_at) in
    rw
      (
        take-append p.booking_id (framed p.renter rest2),
        drop-append p.booking_id (framed p.renter rest2),
        take-append p.renter rest2,
        drop-append p.renter rest2,
        take-append p.nonce (time_fields p.expires_at),
        drop-append p.nonce (time_fields p.expires_at),
        time_lem p.expires_at,
      )
      refl

pub decode-encode : (p : Payload) → decode (encode p) ≡ some p
decode-encode p = ap payload_from (back (fields p)) ∙ payload_lem p

pub encode-no_dot : (p : Payload) → no_dot (encode p) ≡ true
encode-no_dot p = shifted-no_dot (fields p)

pub encode-nonempty : (p : Payload) → encode p ≢ []
encode-nonempty p e = ground (arith, e)

pub nonempty : codes "sig" ≢ []
nonempty e = ground (arith, e)

abbrev pub coding : Coding
coding = record {
  encode = encode;
  decode = decode;
  sign = λ s. codes "sig";
  hash_nonce = λ n. n;
  decode-encode = decode-encode;
  encode-no_dot = encode-no_dot;
  encode-nonempty = encode-nonempty;
  sign-no_dot = λ s. refl;
  sign-nonempty = λ s. nonempty;
}

-- A challenge but for its hash, which is its id as well.
pub record Entry : Type 0 where
  pub booking_id : Text
  pub expires_at : ℕ
  pub consumed_at : Option ℕ

abbrev pub Entries : Type 0
Entries = Text → Option Entry

abbrev challenge : Text → Entry → Challenge
challenge h e = record {
  id = h;
  booking_id = e.booking_id;
  nonce_hash = h;
  expires_at = e.expires_at;
  consumed_at = e.consumed_at;
}

abbrev pub find_in : Entries → Text → Option Challenge
find_in d h = Option.map (challenge h) (d h)

abbrev put : Text → Option Entry → Entries → Entries
put h e d other = if other === h then e else d other

abbrev spend_entry : ℕ → Entry → Entry
spend_entry now e = if is_some e.consumed_at then e else record e { consumed_at = some now }

abbrev open_count : Option Entry → ℕ
open_count none = 0
open_count (some e) = if is_some e.consumed_at then 0 else 1

abbrev created : Text → Text → ℕ → Entries → Option Entries
created booking h until d =
    if is_some (d h)
    then none
    else some
        (put h (some (record { booking_id = booking; expires_at = until; consumed_at = none })) d)

abbrev consumed : Text → ℕ → Entries → ℕ × Entries
consumed h now d = (open_count (d h), put h (Option.map (spend_entry now) (d h)) d)

created-cases :
    (booking h : Text) (until : ℕ) (d d' : Entries)
    → created booking h until d ≡ some d'
    → (d h ≡ none)
      × (d'
          ≡ put h
              (some (record { booking_id = booking; expires_at = until; consumed_at = none }))
              d)
created-cases booking h until d d' e = elim (Option-cases (d h)) [
  | inl free ↦ (free, ground arith)
  | inr (old, there) ↦ ground arith
]

pub created-find :
    (booking h : Text) (until : ℕ) (d d' : Entries)
    → created booking h until d ≡ some d'
    → (find_in d h ≡ none)
      × ((id : Text) × (find_in d' h
            ≡ some (record {
              id = id;
              booking_id = booking;
              nonce_hash = h;
              expires_at = until;
              consumed_at = none;
            })))
created-find booking h until d d' e =
    let (free, at) = created-cases booking h until d d' e in
    (ground arith, (h, rw at (ground arith)))

pub created-others :
    (booking h other : Text) (until : ℕ) (d d' : Entries)
    → created booking h until d ≡ some d'
    → other ≢ h
    → find_in d' other ≡ find_in d other
created-others booking h other until d d' e differ =
    let (free, at) = created-cases booking h until d d' e in rw at (ground arith)

pub consumed-count :
    (h : Text) (now : ℕ) (d : Entries) (c : Challenge)
    → find_in d h ≡ some c
    → (consumed c.id now d).0 ≡ (if is_some c.consumed_at then 0 else 1)
consumed-count h now d c e = elim (Option-cases (d h)) [
  | inl absent ↦ ground arith
  | inr (a, there) ↦
      let it : challenge h a ≡ c = ground arith in
      subst (λ x. (consumed x.id now d).0 ≡ (if is_some x.consumed_at then 0 else 1)) it
        (rw there refl)
]

pub consumed-find :
    (id h : Text) (now : ℕ) (d : Entries)
    → find_in (consumed id now d).1 h ≡ Option.map (consumed_by id now) (find_in d h)
consumed-find id h now d = elim (Option-cases (d h)) [
  | inl absent ↦ elim (Text-discrete h id) [
    | yes same ↦ ground (arith, ap d same)
    | no other ↦ ground arith
  ]
  | inr (a, there) ↦ elim (Text-discrete h id) [
    | yes same ↦ ground (arith, ap d same)
    | no other ↦ ground arith
  ]
]

abbrev pub store : Store Entries
store = record {
  has_booking = λ b r d. true;
  create_challenge = created;
  find_challenge = find_in;
  consume_many = consumed;
  transaction = atomic;
  create-find = created-find;
  create-others = created-others;
  consume-count = consumed-count;
  consume-find = consumed-find;
  transaction-atomic = λ m d. refl;
}
