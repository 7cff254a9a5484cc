-- ===== src/Tests/Logins.antt =====
-- A login of apps/api/src/auth/wallet-auth.service.ts, with a database whose wallets are their own
-- ids and whose rows of `AuthChallenge` are a function of the id.
use po_vdeposit.Common.{
  ℕ, ◌+◌, ◌≡◌, ◌≢◌, refl, Bool, true, false, not, ◌&&◌, Option, none, some, List, [], ◌∷◌, Text,
  Text-discrete, codes, ok, err, Result, arith, ◌===◌, if◌then◌else◌, is_some, Option-cases, inl,
  inr, ap, sym, subst, ◌∙◌,
}
use mathlib.Core.Option
use po_vdeposit.WalletAuth.Store.{Error, Keys, Row, Store, consumed_by, atomic}
use po_vdeposit.WalletAuth.Service
use po_vdeposit.WalletAuth.Service.{
  Auth, Challenge, Issued, Session, Login, new_challenge, issue, find_challenge, verify,
}
use po_vdeposit.WalletAuth.Session.{IsVerified, verify-IsVerified}
use po_vdeposit.WalletAuth.Steps.{issued, here, next}
use po_vdeposit.WalletAuth.SingleUse.{verify_once}
use po_vdeposit.WalletAuth.Restart.{issue-restart}

abbrev Rows : Type 0
Rows = Text → Option Row

abbrev named : Text → Row → Row
named id r = record r { id = id }

abbrev find_in : Rows → Text → Option Row
find_in d id = Option.map (named id) (d id)

abbrev put : Text → Option Row → Rows → Rows
put id r d other = if other === id then r else d other

abbrev spend_row : ℕ → Row → Row
spend_row now r = if is_some r.consumed_at then r else record r { consumed_at = some now }

abbrev open_count : Option Row → ℕ
open_count none = 0
open_count (some r) = if is_some r.consumed_at then 0 else 1

abbrev row_of : Text → Text → Text → Text → ℕ → Row
row_of id wallet from on until = record {
  id = id;
  address = wallet;
  origin = from;
  network = on;
  expires_at = until;
  consumed_at = none;
}

abbrev created : Text → Text → Text → Text → Text → ℕ → Rows → Option Rows
created id wallet hash from on until d =
    if is_some (d id) then none else some (put id (some (row_of id wallet from on until)) d)

abbrev consumed : Text → ℕ → Rows → ℕ × Rows
consumed id now d = (open_count (d id), put id (Option.map (spend_row now) (d id)) d)

created-cases :
    (id wallet hash from on : Text) (until : ℕ) (d d' : Rows)
    → created id wallet hash from on until d ≡ some d'
    → d' ≡ put id (some (row_of id wallet from on until)) d
created-cases id wallet hash from on until d d' e = elim (Option-cases (d id)) [
  | inl free ↦ ground arith
  | inr (old, there) ↦ ground arith
]

created-find :
    (id wallet hash from on address : Text) (until : ℕ) (d d' : Rows)
    → created id wallet hash from on until d ≡ some d'
    → ◌≡◌ {A = Option Text} (some wallet) (some address)
    → find_in d' id ≡ some (row_of id address from on until)
created-find id wallet hash from on address until d d' e same =
    rw (created-cases id wallet hash from on until d d' e) (ground arith)

created-others :
    (id wallet hash from on other : Text) (until : ℕ) (d d' : Rows)
    → created id wallet hash from on until d ≡ some d'
    → other ≢ id
    → find_in d' other ≡ find_in d other
created-others id wallet hash from on other until d d' e differ =
    rw (created-cases id wallet hash from on until d d' e) (ground arith)

consumed-count :
    (id : Text) (now : ℕ) (d : Rows) (c : Row)
    → find_in d id ≡ some c
    → (consumed id now d).0 ≡ (if is_some c.consumed_at then 0 else 1)
consumed-count id now d c e = elim (Option-cases (d id)) [
  | inl absent ↦ ground arith
  | inr (a, there) ↦
      let it : named id a ≡ c = ground arith in
      subst (λ x. (consumed id now d).0 ≡ (if is_some x.consumed_at then 0 else 1)) it
        (rw there refl)
]

consumed-find :
    (id other : Text) (now : ℕ) (d : Rows)
    → find_in (consumed id now d).1 other ≡ Option.map (consumed_by id now) (find_in d other)
consumed-find id other now d = elim (Option-cases (d other)) [
  | inl absent ↦ elim (Text-discrete other id) [
    | yes same ↦ ground (arith, ap d same)
    | no differ ↦ ground arith
  ]
  | inr (a, there) ↦ elim (Text-discrete other id) [
    | yes same ↦ ground (arith, ap d same)
    | no differ ↦ ground arith
  ]
]

consumed-none : (id : Text) (now : ℕ) (d : Rows) → find_in d id ≡ none → (consumed id now d).0 ≡ 0
consumed-none id now d e = elim (Option-cases (d id)) [
  | inl absent ↦ ground arith
  | inr (a, there) ↦ ground arith
]

find_in-id : (d : Rows) (id : Text) (c : Row) → find_in d id ≡ some c → c.id ≡ id
find_in-id d id c e = elim (Option-cases (d id)) [
  | inl absent ↦ ground arith
  | inr (a, there) ↦ ground arith
]

some_inj : {A : Type 0} {a b : A} → some a ≡ some b → a ≡ b
some_inj e = cc

abbrev store : Store Rows
store = record {
  upsert_wallet = λ address network d. some (address, d);
  wallet_address = λ d wallet. some wallet;
  create_challenge = created;
  find_challenge = find_in;
  consume_many = consumed;
  find_wallet = λ address d. some address;
  create_session = λ wallet hash until d. some d;
  transaction = atomic;
  upsert-address = λ address network wallet d d' e.
      (ground arith, λ id. ap (λ x. find_in x.1 id) (sym (some_inj e)));
  create-find = created-find;
  create-others = created-others;
  consume-count = consumed-count;
  consume-none = consumed-none;
  consume-find = consumed-find;
  find-id = find_in-id;
  session-find = λ wallet hash until d d' id e. ap (λ x. find_in x id) (sym (some_inj e));
  transaction-atomic = λ m d. refl;
}

abbrev keys : Keys
keys = record { is_key = λ a. true; verify = λ a m s. s === codes "signed"; hash = λ t. t }

abbrev origin : Text
origin = codes "https://pov.example"

abbrev origins : List Text
origins = origin ∷ []

abbrev n1 : Text
n1 = codes "n1"

abbrev alice : Text
alice = codes "GALICE"

abbrev start : Auth Rows
start = record { challenges = []; database = some (λ id. none) }

abbrev issuing : Result Error Issued × Auth Rows
issuing = issue keys origins (codes "PUBLIC") store 1000 n1 alice origin start

abbrev given : Result Error Issued → Issued
given (ok i) = i
given (err e) = record { id = []; message = []; expires_at = 0; network = [] }

issued_ok : issuing ≡ (ok (given issuing.0), issuing.1)
unfolding issue Service.insert_challenge po_vdeposit.Common.Text-discrete
    po_vdeposit.Common.ℕ_discrete
issued_ok = refl

issue-restart_example :
    (find_challenge keys origins (codes "PUBLIC") store n1 issuing.1
      ≡ some (new_challenge keys origins (codes "PUBLIC") store 1000 n1 alice origin))
    × (find_challenge keys origins (codes "PUBLIC") store n1 (record issuing.1 { challenges = [] })
        ≡ some (new_challenge keys origins (codes "PUBLIC") store 1000 n1 alice origin))
issue-restart_example =
    issue-restart keys origins (codes "PUBLIC") store 1000 n1 alice origin [] (λ id. none) issuing.1
      (given issuing.0) issued_ok

abbrev login : Login
login = record { challenge_id = n1; address = alice; origin = origin; signature = codes "signed" }

abbrev entering : Result Error Session × Auth Rows
entering = verify keys origins (codes "PUBLIC") store 2000 2001 2002 (codes "t1") login issuing.1

abbrev session : Session
session = record {
  token = codes "t1";
  expires_at = po_vdeposit.Common.Iso.to_iso_string (2001 + Service.fifteen_minutes);
}

entered_ok : entering ≡ (ok session, entering.1)
unfolding verify Service.find_challenge Service.open_session issue Service.insert_challenge
    po_vdeposit.Common.Text-discrete po_vdeposit.Common.ℕ_discrete
entered_ok = refl

verify-IsVerified_example :
    IsVerified keys origins (codes "PUBLIC") store 2000 2001 (codes "t1") login issuing.1 session
verify-IsVerified_example =
    verify-IsVerified keys origins (codes "PUBLIC") store 2000 2001 2002 (codes "t1") login
      issuing.1 entering.1 session entered_ok

verify_once_example :
    verify keys origins (codes "PUBLIC") store 3000 3001 3002 (codes "t2") login entering.1
    ≢ (ok session, entering.1)
verify_once_example =
    verify_once keys origins (codes "PUBLIC") store 2000 2001 2002 3000 3001 3002 (codes "t1")
      (codes "t2") login login (some (λ id. none)) issuing.1 entering.1 entering.1 entering.1
      session session (next here (issued 1000 n1 alice origin tt)) entered_ok here refl
