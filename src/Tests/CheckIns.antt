-- ===== src/Tests/CheckIns.antt =====
-- A check-in code of apps/api/src/checkin/check-in-challenge.service.ts from its issue to its use.
use po_vdeposit.Common.{
  ℕ, ◌+◌, ◌≡◌, ◌≢◌, ◌<◌, refl, Bool, true, false, Option, none, some, List, [], ◌∷◌, ◌++◌, Text,
  codes, ok, err, Result, arith,
}
use po_vdeposit.CheckIn.Store.{Payload, Error}
use po_vdeposit.CheckIn.Service
use po_vdeposit.CheckIn.Service.{
  Backend, memory, prisma, Issued, payload_of, token_of, two_minutes, issue, consume,
}
use po_vdeposit.CheckIn.SingleUse.{consume_once, here}
use po_vdeposit.CheckIn.RoundTrip.{issue-consume, replay_memory}
use po_vdeposit.Tests.Codes.{Entries, coding, store}

abbrev b1 : Text
b1 = codes "b1"

abbrev alice : Text
alice = codes "GALICE"

abbrev nonce : Text
nonce = codes "n0nce"

abbrev p : Payload
p = payload_of 1000 nonce b1 alice

abbrev issuing : Result Error Issued × Backend Entries
issuing = issue coding store 1000 nonce b1 alice (prisma (λ h. none))

abbrev made : Issued
made = record { token = token_of coding p; payload = p }

abbrev database : Backend Entries → Entries
database (memory used) = λ h. none
database (prisma d) = d

issued_ok : issuing ≡ (ok made, prisma (database issuing.1))
unfolding issue po_vdeposit.Common.Text-discrete po_vdeposit.Common.ℕ_discrete
issued_ok = refl

issue-consume_example :
    (d'' : Entries) × (consume coding store 2000 2001 2002
        (token_of coding p)
        b1
        alice
        (prisma (database issuing.1))
      ≡ (ok p, prisma d''))
issue-consume_example =
    issue-consume coding store 1000 2000 2001 2002 nonce b1 alice (λ h. none) (database issuing.1)
      made issued_ok (ground arith) (ground arith)

abbrev using : Result Error Payload × Backend Entries
using =
    consume coding store 2000 2001 2002 (token_of coding p) b1 alice (prisma (database issuing.1))

used_ok : using ≡ (ok p, prisma (database using.1))
unfolding consume Service.read_token Service.split Service.spend issue
    po_vdeposit.Common.Text-discrete po_vdeposit.Common.ℕ_discrete
used_ok = refl

consume_once_example :
    consume coding store 2005 2006 2007
      (token_of coding p ++ codes ".")
      b1
      alice
      (prisma (database using.1))
    ≢ (ok p, prisma (database using.1))
consume_once_example =
    consume_once coding store 2000 2001 2002 2005 2006 2007 (token_of coding p) b1 alice
      (token_of coding p ++ codes ".") b1 alice (database issuing.1) (database using.1)
      (database using.1) p p (prisma (database using.1)) used_ok here refl

replay_memory_example :
    (consume coding store 2000 2001 2002 (token_of coding p) b1 alice (memory [])
      ≡ (ok p, memory (token_of coding p ∷ [])))
    × (consume coding store 2000 2001 2002
          (token_of coding p ++ b'.' ∷ [])
          b1
          alice
          (memory (token_of coding p ∷ []))
        ≡ (ok p, memory ((token_of coding p ++ b'.' ∷ []) ∷ token_of coding p ∷ [])))
replay_memory_example =
    replay_memory coding store 1000 2000 2001 2002 nonce b1 alice [] (ground arith) refl refl
