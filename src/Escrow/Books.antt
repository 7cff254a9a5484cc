-- ===== src/Escrow/Books.antt =====
-- The bookings of `VisitDepositEscrow` (contracts/pov_deposit_escrow/src/lib.rs) as a table: what
-- holds of each entry, and the sum of the deposits that the contract has to hold.
use po_vdeposit.Common.{
  ℕ, ◌+◌, ◌≤◌, ◌≡◌, ◌≢◌, refl, none, some, [], ◌∷◌, arith, ◌==◌, if◌then◌else◌, ℕ_discrete,
}
use po_vdeposit.Common.Int.{pos, pos_part}
use po_vdeposit.Common.Dict.{Dict, lookup, insert, lookup-insert_ne}
use po_vdeposit.Escrow.Defs.{Address, Booking, funded, same_state, min_deposit, max_deposit}

abbrev pub Books : Type 0
Books = Dict ℕ Booking

-- What `create_booking` establishes of an entry and no later call changes.
pub record IsEntry (self : Address) (id : ℕ) (b : Booking) : Type 0 where
  pub keyed : b.booking_id ≡ id
  pub parties : b.renter ≢ b.host
  pub outsider : b.renter ≢ self
  pub amount : b.deposit_amount ≡ pos (pos_part b.deposit_amount)
  pub at_least : min_deposit ≤ pos_part b.deposit_amount
  pub at_most : pos_part b.deposit_amount ≤ max_deposit

-- Every entry is in order, and no booking id is listed twice.
abbrev pub AreEntries : Address → Books → Type 0
AreEntries self [] = Unit
AreEntries self ((id, b) ∷ d) =
    IsEntry self id b × (lookup ℕ_discrete id d ≡ none) × AreEntries self d

-- What the contract owes for one booking, and for all.
abbrev pub stake : Booking → ℕ
stake b = if same_state b.state funded then pos_part b.deposit_amount else 0

abbrev pub held : Books → ℕ
held [] = 0
held ((id, b) ∷ d) = stake b + held d

pub lookup-IsEntry :
    (self : Address) (id : ℕ) (b : Booking) (d : Books)
    → AreEntries self d
    → lookup ℕ_discrete id d ≡ some b
    → IsEntry self id b
lookup-IsEntry self id b [] h e = cc
lookup-IsEntry self id b ((i, c) ∷ d) h e = ground (arith, lookup-IsEntry self id b d h.2)

pub insert-AreEntries :
    (self : Address) (id : ℕ) (b : Booking) (d : Books)
    → AreEntries self d
    → IsEntry self id b
    → AreEntries self (insert ℕ_discrete id b d)
insert-AreEntries self id b [] h e = (e, refl, tt)
insert-AreEntries self id b (x ∷ d) h e =
    ground (arith, insert-AreEntries self id b d h.2 e, lookup-insert_ne ℕ_discrete x.0 id b d)

pub held-insert :
    (id : ℕ) (b old : Booking) (d : Books)
    → lookup ℕ_discrete id d ≡ some old
    → held (insert ℕ_discrete id b d) + stake old ≡ held d + stake b
held-insert id b old [] e = cc
held-insert id b old (x ∷ d) e = ground (arith, held-insert id b old d)

pub held-insert_new :
    (id : ℕ) (b : Booking) (d : Books)
    → lookup ℕ_discrete id d ≡ none
    → held (insert ℕ_discrete id b d) ≡ held d + stake b
held-insert_new id b [] e = omega arith
held-insert_new id b (x ∷ d) e = ground (arith, held-insert_new id b d)

pub stake-le-held :
    (id : ℕ) (b : Booking) (d : Books) → lookup ℕ_discrete id d ≡ some b → stake b ≤ held d
stake-le-held id b [] e = cc
stake-le-held id b (x ∷ d) e = ground (arith, stake-le-held id b d)

-- What the contract owes to one renter.
abbrev pub owed : Address → Books → ℕ
owed holder [] = 0
owed holder ((id, b) ∷ d) = (if b.renter == holder then stake b else 0) + owed holder d

-- The part of one booking in it.
abbrev pub share : Address → Booking → ℕ
share holder b = if b.renter == holder then stake b else 0

pub owed-insert :
    (holder id : ℕ) (b old : Booking) (d : Books)
    → lookup ℕ_discrete id d ≡ some old
    → owed holder (insert ℕ_discrete id b d) + share holder old ≡ owed holder d + share holder b
owed-insert holder id b old [] e = cc
owed-insert holder id b old (x ∷ d) e = ground (arith, owed-insert holder id b old d)

pub owed-insert_new :
    (holder id : ℕ) (b : Booking) (d : Books)
    → lookup ℕ_discrete id d ≡ none
    → owed holder (insert ℕ_discrete id b d) ≡ owed holder d + share holder b
owed-insert_new holder id b [] e = omega arith
owed-insert_new holder id b (x ∷ d) e = ground (arith, owed-insert_new holder id b d)
