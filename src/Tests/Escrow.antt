-- ===== src/Tests/Escrow.antt =====
-- A token contract whose balances are a function, and runs of the escrow contract
-- (contracts/pov_deposit_escrow/src/lib.rs) on it.
use po_vdeposit.Common.{
  ℕ, subst, ◌||◌, ◌+◌, ◌-◌, ◌≡◌, ◌≢◌, ◌≤◌, ◌<◌, refl, true, false, ◌&&◌, Bool, Option, none, some,
  [], ◌∷◌, leb, ◌==◌, if◌then◌else◌, arith, inl, inr, Bool-cases, ok, err, ◌⊎◌,
}
use po_vdeposit.Common.Int.{ℤ, pos, negsuc}
use po_vdeposit.Escrow.Defs
use po_vdeposit.Escrow.Defs.{
  Token, Ledger, Env, Booking, deployed, find_booking, created, funded, refunded, released,
}
use po_vdeposit.Escrow.Host.{
  initialize, create_booking, fund_booking, cancel_booking, confirm_visit, run, invoke, call, Reach,
  here, next,
}
use po_vdeposit.Escrow.Books.{held}
use po_vdeposit.Escrow.Soundness.{held-le-balance, Reach-IsSound, IsSound, deployed-IsSound}
use po_vdeposit.Escrow.Lifecycle.{Moved, Step-Moved, settled-Reach}
use po_vdeposit.Escrow.Payout.{Fair, invoke-Fair, one_way_out}
use po_vdeposit.Escrow.Log.{LoggedAt, Reach-LoggedAt}

abbrev pub Balances : Type 0
Balances = ℕ → ℕ → ℕ

abbrev moved : ℕ → ℕ → ℕ → ℕ → Balances → Balances
moved asset from to n t a holder =
    if a == asset
    then t a holder - (if holder == from then n else 0) + (if holder == to then n else 0)
    else t a holder

abbrev pay : ℕ → ℕ → ℕ → ℤ → Balances → Option Balances
pay asset from to (pos n) t = if leb n (t asset from) then some (moved asset from to n t) else none
pay asset from to (negsuc n) t = none

pub pay-balance :
    (asset from to n : ℕ) (t t' : Balances)
    → pay asset from to (pos n) t ≡ some t'
    → (holder : ℕ)
    → t' asset holder + (if holder == from then n else 0)
      ≡ t asset holder + (if holder == to then n else 0)
pay-balance asset from to n t t' e holder = elim (Bool-cases (leb n (t asset from))) [
  | inr poor ↦ ground arith
  | inl rich ↦
      let it : moved asset from to n t ≡ t' = ground arith in
      subst
        (λ w.
          w asset holder + (if holder == from then n else 0)
          ≡ t asset holder + (if holder == to then n else 0))
        it (ground arith)
]

abbrev pub tok : Token Balances
tok = record { balance = λ t a holder. t a holder; transfer = pay; transfer-balance = pay-balance }

-- The contract is 7, the asset 1; the renter 2 has a million, the host 3 has nothing.
abbrev pub start : Balances
start a holder = if holder == 2 then 1000000 else 0

abbrev pub at : ℕ → Env
at time = record { self = 7; timestamp = time; signed = λ who. who == 2 || who == 3 || who == 1 }

abbrev pub s1 : Ledger Balances
s1 = invoke tok (at 10) (initialize 1 1) (deployed start)

abbrev pub s2 : Ledger Balances
s2 = invoke tok (at 10) (create_booking 5 2 3 (pos 300000) 100) s1

abbrev pub s3 : Ledger Balances
s3 = invoke tok (at 20) (fund_booking 2 5) s2

abbrev s4 : Ledger Balances
s4 = invoke tok (at 100) (confirm_visit 3 5) s3

abbrev reach1 : Reach tok 7 (deployed start) s1
reach1 = next here (call (at 10) (initialize 1 1) refl refl)

abbrev reach2 : Reach tok 7 (deployed start) s2
reach2 = next reach1 (call (at 10) (create_booking 5 2 3 (pos 300000) 100) refl refl)

abbrev pub reach3 : Reach tok 7 (deployed start) s3
reach3 = next reach2 (call (at 20) (fund_booking 2 5) refl refl)

asset3 : s3.asset ≡ some 1
unfolding invoke Defs.confirm_visit Defs.fund_booking Defs.create_booking Defs.initialize
    po_vdeposit.Common.ℕ_discrete
asset3 = refl

abbrev booking5 : Defs.BookingState → Booking
booking5 state = record {
  booking_id = 5;
  renter = 2;
  host = 3;
  deposit_amount = pos 300000;
  visit_time = 100;
  state = state;
}

found3 : find_booking 5 s3 ≡ some (booking5 funded)
unfolding invoke Defs.confirm_visit Defs.fund_booking Defs.create_booking Defs.initialize
    po_vdeposit.Common.ℕ_discrete
found3 = refl

found2 : find_booking 5 s2 ≡ some (booking5 created)
unfolding invoke Defs.confirm_visit Defs.fund_booking Defs.create_booking Defs.initialize
    po_vdeposit.Common.ℕ_discrete
found2 = refl

paid3 : pay 1 7 2 (pos 300000) s3.token ≡ some (moved 1 7 2 300000 s3.token)
unfolding invoke Defs.confirm_visit Defs.fund_booking Defs.create_booking Defs.initialize
    po_vdeposit.Common.ℕ_discrete
paid3 = refl

held-le-balance_example : held s3.bookings ≤ tok.balance s3.token 1 7
held-le-balance_example = held-le-balance tok 7 start s3 1 reach3 asset3

sound3 : IsSound tok 7 s3
sound3 = Reach-IsSound tok 7 (deployed start) s3 (deployed-IsSound tok 7 start) reach3

Step-Moved_example : Moved 5 (booking5 funded) s4
Step-Moved_example =
    Step-Moved tok 7 s3 s4 5 (booking5 funded) sound3 (call (at 100) (confirm_visit 3 5) refl refl)
      found3

found4 : find_booking 5 s4 ≡ some (booking5 released)
unfolding invoke Defs.confirm_visit Defs.fund_booking Defs.create_booking Defs.initialize
    po_vdeposit.Common.ℕ_discrete
found4 = refl

abbrev s5 : Ledger Balances
s5 = invoke tok (at 101) (cancel_booking 2 5) s4

settled-Reach_example : find_booking 5 s5 ≡ some (booking5 released)
settled-Reach_example =
    settled-Reach tok 7 s4 s5 5 (booking5 released)
      (Reach-IsSound tok 7 s3 s4 sound3 (next here (call (at 100) (confirm_visit 3 5) refl refl)))
      found4 (inr refl) (next here (call (at 101) (cancel_booking 2 5) refl refl))

invoke-Fair_example : Fair tok 7 2 1 s3 s4
invoke-Fair_example =
    invoke-Fair tok (at 100) (confirm_visit 3 5) s3 1 2 sound3 asset3 (λ e. ground (arith, e))

one_way_out_example :
    (50 < 100
      → ((run tok (at 50) (cancel_booking 2 5) s3).0 ≡ ok tt)
        × ((run tok (at 50) (confirm_visit 3 5) s3).0
            ≡ err (Defs.contract Defs.invalid_booking_state)))
    × (100 ≤ 50
        → ((run tok (at 50) (cancel_booking 2 5) s3).0
            ≡ err (Defs.contract Defs.invalid_booking_state))
          × ((run tok (at 50) (confirm_visit 3 5) s3).0 ≡ ok tt))
one_way_out_example =
    one_way_out tok (at 50) s3 5 (booking5 funded) 1 (moved 1 7 2 300000 s3.token) found3 refl
      asset3 refl refl paid3

Reach-LoggedAt_example : LoggedAt 5 s3
Reach-LoggedAt_example = Reach-LoggedAt tok 7 start s3 5 reach3
