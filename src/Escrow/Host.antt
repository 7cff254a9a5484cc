-- ===== src/Escrow/Host.antt =====
-- The host around the contract of contracts/pov_deposit_escrow/src/lib.rs: invocations, and the
-- ledgers that can be reached by them.
use po_vdeposit.Common.{ℕ, ◌≡◌, false, ◌≤◌, Result, ok, err, ◌>>◌, pure}
use po_vdeposit.Common.Int.{ℤ}
use po_vdeposit.Escrow.Defs
use po_vdeposit.Escrow.Defs.{Address, Ledger, Token, Env, Failure, Call}

-- An invocation by its entry point and arguments.
pub data Request : Type 0 where
  initialize : (admin accepted_asset : Address) → Request
  create_booking : (id : ℕ) (renter host : Address) (amount : ℤ) (visit_time : ℕ) → Request
  booking : (id : ℕ) → Request
  fund_booking : (renter : Address) (id : ℕ) → Request
  cancel_booking : (renter : Address) (id : ℕ) → Request
  confirm_visit : (host : Address) (id : ℕ) → Request

-- The host keeps the writes of a call only if it returns `Ok`.
abbrev pub settle : {T : Type 0} → Ledger T → Result Failure (Unit {0}) × Ledger T → Ledger T
settle s (ok _, s') = s'
settle s (err _, _) = s

module _ {T : Type 0} (tok : Token T) where
  unfoldable pub run : Env → Request → Call T (Unit {0})
  run env (initialize admin a) = Defs.initialize tok env admin a
  run env (create_booking id renter host amount visit_time) =
      Defs.create_booking tok env id renter host amount visit_time
  run env (booking id) = Defs.booking tok env id >> pure tt
  run env (fund_booking renter id) = Defs.fund_booking tok env renter id
  run env (cancel_booking renter id) = Defs.cancel_booking tok env renter id
  run env (confirm_visit host id) = Defs.confirm_visit tok env host id

  unfoldable pub invoke : Env → Request → Ledger T → Ledger T
  unfolding run
  invoke env request s = settle s (run env request s)

  -- One step of the ledger: an invocation at any time, which the contract itself never signs, or
  -- transfers of others, which cannot take from the contract's balance.
  pub data Step (self : Address) (s : Ledger T) : Ledger T → Type 0 where
    call :
        (env : Env) (request : Request)
        → env.self ≡ self
        → env.signed self ≡ false
        → Step self s (invoke env request s)
    outside :
        (t : T)
        → ((a : Address) → tok.balance s.token a self ≤ tok.balance t a self)
        → Step self s (record s { token = t })

  -- Any number of steps.
  pub data Reach (self : Address) (s : Ledger T) : Ledger T → Type 0 where
    here : Reach self s s
    next : {s' s'' : Ledger T} → Reach self s s' → Step self s' s'' → Reach self s s''
