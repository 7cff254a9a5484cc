-- ===== src/Escrow/Effects/Cases.antt =====
-- Every invocation of `VisitDepositEscrow` (contracts/pov_deposit_escrow/src/lib.rs) has one of the
-- seven outcomes.
use po_vdeposit.Common.{
  ℕ, Bool, ◌&&◌, not, arith, leb, ltb, ◌==◌, Bool-cases, Option-cases, inl, inr,
}
use po_vdeposit.Common.Int.{ℤ, pos, negsuc}
use po_vdeposit.Escrow.Defs
use po_vdeposit.Escrow.Defs.{
  Address, Ledger, Token, Env, find_booking, same_state, min_deposit, max_deposit,
}
use po_vdeposit.Escrow.Host.{
  Request, initialize, create_booking, booking, fund_booking, cancel_booking, confirm_visit, invoke,
}
use po_vdeposit.Escrow.Effects.{
  Effect, kept, initialized, created, funded, withdrawn, cancelled, confirmed,
}

module _ {T : Type 0} (tok : Token T) (env : Env) (s : Ledger T) where
  initialize-Effect : (admin a : Address) → Effect tok env s (invoke tok env (initialize admin a) s)
  unfolding invoke Defs.initialize
  initialize-Effect admin a = elim (Option-cases s.asset) [
    | inl fresh ↦ elim (Bool-cases (env.signed admin)) [
      | inl p ↦ initialized a fresh (ground arith)
      | inr p ↦ kept (ground arith)
    ]
    | inr (b, set) ↦ kept (ground arith)
  ]

  -- The test of the arguments that `create_booking` makes, with its signature.
  abbrev creatable : Address → Address → ℕ → ℕ → Bool
  creatable renter host n visit_time =
      not (renter == host)
      && leb min_deposit n
      && leb n max_deposit
      && ltb env.timestamp visit_time
      && env.signed renter

  create_booking-Effect :
      (id : ℕ) (renter host : Address) (amount : ℤ) (visit_time : ℕ)
      → Effect tok env s (invoke tok env (create_booking id renter host amount visit_time) s)
  unfolding invoke Defs.create_booking
  create_booking-Effect id renter host (negsuc n) visit_time = kept (ground arith)
  create_booking-Effect id renter host (pos n) visit_time = elim (Option-cases s.asset) [
    | inl unset ↦ kept (ground arith)
    | inr (a, set) ↦ elim (Option-cases (find_booking id s)) [
      | inr (b, found) ↦ kept (ground arith)
      | inl free ↦ elim (Bool-cases (creatable renter host n visit_time)) [
        | inr p ↦ kept (ground arith)
        | inl p ↦
            created a id renter host n visit_time set free (ground arith) (ground arith)
              (ground arith) (ground arith) (ground arith) (ground arith)
      ]
    ]
  ]

  fund_booking-Effect :
      (renter : Address) (id : ℕ) → Effect tok env s (invoke tok env (fund_booking renter id) s)
  unfolding invoke Defs.fund_booking
  fund_booking-Effect renter id = elim (Option-cases (find_booking id s)) [
    | inl missing ↦ kept (ground arith)
    | inr (b, found) ↦ elim (Option-cases s.asset) [
      | inl unset ↦ kept (ground arith)
      | inr (a, set) ↦
          elim (Option-cases (tok.transfer a renter env.self b.deposit_amount s.token)) [
            | inl refused ↦ kept (ground arith)
            | inr (t, paid) ↦
                elim (Bool-cases
                  (b.renter == renter && same_state b.state Defs.created && env.signed renter)) [
                    | inr p ↦ kept (ground arith)
                    | inl p ↦
                        funded a id b t set found (ground arith) (ground arith) (ground arith)
                          (ground arith)
                  ]
          ]
    ]
  ]

  cancel_booking-Effect :
      (renter : Address) (id : ℕ) → Effect tok env s (invoke tok env (cancel_booking renter id) s)
  unfolding invoke Defs.cancel_booking
  cancel_booking-Effect renter id = elim (Option-cases (find_booking id s)) [
    | inl missing ↦ kept (ground arith)
    | inr (b, found) ↦
        elim (Bool-cases
          (b.renter == renter && ltb env.timestamp b.visit_time && env.signed renter)) [
            | inr p ↦ kept (ground arith)
            | inl p ↦ elim (Bool-cases (same_state b.state Defs.created)) [
              | inl new ↦
                  withdrawn id b found (ground arith) (ground arith) (ground arith) (ground arith)
              | inr old ↦ elim (Option-cases s.asset) [
                | inl unset ↦ kept (ground arith)
                | inr (a, set) ↦
                    elim (Option-cases (tok.transfer a env.self renter b.deposit_amount s.token)) [
                      | inl refused ↦ kept (ground arith)
                      | inr (t, paid) ↦ elim (Bool-cases (same_state b.state Defs.funded)) [
                        | inr q ↦ kept (ground arith)
                        | inl q ↦
                            cancelled a id b t set found (ground arith) (ground arith)
                              (ground arith) (ground arith) (ground arith)
                      ]
                    ]
              ]
            ]
          ]
  ]

  confirm_visit-Effect :
      (host : Address) (id : ℕ) → Effect tok env s (invoke tok env (confirm_visit host id) s)
  unfolding invoke Defs.confirm_visit
  confirm_visit-Effect host id = elim (Option-cases (find_booking id s)) [
    | inl missing ↦ kept (ground arith)
    | inr (b, found) ↦ elim (Option-cases s.asset) [
      | inl unset ↦ kept (ground arith)
      | inr (a, set) ↦
          elim (Option-cases (tok.transfer a env.self b.renter b.deposit_amount s.token)) [
            | inl refused ↦ kept (ground arith)
            | inr (t, paid) ↦
                elim (Bool-cases (
                  b.host == host
                  && same_state b.state Defs.funded
                  && leb b.visit_time env.timestamp
                  && env.signed host)) [
                    | inr p ↦ kept (ground arith)
                    | inl p ↦
                        confirmed a id b t set found (ground arith) (ground arith) (ground arith)
                          paid (ground arith)
                  ]
          ]
    ]
  ]

  booking-Effect : (id : ℕ) → Effect tok env s (invoke tok env (booking id) s)
  unfolding invoke Defs.booking
  booking-Effect id = kept (ground arith)

  -- Whatever is called, the ledger changes in one of the ways that `Effect` lists.
  pub invoke-Effect : (request : Request) → Effect tok env s (invoke tok env request s)
  invoke-Effect (initialize admin a) = initialize-Effect admin a
  invoke-Effect (create_booking id renter host amount visit_time) =
      create_booking-Effect id renter host amount visit_time
  invoke-Effect (booking id) = booking-Effect id
  invoke-Effect (fund_booking renter id) = fund_booking-Effect renter id
  invoke-Effect (cancel_booking renter id) = cancel_booking-Effect renter id
  invoke-Effect (confirm_visit host id) = confirm_visit-Effect host id
