-- ===== src/Escrow.antt =====
-- contracts/pov_deposit_escrow/src/lib.rs: the contract `VisitDepositEscrow`. An entry point is an
-- action on the ledger; `invoke` is the host, which keeps the writes of a call that returns `Ok`
-- and drops those of a call that returns `Err` or traps.
pub mod Defs
pub mod Host
pub mod Books
pub mod Effects
pub mod Soundness
pub mod Lifecycle
pub mod Payout
pub mod Log
