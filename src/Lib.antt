-- ===== src/Lib.antt =====
-- The proof-of-visit deposit: a renter locks a deposit in an escrow contract for a viewing, and gets
-- it back when the host confirms the visit or when the renter cancels before it. These modules model
-- the contract and the API beside it, and prove what makes them correct.
--
-- The parts, and where they are:
--   Escrow      contracts/pov_deposit_escrow/src/lib.rs: the entry points (Defs), the host that keeps
--               the writes of a successful call and the reachable ledgers (Host), the amounts that the
--               contract owes (Books), every call as one of seven effects (Effects), solvency
--               (Soundness), the state machine (Lifecycle), who is paid (Payout), the events (Log).
--   Booking     apps/api/src/booking/booking-workflow.service.ts: Types and Store (the rows and the
--               queries of Prisma as an interface with laws), Backend (the Map or the database) and
--               Workflow (the operations); Rows, Machine, Insert, Commits, Results and Moves prove
--               what each request does to a row, Requests and Service join both backends in one state machine.
--   Verifier    apps/api/src/stellar/contract-transaction-verifier.ts: verifyEvent and its callers,
--               by which the API learns of the contract's events.
--   CheckIn     apps/api/src/checkin/check-in-challenge.service.ts: issue and consume of the code by
--               which a renter proves to be present.
--   WalletAuth  apps/api/src/auth/wallet-auth.service.ts: issue and verify of a signed login
--               (Service); apps/api/src/auth/auth.controller.ts: the checks before (Endpoints).
--   Slots       apps/api/src/property/viewing-slot.service.ts: create, reserve and confirm.
--   Controller  apps/api/src/booking/booking.controller.ts: the endpoints, which put the workflow, the
--               verifier and the check-in codes together; a booking in an answer is the one before
--               serialize.
--   Listing     apps/api/src/property/property.service.ts and property.controller.ts: the list of
--               properties and one of them.
--   Config      apps/api/src/config/stellar.config.ts and secrets.ts: the settings; Answers:
--               apps/api/src/app.controller.ts and the allowed origins of app.module.ts.
--   Web         the browser: apps/web/lib/booking.ts and network.ts (the actions that are offered),
--               apps/web/lib/contract.ts and stellar-network.ts (Invoke: the calls of the contract),
--               the requests to the API and what becomes of each answer (Requests),
--               apps/web/components/booking-actions.tsx (Actions), booking-form.tsx (Form: the amount
--               in Deposit, the mutation in Steps), apps/web/lib/wallet-auth.ts (Signature) and
--               apps/web/components/wallet-dialog.tsx (Wallet), and the lists (Listings: property-detail.tsx,
--               property-list.tsx, recent-activity.tsx).
--   System      the contract and the API together (System), requests that overlap (Flights), what the
--               log of the contract says (Growth, Evidence), and that the API agrees with it
--               (Backing, Requests, Consistency, Agreement).
--   Common      numbers, texts, results, dictionaries and the calls that change a state.
--   Tests       concrete instances of the parameters, and the theorems run on them.
--
-- How the program is modelled. A method is an action: a function from the state to a result or an
-- error, and the state that is left, so what was written before a throw stays written; a transaction
-- of the database and the contract's host undo it. A text is the list of its UTF-16 units, a date is
-- its time value in milliseconds, with none for an invalid date. Readings of the clock, random ids,
-- nonces and session tokens are arguments. The token contract, the RPC server, Prisma's queries, the
-- wallet library, JSON in base64url, HMAC and SHA-256 are parameters with named laws, and Tests has
-- an instance of each with laws. Two calls of one process do not overlap inside a method, except that
-- Booking.Commits lets a request act on a stale snapshot of its booking; in
-- System.Flights the requests that stand on an event of the contract overlap, with others and with
-- calls of the contract.
--
-- Bounds and fuel: amounts are the integers of the contract's i128 between its own bounds, and no
-- sum of them is formed by the code. The decimal digits of n take at most n + 1 divisions, which is
-- the fuel; the bits above 53 of the form's product are at most 24, the fuel of their count; the
-- browser's confirmation loop recurs on its 30 attempts. The on-chain id is read from 16 hexadecimal digits, so it fits the contract's u64.
--
-- The browser's partners (API, contract, wallet extensions) answer as they like: an answer may depend
-- on all calls before it, and what is recorded of a run is the list of its calls.
--
-- Not modelled: how long entries of the contract's storage live (extend_ttl); the generated bindings
-- in packages/stellar; the scripts that fill the database; the server's set-up and the pages, whose
-- work is rendering; the text of URLs, of which the calls here keep the parts.
pub mod Common
pub mod Escrow
pub mod Booking
pub mod Verifier
pub mod CheckIn
pub mod Slots
pub mod WalletAuth
pub mod Controller
pub mod Listing
pub mod Config
pub mod Web
pub mod System
pub mod Tests
