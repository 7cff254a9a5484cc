-- ===== src/Booking.antt =====
-- The booking workflow of the API (apps/api/src/booking/booking-workflow.service.ts): its types,
-- the database that it uses, the service, and what it guarantees.
pub mod Types
pub mod Store
pub mod Backend
pub mod Workflow
pub mod Rows
pub mod Machine
pub mod Insert
pub mod Commits
pub mod Results
pub mod Requests
pub mod Moves
pub mod Service
pub mod Create
pub mod Evidence
