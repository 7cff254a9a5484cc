-- ===== src/CheckIn.antt =====
-- `CheckInChallengeService` (apps/api/src/checkin/check-in-challenge.service.ts): the host's
-- one-time code, its check, and what makes it single-use.
pub mod Store
pub mod Service
pub mod Laws
pub mod RoundTrip
pub mod SingleUse
