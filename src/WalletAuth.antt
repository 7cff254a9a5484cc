-- ===== src/WalletAuth.antt =====
-- `WalletAuthService` (apps/api/src/auth/wallet-auth.service.ts): a wallet's owner signs a message
-- with a nonce and gets a session.
pub mod Store
pub mod Service
pub mod Laws
pub mod Session
pub mod Steps
pub mod SingleUse
pub mod Restart
pub mod Endpoints
