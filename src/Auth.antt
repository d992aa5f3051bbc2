-- ===== src/Auth.antt =====
-- src/clipforge/auth: accounts, sessions and second factors.
pub mod Types
pub mod Passwords
pub mod Totp
pub mod Store
pub mod Tokens
pub mod Core
pub mod Sessions
pub mod Revoking
pub mod Mfa
pub mod Challenge
pub mod Login
pub mod Accounts
pub mod Credentials
pub mod Deletion
pub mod History
mod Tests
