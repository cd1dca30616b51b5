-- ===== src/Ctap1.antt =====
-- pkg/ctap1: U2F messages.
mod Tests
pub mod Errors
pub mod Apdu
pub mod Version
pub mod Register
pub mod Authenticate
