-- ===== src/ClientCtap2.antt =====
-- internal/client/ctap2: PIN and credential management behind the public client.
pub mod Platform
pub mod Protocol
pub mod Session
pub mod Pins
pub mod Credentials
pub mod Management
pub mod Authenticator
mod Tests
