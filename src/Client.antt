-- ===== src/Client.antt =====
-- pkg/client: the facade over a transport session.
pub mod Types
pub mod New
pub mod AuthData
pub mod Capabilities
pub mod Pin
pub mod Authenticate
pub mod Register
pub mod Manage
pub mod Surface
