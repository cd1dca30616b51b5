-- ===== src/Ctap2.antt =====
-- pkg/ctap2: the CTAP2 commands. The CBOR library is a parameter.
pub mod Types
pub mod Cbor
pub mod Cose
pub mod ClientPin
pub mod CredentialManagement
pub mod GetInfo
pub mod MakeCredential
pub mod GetAssertion
