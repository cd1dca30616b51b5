-- ===== src/Transport.antt =====
-- pkg/transport: sessions over packets.
pub mod NfcSession
pub mod Usb
pub mod Registry
