-- ===== src/Wire.antt =====
-- pkg/wire: framing of messages into transport packets.
pub mod Hid
pub mod Ble
pub mod Nfc
