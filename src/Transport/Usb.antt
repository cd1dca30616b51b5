-- ===== src/Transport/Usb.antt =====
-- pkg/transport/usb: CTAPHID over HID reports.
pub mod Reader
pub mod Commands
pub mod State
pub mod Packets
pub mod Handshake
pub mod Session
