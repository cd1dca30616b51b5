-- ===== src/HidDevice.antt =====
-- pkg/hid: native HID devices.
pub mod Reports
pub mod Descriptor
pub mod Inventory
pub mod Connection
pub mod Resources
