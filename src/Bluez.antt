-- ===== src/Bluez.antt =====
-- helper/session/bluez: the transport over the system's Bluetooth service.
pub mod Framing
