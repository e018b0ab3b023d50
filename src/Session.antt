-- ===== src/Session.antt =====
-- helper/session: the session child.
pub mod Clock
pub mod Presence
pub mod State
pub mod Link
pub mod Serve
pub mod Watch
pub mod AuthQueue
pub mod Keygen
pub mod Enrollment
pub mod Navigate
pub mod Auth
