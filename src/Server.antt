-- ===== src/Server.antt =====
-- The server crate.
pub mod Keymap
pub mod Uinput
pub mod Input
pub mod Config
pub mod Convert
pub mod Encoder
pub mod Shared
pub mod RtcpForward
pub mod Session
pub mod Signalling
pub mod Capture
pub mod Pipeline
mod Tests
