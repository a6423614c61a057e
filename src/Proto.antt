-- ===== src/Proto.antt =====
-- The proto crate: what the server and the client share.
pub mod KeyCode
pub mod MouseButton
pub mod Message
pub mod MouseMove
pub mod Sdp
pub mod Signalling
mod Tests
