-- ===== src/Client.antt =====
-- The client crate.
pub mod Messages
pub mod Keymap
pub mod View
pub mod Blit
pub mod App
pub mod Net
pub mod Decoder
mod Tests
