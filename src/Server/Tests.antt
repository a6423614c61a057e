-- ===== src/Server/Tests.antt =====
-- The server's parts on concrete inputs, and their theorems there.
mod Input
mod Session
mod Frames
mod Convert
mod Encoder
mod Pipeline
mod RtcpForward
mod Freed
mod Capture
