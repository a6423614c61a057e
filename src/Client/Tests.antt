-- ===== src/Client/Tests.antt =====
-- Tests of the client, and its theorems at concrete inputs.
mod Arithmetic
mod Window
mod Network
mod Decoding
