-- ===== src/Mica.antt =====
-- mica/main.c, the key-value server: its set-up, its requests and its polling loop.
pub mod Loop
pub mod Request
pub mod Rounds
pub mod Setup
