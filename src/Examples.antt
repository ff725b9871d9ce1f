-- ===== src/Examples.antt =====
-- The theorems at concrete inputs, with `Json.Tree` for the JSON library.
pub mod Server
pub mod Runs
pub mod Protocol
pub mod Messages
pub mod Pools
pub mod Documents
